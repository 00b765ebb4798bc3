-- ===== src/Sched/Create.antt =====
-- `task_create` of src/sched/sched.c: a new task in the circle.
use arc_monark.Base.{
  ℕ, ◌-◌, ◌^◌, bit_and, ◌≡◌, refl, sym, ◌∙◌, ◌≢◌, inl, inr, some, List, [], ◌∷◌, ==_refl, ==_ne,
}
use arc_monark.Pmm.{add64}
use arc_monark.Sched.{
  task_ready, Task, Allocator, Sched, ◌>>=◌, task, push_words, sizeof_task, kstack_size, update,
  task_create,
}
use arc_monark.Sched.Circle.{Apart}
use arc_monark.Sched.Queue.{Queue, Waiting-frame}
use arc_monark.Sched.Insert.{joined}
use arc_monark.Sched.Add.{list_add-Queue}

-- the address that `kmalloc` gives a task, and the one of its stack
abbrev pub made_at : (A : Allocator) → Sched A.State → ℕ
made_at A s = (A.kmalloc sizeof_task s.heap).0

abbrev pub stack_at : (A : Allocator) → Sched A.State → ℕ
stack_at A s = (A.kmalloc kstack_size (A.kmalloc sizeof_task s.heap).1).0

-- the stack pointer and the words of the new stack
abbrev pub frame : ℕ → ℕ → ℕ → ℕ → (ℕ → ℕ) → ℕ × (ℕ → ℕ)
frame task_trampoline entry arg stack words =
    push_words (task_trampoline ∷ 0 ∷ entry ∷ arg ∷ 0 ∷ 0 ∷ 0 ∷ [])
      (bit_and (add64 stack kstack_size) (2 ^ 64 - 16)) words

-- `task_create`, with room for the task and for its stack
module _ (A : Allocator) (task_trampoline : ℕ) (old : Task) (entry arg : ℕ) (s : Sched A.State)
    (c : ℕ) (xs : List ℕ) (q : Queue s c xs) where
  abbrev t : ℕ
  t = made_at A s

  abbrev pushed : ℕ × (ℕ → ℕ)
  pushed = frame task_trampoline entry arg (stack_at A s) s.words

  abbrev new : Task
  new = record old {
    rsp = pushed.0;
    stack_base = stack_at A s;
    state = task_ready;
    id = s.next_tid;
  }

  abbrev prepared : Sched A.State
  prepared = record s {
    tasks = update s.tasks t (some new);
    words = pushed.1;
    next_tid = add64 s.next_tid 1;
    heap = (A.kmalloc kstack_size (A.kmalloc sizeof_task s.heap).1).1;
  }

  prepared_other : (x : ℕ) → x ≢ t → task prepared x ≡ task s x
  unfolding task
  prepared_other x ne = rw (==_ne x t ne) refl

  prepared-Queue : Apart t (c ∷ xs) → t ≢ s.zombie → Queue prepared c xs
  prepared-Queue out kept = record {
    current = q.current;
    self = q.self;
    at_current = prepared_other c out.0 ∙ q.at_current;
    after_current = q.after_current;
    running = q.running;
    waiting =
        Waiting-frame s prepared xs t t c (λ x ne ne'. prepared_other x ne) out.1 out.1 q.waiting;
    apart = q.apart;
    distinct = q.distinct;
    head_in = q.head_in;
    ended = elim q.ended [
      | inl e ↦ inl e
      | inr (z, at_z, clear) ↦ inr (z, prepared_other s.zombie (λ e. kept (sym e)) ∙ at_z, clear)
    ];
  }

  at_t : t ≢ 0 → task prepared t ≡ some new
  unfolding task
  at_t ne = rw (==_ne t 0 ne, ==_refl t) refl

  -- Where `kmalloc` gives room for the task at an address that is none of the circle's and not
  -- that of a task that waits to be reaped, `task_create` always returns it: the new task is ready
  -- and stands behind the head of the circle, whose other tasks keep their order, and the current
  -- one still runs; the new one has its stack pointer and the next number.
  pub task_create-Queue :
      made_at A s ≢ 0
      → Apart (made_at A s) (c ∷ xs)
      → made_at A s ≢ s.zombie
      → (s' : Sched A.State) × (task_create A task_trampoline old entry arg s
          ≡ some (made_at A s, s'))
        × Queue s' c (joined s.head (made_at A s) c xs)
        × (s'.words ≡ (frame task_trampoline entry arg (stack_at A s) s.words).1)
        × (s'.next_tid ≡ add64 s.next_tid 1)
        × ((u : Task) × (task s' (made_at A s) ≡ some u)
            × (u.rsp ≡ (frame task_trampoline entry arg (stack_at A s) s.words).0)
            × (u.id ≡ s.next_tid))
  unfolding task_create
  task_create-Queue ne out kept =
      let (s', runs, q', heap, words, tid, made) =
        list_add-Queue prepared c t xs new (prepared-Queue out kept) (at_t ne) refl out kept in
      (s', rw (==_ne t 0 ne) (rw (runs, ◌>>=◌) refl), q', words, tid, made)
