-- ===== src/Sched/History.antt =====
-- The scheduler of src/sched/sched.c from `sched_init` on, under any sequence of its calls.
use arc_monark.Base.{
  ℕ, suc, ◌≤◌, ◌≡◌, refl, sym, ap, subst, ◌∙◌, ◌≢◌, inl, inr, false, Option, none, some, List, [],
  ◌∷◌, arith, ◌==◌, ==_refl, Bool-cases, length,
}
use arc_monark.Pmm.{add64}
use arc_monark.Sched.{
  put, update, task_running, Task, Allocator, Sched, task, sizeof_task, sched_init, task_create,
  schedule, task_exit,
}
use arc_monark.Sched.Circle.{Apart}
use arc_monark.Sched.Saved.{saved-Queue}
use arc_monark.Sched.Queue.{Waiting-frame, Queue}
use arc_monark.Sched.Insert.{joined}
use arc_monark.Sched.Fair.{turn, schedule-Turned}
use arc_monark.Sched.Create.{made_at, task_create-Queue}
use arc_monark.Sched.Exit.{task_exit-Queue}

some_differs : {X : Type 0} (x : X) → some x ≢ none
some_differs x e = ground (arith, e)

-- A run has one result.
abbrev value : {X : Type 0} → X → Option X → X
value x none = x
value x (some y) = y

module _ (A : Allocator) (task_trampoline : ℕ) where
  -- The states that the scheduler's calls lead to, with the current task and those that wait
  -- behind it. `kmalloc` gives a new task an address that is not in use, the task of the head
  -- does not end, and a walk along the list has a round for each task.
  pub data Reach : Sched A.State → ℕ → List ℕ → Type 0 where
    started :
        (old : Task) (s s' : Sched A.State)
        → s.zombie ≡ 0
        → sched_init A old s ≡ some s'
        → Reach s' (made_at A s) []
    created :
        {s s' : Sched A.State} {c p : ℕ} {xs : List ℕ} (old : Task) (entry arg : ℕ)
        → Reach s c xs
        → made_at A s ≢ 0
        → Apart (made_at A s) (c ∷ xs)
        → made_at A s ≢ s.zombie
        → task_create A task_trampoline old entry arg s ≡ some (p, s')
        → Reach s' c (joined s.head (made_at A s) c xs)
    scheduled :
        {s s' : Sched A.State} {c : ℕ} {xs : List ℕ} {switch : Option (ℕ × ℕ)} (k : ℕ)
        → Reach s c xs
        → schedule A (suc k) s ≡ some (switch, s')
        → Reach s' (turn (c, xs)).0 (turn (c, xs)).1
    -- `switch_context` writes the stack pointer of the task that it leaves,
    saved :
        {s : Sched A.State} {c : ℕ} {xs : List ℕ} (p rsp : ℕ) (t : Task)
        → Reach s c xs
        → task s p ≡ some t
        → Reach (put p (record t { rsp = rsp }) s) c xs
    -- and the tasks write to their stacks.
    wrote :
        {s : Sched A.State} {c : ℕ} {xs : List ℕ} (words : ℕ → ℕ)
        → Reach s c xs
        → Reach (record s { words = words }) c xs
    ended :
        {s s' : Sched A.State} {c y : ℕ} {ys : List ℕ} {switch : Option (ℕ × ℕ)} (k : ℕ)
        → Reach s c (y ∷ ys)
        → c ≢ s.head
        → length ys ≤ k
        → task_exit A (suc k) s ≡ some (switch, s')
        → Reach s' y ys

  same_result :
      {R : Type 0} (x y : R × Sched A.State) (r : Option (R × Sched A.State))
      → r ≡ some x
      → r ≡ some y
      → x.1 ≡ y.1
  same_result x y r e e' = ap (λ o. (value x o).1) (sym e ∙ e')

  -- the boot task alone
  abbrev initial : Task → Sched A.State → Sched A.State
  initial old s = record s {
    tasks = update s.tasks (made_at A s) (
        some (record old {
          id = s.next_tid;
          state = task_running;
          stack_base = 0;
          next = made_at A s;
        }));
    next_tid = add64 s.next_tid 1;
    head = made_at A s;
    current_task = made_at A s;
    heap = (A.kmalloc sizeof_task s.heap).1;
  }

  initial-Queue :
      (old : Task) (s : Sched A.State)
      → s.zombie ≡ 0
      → (made_at A s == 0) ≡ false
      → Queue (initial old s) (made_at A s) []
  unfolding task
  initial-Queue old s clean given = record {
    current = refl;
    self = record old { id = s.next_tid; state = task_running; stack_base = 0; next = made_at A s };
    at_current = rw (given, ==_refl (made_at A s)) refl;
    after_current = refl;
    running = refl;
    waiting = tt;
    apart = tt;
    distinct = tt;
    head_in = inl refl;
    ended = inl clean;
  }

  pub sched_init-Queue :
      (old : Task) (s s' : Sched A.State)
      → s.zombie ≡ 0
      → sched_init A old s ≡ some s'
      → Queue s' (made_at A s) []
  unfolding sched_init
  sched_init-Queue old s s' clean e = elim (Bool-cases (made_at A s == 0)) [
    | inl none_left ↦
        let stops : sched_init A old s ≡ none = rw none_left refl in
        absurd (some_differs s' (sym e ∙ stops))
    | inr given ↦
        let runs : sched_init A old s ≡ some (initial old s) = rw given refl in
        subst (λ t. Queue t (made_at A s) []) (ap (value s') (sym runs ∙ e))
          (initial-Queue old s clean given)
  ]

  wrote-Queue :
      (s : Sched A.State) (c : ℕ) (xs : List ℕ) (words : ℕ → ℕ)
      → Queue s c xs
      → Queue (record s { words = words }) c xs
  unfolding task
  wrote-Queue s c xs words q = record {
    current = q.current;
    self = q.self;
    at_current = q.at_current;
    after_current = q.after_current;
    running = q.running;
    waiting =
        Waiting-frame s (record s { words = words }) xs c c c (λ x ne ne'. refl) q.apart q.apart
          q.waiting;
    apart = q.apart;
    distinct = q.distinct;
    head_in = q.head_in;
    ended = q.ended;
  }

  -- From a call of `sched_init` on with no task to be reaped, where `kmalloc` gives each new task an
  -- address that is not NULL, nor that of a task of the circle or of the one to be reaped, where the
  -- boot task never ends, and where the walks of `task_exit` have a round for each of the other tasks
  -- and that of `schedule` has at least one: after any calls of `task_create`, `schedule` and
  -- `task_exit` that return, and any writes to the stacks and the saved stack pointers, the state is
  -- that of the queue that these describe: one task runs, the others of the circle are ready, linked
  -- in the order of their turns, and a task that has ended and is not reaped yet is none of them.
  pub Reach-Queue : {s : Sched A.State} {c : ℕ} {xs : List ℕ} → Reach s c xs → Queue s c xs
  Reach-Queue (started old s s' clean e) = sched_init-Queue old s s' clean e
  Reach-Queue (created {s} {s'} {c} {p} {xs} old entry arg r ne out kept e) =
      let (s2, runs, q, words, tid, made) =
        task_create-Queue A task_trampoline old entry arg s c xs (Reach-Queue r) ne out kept in
      subst (λ t. Queue t c (joined s.head (made_at A s) c xs))
        (same_result (made_at A s, s2) (p, s') (task_create A task_trampoline old entry arg s) runs
          e)
        q
  Reach-Queue (scheduled {s} {s'} {c} {xs} {switch} k r e) =
      let t = schedule-Turned A s k c xs (Reach-Queue r) in
      subst (λ t. Queue t (turn (c, xs)).0 (turn (c, xs)).1)
        (same_result (t.switch, t.after) (switch, s') (schedule A (suc k) s) t.runs e) t.queue
  Reach-Queue (saved {s} {c} {xs} p rsp t r e) = saved-Queue s p rsp t e c xs (Reach-Queue r)
  Reach-Queue (wrote {s} {c} {xs} words r) = wrote-Queue s c xs words (Reach-Queue r)
  Reach-Queue (ended {s} {s'} {c} {y} {ys} {switch} k r far enough e) =
      let q = Reach-Queue r in
      let q1 : Queue s s.current_task (y ∷ ys) =
        subst (λ a. Queue s a (y ∷ ys)) (sym q.current) q in
      let (n, s2, at_y, runs, q', dead, zombie, heap) =
        task_exit-Queue A s k y ys q1 enough (λ e'. far (sym q.current ∙ e')) in
      subst (λ t. Queue t y ys)
        (same_result (some (s.current_task, n.rsp), s2) (switch, s') (task_exit A (suc k) s) runs e)
        q'
