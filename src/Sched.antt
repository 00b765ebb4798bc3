-- ===== src/Sched.antt =====
-- src/sched/sched.c and include/sched.h: the tasks, a list in a circle, and the switch from one
-- to the next. Its definitions are here. `Sched.Circle` and `Sched.Next` are about the list,
-- `Sched.Queue` about the circle as a queue, `Sched.Turn` and `Sched.Fair` about `schedule`,
-- `Sched.Exit` about `task_exit`, `Sched.Insert`, `Sched.Add` and `Sched.Create` about
-- `task_create`, `Sched.Saved` and `Sched.History` about any sequence of calls, and `Sched.Switch`
-- and `Sched.Start` about src/cpu/switch.asm.
pub mod Circle
pub mod Next
pub mod Queue
pub mod Turn
pub mod Fair
pub mod Exit
pub mod Insert
pub mod Add
pub mod Create
pub mod Saved
pub mod History
pub mod Switch
pub mod Start
mod Examples
mod Tests
use arc_monark.Base.{
  ℕ, zero, suc, ◌+◌, ◌-◌, ◌%◌, ◌^◌, bit_and, Bool, true, false, not, ◌&&◌, ◌||◌, Option, none, some,
  List, [], ◌∷◌, ◌==◌, if◌then◌else◌,
}
use arc_monark.Base.Irq
use arc_monark.Base.Irq.{Flags}
use arc_monark.Pmm.{add64, sub64}

pub data TaskState : Type 0 where
  task_ready task_running task_dead : TaskState

-- `task_t`, and its size
pub record Task : Type 0 where
  pub rsp : ℕ
  pub stack_base : ℕ
  pub state : TaskState
  pub id : ℕ
  pub next : ℕ

abbrev pub sizeof_task : ℕ
sizeof_task = 40

abbrev pub kstack_size : ℕ
kstack_size = 0x4000

-- What the scheduler takes from heap.c.
pub record Allocator : Type 1 where
  pub State : Type 0
  pub kmalloc : ℕ → State → ℕ × State
  pub kfree : ℕ → State → State

-- The static data of sched.c, with the memory that it reads and writes: the tasks by address, and
-- the words of the stacks.
pub record Sched (H : Type 0) : Type 0 where
  pub tasks : ℕ → Option Task
  pub words : ℕ → ℕ
  pub current_task : ℕ
  pub head : ℕ
  pub next_tid : ℕ
  pub zombie : ℕ
  pub heap : H

infixl 5 ◌>>=◌
abbrev pub ◌>>=◌ : {A B : Type 0} → Option A → (A → Option B) → Option B
◌>>=◌ m f = elim m [ none ↦ none | some a ↦ f a ]

abbrev pub is_dead : TaskState → Bool
is_dead task_dead = true
is_dead s = false

abbrev pub is_running : TaskState → Bool
is_running task_running = true
is_running s = false

abbrev pub update : {A : Type 0} → (ℕ → A) → ℕ → A → ℕ → A
update f p v a = if a == p then v else f a

-- `if (t->state != TASK_DEAD) n++;`
pub tally : Task → ℕ → ℕ
tally t n = if is_dead t.state then n else (n + 1) % 2 ^ 32

-- `*(--sp) = v;` for each of the values
pub push_words : List ℕ → ℕ → (ℕ → ℕ) → ℕ × (ℕ → ℕ)
push_words [] sp words = (sp, words)
push_words (v ∷ vs) sp words = push_words vs (sub64 sp 8) (update words (sub64 sp 8) v)

module _ {H : Type 0} where
  -- `*p`; `none` is a pointer to no task
  pub task : Sched H → ℕ → Option Task
  task s p = if p == 0 then none else s.tasks p

  pub put : ℕ → Task → Sched H → Sched H
  put p t s = record s { tasks = update s.tasks p (some t) }

  pub list_add : ℕ → Sched H → Option (Sched H)
  list_add t s = do
    h ← task s s.head
    new ← task s t
    let s1 : Sched H = put t (record new { next = h.next }) s
    h1 ← task s1 s.head
    some (put s.head (record h1 { next = t }) s1)

  -- `while (p->next != t) p = p->next;`, with the rounds that are left
  pub find_before : ℕ → ℕ → ℕ → Sched H → Option ℕ
  find_before zero t p s = none
  find_before (suc k) t p s = elim (task s p) [
    | none ↦ none
    | some b ↦ elim (b.next == t) [ true ↦ some p | false ↦ find_before k t b.next s ]
  ]

  pub list_remove : ℕ → ℕ → Sched H → Option (Sched H)
  list_remove rounds t s = do
    gone ← task s t
    p ← find_before rounds t gone.next s
    b ← task s p
    some (put p (record b { next = gone.next }) s)

  -- `while (next->state == TASK_DEAD && next != prev) next = next->next;`
  pub find_next : ℕ → ℕ → ℕ → Sched H → Option ℕ
  find_next zero prev p s = none
  find_next (suc k) prev p s = elim (task s p) [
    | none ↦ none
    | some b ↦ elim (is_dead b.state && not (p == prev)) [
      | true ↦ find_next k prev b.next s
      | false ↦ some p
    ]
  ]

  -- `do { ... } while (t != head);`
  pub count_loop : ℕ → ℕ → ℕ → Sched H → Option ℕ
  count_loop zero p n s = none
  count_loop (suc k) p n s = elim (task s p) [
    | none ↦ none
    | some b ↦
        let n' : ℕ = tally b n in
        elim (b.next == s.head) [ true ↦ some n' | false ↦ count_loop k b.next n' s ]
  ]

  -- The lock does not show: nothing else runs.
  pub sched_task_count : ℕ → Sched H → Option ℕ
  sched_task_count rounds s = count_loop rounds s.head 0 s

module _ (A : Allocator) where
  pub reap : Sched A.State → Option (Sched A.State)
  reap s = if (s.zombie == 0) || (s.zombie == s.current_task) then some s else do
    z ← task s s.zombie
    let h : A.State = if z.stack_base == 0 then s.heap else A.kfree z.stack_base s.heap
    some (record s { zombie = 0; heap = A.kfree s.zombie h })

  -- the task that `kmalloc` makes room for, as it was in that memory
  pub sched_init : Task → Sched A.State → Option (Sched A.State)
  sched_init old s =
      let (boot, h) = A.kmalloc sizeof_task s.heap in
      if boot == 0
      then none
      else some (record s {
        tasks = update s.tasks boot (
            some
              (record old { id = s.next_tid; state = task_running; stack_base = 0; next = boot }));
        next_tid = add64 s.next_tid 1;
        head = boot;
        current_task = boot;
        heap = h;
      })

  -- `task_create`, with the address of `task_trampoline`, and the task that `kmalloc` makes room
  -- for as it was in that memory. The address of the task is returned; a stack that is NULL is
  -- not noticed.
  pub task_create : ℕ → Task → ℕ → ℕ → Sched A.State → Option (ℕ × Sched A.State)
  task_create task_trampoline old entry arg s =
      let (t, h1) = A.kmalloc sizeof_task s.heap in
      let (stack, h2) = A.kmalloc kstack_size h1 in
      let top : ℕ = bit_and (add64 stack kstack_size) (2 ^ 64 - 16) in
      let (sp, words) =
        push_words (task_trampoline ∷ 0 ∷ entry ∷ arg ∷ 0 ∷ 0 ∷ 0 ∷ []) top s.words in
      let new : Task = record old {
        rsp = sp;
        stack_base = stack;
        state = task_ready;
        id = s.next_tid;
      } in
      let s1 : Sched A.State = record s {
        tasks = update s.tasks t (some new);
        words = words;
        next_tid = add64 s.next_tid 1;
        heap = h2;
      } in
      if t == 0 then none else do s2 ← list_add t s1; some (t, s2)

  -- `schedule`, and the switch that it ends with: from which task, and to which stack pointer
  pub schedule : ℕ → Sched A.State → Option (Option (ℕ × ℕ) × Sched A.State)
  schedule rounds s = if s.current_task == 0 then some (none, s) else do
    s1 ← reap s
    let prev : ℕ = s1.current_task
    p ← task s1 prev
    next ← find_next rounds prev p.next s1
    if next == prev then some (none, s1) else do
      let s2 : Sched A.State =
          if is_running p.state then put prev (record p { state = task_ready }) s1 else s1
      n ← task s2 next
      some (
        some (prev, n.rsp),
        record (put next (record n { state = task_running }) s2) { current_task = next },
      )

  -- `task_exit`, up to the switch
  pub task_exit : ℕ → Sched A.State → Option (Option (ℕ × ℕ) × Sched A.State)
  task_exit rounds s = do
    t ← task s s.current_task
    s1 ← list_remove rounds s.current_task (put s.current_task (record t { state = task_dead }) s)
    schedule rounds (record s1 { zombie = s1.current_task })

  -- `sched_tick`, from the timer's interrupt
  pub sched_tick : ℕ → Sched A.State → Option (Option (ℕ × ℕ) × Sched A.State)
  sched_tick rounds s = schedule rounds s

  -- `task_yield`, with the interrupt flag as it is when the task goes on
  pub task_yield : ℕ → Flags → Sched A.State → Option (Option (ℕ × ℕ) × Sched A.State × Flags)
  task_yield rounds flags s = do
    let (f, off) = Irq.irq_save flags
    (switch, s') ← schedule rounds s
    some (switch, s', Irq.irq_restore f off)
