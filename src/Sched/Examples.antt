-- ===== src/Sched/Examples.antt =====
-- Three tasks that take turns, and one that has ended; and the calls that make a task, switch to
-- it and end it.
use arc_monark.Base.{ℕ, ◌+◌, ◌≡◌, refl, ◌≢◌, inl, inr, true, Option, none, some, [], ◌∷◌, arith}
use arc_monark.Sched.{
  TaskState, task_ready, task_running, task_dead, Task, Allocator, Sched, update, task, put,
  list_add, find_before, list_remove, find_next, reap, push_words, sched_init, task_create,
  schedule, task_exit,
}
use arc_monark.Sched.Circle.{Apart}
use arc_monark.Sched.Queue.{Queue}
use arc_monark.Sched.Fair.{turn, schedules, Turned, schedule-Turned, schedules-Queue}
use arc_monark.Sched.Exit.{task_exit-Queue}
use arc_monark.Sched.Insert.{joined}
use arc_monark.Sched.Create.{made_at}
use arc_monark.Sched.Start.{fresh, task_create-starts}
use arc_monark.Sched.Switch.{Registers, save, restore, trampoline, save-restore}
use arc_monark.Sched.History.{Reach, started, created, scheduled, saved, ended, Reach-Queue}

-- memory that never runs out
abbrev endless : Allocator
endless = record { State = ℕ; kmalloc = λ size h. (h, h + 0x10000); kfree = λ p h. h }

abbrev a_task : ℕ → TaskState → ℕ → Task
a_task id state next = record {
  rsp = 0x8000 + id;
  stack_base = 0x7000;
  state = state;
  id = id;
  next = next;
}

-- 100 runs, 200 and 300 wait, and 400 has ended.
abbrev ring : Sched ℕ
ring = record {
  tasks =
      update
        (update
          (update (update (λ a. none) 100 (some (a_task 0 task_running 200))) 200
            (some (a_task 1 task_ready 300)))
          300 (some (a_task 2 task_ready 100)))
        400 (some (a_task 3 task_dead 100));
  words = λ a. 0;
  current_task = 100;
  head = 300;
  next_tid = 4;
  zombie = 400;
  heap = 0x10000;
}

ring-Queue : Queue ring 100 (200 ∷ 300 ∷ [])
unfolding task
ring-Queue = record {
  current = refl;
  self = a_task 0 task_running 200;
  at_current = refl;
  after_current = refl;
  running = refl;
  waiting = (
    (a_task 1 task_ready 300, refl, refl, refl),
    ((a_task 2 task_ready 100, refl, refl, refl), tt),
  );
  apart = (omega arith, (omega arith, tt));
  distinct = ((omega arith, tt), (tt, tt));
  head_in = inr (inr (inl refl));
  ended = inr (a_task 3 task_dead 100, refl, (omega arith, (omega arith, (omega arith, tt))));
}

schedule-Turned_example : Turned endless ring 0 100 (200 ∷ 300 ∷ [])
schedule-Turned_example = schedule-Turned endless ring 0 100 (200 ∷ 300 ∷ []) ring-Queue

schedules-Queue_example :
    (s' : Sched ℕ) × (schedules endless 2 1 ring ≡ some s')
    × Queue s' 300 (100 ∷ 200 ∷ [])
    × (s'.current_task ≡ 300)
schedules-Queue_example = schedules-Queue endless 0 100 300 (200 ∷ []) [] ring ring-Queue

task_exit-Queue_example :
    (n : Task) × (s' : Sched ℕ) × (task ring 200 ≡ some n)
    × (task_exit endless 2 ring ≡ some (some (100, n.rsp), s'))
    × Queue s' 200 (300 ∷ [])
    × ((d : Task) × (task s' 100 ≡ some d) × (d.state ≡ task_dead))
    × (s'.zombie ≡ 100)
    × (s'.heap ≡ 0x10000)
task_exit-Queue_example =
    task_exit-Queue endless ring 1 200 (300 ∷ []) ring-Queue (omega arith) (omega arith)

address_free : Apart 0x10000 (100 ∷ 200 ∷ 300 ∷ [])
address_free = (omega arith, (omega arith, (omega arith, tt)))

task_create-starts_example :
    (s' : Sched ℕ) × (u : Task) × (task_create endless 0x500 (a_task 9 task_dead 0) 0x600 7 ring
      ≡ some (0x10000, s'))
    × (task s' 0x10000 ≡ some u)
    × (restore u.rsp s'.words ≡ (fresh 0x500 0x600 7, 0x24000))
    × (trampoline (fresh 0x500 0x600 7) ≡ (0x600, 7, true))
task_create-starts_example =
    task_create-starts endless 0x500 (a_task 9 task_dead 0) 0x600 7 ring 100 (200 ∷ 300 ∷ [])
      ring-Queue (omega arith) address_free (omega arith) refl (omega arith)

abbrev registers : Registers
registers = record { rbp = 1; rbx = 2; r12 = 3; r13 = 4; r14 = 5; r15 = 6; rip = 0x9000 }

abbrev called : ℕ → ℕ
called = update (λ a. 0) 0x5000 0x9000

save-restore_example :
    restore (save registers 0x5000 called).0 (save registers 0x5000 called).1 ≡ (registers, 0x5008)
save-restore_example =
    save-restore registers 0x5000 called (save registers 0x5000 called).1 (omega arith)
      (omega arith) refl (λ a lo up. refl)

-- From the start: the boot task makes another one, gives the processor up to it, and the other one
-- ends.
abbrev before : Sched ℕ
before = record {
  tasks = λ a. none;
  words = λ a. 0;
  current_task = 0;
  head = 0;
  next_tid = 0;
  zombie = 0;
  heap = 0x10000;
}

abbrev any : Task
any = a_task 9 task_dead 0

abbrev after : {B : Type 0} → Option (B × Sched ℕ) → Sched ℕ → Sched ℕ
after r s = elim r [ none ↦ s | some (b, s') ↦ s' ]

abbrev booted : Sched ℕ
booted = elim (sched_init endless any before) [ none ↦ before | some s ↦ s ]

abbrev two : Sched ℕ
two = after (task_create endless 0x500 any 0x600 7 booted) booted

abbrev other_runs : Sched ℕ
other_runs = after (schedule endless 1 two) two

-- with the stack pointer of the boot task saved
abbrev boot_left : Task
boot_left = record any { state = task_ready; id = 0; stack_base = 0; next = 0x20000 }

abbrev left : Sched ℕ
left = put 0x10000 (record boot_left { rsp = 0x4000 }) other_runs

abbrev alone : Sched ℕ
alone = after (task_exit endless 1 left) left

init_runs : sched_init endless any before ≡ some booted
unfolding sched_init task_create list_add schedule task put reap find_next task_exit list_remove
    find_before push_words
init_runs = refl

create_runs : task_create endless 0x500 any 0x600 7 booted ≡ some (0x20000, two)
unfolding sched_init task_create list_add schedule task put reap find_next task_exit list_remove
    find_before push_words
create_runs = refl

schedule_runs : schedule endless 1 two ≡ some (some (0x10000, 0x33fc8), other_runs)
unfolding sched_init task_create list_add schedule task put reap find_next task_exit list_remove
    find_before push_words
schedule_runs = refl

exit_runs : task_exit endless 1 left ≡ some (some (0x20000, 0x4000), alone)
unfolding sched_init task_create list_add schedule task put reap find_next task_exit list_remove
    find_before push_words
exit_runs = refl

one_task : Reach endless 0x500 booted 0x10000 []
one_task = started any before booted refl init_runs

free_address :
    (made_at endless booted ≢ 0)
    × Apart (made_at endless booted) (0x10000 ∷ [])
    × (made_at endless booted ≢ booted.zombie)
unfolding sched_init
free_address = (omega arith, (omega arith, tt), omega arith)

two_tasks : Reach endless 0x500 two 0x10000 (0x20000 ∷ [])
unfolding joined sched_init
two_tasks = created any 0x600 7 one_task free_address.0 free_address.1 free_address.2 create_runs

other_task : Reach endless 0x500 other_runs 0x20000 (0x10000 ∷ [])
unfolding turn
other_task = scheduled 0 two_tasks schedule_runs

not_head : 0x20000 ≢ left.head
unfolding sched_init task_create list_add schedule task put reap find_next task_exit list_remove
    find_before push_words
not_head = omega arith

at_boot : task other_runs 0x10000 ≡ some boot_left
unfolding sched_init task_create list_add schedule task put reap find_next push_words
at_boot = refl

other_left : Reach endless 0x500 left 0x20000 (0x10000 ∷ [])
other_left = saved 0x10000 0x4000 boot_left other_task at_boot

one_left : Reach endless 0x500 alone 0x10000 []
one_left = ended 0 other_left not_head (omega arith) exit_runs

Reach-Queue_example : Queue alone 0x10000 []
Reach-Queue_example = Reach-Queue endless 0x500 one_left
