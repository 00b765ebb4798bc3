-- ===== src/Sched/Tests.antt =====
-- Three tasks, of which one is dead.
use arc_monark.Base.{◌≡◌, refl, none, some, [], ◌∷◌, arith}
use arc_monark.Sched.{
  Allocator, Task, Sched, task_ready, task_running, task_dead, update, task, sched_task_count,
}
use arc_monark.Sched.Circle.{Links, Circle, count_alive, sched_task_count-count_alive}

abbrev boot : Task
boot = record { rsp = 0; stack_base = 0; state = task_running; id = 0; next = 200 }

abbrev worker : Task
worker = record { rsp = 5000; stack_base = 4096; state = task_dead; id = 1; next = 100 }

abbrev fresh : Task
fresh = record { rsp = 9000; stack_base = 8192; state = task_ready; id = 2; next = 0 }

abbrev three_tasks : Sched (Unit {0})
three_tasks = record {
  tasks = update (update (update (λ a. none) 100 (some boot)) 200 (some worker)) 300 (some fresh);
  words = λ a. 0;
  current_task = 100;
  head = 100;
  next_tid = 3;
  zombie = 0;
  heap = tt;
}

at_boot : task three_tasks 100 ≡ some boot
unfolding task
at_boot = refl

at_worker : task three_tasks 200 ≡ some worker
unfolding task
at_worker = refl

at_fresh : task three_tasks 300 ≡ some fresh
unfolding task
at_fresh = refl

three_tasks-Circle : Circle three_tasks (200 ∷ [])
three_tasks-Circle = record {
  boot = boot;
  at_head = at_boot;
  after_head = refl;
  others = ((worker, at_worker, refl), omega arith, tt);
}

sched_task_count-count_alive_example :
    sched_task_count 2 three_tasks ≡ some (count_alive three_tasks (100 ∷ 200 ∷ []))
sched_task_count-count_alive_example =
    sched_task_count-count_alive three_tasks 2 (200 ∷ []) three_tasks-Circle (omega arith)
      (omega arith)

abbrev no_heap : Allocator
no_heap = record { State = Unit {0}; kmalloc = λ size h. (0, h); kfree = λ p h. h }

-- the boot task, a dead one behind it, and one that is ready
abbrev ready : Task
ready = record { rsp = 9000; stack_base = 8192; state = task_ready; id = 2; next = 100 }

abbrev circle : Sched (Unit {0})
circle = record three_tasks {
  tasks =
      update (update (update (λ a. none) 100 (some boot)) 200 (some (record worker { next = 300 })))
        300 (some ready);
}

at_first : task circle 100 ≡ some boot
unfolding task
at_first = refl

circle-Links : Links circle (200 ∷ 300 ∷ []) 100
unfolding task
circle-Links = (
  (record worker { next = 300 }, refl, refl),
  omega arith,
  ((ready, refl, refl), omega arith, tt),
)
