-- ===== src/Event/Ring.antt =====
-- The indices of the ring in src/kernel/event.c.
use arc_monark.Base.{ℕ, ◌+◌, ◌%◌, ◌<◌, ◌≡◌, List, [], ◌∷◌, arith, length, length-set}
use arc_monark.Base.Masks.{bit_and-ones}
use arc_monark.Base.Irq.{Flags}
use arc_monark.Event.{
  Event, EventQueue, evq_size, next_slot, event_init, event_push, event_poll, Op, push, poll, run,
}

-- The storage is whole, and both indices are slots of it.
pub record IsValid (s : EventQueue) : Type 0 where
  pub slots : length s.q ≡ evq_size
  pub head_in : s.q_head < evq_size
  pub tail_in : s.q_tail < evq_size

-- The mask is a remainder: `(i + 1) & 255` is `(i + 1) % 256`.
pub next_slot-mod : (i : ℕ) → i < evq_size → next_slot i ≡ (i + 1) % evq_size
unfolding next_slot
next_slot-mod i h = omega (arith, bit_and-ones 8 ((i + 1) % 4294967296))

pub event_init-IsValid : (s : EventQueue) → length s.q ≡ evq_size → IsValid (event_init s)
unfolding event_init
event_init-IsValid s h = omega arith

pub event_push-IsValid : {s : EventQueue} (e : Event) → IsValid s → IsValid (event_push e s)
unfolding event_push
event_push-IsValid {s} e v =
    ground (arith, next_slot-mod s.q_head, next_slot-mod s.q_tail, length-set s.q s.q_head e)

pub event_poll-IsValid : {s : EventQueue} (f : Flags) → IsValid s → IsValid (event_poll f s).2
unfolding event_poll
event_poll-IsValid {s} f v = ground (arith, next_slot-mod s.q_tail)

-- From a valid ring on, whatever the interrupts push and the tasks poll, both indices stay slots
-- of the ring.
pub run-IsValid : (f : Flags) (ops : List Op) {s : EventQueue} → IsValid s → IsValid (run f ops s).1
unfolding run
run-IsValid f [] v = v
run-IsValid f (push e ∷ ops) v = run-IsValid f ops (event_push-IsValid e v)
run-IsValid f (poll ∷ ops) {s} v = run-IsValid (event_poll f s).1 ops (event_poll-IsValid f v)
