-- ===== src/Event.antt =====
-- src/kernel/event.c and include/event.h: the input event queue, a ring of 256 slots written by
-- the keyboard and mouse interrupts and read by tasks. Its definitions are here; `Event.Ring` is
-- about the indices, `Event.Refine` about the order of events.
pub mod Ring
pub mod Refine
mod Tests
use arc_monark.Base.{
  ℕ, ◌+◌, ◌-◌, ◌%◌, ◌^◌, bit_and, Bool, not, Option, none, some, List, [], ◌∷◌, ◌==◌, if◌then◌else◌,
  get_or, set,
}
use arc_monark.Base.Int.{ℤ, pos}
use arc_monark.Base.Irq.{Flags, irq_save, irq_restore}

-- `event_type_t`
pub data EventType : Type 0 where
  ev_none ev_key_down ev_key_up ev_mouse_move ev_mouse_down ev_mouse_up : EventType

-- `event_t`. Bytes are numbers; `x`, `y`, `dx` and `dy` are integers (an `int16_t` each).
pub record Event : Type 0 where
  pub kind : EventType
  pub ch : ℕ
  pub scancode : ℕ
  pub buttons : ℕ
  pub button : ℕ
  pub x : ℤ
  pub y : ℤ
  pub dx : ℤ
  pub dy : ℤ

-- `event_t e = {0}`
abbrev pub zero_event : Event
zero_event = record {
  kind = ev_none;
  ch = 0;
  scancode = 0;
  buttons = 0;
  button = 0;
  x = pos 0;
  y = pos 0;
  dx = pos 0;
  dy = pos 0;
}

abbrev pub evq_size : ℕ
evq_size = 256

abbrev pub evq_mask : ℕ
evq_mask = evq_size - 1

-- The static data of event.c. The indices are `uint32_t`.
pub record EventQueue : Type 0 where
  pub q : List Event
  pub q_head : ℕ
  pub q_tail : ℕ

-- `(i + 1) & EVQ_MASK` on `uint32_t`
pub next_slot : ℕ → ℕ
next_slot i = bit_and ((i + 1) % 2 ^ 32) evq_mask

pub event_init : EventQueue → EventQueue
event_init s = record s { q_head = 0; q_tail = 0 }

pub event_push : Event → EventQueue → EventQueue
event_push e s =
    let next : ℕ = next_slot s.q_head in
    let tail : ℕ = if next == s.q_tail then next_slot s.q_tail else s.q_tail in
    record { q = set s.q s.q_head e; q_head = next; q_tail = tail }

-- The event is what goes through `out`, if the result is 1. The flags go through the lock.
pub event_poll : Flags → EventQueue → Option Event × Flags × EventQueue
event_poll now s =
    let (f, inside) = irq_save now in
    if s.q_tail == s.q_head then (none, irq_restore f inside, s) else (
      some (get_or s.q s.q_tail zero_event),
      irq_restore f inside,
      record s { q_tail = next_slot s.q_tail },
    )

pub event_pending : EventQueue → Bool
event_pending s = not (s.q_head == s.q_tail)

-- What happens to the queue: an interrupt pushes, or a task polls. A poll runs with interrupts off,
-- so that any interleaving of the two is a list of these.
pub data Op : Type 0 where
  push : Event → Op
  poll : Op

-- A sequence of operations: what the polls gave, in order, and the queue left behind.
unfoldable pub run : Flags → List Op → EventQueue → List (Option Event) × EventQueue
run now [] s = ([], s)
run now (push e ∷ ops) s = run now ops (event_push e s)
run now (poll ∷ ops) s =
    let (out, now', s') = event_poll now s in let (outs, end) = run now' ops s' in (out ∷ outs, end)
