-- ===== src/Timer.antt =====
-- src/cpu/timer.c and include/timer.h: the programmable interval timer and `sleep`. Its definitions
-- are here; `Timer.Sleep` is about how long `sleep` waits.
pub mod Sleep
mod Tests
use arc_monark.Base.{
  ℕ, ◌*◌, ◌/◌, ◌%◌, ◌^◌, bit_and, Option, none, some, List, [], ◌∷◌, ltb, ◌==◌, if◌then◌else◌,
}
use arc_monark.Pmm.{add64}

abbrev pub pit_channel0 : ℕ
pit_channel0 = 0x40

abbrev pub pit_command : ℕ
pit_command = 0x43

abbrev pub pit_frequency : ℕ
pit_frequency = 1193182

-- The static data of timer.c.
pub record Timer : Type 0 where
  pub ticks : ℕ
  pub tick_hz : ℕ

-- `irq0_timer`, with `pic_send_eoi(0)` and `sched_tick()` as what they do to the rest of the state
pub irq0_timer : {S : Type 0} → (S → S) → (S → S) → Timer × S → Timer × S
irq0_timer pic_send_eoi sched_tick (t, s) =
    (record t { ticks = add64 t.ticks 1 }, sched_tick (pic_send_eoi s))

-- the new data, and the bytes written to the ports in their order; `none` is a division by 0
unfoldable pub pit_init : ℕ → Timer → Option (Timer × List (ℕ × ℕ))
pit_init frequency t =
    let divisor : ℕ = pit_frequency / frequency in
    if frequency == 0
    then none
    else some (
      record t { tick_hz = frequency },
      (pit_command, 0x36)
          ∷ (pit_channel0, bit_and divisor 0xFF)
          ∷ (pit_channel0, bit_and (divisor / 2 ^ 8) 0xFF)
          ∷ [],
    )

pub timer_ticks : Timer → ℕ
timer_ticks t = t.ticks

-- `ms * tick_hz` is a 32-bit product.
unfoldable pub sleep_target : ℕ → Timer → ℕ
sleep_target ms t = add64 t.ticks (ms * t.tick_hz % 2 ^ 32 / 1000)

-- `while (ticks < target) hlt;`, with the ticks that have come when the task goes on after each `hlt`:
-- none after another interrupt, many after other tasks had their turns. `none` is a loop that still
-- waits when these are over.
unfoldable pub sleep_loop : List ℕ → ℕ → Timer → Option Timer
sleep_loop [] target t = if ltb t.ticks target then none else some t
sleep_loop (n ∷ later) target t =
    let rest = sleep_loop later target (record t { ticks = add64 t.ticks n }) in
    if ltb t.ticks target then rest else some t

unfoldable pub sleep : List ℕ → ℕ → Timer → Option Timer
sleep wakes ms t = sleep_loop wakes (sleep_target ms t) t
