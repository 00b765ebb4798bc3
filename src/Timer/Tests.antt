-- ===== src/Timer/Tests.antt =====
-- Waiting, and the divisor, at 100 Hz.
use arc_monark.Base.{ℕ, ◌+◌, ◌*◌, ◌/◌, ◌^◌, ◌<◌, ◌≡◌, ◌⊎◌, none, List, [], ◌∷◌, arith}
use arc_monark.Timer.{Timer, sleep}
use arc_monark.Timer.Sleep.{total, Ends, sleep_waits}

abbrev clock : Timer
clock = record { ticks = 7; tick_hz = 100 }

-- an interrupt of the keyboard, 10 ticks of other tasks, and so on
abbrev wakes : List ℕ
wakes = 0 ∷ 10 ∷ 1 ∷ 4 ∷ 1 ∷ []

wakes_room : clock.ticks + total wakes < 2 ^ 64
unfolding total
wakes_room = omega arith

sleep_waits_example :
    ((total wakes < 150 * 100 / 1000) × (sleep wakes 150 clock ≡ none))
    ⊎ Ends wakes (7 + 150 * 100 / 1000) clock (sleep wakes 150 clock)
sleep_waits_example = sleep_waits wakes 150 clock (omega arith) (omega arith) wakes_room
