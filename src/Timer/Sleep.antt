-- ===== src/Timer/Sleep.antt =====
-- How many ticks `sleep` of src/cpu/timer.c waits.
use arc_monark.Base.{
  ℕ, ◌+◌, ◌*◌, ◌/◌, ◌^◌, ◌≤◌, ◌<◌, bit_and, ◌≡◌, refl, ap, ◌∙◌, ◌⊎◌, inl, inr, false, Option, none,
  some, List, [], ◌∷◌, ◌++◌, arith, ltb, ◌==◌, Bool-cases, length, length-append,
}
use arc_monark.Base.Masks.{bit_and-ones}
use native.Mathlib.Nat.{div-mul-le_self, mul-le-mul_left}
use arc_monark.Pmm.{add64}
use arc_monark.Timer.{
  Timer, pit_init, pit_frequency, pit_command, pit_channel0, sleep_target, sleep_loop, sleep,
}

-- all the ticks of a list
unfoldable pub total : List ℕ → ℕ
total [] = 0
total (n ∷ ns) = n + total ns

-- The loop ends after the ticks of `front`, the first wake-ups after which there are enough.
pub record Ends (wakes : List ℕ) (target : ℕ) (t : Timer) (r : Option Timer) : Type 0 where
  pub front : List ℕ
  pub back : List ℕ
  pub cut : wakes ≡ front ++ back
  pub ends : r ≡ some (record t { ticks = t.ticks + total front })
  pub enough : target ≤ t.ticks + total front
  pub before : (pre : List ℕ) (n : ℕ) → front ≡ pre ++ n ∷ [] → t.ticks + total pre < target

-- It ends at once.
Ends-now :
    (wakes : List ℕ) (target : ℕ) (t : Timer) → target ≤ t.ticks → Ends wakes target t (some t)
unfolding total
Ends-now wakes target t le =
    let same : t.ticks ≡ t.ticks + 0 = omega arith in
    record {
      front = [];
      back = wakes;
      cut = refl;
      ends = λ i. some (record t { ticks = same i });
      enough = omega arith;
      before = λ pre n e. absurd (omega (arith, ap length e, length-append {0} pre (n ∷ [])));
    }

-- before the last wake-up of a list that has one more in front
before-later :
    (target ticks n : ℕ) (front pre : List ℕ) (m : ℕ)
    → ticks < target
    → ((ps : List ℕ) → front ≡ ps ++ m ∷ [] → ticks + n + total ps < target)
    → n ∷ front ≡ pre ++ m ∷ []
    → ticks + total pre < target
unfolding total
before-later target ticks n front [] m lt h cut = omega arith
before-later target ticks n front (p ∷ ps) m lt h cut =
    let same : n ≡ p = cc in let rest : front ≡ ps ++ m ∷ [] = cc in omega (arith, same, h ps rest)

-- It ends after one more wake-up.
Ends-later :
    (n : ℕ) (later : List ℕ) (target : ℕ) (t : Timer) (r : Option Timer)
    → t.ticks < target
    → Ends later target (record t { ticks = t.ticks + n }) r
    → Ends (n ∷ later) target t r
unfolding total
Ends-later n later target t r go e =
    let sum : t.ticks + n + total e.front ≡ t.ticks + (n + total e.front) = omega arith in
    record {
      front = n ∷ e.front;
      back = e.back;
      cut = ap (λ l. n ∷ l) e.cut;
      ends = e.ends ∙ (λ i. some (record t { ticks = sum i }));
      enough = omega (arith, e.enough);
      before =
          λ pre m cut. before-later target t.ticks n e.front pre m go (λ ps. e.before ps m) cut;
    }

sleep_loop-Ends :
    (wakes : List ℕ) (target : ℕ) (t : Timer)
    → t.ticks + total wakes < 2 ^ 64
    → ((t.ticks + total wakes < target) × (sleep_loop wakes target t ≡ none))
      ⊎ Ends wakes target t (sleep_loop wakes target t)
unfolding sleep_loop total
sleep_loop-Ends [] target t fits = elim (Bool-cases (ltb t.ticks target)) [
  | inl go ↦ inl (ground arith, rw go refl)
  | inr stop ↦ inr (rw stop (Ends-now [] target t (ground arith)))
]
sleep_loop-Ends (n ∷ later) target t fits = elim (Bool-cases (ltb t.ticks target)) [
  | inr stop ↦ inr (rw stop (Ends-now (n ∷ later) target t (ground arith)))
  | inl go ↦
      let lt : t.ticks < target = ground arith in
      let step : add64 t.ticks n ≡ t.ticks + n = omega arith in
      let next : Timer = record t { ticks = t.ticks + n } in
      let rest = sleep_loop-Ends later target next (omega arith) in
      rw (go, step)
        (elim rest [
          | inl (few, waits) ↦ inl (omega arith, waits)
          | inr e ↦ inr (Ends-later n later target t (sleep_loop later target next) lt e)
        ])
]

-- Where `ms * tick_hz` fits in 32 bits and the count of ticks does not wrap, and whatever number of
-- ticks, 0 too, comes before each of the wake-ups: `sleep` returns at the first wake-up at which
-- `ms * tick_hz / 1000` ticks have come since its call, without a wait where that is 0, with all the
-- ticks counted; it still waits only where fewer have come at all the wake-ups.
pub sleep_waits :
    (wakes : List ℕ) (ms : ℕ) (t : Timer)
    → ms * t.tick_hz < 2 ^ 32
    → t.ticks + ms * t.tick_hz / 1000 < 2 ^ 64
    → t.ticks + total wakes < 2 ^ 64
    → ((total wakes < ms * t.tick_hz / 1000) × (sleep wakes ms t ≡ none))
      ⊎ Ends wakes (t.ticks + ms * t.tick_hz / 1000) t (sleep wakes ms t)
unfolding sleep sleep_target
sleep_waits wakes ms t fits small room =
    let target : sleep_target ms t ≡ t.ticks + ms * t.tick_hz / 1000 = omega (arith, fits, small) in
    rw target (elim (sleep_loop-Ends wakes (t.ticks + ms * t.tick_hz / 1000) t room) [
      | inl (few, waits) ↦ inl (omega arith, waits)
      | inr e ↦ inr e
    ])

-- At 100 Hz and with a count of ticks below 2^63, `sleep` of 42949673 milliseconds or more has a target
-- before the ticks that it was asked to wait.
pub sleep_early :
    (ms : ℕ) (t : Timer)
    → t.tick_hz ≡ 100
    → 42949673 ≤ ms
    → ms < 2 ^ 32
    → t.ticks < 2 ^ 63
    → sleep_target ms t < t.ticks + ms * t.tick_hz / 1000
unfolding sleep_target
sleep_early ms t hz long word small = omega (arith, hz, ap (λ z. ms * z) hz)

-- The two bytes that `pit_init` writes to the channel make up the divisor, for a frequency from 19 on.
pub pit_init-divisor :
    (frequency : ℕ) (t : Timer)
    → 19 ≤ frequency
    → (lo hi : ℕ) × (pit_init frequency t
        ≡ some (
          record t { tick_hz = frequency },
          (pit_command, 0x36) ∷ (pit_channel0, lo) ∷ (pit_channel0, hi) ∷ [],
        ))
      × (lo + hi * 2 ^ 8 ≡ pit_frequency / frequency)
      × (lo < 256)
      × (hi < 256)
unfolding pit_init
pit_init-divisor frequency t ge =
    let q : ℕ = pit_frequency / frequency in
    let low : q < 2 ^ 16 =
      omega (arith, div-mul-le_self pit_frequency frequency, mul-le-mul_left q ge) in
    let some_hz : (frequency == 0) ≡ false = ground arith in
    (
      bit_and q 0xFF,
      bit_and (q / 2 ^ 8) 0xFF,
      rw some_hz refl,
      omega (arith, bit_and-ones 8 q, bit_and-ones 8 (q / 2 ^ 8), low),
      omega (arith, bit_and-ones 8 q),
      omega (arith, bit_and-ones 8 (q / 2 ^ 8)),
    )
