-- ===== src/Serial/Sent.antt =====
-- What the serial port of src/drivers/serial.c sends.
use arc_monark.Base.{
  ℕ, zero, suc, ◌+◌, ◌-◌, ◌*◌, ◌/◌, ◌%◌, ◌^◌, ◌≤◌, ◌<◌, bit_and, ◌≡◌, refl, sym, ap, ◌∙◌, inl, inr,
  true, false, not, Option, some, List, [], ◌∷◌, arith, ltb, ◌==◌, if◌then◌else◌, Bool-cases,
  length,
}
use native.Mathlib.Nat.{
  pow-suc, div-add-mod, mod-lt, mod-eq_of_lt, mul-add-mod_self_left, mul-le-mul_right,
}
use arc_monark.Base.Bits.{all_below, all_below_sound}
use arc_monark.Base.Masks.{bit_and-ones}
use arc_monark.Base.Text.{codes}
use arc_monark.Serial.{
  com1, Uart, wait_empty, send, serial_putc, serial_write, hex_digit, hex_digits, serial_write_hex,
}

-- the number that a digit stands for, and a sequence of them behind a number
abbrev pub digit_value : ℕ → ℕ
digit_value c = if ltb c 65 then c - 48 else c - 55

abbrev pub hex_value : ℕ → List ℕ → ℕ
hex_value acc [] = acc
hex_value acc (c ∷ cs) = hex_value (acc * 16 + digit_value c) cs

all_digits : all_below 16 (λ n. digit_value (hex_digit n) == n) ≡ true
unfolding all_below hex_digit
all_digits = refl

digit_value-hex_digit : (n : ℕ) → n < 16 → digit_value (hex_digit n) ≡ n
digit_value-hex_digit n lt =
    ground (arith, all_below_sound 16 (λ n. digit_value (hex_digit n) == n) n all_digits lt)

low_digit : (q : ℕ) → q % 16 ≤ 15
low_digit q = omega arith

power_pos : (m : ℕ) → 0 < 2 ^ m
power_pos zero = omega arith
power_pos (suc m) = omega (arith, pow-suc 2 m, power_pos m)

-- the last 4 bits more
mod-step : (v p : ℕ) → 0 < p → v % (p * 16) ≡ v / p % 16 * p + v % p
mod-step v p pos =
    let q : ℕ = v / p in
    let d : ℕ = q % 16 in
    let parts : v ≡ p * 16 * (q / 16) + (d * p + v % p) =
      omega (arith, div-add-mod v p, ap (λ z. p * z) (sym (div-add-mod q 16))) in
    let small : d * p + v % p < p * 16 =
      omega (arith, mod-lt v pos, mul-le-mul_right p (low_digit q)) in
    ap (λ z. z % (p * 16)) parts
    ∙ mul-add-mod_self_left (p * 16) (q / 16) (d * p + v % p)
    ∙ mod-eq_of_lt small

four_more : (m : ℕ) → 2 ^ (m + 4) ≡ 2 ^ m * 16
four_more m =
    let e : m + 4 ≡ suc (suc (suc (suc m))) = omega arith in
    ap (λ z. 2 ^ z) e
    ∙ omega (
      arith,
      pow-suc 2 m,
      pow-suc 2 (suc m),
      pow-suc 2 (suc (suc m)),
      pow-suc 2 (suc (suc (suc m))),
    )

hex_value-hex_digits :
    (k acc v : ℕ) → hex_value acc (hex_digits k v) ≡ acc * 2 ^ (k * 4) + v % 2 ^ (k * 4)
unfolding hex_digits
hex_value-hex_digits zero acc v = omega arith
hex_value-hex_digits (suc k) acc v =
    let p : ℕ = 2 ^ (k * 4) in
    let digit : digit_value (hex_digit (bit_and (v / p) 15)) ≡ v / p % 16 =
      digit_value-hex_digit _ (omega (arith, bit_and-ones 4 (v / p))) ∙ bit_and-ones 4 (v / p) in
    let up : suc k * 4 ≡ k * 4 + 4 = omega arith in
    let wider : 2 ^ (suc k * 4) ≡ p * 16 = ap (λ z. 2 ^ z) up ∙ four_more (k * 4) in
    hex_value-hex_digits k (acc * 16 + digit_value (hex_digit (bit_and (v / p) 15))) v
    ∙ omega (
      arith,
      ap (λ z. z * p) digit,
      mod-step v p (power_pos (k * 4)),
      ap (λ z. acc * z) wider,
      ap (λ z. v % z) wider,
    )

-- how many of the answers say that the port is ready
unfoldable pub ready : List ℕ → ℕ
ready [] = 0
ready (r ∷ reads) = if bit_and r 0x20 == 0 then ready reads else suc (ready reads)

-- how many bytes a text is on the line, and the writes for it
abbrev bytes : List ℕ → ℕ
bytes [] = 0
bytes (c ∷ cs) = (if c == 10 then 2 else 1) + bytes cs

unfoldable pub sent : List ℕ → List (ℕ × ℕ) → List (ℕ × ℕ)
sent [] ws = ws
sent (c ∷ cs) ws = sent cs (if c == 10 then (com1, c) ∷ (com1, 13) ∷ ws else (com1, c) ∷ ws)

-- The command has made these writes, and the port answers `n` times more that it is ready.
abbrev Made : Option Uart → List (ℕ × ℕ) → ℕ → Type 0
Made r ws n = (w : Uart) × (r ≡ some w) × (w.writes ≡ ws) × (n ≤ ready w.reads)

wait_empty-ready :
    (reads : List ℕ) (n : ℕ)
    → suc n ≤ ready reads
    → (rest : List ℕ) × (wait_empty reads ≡ some rest) × (n ≤ ready rest)
unfolding wait_empty ready
wait_empty-ready [] n le = absurd (omega arith)
wait_empty-ready (r ∷ reads) n le = elim (Bool-cases (bit_and r 0x20 == 0)) [
  | inl busy ↦ rw busy (wait_empty-ready reads n (rw busy at le))
  | inr free ↦ (reads, rw free refl, ground (arith, le, free))
]

send-Made : (v n : ℕ) (u : Uart) → suc n ≤ ready u.reads → Made (send v u) ((com1, v) ∷ u.writes) n
unfolding send
send-Made v n u le =
    let (rest, run, left) = wait_empty-ready u.reads n le in (_, rw (run, send) refl, refl, left)

serial_putc-Made :
    (c n : ℕ) (u : Uart)
    → (if c == 10 then 2 else 1) + n ≤ ready u.reads
    → Made (serial_putc c u) (sent (c ∷ []) u.writes) n
unfolding serial_putc sent
serial_putc-Made c n u le = elim (Bool-cases (c == 10)) [
  | inl line ↦
      let two : suc (suc n) ≤ ready u.reads = ground (arith, le, line) in
      let (w, run, ws, left) = send-Made 13 (suc n) u two in
      let (w', run', ws', left') = send-Made c n w left in
      rw line (w', rw run run', ws' ∙ ap (λ z. (com1, c) ∷ z) ws, left')
  | inr other ↦
      let one : suc n ≤ ready u.reads = ground (arith, le, other) in rw other (send-Made c n u one)
]

serial_write-Made :
    (cs : List ℕ) (n : ℕ) (u : Uart)
    → bytes cs + n ≤ ready u.reads
    → Made (serial_write cs u) (sent cs u.writes) n
unfolding serial_write sent
serial_write-Made [] n u le = (u, refl, refl, omega (arith, le))
serial_write-Made (c ∷ cs) n u le =
    let (w, run, ws, left) = serial_putc-Made c (bytes cs + n) u (omega (arith, le)) in
    let (w', run', ws', left') = serial_write-Made cs n w left in
    (w', rw (run, serial_write) run', ws' ∙ ap (sent cs) ws, left')

all_seen : all_below 16 (λ n. not (hex_digit n == 10)) ≡ true
unfolding all_below hex_digit
all_seen = refl

no_line : (n : ℕ) → n < 16 → (hex_digit n == 10) ≡ false
no_line n lt = ground (arith, all_below_sound 16 (λ n. not (hex_digit n == 10)) n all_seen lt)

bytes-hex_digits : (k v : ℕ) → bytes (hex_digits k v) ≡ k
unfolding hex_digits
bytes-hex_digits zero v = refl
bytes-hex_digits (suc k) v =
    let low : bit_and (v / 2 ^ (k * 4)) 15 < 16 = omega (arith, bit_and-ones 4 (v / 2 ^ (k * 4))) in
    rw (no_line _ low) (omega (arith, bytes-hex_digits k v))

length-hex_digits : (k v : ℕ) → length (hex_digits k v) ≡ k
unfolding hex_digits
length-hex_digits zero v = refl
length-hex_digits (suc k) v = ap suc (length-hex_digits k v)

-- For a 64-bit number, and a port that answers at least 18 times that it is ready, with any number of
-- other answers between them: `serial_write_hex` returns, and has written `0x` and 16 digits to the
-- port in their order, which stand for the number in base 16.
pub serial_write_hex-value :
    (v : ℕ) (u : Uart)
    → v < 2 ^ 64
    → 18 ≤ ready u.reads
    → (w : Uart) × (ds : List ℕ) × (serial_write_hex v u ≡ some w)
      × (w.writes ≡ sent (48 ∷ 120 ∷ ds) u.writes)
      × (length ds ≡ 16)
      × (hex_value 0 ds ≡ v)
unfolding serial_write_hex sent
serial_write_hex-value v u lt le =
    let (w, run, ws, left) = serial_write-Made (codes "0x") 16 u (omega (arith, le)) in
    let (w', run', ws', left') =
      serial_write-Made (hex_digits 16 v) 0 w (omega (arith, left, bytes-hex_digits 16 v)) in
    (
      w',
      hex_digits 16 v,
      rw (run, serial_write_hex) run',
      ws' ∙ ap (sent (hex_digits 16 v)) ws,
      length-hex_digits 16 v,
      hex_value-hex_digits 16 0 v ∙ omega (arith, lt),
    )
