-- ===== src/Heap/Align.antt =====
-- `align_up` of src/mm/heap.c: rounding up by a mask, and where it wraps.
use arc_monark.Base.{ℕ, ◌+◌, ◌-◌, ◌*◌, ◌/◌, ◌%◌, ◌^◌, ◌≤◌, ◌<◌, ◌≡◌, arith}
use arc_monark.Base.Masks.{bit_and-ones, bit_and-shift}
use arc_monark.Heap.{align_up}

-- Rounding up to 16 is by division, up to the last 16 numbers that 64 bits hold.
pub align_up_16 : (n : ℕ) → n + 16 ≤ 2 ^ 64 → align_up n 16 ≡ (n + 15) / 16 * 16
unfolding align_up
align_up_16 n h = omega (
  arith,
  bit_and-shift 4
      (((n + 16) % 18446744073709551616 + 18446744073709551616 - 1) % 18446744073709551616)
      (2 ^ 60 - 1),
  bit_and-ones 60
      (((n + 16) % 18446744073709551616 + 18446744073709551616 - 1) % 18446744073709551616 / 16),
)

pub align_up_4096 : (n : ℕ) → n + 4096 ≤ 2 ^ 64 → align_up n 4096 ≡ (n + 4095) / 4096 * 4096
unfolding align_up
align_up_4096 n h = omega (
  arith,
  bit_and-shift 12
      (((n + 4096) % 18446744073709551616 + 18446744073709551616 - 1) % 18446744073709551616)
      (2 ^ 52 - 1),
  bit_and-ones 52 (
      ((n + 4096) % 18446744073709551616 + 18446744073709551616 - 1) % 18446744073709551616 / 4096),
)

-- For the last 15 numbers the sum wraps, and the result is 0.
pub align_up_wraps : (n : ℕ) → 2 ^ 64 < n + 16 → n < 2 ^ 64 → align_up n 16 ≡ 0
unfolding align_up
align_up_wraps n lo hi = omega (
  arith,
  bit_and-shift 4
      (((n + 16) % 18446744073709551616 + 18446744073709551616 - 1) % 18446744073709551616)
      (2 ^ 60 - 1),
  bit_and-ones 60
      (((n + 16) % 18446744073709551616 + 18446744073709551616 - 1) % 18446744073709551616 / 16),
)
