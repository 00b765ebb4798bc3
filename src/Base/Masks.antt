-- ===== src/Base/Masks.antt =====
-- `&` with a run of ones, and with such a run shifted; `|` of numbers whose digits are apart.
use Prim.Native.Nat.{
  ℕ, zero, suc, ◌+◌, ◌-◌, ◌*◌, ◌/◌, ◌%◌, ◌^◌, ◌<◌, bit_and, bit_or, bit_or-bitwise,
}
use mathlib.Core.Path.{◌≡◌, ap, ap₂, ◌∙◌}
use native.Mathlib.Nat.{
  two-pow-succ, div-div-eq-div-mul, div-one, add-mul-mod_self_left, mod-eq_of_lt, mod-lt,
  div-add-mod,
}
use native.Mathlib.Omega.{arith}
use arc_monark.Base.Bits.{bit_and_step, bit_and-zero, bit_or_step}

pow-pos : (k : ℕ) → 0 < 2 ^ k
pow-pos zero = omega arith
pow-pos (suc k) = omega (arith, pow-pos k, two-pow-succ k)

-- the lowest digit of a remainder by twice a number
mod_double : (a p : ℕ) → 0 < p → a % (p + p) ≡ a / 2 % p * 2 + a % 2
mod_double a p pos =
    let low : a / 2 % p < p = mod-lt (a / 2) pos in
    ap (λ t. t % (p + p)) {y = a / 2 % p * 2 + a % 2 + (p + p) * (a / 2 / p)}
      (omega (arith, div-add-mod (a / 2) p))
    ∙ (add-mul-mod_self_left (a / 2 % p * 2 + a % 2) (p + p) (a / 2 / p)
        ∙ mod-eq_of_lt (omega arith))

pub bit_and-ones : (k a : ℕ) → bit_and a (2 ^ k - 1) ≡ a % 2 ^ k
bit_and-ones zero a = omega (arith, bit_and-zero a)
bit_and-ones (suc k) a =
    let pos : 0 < 2 ^ k = pow-pos k in
    let twice : 2 ^ suc k ≡ 2 ^ k + 2 ^ k = two-pow-succ k in
    let half : (2 ^ suc k - 1) / 2 ≡ 2 ^ k - 1 = omega arith in
    omega (
      arith,
      bit_and_step a (2 ^ suc k - 1),
      ap (bit_and (a / 2)) half,
      bit_and-ones k (a / 2),
      mod_double a (2 ^ k) pos,
      ap (λ t. a % t) twice,
    )

bit_and_double : (x m : ℕ) → bit_and x (m + m) ≡ bit_and (x / 2) m * 2
bit_and_double x m =
    omega
      (arith, bit_and_step x (m + m), ap (bit_and (x / 2)) {x = (m + m) / 2} {y = m} (omega arith))

-- A shifted mask shifts.
pub bit_and-shift : (j x m : ℕ) → bit_and x (m * 2 ^ j) ≡ bit_and (x / 2 ^ j) m * 2 ^ j
bit_and-shift zero x m =
    omega
      (arith, ap (bit_and x) {x = m * 1} {y = m} (omega arith), ap (λ t. bit_and t m) (div-one x))
bit_and-shift (suc j) x m =
    let twice : 2 ^ suc j ≡ 2 ^ j + 2 ^ j = two-pow-succ j in
    let mask : m * 2 ^ suc j ≡ m * 2 ^ j + m * 2 ^ j = ap (λ t. m * t) twice ∙ omega arith in
    let divide : x / 2 / 2 ^ j ≡ x / 2 ^ suc j =
      div-div-eq-div-mul x 2 (2 ^ j) ∙ ap (λ t. x / t) (omega arith) in
    omega (
      arith,
      ap (bit_and x) mask,
      bit_and_double x (m * 2 ^ j),
      bit_and-shift j (x / 2) m,
      ap (λ t. bit_and t m * 2 ^ j) divide,
      ap (λ t. bit_and (x / 2 ^ suc j) m * t) twice,
    )

-- a product by twice a power
twice_mul : (k a : ℕ) → a * 2 ^ suc k ≡ a * 2 ^ k + a * 2 ^ k
twice_mul k a = ap (λ t. a * t) (two-pow-succ k) ∙ omega arith

one_times : (a b f : ℕ) → f < 1 → bit_or (a * 1) (b * 1 + f) ≡ bit_or a b
one_times a b f lt =
    let left : a * 1 ≡ a = omega arith in
    let right : b * 1 + f ≡ b = omega arith in ap₂ bit_or left right

nothing_or : (f b : ℕ) → f < 1 → bit_or f (b * 1) ≡ bit_or 0 b
nothing_or f b lt =
    let left : f ≡ 0 = omega arith in let right : b * 1 ≡ b = omega arith in ap₂ bit_or left right

-- digits below those of the other number
pub bit_or-low :
    (k a b f : ℕ) → f < 2 ^ k → bit_or (a * 2 ^ k) (b * 2 ^ k + f) ≡ bit_or a b * 2 ^ k + f
bit_or-low zero a b f lt = omega (arith, one_times a b f (omega arith))
bit_or-low (suc k) a b f lt =
    let x : ℕ = a * 2 ^ suc k in
    let y : ℕ = b * 2 ^ suc k + f in
    let half_x : x / 2 ≡ a * 2 ^ k = omega (arith, twice_mul k a) in
    let half_y : y / 2 ≡ b * 2 ^ k + f / 2 = omega (arith, twice_mul k b) in
    omega (
      arith,
      bit_or_step x y,
      ap₂ bit_or half_x half_y,
      bit_or-low k a b (f / 2) (omega (arith, two-pow-succ k)),
      twice_mul k a,
      twice_mul k b,
      twice_mul k (bit_or a b),
    )

pub bit_or-high : (k b f : ℕ) → f < 2 ^ k → bit_or f (b * 2 ^ k) ≡ b * 2 ^ k + f
bit_or-high zero b f lt = omega (arith, nothing_or f b (omega arith), bit_or-bitwise 0 b)
bit_or-high (suc k) b f lt =
    let y : ℕ = b * 2 ^ suc k in
    let half_y : y / 2 ≡ b * 2 ^ k = omega (arith, twice_mul k b) in
    omega (
      arith,
      bit_or_step f y,
      ap (bit_or (f / 2)) half_y,
      bit_or-high k b (f / 2) (omega (arith, two-pow-succ k)),
      twice_mul k b,
    )
