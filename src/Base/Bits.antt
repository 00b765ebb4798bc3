-- ===== src/Base/Bits.antt =====
-- Laws of `&`, `|` and `~` that the kernel's masks need.
use mathlib.Core.Bool.{Bool, true, ◌&&◌}
use mathlib.Core.Path.{◌≡◌, refl, ◌∙◌, sym, ap}
use native.Mathlib.Omega.{arith}
use Prim.Native.Nat.{
  zero, suc, ℕ, bit_and, bit_and-bitwise, bit_or, bit_or-bitwise, digits, min, max, ◌*◌, ◌+◌, ◌%◌,
  ◌/◌, ◌<◌, ◌≤◌,
}

-- Does the test hold of every number below the bound?
unfoldable pub all_below : ℕ → (ℕ → Bool) → Bool
all_below zero test = true
all_below (suc n) test = all_below n test && test n

pub all_below_sound :
    (bound : ℕ) (test : ℕ → Bool) (k : ℕ) → all_below bound test ≡ true → k < bound → test k ≡ true
unfolding all_below
all_below_sound (suc n) test k holds below = ground (arith, all_below_sound n test k)
all_below_sound zero test k holds below = absurd (omega arith)

-- Two numbers joined digit by digit, as the operations on binary digits do, for at most `rounds`
-- digits of the first.
abbrev joined : (ℕ → ℕ) → (ℕ → ℕ → ℕ) → ℕ → ℕ → ℕ → ℕ
joined rest digit x y rounds = digits rest digit rounds x y

-- More rounds than the first number needs make no difference.
joined_spare :
    (rest : ℕ → ℕ) (digit : ℕ → ℕ → ℕ) (x y fewer more : ℕ)
    → x ≤ fewer
    → fewer ≤ more
    → joined rest digit x y more ≡ joined rest digit x y fewer
joined_spare rest digit zero y zero zero enough le = refl
joined_spare rest digit zero y zero (suc more) enough le = refl
joined_spare rest digit zero y (suc fewer) zero enough le = refl
joined_spare rest digit zero y (suc fewer) (suc more) enough le = refl
joined_spare rest digit (suc x) y zero more enough le = absurd (omega arith)
joined_spare rest digit (suc x) y (suc fewer) zero enough le = absurd (omega arith)
joined_spare rest digit (suc x) y (suc fewer) (suc more) enough le =
    ap (λ h. h * 2 + digit (suc x % 2) (y % 2))
      (joined_spare rest digit (suc x / 2) (y / 2) fewer more (omega arith) (omega arith))

-- the lowest digit, and the others
pub bit_and_step : (x y : ℕ) → bit_and x y ≡ bit_and (x / 2) (y / 2) * 2 + min (x % 2) (y % 2)
bit_and_step (suc x) y =
    let higher : joined (λ rest. zero) min (suc x / 2) (y / 2) x ≡ bit_and (suc x / 2) (y / 2) =
      joined_spare (λ rest. zero) min (suc x / 2) (y / 2) (suc x / 2) x (omega arith) (omega arith)
      ∙ sym (bit_and-bitwise (suc x / 2) (y / 2)) in
    omega (arith, higher, bit_and-bitwise (suc x) y)
bit_and_step zero y = omega (arith, bit_and-bitwise 0 (y / 2), bit_and-bitwise 0 y)

pub bit_or_step : (x y : ℕ) → bit_or x y ≡ bit_or (x / 2) (y / 2) * 2 + max (x % 2) (y % 2)
bit_or_step (suc x) y =
    let higher : joined (λ rest. rest) max (suc x / 2) (y / 2) x ≡ bit_or (suc x / 2) (y / 2) =
      joined_spare (λ rest. rest) max (suc x / 2) (y / 2) (suc x / 2) x (omega arith) (omega arith)
      ∙ sym (bit_or-bitwise (suc x / 2) (y / 2)) in
    omega (arith, higher, bit_or-bitwise (suc x) y)
bit_or_step zero y = omega (arith, bit_or-bitwise 0 (y / 2), bit_or-bitwise 0 y)

-- A mask of no ones leaves nothing, by as many steps as the number has digits.
no_ones : (left x : ℕ) → x ≤ left → bit_and x 0 ≡ 0
no_ones zero (suc x) le = absurd (omega arith)
no_ones (suc left) (suc x) le =
    omega (arith, no_ones left (suc x / 2) (omega arith), bit_and_step (suc x) 0)
no_ones left zero le = refl

pub bit_and-zero : (x : ℕ) → bit_and x 0 ≡ 0
bit_and-zero x = no_ones x x (omega arith)

all_kept : (left x : ℕ) → x ≤ left → bit_or x 0 ≡ x
all_kept zero (suc x) le = absurd (omega arith)
all_kept (suc left) (suc x) le =
    omega (arith, all_kept left (suc x / 2) (omega arith), bit_or_step (suc x) 0)
all_kept left zero le = refl

pub bit_or-zero : (x : ℕ) → bit_or x 0 ≡ x
bit_or-zero x = all_kept x x (omega arith)

-- the lowest digit set
pub bit_or-one : (x : ℕ) → bit_or x 1 ≡ x / 2 * 2 + 1
bit_or-one x = omega (arith, bit_or_step x 1, bit_or-zero (x / 2))

pub bit_and-one : (x : ℕ) → bit_and x 1 ≡ x % 2
bit_and-one x = omega (arith, bit_and_step x 1, bit_and-zero (x / 2))

pub bit_or-two : (x : ℕ) → bit_or x 2 ≡ x / 4 * 4 + 2 + x % 2
bit_or-two x = omega (arith, bit_or_step x 2, bit_or-one (x / 2))

pub bit_or-four : (x : ℕ) → bit_or x 4 ≡ x / 8 * 8 + 4 + x % 4
bit_or-four x = omega (arith, bit_or_step x 4, bit_or-two (x / 2))
