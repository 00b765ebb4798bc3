-- ===== src/Keyboard/Codes.antt =====
-- The scan codes of src/drivers/keyboard.c.
use arc_monark.Base.{
  ℕ, ◌-◌, ◌<◌, ◌≡◌, refl, Bool, true, false, not, ◌||◌, arith, ◌==◌, if◌then◌else◌, ==→eq, get_or,
}
use arc_monark.Base.Bits.{all_below, all_below_sound}
use arc_monark.Keyboard.{scancode_ascii, is_letter, xor, translate}

-- the letter, small or capital
abbrev pub letter : Bool → ℕ → ℕ
letter capital c = if capital then c - 32 else c

-- what is tested of every code
abbrev right : Bool → Bool → ℕ → Bool
right shift caps code =
    let plain : ℕ = get_or scancode_ascii code 0 in
    not (is_letter plain) || (translate shift caps code == letter (xor caps shift) plain)

letters_table : (shift caps : Bool) → all_below 128 (right shift caps) ≡ true
unfolding all_below translate is_letter
letters_table true true = refl
letters_table true false = refl
letters_table false true = refl
letters_table false false = refl

-- A key with a letter gives the capital exactly when one of shift and caps lock is on, and the small
-- letter when none is, or both are.
pub translate-letter :
    (shift caps : Bool) (code : ℕ)
    → code < 128
    → is_letter (get_or scancode_ascii code 0) ≡ true
    → translate shift caps code ≡ letter (xor caps shift) (get_or scancode_ascii code 0)
translate-letter shift caps code lt is =
    ==→eq (or_true is (all_below_sound 128 (right shift caps) code (letters_table shift caps) lt))
  where
    or_true : {a b : Bool} → a ≡ true → (not a || b) ≡ true → b ≡ true
    or_true h e = ground arith
