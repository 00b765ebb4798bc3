-- ===== src/Pmm/Bitmap.antt =====
-- The bitmap of src/mm/pmm.c as a set of frames.
use arc_monark.Base.{
  ℕ, zero, suc, ◌/◌, ◌%◌, ◌<◌, ◌≡◌, refl, Bool, true, false, not, ◌&&◌, ◌||◌, List, [], ◌∷◌, arith,
  ◌==◌, ==→eq, length, get_or, set, get_or-set_self, get_or-set_ne,
}
use arc_monark.Base.Bits.{all_below, all_below_sound}
use arc_monark.Pmm.{Pmm, byte, set_bit, clear_bit, test_bit, bmp_set, bmp_clear, bmp_test}

-- Equality of truth values as a test.
abbrev pub same : Bool → Bool → Bool
same true b = b
same false b = not b

same→eq : (a b : Bool) → same a b ≡ true → a ≡ b
same→eq a b h = ground arith

-- Every byte, bit and bit, by evaluation.
set_table :
    all_below 256 (λ b.
      all_below 8 λ i. all_below 8 λ j. same (test_bit (set_bit b i) j) ((i == j) || test_bit b j))
    ≡ true
unfolding all_below test_bit set_bit
set_table = refl

clear_table :
    all_below 256 (λ b.
      all_below 8
        λ i. all_below 8 λ j. same (test_bit (clear_bit b i) j) (not (i == j) && test_bit b j))
    ≡ true
unfolding all_below test_bit clear_bit
clear_table = refl

-- Setting a clear bit and clearing it again gives the byte back.
undo_table :
    all_below 256 (λ b. all_below 8 λ i. test_bit b i || (clear_bit (set_bit b i) i == b)) ≡ true
unfolding all_below test_bit clear_bit set_bit
undo_table = refl

module _ (b i j : ℕ) (hb : b < 256) (hi : i < 8) (hj : j < 8) where
  pub test_bit-set_bit : test_bit (set_bit b i) j ≡ ((i == j) || test_bit b j)
  test_bit-set_bit =
      same→eq _ _
        (all_below_sound 8 _ j (all_below_sound 8 _ i (all_below_sound 256 _ b set_table hb) hi) hj)

  pub test_bit-clear_bit : test_bit (clear_bit b i) j ≡ (not (i == j) && test_bit b j)
  test_bit-clear_bit =
      same→eq _ _ (
        all_below_sound 8 _ j (all_below_sound 8 _ i (all_below_sound 256 _ b clear_table hb) hi)
          hj)

pub clear_bit-set_bit :
    (b i : ℕ) → b < 256 → i < 8 → test_bit b i ≡ false → clear_bit (set_bit b i) i ≡ b
clear_bit-set_bit b i hb hi clear =
    ==→eq (rw clear at (all_below_sound 8 _ i (all_below_sound 256 _ b undo_table hb) hi))

-- All bytes are bytes.
abbrev pub AreBytes : List ℕ → Type 0
AreBytes [] = Unit {0}
AreBytes (b ∷ bs) = (b < 256) × AreBytes bs

pub get_or-byte : (bs : List ℕ) (i : ℕ) → AreBytes bs → get_or bs i 0 < 256
get_or-byte [] i h = omega arith
get_or-byte (b ∷ bs) zero h = h.0
get_or-byte (b ∷ bs) (suc i) h = get_or-byte bs i h.1

pub set-AreBytes : (bs : List ℕ) (i v : ℕ) → AreBytes bs → v < 256 → AreBytes (set bs i v)
set-AreBytes [] i v h hv = tt
set-AreBytes (b ∷ bs) zero v h hv = (hv, h.1)
set-AreBytes (b ∷ bs) (suc i) v h hv = (h.0, set-AreBytes bs i v h.1 hv)

-- The frame `f` has a bit in the bitmap.
abbrev pub Covered : Pmm → ℕ → Type 0
Covered s f = f / 8 < length s.bitmap

module _ (s : Pmm) (bytes : AreBytes s.bitmap) (f g : ℕ) (covered : Covered s f) where
  -- In a bitmap of bytes, setting the bit of a frame that it covers marks that frame and no other.
  pub bmp_test-bmp_set : bmp_test (bmp_set f s) g ≡ ((f == g) || bmp_test s g)
  unfolding bmp_test bmp_set
  bmp_test-bmp_set = ground (
    arith,
    test_bit-set_bit (byte s (f / 8)) (f % 8) (g % 8) (get_or-byte s.bitmap (f / 8) bytes)
        (omega arith) (omega arith),
    get_or-set_self s.bitmap (f / 8) (set_bit (byte s (f / 8)) (f % 8)) 0,
    get_or-set_ne s.bitmap (f / 8) (g / 8) (set_bit (byte s (f / 8)) (f % 8)) 0,
  )

  -- In a bitmap of bytes, clearing the bit of a frame that it covers unmarks that frame and no
  -- other.
  pub bmp_test-bmp_clear : bmp_test (bmp_clear f s) g ≡ (not (f == g) && bmp_test s g)
  unfolding bmp_test bmp_clear
  bmp_test-bmp_clear = ground (
    arith,
    test_bit-clear_bit (byte s (f / 8)) (f % 8) (g % 8) (get_or-byte s.bitmap (f / 8) bytes)
        (omega arith) (omega arith),
    get_or-set_self s.bitmap (f / 8) (clear_bit (byte s (f / 8)) (f % 8)) 0,
    get_or-set_ne s.bitmap (f / 8) (g / 8) (clear_bit (byte s (f / 8)) (f % 8)) 0,
  )
