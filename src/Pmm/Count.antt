-- ===== src/Pmm/Count.antt =====
-- src/mm/pmm.c: `used_frames` is the number of set bits, and stays so when a frame is taken or
-- given back.
use arc_monark.Base.{
  ℕ, zero, suc, ◌+◌, ◌/◌, ◌^◌, ◌≤◌, ◌<◌, ◌≡◌, refl, ap, ap₂, ◌∙◌, inl, inr, Bool, true, false, not,
  ◌&&◌, ◌||◌, arith, ◌==◌, Bool-cases, length, length-set,
}
use arc_monark.Pmm.{
  Pmm, set_bit, clear_bit, bmp_set, bmp_clear, bmp_test, take_frame, release_frame,
}
use arc_monark.Pmm.Bitmap.{AreBytes, set-AreBytes, bmp_test-bmp_set, bmp_test-bmp_clear}

-- 1 for a used frame, 0 for a free one
abbrev pub weight : Bool → ℕ
weight true = 1
weight false = 0

-- how many of the frames below `n` are used
unfoldable pub count_used : Pmm → ℕ → ℕ
count_used s zero = 0
count_used s (suc n) = weight (bmp_test s n) + count_used s n

-- The bitmap has a bit for every frame, and `used_frames` is the number of set bits. The bound says
-- that physical addresses fit 64 bits.
pub record IsValid (s : Pmm) : Type 0 where
  pub bytes : AreBytes s.bitmap
  pub size : s.bitmap_size ≡ (s.total_frames + 7) / 8
  pub storage : length s.bitmap ≡ s.bitmap_size
  pub counted : s.used_frames ≡ count_used s s.total_frames
  pub small : s.total_frames ≤ 2 ^ 52

count_used-le : (s : Pmm) (n : ℕ) → count_used s n ≤ n
unfolding count_used
count_used-le s zero = omega arith
count_used-le s (suc n) = ground (arith, count_used-le s n)

-- A change to frames from `n` on does not show below `n`.
count_used-same :
    (s t : Pmm) (n : ℕ)
    → ((g : ℕ) → g < n → bmp_test t g ≡ bmp_test s g)
    → count_used t n ≡ count_used s n
unfolding count_used
count_used-same s t zero h = refl
count_used-same s t (suc n) h =
    ap₂ (λ b k. weight b + k) (h n (omega arith)) (count_used-same s t n (λ g p. h g (omega arith)))

-- Two bitmaps that differ at one frame below `n`, used in `t` and free in `s`.
count_used-suc :
    (s t : Pmm) (n f : ℕ)
    → f < n
    → bmp_test s f ≡ false
    → ((g : ℕ) → bmp_test t g ≡ ((f == g) || bmp_test s g))
    → count_used t n ≡ suc (count_used s n)
unfolding count_used
count_used-suc s t zero f h free differ = absurd (omega arith)
count_used-suc s t (suc n) f h free differ = elim (Bool-cases (f == n)) [
  | inl here ↦ ground (arith, differ n, count_used-same s t n (λ g p. ground (arith, differ g)))
  | inr before ↦ ground (arith, differ n, count_used-suc s t n f)
]

-- `t` is `s` with the frame `f` taken: it was free, it is marked, and nothing else is.
pub record Taken (s t : Pmm) (f : ℕ) : Type 0 where
  pub was_free : bmp_test s f ≡ false
  pub marked : (g : ℕ) → bmp_test t g ≡ ((f == g) || bmp_test s g)
  pub total : t.total_frames ≡ s.total_frames
  pub used : t.used_frames ≡ s.used_frames + 1

-- `t` is `s` with the frame `f` given back.
pub record Released (s t : Pmm) (f : ℕ) : Type 0 where
  pub was_used : bmp_test s f ≡ true
  pub unmarked : (g : ℕ) → bmp_test t g ≡ (not (f == g) && bmp_test s g)
  pub total : t.total_frames ≡ s.total_frames
  pub used : t.used_frames + 1 ≡ s.used_frames

module _ {s : Pmm} (v : IsValid s) where
  pub covered : (f : ℕ) → f < s.total_frames → f / 8 < length s.bitmap
  covered f h = omega (arith, v.size, v.storage)

  pub used_frames-le : s.used_frames ≤ s.total_frames
  used_frames-le = omega (arith, count_used-le s s.total_frames)

  module _ (f : ℕ) (inside : f < s.total_frames) (free : bmp_test s f ≡ false) where
    take_frame-test : (g : ℕ) → bmp_test (take_frame f s) g ≡ ((f == g) || bmp_test s g)
    unfolding take_frame bmp_test
    take_frame-test g = bmp_test-bmp_set s v.bytes f g (covered f inside)

    pub take_frame-Taken : Taken s (take_frame f s) f
    unfolding take_frame
    take_frame-Taken = record {
      was_free = free;
      marked = take_frame-test;
      total = refl;
      used = omega (arith, used_frames-le, v.small);
    }

    pub take_frame-IsValid : IsValid (take_frame f s)
    unfolding take_frame bmp_set set_bit
    take_frame-IsValid = record {
      bytes = set-AreBytes s.bitmap (f / 8) _ v.bytes (omega arith);
      size = v.size;
      storage = length-set s.bitmap (f / 8) _ ∙ v.storage;
      counted = omega (
        arith,
        v.counted,
        used_frames-le,
        v.small,
        count_used-suc s (take_frame f s) s.total_frames f inside free take_frame-test,
      );
      small = v.small;
    }

  module _ (f : ℕ) (inside : f < s.total_frames) (used : bmp_test s f ≡ true) where
    release_frame-test : (g : ℕ) → bmp_test (release_frame f s) g ≡ (not (f == g) && bmp_test s g)
    unfolding release_frame bmp_test
    release_frame-test g = bmp_test-bmp_clear s v.bytes f g (covered f inside)

    release_frame-count :
        count_used s s.total_frames ≡ suc (count_used (release_frame f s) s.total_frames)
    release_frame-count =
        count_used-suc (release_frame f s) s s.total_frames f inside
          (ground (arith, release_frame-test f)) (λ g. ground (arith, release_frame-test g))

    -- `t` is `s` with the frame given back: that frame is free, and nothing else changes.
    pub release_frame-Released : Released s (release_frame f s) f
    unfolding release_frame
    release_frame-Released = record {
      was_used = used;
      unmarked = release_frame-test;
      total = refl;
      used = omega (arith, used_frames-le, v.small, v.counted, release_frame-count);
    }

    pub release_frame-IsValid : IsValid (release_frame f s)
    unfolding release_frame bmp_clear clear_bit
    release_frame-IsValid = record {
      bytes = set-AreBytes s.bitmap (f / 8) _ v.bytes (omega arith);
      size = v.size;
      storage = length-set s.bitmap (f / 8) _ ∙ v.storage;
      counted = omega (arith, v.counted, used_frames-le, v.small, release_frame-count);
      small = v.small;
    }

pub take_frame-hhdm_offset : (s : Pmm) (f : ℕ) → (take_frame f s).hhdm_offset ≡ s.hhdm_offset
unfolding take_frame bmp_set
take_frame-hhdm_offset s f = refl

-- every frame from `lo` to below `hi` is used
abbrev pub AllUsed : Pmm → ℕ → ℕ → Type 0
AllUsed s lo hi = (g : ℕ) → lo ≤ g → g < hi → bmp_test s g ≡ true

-- where all frames but the first are used, the count says so
count_used-AllUsed : (s : Pmm) (n : ℕ) → AllUsed s 1 n → n ≤ count_used s n + 1
unfolding count_used
count_used-AllUsed s zero all = omega arith
count_used-AllUsed s (suc zero) all = omega arith
count_used-AllUsed s (suc (suc n)) all =
    let last : weight (bmp_test s (suc n)) ≡ 1 =
      ap weight (all (suc n) (omega arith) (omega arith)) in
    omega (arith, last, count_used-AllUsed s (suc n) (λ g lo up. all g lo (omega arith)))

pub used_frames-AllUsed :
    {s : Pmm} → IsValid s → AllUsed s 1 s.total_frames → s.total_frames ≤ s.used_frames + 1
used_frames-AllUsed {s} v all = omega (arith, v.counted, count_used-AllUsed s s.total_frames all)
