-- ===== src/Pmm/Start.antt =====
-- `pmm_init` of src/mm/pmm.c before its third loop: every frame is used.
use arc_monark.Base.{
  ℕ, zero, suc, ◌+◌, ◌/◌, ◌%◌, ◌^◌, ◌≤◌, ◌<◌, ◌≡◌, refl, sym, ap, ◌∙◌, true, ◌&&◌, List, [], ◌∷◌,
  arith, ltb, if◌then◌else◌, get_or, replicate, length-replicate,
}
use arc_monark.Base.Bits.{all_below, all_below_sound}
use arc_monark.Pmm.{Pmm, add64, bmp_test, test_bit}
use arc_monark.Pmm.Bitmap.{AreBytes}
use arc_monark.Pmm.Count.{IsValid, count_used, weight}
use arc_monark.Pmm.Init.{MemEntry, usable, highest_top}
use arc_monark.Pmm.Boot.{is_usable, IsMap, Below}

pub highest_top-Below :
    (es : List MemEntry) (h : ℕ)
    → IsMap es
    → h < 2 ^ 64
    → (h ≤ highest_top es h) × (highest_top es h < 2 ^ 64) × Below (highest_top es h / 4096) es
unfolding highest_top
highest_top-Below [] h m lt = (omega arith, lt, tt)
highest_top-Below (e ∷ es) h (whole, apart, m) lt =
    let next : ℕ = if usable e && ltb h (add64 e.base e.length) then add64 e.base e.length else h in
    let bound : (h ≤ next) × (next < 2 ^ 64) × (usable e ≡ true → e.base + e.length ≤ next) =
      ground (arith, whole) in
    let (up, small, low) = highest_top-Below es next m bound.1 in
    (
      omega (arith, bound.0, up),
      small,
      ((λ free. omega (arith, bound.2 free, up, whole free)), low),
    )

pub is_usable-lt :
    (total : ℕ) (es : List MemEntry) (g : ℕ)
    → IsMap es
    → Below total es
    → is_usable es g ≡ true
    → g < total
unfolding is_usable
is_usable-lt total [] g m low h = cc
is_usable-lt total (e ∷ es) g (whole, apart, m) (low, lows) h =
    ground (arith, low, whole, is_usable-lt total es g m lows)

all_set : all_below 8 (test_bit 255) ≡ true
unfolding all_below test_bit
all_set = refl

get_or-replicate : (n i : ℕ) → i < n → ◌≡◌ {A = ℕ} (get_or (replicate n 255) i 0) 255
get_or-replicate zero i lt = absurd (omega arith)
get_or-replicate (suc n) zero lt = refl
get_or-replicate (suc n) (suc i) lt = get_or-replicate n i (omega arith)

replicate-AreBytes : (n : ℕ) → AreBytes (replicate n 255)
replicate-AreBytes zero = tt
replicate-AreBytes (suc n) = (omega arith, replicate-AreBytes n)

module _ (offset total at : ℕ) (small : total ≤ 2 ^ 52) where
  abbrev size : ℕ
  size = add64 total 7 / 8

  abbrev pub start : Pmm
  start = record {
    hhdm_offset = offset;
    bitmap_at = at;
    bitmap = replicate size 0xFF;
    total_frames = total;
    used_frames = total;
    bitmap_size = size;
  }

  pub start_used : (g : ℕ) → g < total → bmp_test start g ≡ true
  unfolding bmp_test
  start_used g lt =
      ap (λ b. test_bit b (g % 8)) (get_or-replicate size (g / 8) (omega arith))
      ∙ all_below_sound 8 (test_bit 255) (g % 8) all_set (omega arith)

  start_count : (n : ℕ) → n ≤ total → count_used start n ≡ n
  unfolding count_used
  start_count zero le = refl
  start_count (suc n) le =
      omega (arith, ap weight (start_used n (omega arith)), start_count n (omega arith))

  pub start-IsValid : IsValid start
  start-IsValid = record {
    bytes = replicate-AreBytes size;
    size = omega arith;
    storage = length-replicate size 255;
    counted = sym (start_count total (omega arith));
    small = small;
  }
