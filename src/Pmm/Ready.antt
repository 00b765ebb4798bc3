-- ===== src/Pmm/Ready.antt =====
-- `pmm_init` of src/mm/pmm.c from the first loop to the last.
use arc_monark.Base.{ℕ, ◌+◌, ◌/◌, ◌^◌, ◌≤◌, ◌<◌, ◌≡◌, ◌⊎◌, not, ◌||◌, none, some, List, arith}
use arc_monark.Pmm.{Pmm, page_size, add64, bmp_test}
use arc_monark.Pmm.Count.{IsValid}
use arc_monark.Pmm.Init.{MemEntry, highest_top, place_bitmap, page_rounds, pmm_init}
use arc_monark.Pmm.Boot.{within, is_usable, IsMap, NoRoom}
use arc_monark.Pmm.Start.{highest_top-Below, start}

-- the memory manager after `pmm_init`: valid, with the frames that are usable memory free, but for
-- those of the bitmap from frame `b` on
pub record Booted (es : List MemEntry) (offset : ℕ) (b : ℕ) (s : Pmm) : Type 0 where
  pub valid : IsValid s
  pub total : s.total_frames ≡ highest_top es 0 / page_size
  pub free :
      (g : ℕ)
      → g < s.total_frames
      → bmp_test s g
        ≡ (within b (page_rounds (add64 s.total_frames 7 / 8)) g || not (is_usable es g))

abbrev pub BootResult : List MemEntry → ℕ → Type 0
BootResult es offset =
    ((pmm_init (some es) (some offset) ≡ none)
      × NoRoom (add64 (highest_top es 0 / page_size) 7 / 8) es)
    ⊎ ((s : Pmm) × (b : ℕ) × (pmm_init (some es) (some offset) ≡ some s) × Booted es offset b s)

module _ (es : List MemEntry) (offset : ℕ) (m : IsMap es) (high : 0 < offset)
    (room : offset + highest_top es 0 ≤ 2 ^ 64) where
  abbrev frames : ℕ
  frames = highest_top es 0 / page_size

  abbrev bytes : ℕ
  bytes = add64 frames 7 / 8

  abbrev place : ℕ
  place = place_bitmap bytes offset es

  few : frames ≤ 2 ^ 52
  few = omega (arith, (highest_top-Below es 0 m (omega arith)).1)

  first : Pmm
  first = start offset frames place few
