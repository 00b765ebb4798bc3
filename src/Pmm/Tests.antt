-- ===== src/Pmm/Tests.antt =====
-- The frame allocator on concrete memory.
use arc_monark.Base.{◌≡◌, refl, true, some, List, [], ◌∷◌, arith}
use arc_monark.Pmm.{
  test_bit, alloc_loop, Pmm, take_frame, bmp_test, pmm_alloc_frame, pmm_free_frame,
}
use arc_monark.Pmm.Count.{IsValid, count_used}
use arc_monark.Pmm.Init.{MemEntry}
use arc_monark.Pmm.Alloc.{
  Found, Freed, pmm_alloc_frame-Found, pmm_free_frame-Freed, pmm_free_frame-pmm_alloc_frame,
}

-- 12 frames, of which 0, 1 and 3 are used
abbrev small_memory : Pmm
small_memory = record {
  hhdm_offset = 0xFFFF800000000000;
  bitmap_at = 0xFFFF800000001000;
  bitmap = 11 ∷ 0 ∷ [];
  total_frames = 12;
  used_frames = 3;
  bitmap_size = 2;
}

small_counted : 3 ≡ count_used small_memory 12
unfolding count_used bmp_test test_bit
small_counted = refl

small_memory-IsValid : IsValid small_memory
small_memory-IsValid = record {
  bytes = (omega arith, (omega arith, tt));
  size = refl;
  storage = refl;
  counted = small_counted;
  small = omega arith;
}

alloc_small : pmm_alloc_frame small_memory ≡ (some 8192, take_frame 2 small_memory)
unfolding pmm_alloc_frame alloc_loop bmp_test test_bit
alloc_small = refl

used_3 : bmp_test small_memory 3 ≡ true
unfolding bmp_test test_bit
used_3 = refl

pmm_alloc_frame-Found_example : Found small_memory 1 (pmm_alloc_frame small_memory)
pmm_alloc_frame-Found_example = pmm_alloc_frame-Found small_memory-IsValid (omega arith)

pmm_free_frame-Freed_example :
    Freed small_memory 12288 (pmm_free_frame 12288 small_memory)
    × IsValid (pmm_free_frame 12288 small_memory)
pmm_free_frame-Freed_example = pmm_free_frame-Freed small_memory-IsValid 12288 (omega arith)

pmm_free_frame-pmm_alloc_frame_example :
    pmm_free_frame 8192 (take_frame 2 small_memory) ≡ small_memory
pmm_free_frame-pmm_alloc_frame_example =
    pmm_free_frame-pmm_alloc_frame small_memory-IsValid (omega arith) alloc_small

-- three usable pages from 4096 on
-- usable pages, and a reserved entry that does not begin at a page
abbrev small_map : List MemEntry
small_map =
    record { base = 0x1000; length = 0x3000; kind = 0 }
    ∷ record { base = 0x9FC00; length = 0x400; kind = 1 }
    ∷ []
