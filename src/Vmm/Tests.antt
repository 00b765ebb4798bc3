-- ===== src/Vmm/Tests.antt =====
-- Page tables with an empty root.
use arc_monark.Base.{ℕ, ◌≡◌, refl, subst, true, [], ◌∷◌, arith, ◌==◌, if◌then◌else◌}
use arc_monark.Pmm.{Pmm, bmp_test, test_bit}
use arc_monark.Pmm.Count.{IsValid, count_used}
use arc_monark.Vmm.{Vmm, page_write}
use arc_monark.Vmm.Entry.{is_present-zero}
use arc_monark.Vmm.Tree.{Shape, IsTree}
use arc_monark.Vmm.Map.{MapResult, vmm_map-Mapped}
use arc_monark.Vmm.Unmap.{UnmapResult, vmm_unmap-Unmapped}

-- 12 frames, of which 0, 1 and 3 are used; the root is in frame 3
abbrev memory : Pmm
memory = record {
  hhdm_offset = 0xFFFF800000000000;
  bitmap_at = 0xFFFF800000001000;
  bitmap = 11 ∷ 0 ∷ [];
  total_frames = 12;
  used_frames = 3;
  bitmap_size = 2;
}

memory_counted : 3 ≡ count_used memory 12
unfolding count_used bmp_test test_bit
memory_counted = refl

memory-IsValid : IsValid memory
memory-IsValid = record {
  bytes = (omega arith, (omega arith, tt));
  size = refl;
  storage = refl;
  counted = memory_counted;
  small = omega arith;
}

used_3 : bmp_test memory 3 ≡ true
unfolding bmp_test test_bit
used_3 = refl

abbrev fresh : Vmm
fresh = record {
  words = λ a. 0;
  pmm = memory;
  kernel_pml4 = 0xFFFF800000003000;
  cr3 = 0x3000;
  flushed = [];
}

abbrev alone : Shape
alone = record { level = λ f. if f == 3 then 1 else 0; way = λ f. 0 }

fresh-IsTree : IsTree fresh alone
fresh-IsTree = record {
  frames = memory-IsValid;
  top = omega arith;
  bottom = omega arith;
  some_frame = omega arith;
  few = omega arith;
  inside = λ f p. ground arith;
  used = λ f p. subst (λ g. bmp_test memory g ≡ true) {x = 3} {y = f} (ground arith) used_3;
  down = λ f i p up lt there. cc (there, is_present-zero);
}

abbrev page_at : ℕ
page_at = 0xFFFFA00000000000

vmm_map-Mapped_example : MapResult fresh alone 3 page_at 0x9000 page_write
vmm_map-Mapped_example =
    vmm_map-Mapped fresh alone 3 page_at 0x9000 page_write fresh-IsTree (refl, refl)

vmm_unmap-Unmapped_example : UnmapResult fresh alone 3 page_at
vmm_unmap-Unmapped_example = vmm_unmap-Unmapped fresh alone 3 page_at fresh-IsTree (refl, refl)
