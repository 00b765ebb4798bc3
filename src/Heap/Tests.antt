-- ===== src/Heap/Tests.antt =====
-- The heap on concrete memory, with the frames of the physical memory manager.
use arc_monark.Base.{ℕ, ◌+◌, ◌≡◌, refl, ◌≢◌, true, false, none, some, List, [], ◌∷◌, arith}
use arc_monark.Pmm.{Pmm, pmm_alloc_frame}
use arc_monark.Heap.{null, heap_base, update, PageSource, Heap}
use arc_monark.Heap.Realloc.{Reallocation, krealloc-Reallocated}
use arc_monark.Heap.Pages.{kmalloc, krealloc}
use arc_monark.Heap.Chain.{Cell, header}
use arc_monark.Heap.Edit.{cell}
use arc_monark.Heap.Inv.{live, total, IsHeap}
use arc_monark.Heap.Kfree.{KfreeResult, kfree-Freed}
use arc_monark.Heap.Kmalloc.{Allocation, kmalloc-Outcome}
use arc_monark.Heap.Overflow.{Undersized, kmalloc_wraps}

-- the frames of pmm.c; the page tables are not looked at, and have room
abbrev frames : PageSource
frames = record {
  State = Pmm;
  alloc_frame = pmm_alloc_frame;
  map_page = λ virt phys attributes s. some s;
}

abbrev memory : Pmm
memory = record {
  hhdm_offset = 0xFFFF800000000000;
  bitmap_at = 0xFFFF800000001000;
  bitmap = 11 ∷ 0 ∷ [];
  total_frames = 12;
  used_frames = 3;
  bitmap_size = 2;
}

-- a block of 64 bytes that is given out, and the rest of one page as a free block
abbrev block_1 : Cell
block_1 = cell heap_base 64 false

abbrev block_2 : Cell
block_2 = cell (heap_base + 96) 3968 true

abbrev two_blocks : List Cell
two_blocks = block_1 ∷ block_2 ∷ []

abbrev heap : Heap Pmm
heap = record {
  mem =
      update (update (λ a. none) heap_base (some (header block_1 null (heap_base + 96))))
        (heap_base + 96) (some (header block_2 heap_base null));
  bytes = λ a. 0;
  heap_end = heap_base + 4096;
  head = heap_base;
  used_bytes = 64;
  flags = true;
  pages = memory;
}

used_heap : 64 ≡ total (live two_blocks)
unfolding total live
used_heap = refl

heap-IsHeap : IsHeap heap two_blocks
heap-IsHeap = record {
  chain = (refl, omega arith, refl, refl, refl, (refl, omega arith, refl, refl, refl, omega arith));
  head = refl;
  some_block = omega arith;
  used = used_heap;
  paged = refl;
  top = omega arith;
}

kmalloc-Outcome_example : Allocation frames two_blocks 100 heap (kmalloc frames 100 heap)
kmalloc-Outcome_example =
    kmalloc-Outcome frames heap two_blocks heap-IsHeap 100 (omega arith) (omega arith)

kmalloc_wraps_example :
    (ptr : ℕ) × (h' : Heap Pmm) × (kmalloc frames 0xFFFFFFFFFFFFFFFF heap ≡ some (ptr, h'))
    × (ptr ≢ null)
    × Undersized frames heap two_blocks heap-IsHeap h' 0xFFFFFFFFFFFFFFFF ptr
kmalloc_wraps_example =
    kmalloc_wraps frames heap two_blocks heap-IsHeap 0xFFFFFFFFFFFFFFFF (block_1 ∷ []) block_2 []
      (omega arith) (omega arith) (omega arith) refl refl

kfree-Freed_example : KfreeResult heap [] block_1 (block_2 ∷ [])
kfree-Freed_example = kfree-Freed heap block_1 (block_2 ∷ []) refl [] heap-IsHeap

krealloc-Reallocated_example :
    Reallocation frames heap [] block_1
      (block_2 ∷ [])
      100
      (krealloc frames (heap_base + 32) 100 heap)
krealloc-Reallocated_example =
    krealloc-Reallocated frames heap [] block_1 (block_2 ∷ []) heap-IsHeap refl 100 (omega arith)
      (omega arith)
