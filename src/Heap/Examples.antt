-- ===== src/Heap/Examples.antt =====
-- Calls of the heap one after another, from its start, with as many frames as it asks for.
use arc_monark.Base.{ℕ, ◌+◌, ◌*◌, ◌≡◌, refl, true, none, some, [], ◌∷◌, arith}
use arc_monark.Heap.{
  heap_base, PageSource, Heap, M, walk_fit, find_fit, align_up, split_block, load, set_prev,
}
use arc_monark.Heap.Pages.{heap_init, grow_pages, kmalloc, alloc_aligned, find_block, use_block}
use arc_monark.Heap.History.{Reach, started, called, kmalloc_block, Sound}
use arc_monark.Heap.Kmalloc.{HasRoom}
use arc_monark.Heap.Held.{Disjoint}
use arc_monark.Heap.Promise.{Reach-Sound, Reach-Disjoint}

-- frame after frame
abbrev plenty : PageSource
plenty = record {
  State = ℕ;
  alloc_frame = λ n. (some (n * 4096), n + 1);
  map_page = λ virt phys attributes n. some n;
}

abbrev nothing : Heap ℕ
nothing = record {
  mem = λ a. none;
  bytes = λ a. 0;
  heap_end = 0;
  head = 0;
  used_bytes = 0;
  flags = true;
  pages = 256;
}

-- the heap that a call leaves, or `h` where it does not return
abbrev after : {A : Type 0} → M ℕ A → Heap ℕ → Heap ℕ
after m h = elim (m h) [ none ↦ h | some (a, h') ↦ h' ]

abbrev heap_0 : Heap ℕ
heap_0 = after (heap_init plenty) nothing

abbrev heap_1 : Heap ℕ
heap_1 = after (kmalloc plenty 100) heap_0

abbrev heap_2 : Heap ℕ
heap_2 = after (kmalloc plenty 8) heap_1

runs_0 : heap_init plenty nothing ≡ some (true, heap_0)
unfolding heap_init grow_pages
runs_0 = refl

-- 112 bytes at the start of the heap, and 16 behind them
runs_1 : kmalloc plenty 100 heap_0 ≡ some (heap_base + 32, heap_1)
unfolding kmalloc alloc_aligned find_block walk_fit find_fit heap_init grow_pages align_up use_block
    split_block load set_prev
runs_1 = refl

runs_2 : kmalloc plenty 8 heap_1 ≡ some (heap_base + 176, heap_2)
unfolding kmalloc alloc_aligned find_block walk_fit find_fit heap_init grow_pages align_up use_block
    split_block load set_prev
runs_2 = refl

room_1 : HasRoom heap_0 100
unfolding heap_init grow_pages
room_1 = omega arith

room_2 : HasRoom heap_1 8
unfolding kmalloc alloc_aligned find_block walk_fit find_fit heap_init grow_pages align_up use_block
    split_block load set_prev
room_2 = omega arith

two_held : Reach plenty heap_2 ((heap_base + 176, 8) ∷ (heap_base + 32, 100) ∷ [])
two_held =
    called
      (called (started nothing heap_0 runs_0)
        (kmalloc_block 100 (heap_base + 32) room_1 (omega arith) runs_1))
      (kmalloc_block 8 (heap_base + 176) room_2 (omega arith) runs_2)

Reach-Sound_example : Sound plenty heap_2 ((heap_base + 176, 8) ∷ (heap_base + 32, 100) ∷ [])
Reach-Sound_example = Reach-Sound plenty two_held

Reach-Disjoint_example : Disjoint ((heap_base + 176, 8) ∷ (heap_base + 32, 100) ∷ [])
Reach-Disjoint_example = Reach-Disjoint plenty two_held
