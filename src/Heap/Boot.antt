-- ===== src/Heap/Boot.antt =====
-- `heap_init` of src/mm/heap.c.
use arc_monark.Base.{
  ◌+◌, ◌≡◌, refl, ◌⊎◌, inl, inr, Bool, true, false, none, some, [], ◌∷◌, arith, ==_refl, Bool-cases,
}
use arc_monark.Heap.{null, heap_base, update, PageSource, Heap, store, ◌>>=◌}
use arc_monark.Heap.Chain.{Cell, header}
use arc_monark.Heap.Edit.{cell}
use arc_monark.Heap.Inv.{live, total, IsHeap}
use arc_monark.Heap.Grow.{grown, Fails, Grown, grow_pages_lem}
use arc_monark.Heap.Pages.{grow_pages, heap_init}

-- the block that the heap begins with
abbrev pub whole : Cell
whole = cell heap_base 65504 true

module _ (P : PageSource) (h : Heap P.State) where
  abbrev start : Heap P.State
  start = record h { heap_end = heap_base }

  abbrev fresh : P.State → Heap P.State
  fresh pages' = record h {
    mem = update h.mem heap_base (some (header whole null null));
    heap_end = heap_base + 65536;
    head = heap_base;
    used_bytes = 0;
    pages = pages';
  }

  init-faults : grow_pages P 16 start ≡ none → heap_init P h ≡ none
  unfolding heap_init
  init-faults e = rw (e, ◌>>=◌) refl

  init-fails :
      (g : Grown P start 16)
      → g.done ≡ false
      → heap_init P h ≡ some (false, grown P start g.mapped g.pages)
  unfolding heap_init
  init-fails g e = rw (g.runs, ◌>>=◌) (rw e)

  init-works : (g : Grown P start 16) → g.done ≡ true → heap_init P h ≡ some (true, fresh g.pages)
  unfolding heap_init store
  init-works g e = rw (g.runs, ◌>>=◌) (rw (e, g.all e))

  fresh-IsHeap : (s : P.State) → IsHeap (fresh s) (whole ∷ [])
  unfolding live total
  fresh-IsHeap s = record {
    chain = (rw (==_refl heap_base), omega arith, refl, refl, refl, omega arith);
    head = refl;
    some_block = omega arith;
    used = refl;
    paged = refl;
    top = omega arith;
  }

  -- `heap_init` stops the machine for want of frames, or leaves a heap of one free block that spans
  -- the 16 pages, or faults in `vmm_map`.
  pub heap_init-IsHeap :
      Fails P start (heap_init P h)
      ⊎ ((done : Bool) × (h' : Heap P.State) × (heap_init P h ≡ some (done, h'))
          × ((done ≡ false)
              ⊎ ((done ≡ true)
                  × IsHeap h' (whole ∷ [])
                  × (h'.bytes ≡ h.bytes)
                  × (h'.flags ≡ h.flags))))
  heap_init-IsHeap = elim (grow_pages_lem P 16 start (omega arith)) [
    | inl (fault, stops) ↦ inl (fault, init-faults stops)
    | inr g ↦ elim (Bool-cases g.done) [
      | inl works ↦
          inr
            (true, fresh g.pages, init-works g works, inr (refl, fresh-IsHeap g.pages, refl, refl))
      | inr fails ↦ inr (false, grown P start g.mapped g.pages, init-fails g fails, inl refl)
    ]
  ]
