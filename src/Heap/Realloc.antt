-- ===== src/Heap/Realloc.antt =====
-- `krealloc` of src/mm/heap.c: the block that it leaves in place, or moves.
use arc_monark.Base.{
  ℕ, ◌+◌, ◌*◌, ◌/◌, ◌^◌, ◌≤◌, ◌<◌, ◌≡◌, refl, subst, ◌⊎◌, inl, inr, true, false, Option, none, some,
  List, ◌∷◌, ◌++◌, arith, ltb, leb, ◌==◌, ==_ne, Bool-cases,
}
use arc_monark.Heap.{null, sizeof_block, PageSource, Heap, kfree, align_up, ◌>>=◌, ◌>>◌}
use arc_monark.Heap.Chain.{Cell, edge, Chain-le}
use arc_monark.Pmm.{sub64}
use arc_monark.Heap.Edit.{load-ok}
use arc_monark.Heap.Inv.{IsHeap}
use arc_monark.Heap.Free.{At, at}
use arc_monark.Heap.Align.{align_up_16}
use arc_monark.Heap.Grow.{Fails}
use arc_monark.Heap.Extend.{Unchanged}
use arc_monark.Heap.Kfree.{Freed, kfree-Freed}
use arc_monark.Heap.Kmalloc.{HasRoom, kmalloc-Outcome}
use arc_monark.Heap.Pages.{copy, kmalloc, krealloc}
use arc_monark.Heap.Move.{Moved, kfree-Moved}

-- What `krealloc` of the block `c` gives: the block stays where it was, or there is no memory and
-- the blocks are as they were, or it was moved.
abbrev pub Reallocated :
    {S : Type 0} → Heap S → Heap S → List Cell → Cell → List Cell → ℕ → ℕ → Type 0
Reallocated h h' pre c post request p =
    ((request ≤ c.size) × (p ≡ c.addr + sizeof_block) × (h' ≡ h))
    ⊎ ((c.size < request)
        × (((p ≡ null) × Unchanged h h' (pre ++ c ∷ post)) ⊎ Moved h h' pre c post request p))

-- What `krealloc` comes to: a fault in `vmm_map` on a frame that it is given, or its result.
abbrev pub Reallocation :
    (P : PageSource)
    → Heap P.State
    → List Cell
    → Cell
    → List Cell
    → ℕ
    → Option (ℕ × Heap P.State)
    → Type 0
Reallocation P h pre c post request r =
    Fails P (record h { flags = false }) r
    ⊎ ((p : ℕ) × (h' : Heap P.State) × (r ≡ some (p, h')) × Reallocated h h' pre c post request p)

module _ (P : PageSource) (h : Heap P.State) (pre : List Cell) (c : Cell) (post : List Cell)
    (v : IsHeap h (pre ++ c ∷ post)) (used : c.free ≡ false) where
  spot : At h pre c post
  spot = at v

  abbrev ptr : ℕ
  ptr = c.addr + sizeof_block

  ptr_small : ptr < 2 ^ 64
  ptr_small = omega (arith, v.top, Chain-le h.mem (edge c) post null h.heap_end spot.here.5)

  block_at : sub64 ptr sizeof_block ≡ c.addr
  block_at = omega (arith, ptr_small)

  not_null : (ptr == null) ≡ false
  not_null = ==_ne ptr null (omega arith)

  module _ (request : ℕ) (pos : 0 < request) (room : HasRoom h request) where
    test_lem : leb (align_up request 16) c.size ≡ leb request c.size
    test_lem =
        let rounded : align_up request 16 ≡ (request + 15) / 16 * 16 =
          align_up_16 request (omega arith) in
        ground (arith, rounded, spot.here.4)

    stays : request ≤ c.size → krealloc P ptr request h ≡ some (ptr, h)
    unfolding krealloc
    stays le =
        let large : leb request c.size ≡ true = ground arith in
        rw (not_null, ==_ne request 0 (omega arith), block_at)
          (rw (load-ok h c.addr (omega (arith, spot.high)) spot.here.0, ◌>>=◌)
            (rw (test_lem, large) refl))

    fails :
        (h1 : Heap P.State)
        → c.size < request
        → kmalloc P request h ≡ some (null, h1)
        → krealloc P ptr request h ≡ some (null, h1)
    unfolding krealloc
    fails h1 lt e =
        let small : leb request c.size ≡ false = ground arith in
        rw (not_null, ==_ne request 0 (omega arith), block_at)
          (rw (load-ok h c.addr (omega (arith, spot.high)) spot.here.0, ◌>>=◌)
            (rw (test_lem, small) (rw (e, ◌>>=◌) refl)))

    moves :
        (np : ℕ) (h1 h2 : Heap P.State)
        → c.size < request
        → kmalloc P request h ≡ some (np, h1)
        → (np == null) ≡ false
        → kfree ptr (record h1 { bytes = copy np ptr c.size h1.bytes }) ≡ some (tt, h2)
        → krealloc P ptr request h ≡ some (np, h2)
    unfolding krealloc
    moves np h1 h2 lt e ne freed =
        let small : leb request c.size ≡ false = ground arith in
        rw (not_null, ==_ne request 0 (omega arith), block_at)
          (rw (load-ok h c.addr (omega (arith, spot.high)) spot.here.0, ◌>>=◌)
            (rw (test_lem, small) (rw (e, ◌>>=◌) (rw ne (rw (freed, ◌>>◌) refl)))))

    faults : c.size < request → kmalloc P request h ≡ none → krealloc P ptr request h ≡ none
    unfolding krealloc
    faults lt e =
        let small : leb request c.size ≡ false = ground arith in
        rw (not_null, ==_ne request 0 (omega arith), block_at)
          (rw (load-ok h c.addr (omega (arith, spot.high)) spot.here.0, ◌>>=◌)
            (rw (test_lem, small) (rw (e, ◌>>=◌) refl)))

    -- `krealloc` of a block that is given out, in a well-formed heap, for a request above 0 that
    -- the address space has room for: where the block has that size, its address is returned and
    -- nothing changes. Otherwise it returns NULL with the blocks as they were, the old one still
    -- given out, or the address of a block of at least the size asked for, which begins with the
    -- bytes of the old one and is given out in its place, in a well-formed heap where all other
    -- blocks that are given out and their bytes are as before; or it does not return, and then
    -- `vmm_map` faults on a frame that this call has asked for.
    pub krealloc-Reallocated : Reallocation P h pre c post request (krealloc P ptr request h)
    krealloc-Reallocated = elim (Bool-cases (ltb c.size request)) [
      | inr large ↦
          let le : request ≤ c.size = ground arith in inr (ptr, h, stays le, inl (le, refl, refl))
      | inl small ↦
          let lt : c.size < request = ground arith in
          elim (kmalloc-Outcome P h (pre ++ c ∷ post) v request pos room) [
            | inl (fault, stops) ↦ inl (fault, faults lt stops)
            | inr (np, h1, runs, out) ↦ elim out [
              | inl (e, u) ↦ inr (
                null,
                h1,
                fails h1 lt (subst (λ t. kmalloc P request h ≡ some (t, h1)) e runs),
                inr (lt, inl (refl, u)),
              )
              | inr a ↦
                  let (h2, freed, m) = kfree-Moved h h1 pre c post request np used a lt in
                  inr (
                    np,
                    h2,
                    moves np h1 h2 lt runs (==_ne np null (omega (arith, a.address))) freed,
                    inr (lt, inr m),
                  )
            ]
          ]
    ]

  -- `krealloc` of NULL is `kmalloc`, and for 0 bytes it frees a block that is given out, in a
  -- well-formed heap, and returns NULL.
  pub krealloc_edges :
      ((request : ℕ) → krealloc P null request h ≡ kmalloc P request h)
      × ((xs : List Cell) × (h' : Heap P.State) × (krealloc P ptr 0 h ≡ some (null, h'))
          × Freed h h' pre post xs)
  unfolding krealloc
  krealloc_edges =
      let (xs, h', runs, f) = kfree-Freed h c post used pre v in
      ((λ request. refl), (xs, h', rw not_null (rw (runs, ◌>>◌) refl), f))
