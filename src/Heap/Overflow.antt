-- ===== src/Heap/Overflow.antt =====
-- The overflow in `kmalloc` of src/mm/heap.c, where it rounds the size up.
use arc_monark.Base.{
  ℕ, ◌+◌, ◌^◌, ◌<◌, ◌≡◌, refl, ap, subst, ◌∙◌, ◌≢◌, inl, inr, true, false, some, List, [], ◌∷◌,
  ◌++◌, arith,
}
use arc_monark.Heap.{null, sizeof_block, PageSource, Heap, rounds, find_fit, align_up}
use arc_monark.Heap.Chain.{Cell, edge, Chain-le}
use arc_monark.Heap.Inv.{base, IsHeap, length-le}
use arc_monark.Heap.Free.{At, at}
use arc_monark.Heap.Walk.{find_fit-Search, NoneFits}
use arc_monark.Heap.Align.{align_up_wraps}
use arc_monark.Heap.Pages.{alloc_aligned, kmalloc}
use arc_monark.Heap.Alloc.{Allocated}
use arc_monark.Heap.Kmalloc.{
  IsHeap-flags, locked, give, first_some, first_Ready, walk_fit-runs, find_block-hit,
  kmalloc-aligned,
}

module _ (P : PageSource) (h : Heap P.State) (xs : List Cell) (v : IsHeap h xs) where
  -- Among blocks of which one is free, the search for no bytes finds one.
  free-NoneFits :
      (pre : List Cell) (c : Cell) (post : List Cell)
      → c.free ≡ true
      → NoneFits 0 (pre ++ c ∷ post)
      → ⊥
  free-NoneFits [] c post free (no_fit, rest) = absurd (ground (arith, free, no_fit))
  free-NoneFits (x ∷ pre) c post free (no_fit, rest) = free-NoneFits pre c post free rest

  -- What is given out is smaller than what was asked for.
  pub record Undersized (h' : Heap P.State) (request ptr : ℕ) : Type 0 where
    pub pre : List Cell
    pub block : Cell
    pub post : List Cell
    pub valid : IsHeap h' (pre ++ block ∷ post)
    pub address : ptr ≡ block.addr + sizeof_block
    pub used : block.free ≡ false
    pub short : block.size < request

  block-Undersized :
      (h' : Heap P.State) (request ptr : ℕ)
      → 2 ^ 64 < request + 16
      → Allocated h h' xs 0 ptr
      → Undersized h' request ptr
  block-Undersized h' request ptr lo a =
      let spot : At h' a.pre a.block a.post = at a.valid in
      let end = Chain-le h'.mem (edge a.block) a.post null h'.heap_end spot.here.5 in
      record {
        pre = a.pre;
        block = a.block;
        post = a.post;
        valid = a.valid;
        address = a.address;
        used = a.used;
        short = omega (arith, end, spot.high, spot.top);
      }

  -- On a well-formed heap that has a free block and whose end leaves room for two more pages, a request
  -- within 15 bytes of 2^64 wraps to 0 when it is rounded up: `kmalloc` does not return NULL, but the
  -- address of a block that it gives out and that is smaller than the request.
  pub kmalloc_wraps :
      (request : ℕ) (pre : List Cell) (c : Cell) (post : List Cell)
      → 2 ^ 64 < request + 16
      → request < 2 ^ 64
      → h.heap_end + 8192 < 2 ^ 64
      → xs ≡ pre ++ c ∷ post
      → c.free ≡ true
      → (ptr : ℕ) × (h' : Heap P.State) × (kmalloc P request h ≡ some (ptr, h'))
        × (ptr ≢ null)
        × Undersized h' request ptr
  kmalloc_wraps request pre c post lo hi room cut free =
      let wraps : align_up request 16 ≡ 0 = align_up_wraps request lo hi in
      let same =
        kmalloc-aligned P h xs v request (omega arith) ∙ ap (λ t. alloc_aligned P t h) wraps in
      let low = locked P h xs v 0 refl (omega (arith, room)) in
      let v' : IsHeap low xs = IsHeap-flags h xs false v in
      let (r, runs, found) =
        find_fit-Search low 0 (rounds low) base xs h.heap_end v.chain (omega arith)
          (omega (arith, length-le h.mem base xs null h.heap_end v.chain)) in
      elim found [
        | inr (e, none_fits) ↦
            absurd (free-NoneFits pre c post free (subst (NoneFits 0) cut none_fits))
        | inl f ↦
            let hit =
              find_block-hit P 0 low r
                (walk_fit-runs P 0 low r (ap (λ p. find_fit (rounds low) p 0 low) v.head ∙ runs))
                (first_some P low xs v' 0 (omega (arith, room)) r f) in
            let (ptr, h', gives, a) =
              give P h xs v 0 refl (omega (arith, room)) r low hit
                (first_Ready P low xs v' 0 (omega (arith, room)) r f) in
            (
              ptr,
              h',
              same ∙ gives,
              (λ e. absurd (omega (arith, a.address, e))),
              block-Undersized h' request ptr lo a,
            )
      ]
