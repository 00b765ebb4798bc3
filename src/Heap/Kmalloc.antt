-- ===== src/Heap/Kmalloc.antt =====
-- `kmalloc` of src/mm/heap.c, on every path.
use arc_monark.Base.{
  ℕ, ◌+◌, ◌*◌, ◌/◌, ◌%◌, ◌^◌, ◌≤◌, ◌<◌, ◌≡◌, refl, sym, ap, subst, ◌∙◌, ◌⊎◌, inl, inr, false,
  Option, none, some, List, ◌∷◌, ◌++◌, arith, ◌==◌, ==_ne,
}
use arc_monark.Heap.{
  null, sizeof_block, PageSource, Heap, rounds, find_fit, walk_fit, ◌>>=◌, align_up,
}
use arc_monark.Heap.Chain.{Cell}
use arc_monark.Heap.Inv.{base, live, IsHeap, length-le}
use arc_monark.Heap.Free.{At, at}
use arc_monark.Heap.Walk.{find_fit-Search, FirstFit}
use arc_monark.Heap.Align.{align_up_16}
use arc_monark.Heap.Grow.{Fails}
use arc_monark.Heap.Append.{Ready}
use arc_monark.Heap.Pages.{extend_heap, use_block, alloc_aligned, kmalloc}
use arc_monark.Heap.Extend.{Extended, extend_heap-Extended}
use arc_monark.Heap.Alloc.{Allocated, Outcome, use_block-Allocated}
use arc_monark.Heap.Pages.{find_block}
use arc_monark.Base.Irq.{Flags}

-- The interrupt flag is no part of what holds of a heap.
pub IsHeap-flags :
    {S : Type 0} (h : Heap S) (xs : List Cell) (f : Flags)
    → IsHeap h xs
    → IsHeap (record h { flags = f }) xs
IsHeap-flags h xs f v = record {
  chain = v.chain;
  head = v.head;
  some_block = v.some_block;
  used = v.used;
  paged = v.paged;
  top = v.top;
}

-- What `kmalloc` comes to: a fault in `vmm_map` on a frame that it is given, or its result.
abbrev pub Allocation :
    (P : PageSource) → List Cell → ℕ → Heap P.State → Option (ℕ × Heap P.State) → Type 0
Allocation P xs size h r =
    Fails P (record h { flags = false }) r
    ⊎ ((ptr : ℕ) × (h' : Heap P.State) × (r ≡ some (ptr, h')) × Outcome h h' xs size ptr)

module _ (P : PageSource) (size : ℕ) (h : Heap P.State) where
  pub walk_fit-runs :
      (r : ℕ) → find_fit (rounds h) h.head size h ≡ some r → walk_fit size h ≡ some (r, h)
  unfolding walk_fit
  walk_fit-runs r e = rw (e, walk_fit)

  pub find_block-hit :
      (r : ℕ)
      → walk_fit size h ≡ some (r, h)
      → (r == null) ≡ false
      → find_block P size h ≡ some (r, h)
  unfolding find_block
  find_block-hit r w ne = rw (w, ◌>>=◌) (rw ne)

  find_block-miss :
      (r : ℕ) (h' : Heap P.State)
      → walk_fit size h ≡ some (null, h)
      → extend_heap P size h ≡ some (r, h')
      → find_block P size h ≡ some (r, h')
  unfolding find_block
  find_block-miss r h' w e = rw (w, ◌>>=◌) e

  find_block-faults :
      walk_fit size h ≡ some (null, h) → extend_heap P size h ≡ none → find_block P size h ≡ none
  unfolding find_block
  find_block-faults w e = rw (w, ◌>>=◌) e

  alloc-faults :
      find_block P size (record h { flags = false }) ≡ none → alloc_aligned P size h ≡ none
  unfolding alloc_aligned
  alloc-faults e = rw (e, ◌>>=◌) refl

  alloc-none :
      (h' : Heap P.State)
      → find_block P size (record h { flags = false }) ≡ some (null, h')
      → alloc_aligned P size h ≡ some (null, record h' { flags = h.flags })
  unfolding alloc_aligned
  alloc-none h' e = rw (e, ◌>>=◌)

  alloc-some :
      (r ptr : ℕ) (h1 h2 : Heap P.State)
      → find_block P size (record h { flags = false }) ≡ some (r, h1)
      → (r == null) ≡ false
      → use_block P r size h1 ≡ some (ptr, h2)
      → alloc_aligned P size h ≡ some (ptr, record h2 { flags = h.flags })
  unfolding alloc_aligned
  alloc-some r ptr h1 h2 e ne u = rw (e, ◌>>=◌) (rw ne (rw (u, ◌>>=◌)))

module _ (P : PageSource) (h : Heap P.State) (xs : List Cell) (v : IsHeap h xs) (size : ℕ)
    (room : h.heap_end + size + 8192 < 2 ^ 64) where
  pub first_Ready : (r : ℕ) → FirstFit size xs r → Ready h h xs size r
  first_Ready r f = record {
    pre = f.pre;
    block = f.found;
    post = f.post;
    valid = subst (IsHeap h) f.whole v;
    address = f.address;
    free = f.free;
    enough = f.size_le;
    kept = ap live (sym f.whole);
    bytes = refl;
    flags = refl;
  }

  pub first_some : (r : ℕ) → FirstFit size xs r → (r == null) ≡ false
  first_some r f =
      let spot : At h f.pre f.found f.post = at (subst (IsHeap h) f.whole v) in
      ==_ne r null (omega (arith, f.address, spot.high))

  -- The search, and the new pages where it finds nothing, give a free block that is large enough, or
  -- NULL where the frames run out, or fault in `vmm_map`.
  find_block-Extended :
      Fails P h (find_block P size h)
      ⊎ ((r : ℕ) × (h' : Heap P.State) × (find_block P size h ≡ some (r, h'))
          × Extended P h xs size r h')
  find_block-Extended =
      let (r, runs, found) =
        find_fit-Search h size (rounds h) base xs h.heap_end v.chain (omega arith)
          (omega (arith, length-le h.mem base xs null h.heap_end v.chain)) in
      let walk : walk_fit size h ≡ some (r, h) =
        walk_fit-runs P size h r (ap (λ p. find_fit (rounds h) p size h) v.head ∙ runs) in
      elim found [
        | inl f ↦ inr (r, h, find_block-hit P size h r walk (first_some r f), inr (first_Ready r f))
        | inr (e, none_fits) ↦
            let missed = subst (λ t. walk_fit size h ≡ some (t, h)) e walk in
            elim (extend_heap-Extended P h xs v size room) [
              | inl (fault, stops) ↦ inl (fault, find_block-faults P size h missed stops)
              | inr (r', h', more, extended) ↦
                  inr (r', h', find_block-miss P size h r' h' missed more, extended)
            ]
      ]

module _ (P : PageSource) (h : Heap P.State) (xs : List Cell) (v : IsHeap h xs) (size : ℕ)
    (aligned : size % 16 ≡ 0) (room : h.heap_end + size + 8192 < 2 ^ 64) where
  abbrev pub locked : Heap P.State
  locked = record h { flags = false }

  -- the block that was found is given out
  pub give :
      (r : ℕ) (h1 : Heap P.State)
      → find_block P size locked ≡ some (r, h1)
      → Ready locked h1 xs size r
      → (ptr : ℕ) × (h' : Heap P.State) × (alloc_aligned P size h ≡ some (ptr, h'))
        × Allocated h h' xs size ptr
  give r h1 runs y =
      let spot : At h1 y.pre y.block y.post = at y.valid in
      let (h2, used, out) =
        use_block-Allocated P h1 y.pre y.block y.post y.valid y.free size aligned y.enough in
      (
        y.block.addr + sizeof_block,
        record h2 { flags = h.flags },
        alloc-some P size h r (y.block.addr + sizeof_block) h1 h2 runs
            (==_ne r null (omega (arith, y.address, spot.high)))
            (subst (λ t. use_block P t size h1 ≡ some (y.block.addr + sizeof_block, h2))
              (sym y.address) used),
        record {
          pre = out.pre;
          block = out.block;
          post = out.post;
          valid = IsHeap-flags h2 (out.pre ++ out.block ∷ out.post) h.flags out.valid;
          address = out.address;
          aligned = out.aligned;
          used = out.used;
          enough = out.enough;
          kept = sym y.kept ∙ out.kept;
          bytes = λ front b back cut i lt.
              out.bytes front b back (y.kept ∙ cut) i lt
              ∙ ap (λ m. m (b.addr + sizeof_block + i)) y.bytes;
          flags = refl;
        },
      )

  alloc_aligned-Outcome : Allocation P xs size h (alloc_aligned P size h)
  alloc_aligned-Outcome =
      elim (find_block-Extended P locked xs (IsHeap-flags h xs false v) size room) [
        | inl (fault, stops) ↦ inl (fault, alloc-faults P size h stops)
        | inr (r, h1, runs, found) ↦ elim found [
          | inl (e, u) ↦ inr (
            null,
            record h1 { flags = h.flags },
            alloc-none P size h h1 (subst (λ t. find_block P size locked ≡ some (t, h1)) e runs),
            inl (
              refl,
              record { valid = IsHeap-flags h1 xs h.flags u.valid; bytes = u.bytes; flags = refl },
            ),
          )
          | inr y ↦ let (ptr, h', gives, a) = give r h1 runs y in inr (ptr, h', gives, inr a)
        ]
      ]

-- a request that leaves the heap room for its pages
abbrev pub HasRoom : {S : Type 0} → Heap S → ℕ → Type 0
HasRoom h request = h.heap_end + request + 16384 < 2 ^ 64

module _ (P : PageSource) (h : Heap P.State) (xs : List Cell) (v : IsHeap h xs) where
  Outcome-le :
      {h' : Heap P.State} {size big ptr : ℕ}
      → size ≤ big
      → Outcome h h' xs big ptr
      → Outcome h h' xs size ptr
  Outcome-le le (inl u) = inl u
  Outcome-le le (inr a) = inr (record {
    pre = a.pre;
    block = a.block;
    post = a.post;
    valid = a.valid;
    address = a.address;
    aligned = a.aligned;
    used = a.used;
    enough = omega (arith, a.enough);
    kept = a.kept;
    bytes = a.bytes;
    flags = a.flags;
  })

  pub kmalloc-aligned :
      (request : ℕ) → 0 < request → kmalloc P request h ≡ alloc_aligned P (align_up request 16) h
  unfolding kmalloc
  kmalloc-aligned request pos = rw (==_ne request 0 (omega arith))

  -- On a well-formed heap, `kmalloc` of a request above 0 that the address space has room for
  -- returns NULL with the blocks as they were, or the address, which 16 divides, behind the
  -- header of a block of at least the size asked for, which is given out now beside the blocks
  -- that were; in both cases the interrupt flag and the bytes of the blocks that were given out
  -- are as before. Or it does not return, and then `vmm_map` faults on a frame that this call has
  -- asked for.
  pub kmalloc-Outcome :
      (request : ℕ)
      → 0 < request
      → HasRoom h request
      → Allocation P xs request h (kmalloc P request h)
  kmalloc-Outcome request pos room =
      let rounded : align_up request 16 ≡ (request + 15) / 16 * 16 =
        align_up_16 request (omega arith) in
      let same = kmalloc-aligned request pos in
      elim (alloc_aligned-Outcome P h xs v (align_up request 16) (omega (arith, rounded))
        (omega (arith, rounded))) [
          | inl (fault, stops) ↦ inl (fault, same ∙ stops)
          | inr (ptr, h', runs, out) ↦
              inr (ptr, h', same ∙ runs, Outcome-le (omega (arith, rounded)) out)
        ]
