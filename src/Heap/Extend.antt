-- ===== src/Heap/Extend.antt =====
-- `extend_heap` of src/mm/heap.c: a free block made of new pages, or NULL.
use arc_monark.Base.{
  ℕ, ◌+◌, ◌-◌, ◌*◌, ◌/◌, ◌%◌, ◌^◌, ◌≤◌, ◌<◌, ◌≡◌, refl, sym, ap, subst, ◌⊎◌, inl, inr, true, false,
  none, some, List, ◌∷◌, ◌++◌, arith, Bool-cases, length,
}
use arc_monark.Pmm.{add64, sub64, page_size}
use arc_monark.Heap.{null, sizeof_block, PageSource, Heap, ◌>>=◌, align_up}
use arc_monark.Heap.Chain.{Cell, snoc-cases, Chain-grow}
use arc_monark.Heap.Inv.{base, live, IsHeap}
use arc_monark.Heap.Align.{align_up_4096}
use arc_monark.Heap.Grow.{grown, Fails, Grown, grow_pages_lem}
use arc_monark.Heap.Append.{Ready, append_block-Ready}
use arc_monark.Heap.Pages.{grow_pages, append_block, extend_heap}

-- The bytes of each of the blocks are as before.
abbrev pub Intact : {S : Type 0} → Heap S → Heap S → List Cell → Type 0
Intact h h' cells =
    (front : List Cell) (b : Cell) (back : List Cell)
    → cells ≡ front ++ b ∷ back
    → (i : ℕ) → i < b.size
    → h'.bytes (b.addr + sizeof_block + i) ≡ h.bytes (b.addr + sizeof_block + i)

-- The heap was left with its blocks as they were, and the bytes of those that are given out.
pub record Unchanged {S : Type 0} (h h' : Heap S) (xs : List Cell) : Type 0 where
  pub valid : IsHeap h' xs
  pub bytes : Intact h h' (live xs)
  pub flags : h'.flags ≡ h.flags

module _ (P : PageSource) where
  -- the outcome of `extend_heap`: no memory, or a free block that is large enough
  abbrev pub Extended : Heap P.State → List Cell → ℕ → ℕ → Heap P.State → Type 0
  Extended h xs size r h' = ((r ≡ null) × Unchanged h h' xs) ⊎ Ready h h' xs size r

  Ready-le :
      {h h' : Heap P.State} {xs : List Cell} {size big at : ℕ}
      → size ≤ big
      → Ready h h' xs big at
      → Ready h h' xs size at
  Ready-le le r = record {
    pre = r.pre;
    block = r.block;
    post = r.post;
    valid = r.valid;
    address = r.address;
    free = r.free;
    enough = omega (arith, r.enough);
    kept = r.kept;
    bytes = r.bytes;
    flags = r.flags;
  }

  module _ (h : Heap P.State) (xs : List Cell) (v : IsHeap h xs) (min_size : ℕ)
      (room : h.heap_end + min_size + 8192 < 2 ^ 64) where
    abbrev pages_needed : ℕ
    pages_needed = (min_size + 32 + 4095) / 4096

    pages_room : h.heap_end + pages_needed * page_size < 2 ^ 64
    pages_room = omega arith

    need : align_up (add64 min_size sizeof_block) page_size / page_size ≡ pages_needed
    need =
        let sum : add64 min_size sizeof_block ≡ min_size + 32 = omega arith in
        rw sum (omega (arith, align_up_4096 (min_size + 32) (omega arith)))

    faults : grow_pages P pages_needed h ≡ none → extend_heap P min_size h ≡ none
    unfolding extend_heap
    faults e = rw need (rw (e, ◌>>=◌) refl)

    short_of_memory :
        (g : Grown P h pages_needed)
        → g.done ≡ false
        → extend_heap P min_size h ≡ some (null, grown P h g.mapped g.pages)
    unfolding extend_heap
    short_of_memory g fails = rw need (rw (g.runs, ◌>>=◌) (rw fails))

    short_Unchanged : (g : Grown P h pages_needed) → Unchanged h (grown P h g.mapped g.pages) xs
    short_Unchanged g = record {
      valid = record {
        chain =
            Chain-grow h.mem base xs null h.heap_end (h.heap_end + g.mapped * page_size)
              (omega arith) v.chain;
        head = v.head;
        some_block = v.some_block;
        used = v.used;
        paged = omega (arith, v.paged);
        top = omega (arith, g.at_most, pages_room);
      };
      bytes = λ front b back cut i lt. refl;
      flags = refl;
    }

    size_lem :
        sub64 (pages_needed * page_size % 2 ^ 64) sizeof_block
        ≡ pages_needed * page_size - sizeof_block
    size_lem = omega (arith, pages_room)

    runs_to :
        (g : Grown P h pages_needed) (r : ℕ) (h' : Heap P.State)
        → g.done ≡ true
        → append_block P h.heap_end
            (pages_needed * page_size - sizeof_block)
            (grown P h pages_needed g.pages)
          ≡ some (r, h')
        → extend_heap P min_size h ≡ some (r, h')
    unfolding extend_heap
    runs_to g r h' works runs =
        rw need (rw (g.runs, ◌>>=◌) (rw (works, g.all works, size_lem) runs))

    enough_memory :
        (g : Grown P h pages_needed)
        → g.done ≡ true
        → (r : ℕ) × (h' : Heap P.State) × (extend_heap P min_size h ≡ some (r, h'))
          × Ready h h' xs min_size r
    enough_memory g works = elim (snoc-cases xs) [
      | inl e ↦ absurd (omega (arith, v.some_block, ap length e))
      | inr (ys, l, e) ↦
          let (r, h', runs, ready) =
            append_block-Ready P h ys l (subst (IsHeap h) e v) pages_needed (omega arith) pages_room
              g.pages in
          (
            r,
            h',
            runs_to g r h' works runs,
            subst (λ t. Ready h h' t min_size r) (sym e) (Ready-le (omega arith) ready),
          )
    ]

    -- On a well-formed heap, for a size that the address space has room for, `extend_heap` gives
    -- a free block of the size asked for, or NULL where the frames run out, or faults in `vmm_map`.
    pub extend_heap-Extended :
        Fails P h (extend_heap P min_size h)
        ⊎ ((r : ℕ) × (h' : Heap P.State) × (extend_heap P min_size h ≡ some (r, h'))
            × Extended h xs min_size r h')
    extend_heap-Extended = elim (grow_pages_lem P pages_needed h pages_room) [
      | inl (fault, stops) ↦ inl (fault, faults stops)
      | inr g ↦ elim (Bool-cases g.done) [
        | inl works ↦
            let (r, h', runs, ready) = enough_memory g works in inr (r, h', runs, inr ready)
        | inr fails ↦ inr (
          null,
          grown P h g.mapped g.pages,
          short_of_memory g fails,
          inl (refl, short_Unchanged g),
        )
      ]
    ]
