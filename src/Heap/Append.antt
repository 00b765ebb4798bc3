-- ===== src/Heap/Append.antt =====
-- `extend_heap` of src/mm/heap.c: where the new block goes.
use arc_monark.Base.{
  ℕ, ◌+◌, ◌-◌, ◌*◌, ◌^◌, ◌≤◌, ◌<◌, ◌≡◌, refl, sym, ap, subst, ◌∙◌, inl, inr, true, false, not,
  Option, some, List, [], ◌∷◌, ◌++◌, append-nil, append_assoc, arith, ==_refl, ==_ne, Bool-cases,
  length-append,
}
use arc_monark.Pmm.{add64, page_size}
use arc_monark.Heap.{
  null, Block, sizeof_block, update, PageSource, Heap, store, rounds, find_last, walk_last, ◌>>=◌,
}
use arc_monark.Heap.Chain.{
  Cell, Edge, edge, edge_after, first, header, Chain, Chain-frame, Chain-append,
}
use arc_monark.Heap.Edit.{cell, load-ok}
use arc_monark.Heap.Inv.{
  base, live, total, IsHeap, live-append, live-free, length-le, first-append_cons,
}
use arc_monark.Heap.Free.{At, at}
use arc_monark.Heap.Pages.{append_block}
use arc_monark.Heap.Grow.{grown}
use arc_monark.Heap.Walk.{find_last-first}
use arc_monark.Heap.Chain.{edge_after-snoc}

-- A heap with a free block of at least `size` bytes, in which the same blocks are given out as in
-- `xs`.
pub record Ready {S : Type 0} (h h' : Heap S) (xs : List Cell) (size : ℕ) (at : ℕ) : Type 0 where
  pub pre : List Cell
  pub block : Cell
  pub post : List Cell
  pub valid : IsHeap h' (pre ++ block ∷ post)
  pub address : at ≡ block.addr
  pub free : block.free ≡ true
  pub enough : size ≤ block.size
  pub kept : live (pre ++ block ∷ post) ≡ live xs
  pub bytes : h'.bytes ≡ h.bytes
  pub flags : h'.flags ≡ h.flags

module _ (P : PageSource) (h : Heap P.State) (ys : List Cell) (l : Cell)
    (v : IsHeap h (ys ++ l ∷ [])) (k : ℕ) (some_page : 0 < k)
    (room : h.heap_end + k * page_size < 2 ^ 64) (pages' : P.State) where
  abbrev size : ℕ
  size = k * page_size - sizeof_block

  abbrev nb : Cell
  nb = cell h.heap_end size true

  abbrev front : Edge
  front = edge_after base ys

  abbrev wider : Heap P.State
  wider = grown P h k pages'

  spot : At h ys l []
  spot = at v

  abbrev raw : ℕ → Option Block
  raw =
      update h.mem h.heap_end (some (record { size = size; free = true; next = null; prev = null }))

  abbrev linked : ℕ → Option Block
  linked =
      update (update raw l.addr (some (header l front.prev h.heap_end))) h.heap_end
        (some (header nb l.addr null))

  last_end : (edge l).end ≤ h.heap_end
  last_end = spot.here.5

  find :
      find_last (rounds (record wider { mem = raw })) h.head (record wider { mem = raw })
      ≡ some l.addr
  find =
      let first_block : h.head ≡ first (ys ++ l ∷ []) null = v.head in
      let last_block : (edge_after base (ys ++ l ∷ [])).prev ≡ l.addr =
        ap (λ (e : Edge). e.prev) (edge_after-snoc base ys l) in
      let chain : Chain raw base (ys ++ l ∷ []) null h.heap_end =
        Chain-frame h.mem raw base (ys ++ l ∷ []) null h.heap_end
          (λ a lo up. rw (==_ne a h.heap_end (omega arith))) v.chain in
      ap (λ p. find_last (rounds (record wider { mem = raw })) p (record wider { mem = raw }))
        first_block
      ∙ (find_last-first (record wider { mem = raw }) (rounds (record wider { mem = raw })) base
            (ys ++ l ∷ []) h.heap_end v.some_block chain
            (omega (arith, length-le raw base (ys ++ l ∷ []) null h.heap_end chain))
          ∙ ap (λ a. some a) last_block)

  found : walk_last (record wider { mem = raw }) ≡ some (l.addr, record wider { mem = raw })
  unfolding walk_last
  found = rw (find, walk_last)

  raw-last : raw l.addr ≡ some (header l front.prev null)
  raw-last = rw (==_ne l.addr h.heap_end (omega (arith, last_end))) spot.here.0

  abbrev half : ℕ → Option Block
  half = update raw l.addr (some (header l front.prev h.heap_end))

  half-new : half h.heap_end ≡ some (record { size = size; free = true; next = null; prev = null })
  half-new = rw (==_ne h.heap_end l.addr (omega (arith, last_end))) (rw (==_refl h.heap_end))

  run_used :
      l.free ≡ false
      → append_block P h.heap_end size wider ≡ some (h.heap_end, record wider { mem = linked })
  unfolding append_block store
  run_used used =
      let busy : not l.free ≡ true = ground arith in
      rw (found, ◌>>=◌)
        (rw (load-ok (record wider { mem = raw }) l.addr (omega (arith, spot.high)) raw-last, ◌>>=◌)
          (rw
            (
              load-ok (record wider { mem = half }) h.heap_end (omega (arith, spot.high, last_end))
                  half-new,
              ◌>>=◌,
            )
            (rw busy)))

  -- the last block with the new one taken in
  abbrev long : Cell
  long = cell l.addr (l.size + (sizeof_block + size)) l.free

  abbrev lengthened : ℕ → Option Block
  lengthened = update linked l.addr (some (header long front.prev null))

  run_free :
      l.free ≡ true
      → append_block P h.heap_end size wider ≡ some (l.addr, record wider { mem = lengthened })
  unfolding append_block store
  run_free free =
      let idle : not l.free ≡ false = ground arith in
      let sum : add64 l.size (add64 sizeof_block size) ≡ l.size + (sizeof_block + size) =
        omega (arith, last_end, v.top) in
      rw (found, ◌>>=◌)
        (rw (load-ok (record wider { mem = raw }) l.addr (omega (arith, spot.high)) raw-last, ◌>>=◌)
          (rw
            (
              load-ok (record wider { mem = half }) h.heap_end (omega (arith, spot.high, last_end))
                  half-new,
              ◌>>=◌,
            )
            (rw (idle, sum))))

  abbrev hi : ℕ
  hi = h.heap_end + k * page_size

  used-Chain : l.free ≡ false → Chain linked base (ys ++ l ∷ nb ∷ []) null hi
  used-Chain used =
      Chain-append linked base ys (l ∷ nb ∷ []) null hi
        (Chain-frame h.mem linked base ys l.addr front.end
          (λ a lo up. rw (
            ==_ne a h.heap_end (omega (arith, spot.here.1, last_end)),
            ==_ne a l.addr (omega (arith, spot.here.1)),
          ))
          spot.before)
        (
          rw (==_ne l.addr h.heap_end (omega (arith, last_end))) (rw (==_refl l.addr)),
          spot.here.1,
          spot.here.2,
          spot.here.3,
          spot.here.4,
          (
            rw (==_refl h.heap_end),
            last_end,
            ground arith,
            omega (arith, v.paged),
            omega arith,
            omega arith,
          ),
        )

  free-Chain : l.free ≡ true → Chain lengthened base (ys ++ long ∷ []) null hi
  free-Chain free =
      Chain-append lengthened base ys (long ∷ []) null hi
        (Chain-frame h.mem lengthened base ys l.addr front.end
          (λ a lo up. rw (
            ==_ne a l.addr (omega (arith, spot.here.1)),
            ==_ne a h.heap_end (omega (arith, spot.here.1, last_end)),
          ))
          spot.before)
        (
          rw (==_refl l.addr),
          spot.here.1,
          spot.here.2,
          spot.here.3,
          omega (arith, spot.here.4),
          omega (arith, last_end),
        )

  used_Ready :
      l.free ≡ false → Ready h (record wider { mem = linked }) (ys ++ l ∷ []) size h.heap_end
  unfolding live
  used_Ready used = record {
    pre = ys ++ l ∷ [];
    block = nb;
    post = [];
    valid = record {
      chain =
          subst (λ t. Chain linked base t null hi) (sym (append_assoc ys (l ∷ []) (nb ∷ [])))
            (used-Chain used);
      head =
          v.head
          ∙ (first-append_cons ys [] l null
              ∙ sym (
                  ap (λ t. first t null) (append_assoc ys (l ∷ []) (nb ∷ []))
                  ∙ first-append_cons ys (nb ∷ []) l null));
      some_block = omega (arith, length-append {0} (ys ++ l ∷ []) (nb ∷ []));
      used = v.used ∙ ap total (sym same_live);
      paged = omega (arith, v.paged);
      top = room;
    };
    address = refl;
    free = refl;
    enough = omega arith;
    kept = same_live;
    bytes = refl;
    flags = refl;
  }
    where
      same_live : live ((ys ++ l ∷ []) ++ nb ∷ []) ≡ live (ys ++ l ∷ [])
      same_live =
          live-append (ys ++ l ∷ []) (nb ∷ [])
          ∙ (ap (λ t. live (ys ++ l ∷ []) ++ t) (live-free nb [] refl)
              ∙ append-nil (live (ys ++ l ∷ [])))

  free_Ready :
      l.free ≡ true → Ready h (record wider { mem = lengthened }) (ys ++ l ∷ []) size l.addr
  free_Ready free = record {
    pre = ys;
    block = long;
    post = [];
    valid = record {
      chain = free-Chain free;
      head = v.head ∙ (first-append_cons ys [] l null ∙ sym (first-append_cons ys [] long null));
      some_block = omega (arith, length-append {0} ys (long ∷ []));
      used = v.used ∙ ap total (sym same_live);
      paged = omega (arith, v.paged);
      top = room;
    };
    address = refl;
    free = free;
    enough = omega arith;
    kept = same_live;
    bytes = refl;
    flags = refl;
  }
    where
      same_live : live (ys ++ long ∷ []) ≡ live (ys ++ l ∷ [])
      same_live =
          live-append ys (long ∷ [])
          ∙ (ap (λ t. live ys ++ t) (live-free long [] free ∙ sym (live-free l [] free))
              ∙ sym (live-append ys (l ∷ [])))

  -- The new pages are put to use, whatever the last block is.
  pub append_block-Ready :
      (r : ℕ) × (h' : Heap P.State) × (append_block P h.heap_end size wider ≡ some (r, h'))
      × Ready h h' (ys ++ l ∷ []) size r
  append_block-Ready = elim (Bool-cases l.free) [
    | inl free ↦ (l.addr, record wider { mem = lengthened }, run_free free, free_Ready free)
    | inr used ↦ (h.heap_end, record wider { mem = linked }, run_used used, used_Ready used)
  ]
