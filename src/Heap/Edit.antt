-- ===== src/Heap/Edit.antt =====
-- How `kmalloc` of src/mm/heap.c cuts a block in two, and what that does to the list.
use arc_monark.Base.{
  ℕ, ◌+◌, ◌-◌, ◌^◌, ◌≤◌, ◌<◌, ◌≡◌, refl, ◌∙◌, Bool, true, false, Option, some, List, [], ◌∷◌, arith,
  ltb, ltb→le, ==_ne,
}
use arc_monark.Pmm.{add64, sub64}
use arc_monark.Heap.{
  null, Block, sizeof_block, update, Heap, load, store, set_prev, split_block, ◌>>=◌, ◌>>◌,
}
use arc_monark.Heap.Chain.{
  Cell, Edge, edge, first, header, Chain, Chain-le, Chain-frame, relink, relink-same,
}

abbrev pub cell : ℕ → ℕ → Bool → Cell
cell a n f = record { addr = a; size = n; free = f }

module _ {S : Type 0} where
  pub load-ok : (h : Heap S) (p : ℕ) {b : Block} → 0 < p → h.mem p ≡ some b → load p h ≡ some (b, h)
  unfolding load
  load-ok h p pos e = rw (==_ne p null (omega arith), e)

  -- `if (p) p->prev = q;` for the first block behind an edge
  pub set_prev-relink :
      (h : Heap S) (e : Edge) (ys : List Cell) (hi q : ℕ)
      → 0 < e.end
      → Chain h.mem e ys null hi
      → set_prev (first ys null) q h ≡ some (tt, record h { mem = relink h.mem ys q })
  unfolding set_prev store
  set_prev-relink h e [] hi q pos ch = refl
  set_prev-relink h e (c ∷ ys) hi q pos ch =
      rw (==_ne c.addr null (omega arith), load-ok h c.addr (omega arith) ch.0, ◌>>=◌)

  module _ (h : Heap S) (e : Edge) (c : Cell) (post : List Cell) (hi size : ℕ) (pos : 0 < e.end)
      (top : hi < 2 ^ 64) (ch : Chain h.mem e (c ∷ post) null hi) (fits : size ≤ c.size) where
    pub bound : c.addr + sizeof_block + c.size ≤ hi
    bound = Chain-le h.mem (edge c) post null hi ch.5

    remaining : sub64 c.size size ≡ c.size - size
    remaining = omega (arith, bound)

    pub split_block-tight : ltb (c.size - size) 48 ≡ true → split_block c.addr size h ≡ some (tt, h)
    unfolding split_block
    split_block-tight small = rw (load-ok h c.addr (omega arith) ch.0, ◌>>=◌, remaining, small)

    -- the address of the new block, and the memory after the cut
    abbrev pub cut_at : ℕ
    cut_at = c.addr + sizeof_block + size

    abbrev pub cut_size : ℕ
    cut_size = c.size - size - sizeof_block

    abbrev pub cut_new : ℕ → Option Block
    cut_new =
        update h.mem cut_at (some (header (cell cut_at cut_size true) c.addr (first post null)))

    abbrev pub cut_tail : ℕ → Option Block
    cut_tail = relink cut_new post cut_at

    abbrev pub cut_mem : ℕ → Option Block
    cut_mem =
        update cut_tail c.addr
          (some (record { size = size; free = c.free; next = cut_at; prev = e.prev }))

    pub tail-Chain :
        ltb (c.size - size) 48 ≡ false
        → Chain
            (update h.mem cut_at
              (some (header (cell cut_at cut_size true) c.addr (first post null))))
            (edge c)
            post
            null
            hi
    tail-Chain room = Chain-frame h.mem _ (edge c) post null hi (λ a lo up. ground arith) ch.5

    pub cut_tail-here :
        ltb (c.size - size) 48 ≡ false → cut_tail c.addr ≡ some (header c e.prev (first post null))
    cut_tail-here room =
        relink-same _ (edge c) post hi cut_at c.addr (tail-Chain room) (omega arith)
        ∙ (rw (==_ne c.addr cut_at (omega arith)) ch.0)

    -- The block is cut, and the rest is a free block behind it.
    pub split_block-room :
        ltb (c.size - size) 48 ≡ false
        → split_block c.addr size h ≡ some (tt, record h { mem = cut_mem })
    unfolding split_block store
    split_block-room room =
        let at : add64 (add64 c.addr sizeof_block) size ≡ cut_at = omega (arith, bound) in
        let rest : sub64 (c.size - size) sizeof_block ≡ cut_size =
          omega (arith, bound, ltb→le _ _ room) in
        rw (load-ok h c.addr (omega arith) ch.0, ◌>>=◌, remaining, room)
          (rw (at, rest)
            (rw
              (
                set_prev-relink (record h { mem = cut_new }) (edge c) post hi cut_at (omega arith)
                    (tail-Chain room),
                ◌>>◌,
              )
              (rw (
                load-ok (record h { mem = cut_tail }) c.addr (omega arith) (cut_tail-here room),
                ◌>>=◌,
              ))))
