-- ===== src/Heap/Use.antt =====
-- The end of `kmalloc` in src/mm/heap.c: a free block that is large enough is cut and marked.
use arc_monark.Base.{
  ℕ, ◌+◌, ◌-◌, ◌%◌, ◌^◌, ◌≤◌, ◌<◌, ◌≡◌, refl, ◌∙◌, inl, inr, true, false, Option, some, List, [],
  ◌∷◌, ◌++◌, arith, ltb, if◌then◌else◌, ltb→le, ==_refl, ==_ne, Bool-cases,
}
use arc_monark.Pmm.{add64}
use arc_monark.Heap.{null, Block, sizeof_block, update, Heap, PageSource, store, ◌>>=◌, ◌>>◌}
use arc_monark.Heap.Chain.{
  Cell, Edge, edge, first, header, Chain, Chain-frame, first_free, Chain-edge, Chain-quiet,
  Chain-relink, relink-same,
}
use arc_monark.Heap.Edit.{
  cell, load-ok, bound, split_block-tight, split_block-room, cut_tail, cut_mem, tail-Chain,
}
use arc_monark.Heap.Pages.{use_block}

-- What a free block becomes when `size` bytes of it are taken: itself, or itself cut short and the
-- rest as a free block.
abbrev pub taken : Cell → ℕ → List Cell
taken c size =
    if ltb (c.size - size) 48
    then cell c.addr c.size false ∷ []
    else cell c.addr size false
      ∷ cell (c.addr + sizeof_block + size) (c.size - size - sizeof_block) true
      ∷ []

-- the size of the block that is given out
abbrev pub given : Cell → ℕ → ℕ
given c size = if ltb (c.size - size) 48 then c.size else size

module _ (P : PageSource) (h : Heap P.State) (e : Edge) (c : Cell) (post : List Cell) (hi size : ℕ)
    (pos : 0 < e.end) (top : hi < 2 ^ 64) (ch : Chain h.mem e (c ∷ post) null hi)
    (fits : size ≤ c.size) (aligned : size % 16 ≡ 0) (was_free : c.free ≡ true) where
  -- the memory afterwards
  abbrev pub use_mem : ℕ → Option Block
  use_mem =
      if ltb (c.size - size) 48
      then update h.mem c.addr (some (header (cell c.addr c.size false) e.prev (first post null)))
      else update (cut_mem h e c post hi size pos top ch fits) c.addr (
          some (record {
            size = size;
            free = false;
            next = c.addr + sizeof_block + size;
            prev = e.prev;
          }))

  pub use_block_lem :
      use_block P c.addr size h
      ≡ some (
        c.addr + sizeof_block,
        record h { mem = use_mem; used_bytes = add64 h.used_bytes (given c size) },
      )
  unfolding use_block store
  use_block_lem =
      let ptr : add64 c.addr sizeof_block ≡ c.addr + sizeof_block =
        omega (arith, bound h e c post hi size pos top ch fits) in
      elim (Bool-cases (ltb (c.size - size) 48)) [
        | inl small ↦
            rw (small, ptr)
              (rw (split_block-tight h e c post hi size pos top ch fits small, ◌>>◌)
                (rw (load-ok h c.addr (omega arith) ch.0, ◌>>=◌)))
        | inr room ↦
            rw (room, ptr)
              (rw (split_block-room h e c post hi size pos top ch fits room, ◌>>◌)
                (rw (
                  load-ok (record h { mem = cut_mem h e c post hi size pos top ch fits }) c.addr
                      {b = record {
                        size = size;
                        free = c.free;
                        next = c.addr + sizeof_block + size;
                        prev = e.prev;
                      }}
                      (omega arith) (rw (==_refl c.addr)),
                  ◌>>=◌,
                )))
      ]

  pub use_mem-same : (a : ℕ) → a < e.end → use_mem a ≡ h.mem a
  use_mem-same a lt = elim (Bool-cases (ltb (c.size - size) 48)) [
    | inl small ↦ rw (small, ==_ne a c.addr (omega arith))
    | inr room ↦
        rw (room, ==_ne a c.addr (omega arith))
          (relink-same _ (edge c) post hi _ a (tail-Chain h e c post hi size pos top ch fits room)
              (omega arith)
            ∙ rw (==_ne a (c.addr + sizeof_block + size) (omega arith)))
  ]

  abbrev mark : Cell
  mark = cell c.addr c.size false

  abbrev short : Cell
  short = cell c.addr size false

  abbrev rest : Cell
  rest = cell (c.addr + sizeof_block + size) (c.size - size - sizeof_block) true

  quiet : first_free post ≡ false
  quiet = rw was_free at (Chain-quiet h.mem (edge c) post null hi ch.5)

  tight-Chain :
      Chain
        (update h.mem c.addr (some (header mark e.prev (first post null))))
        e
        (mark ∷ post)
        null
        hi
  tight-Chain = (
    rw (==_refl c.addr),
    ch.1,
    ground arith,
    ch.3,
    ch.4,
    Chain-frame h.mem _ (edge mark) post null hi (λ a lo up. rw (==_ne a c.addr (omega arith)))
        (Chain-edge h.mem (edge c) (edge mark) post null hi refl (omega arith) refl ch.5),
  )

  room-Chain :
      ltb (c.size - size) 48 ≡ false
      → Chain
          (update
            (cut_mem h e c post hi size pos top ch fits)
            c.addr
            (some (header short e.prev (c.addr + sizeof_block + size))))
          e
          (short ∷ rest ∷ post)
          null
          hi
  room-Chain room =
      let tail = tail-Chain h e c post hi size pos top ch fits room in
      (
        rw (==_refl c.addr),
        ch.1,
        ground arith,
        ch.3,
        aligned,
        (
          rw (==_ne (c.addr + sizeof_block + size) c.addr (omega arith)) (
              relink-same _ (edge c) post hi _ (c.addr + sizeof_block + size) tail
                (omega (arith, ltb→le _ _ room))
              ∙ rw (==_refl (c.addr + sizeof_block + size))),
          omega arith,
          refl,
          omega arith,
          omega (arith, ltb→le _ _ room),
          Chain-frame (cut_tail h e c post hi size pos top ch fits) _ (edge rest) post null hi
              (λ a lo up. rw (==_ne a c.addr (omega arith)))
              (Chain-relink _ (edge c) (edge rest) post hi tail (omega (arith, ltb→le _ _ room))
                quiet),
        ),
      )

  pub use_mem-Chain : Chain use_mem e (taken c size ++ post) null hi
  use_mem-Chain = elim (Bool-cases (ltb (c.size - size) 48)) [
    | inl small ↦ rw small tight-Chain
    | inr room ↦ rw room (room-Chain room)
  ]
