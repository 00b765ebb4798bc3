-- ===== src/Heap/Free.antt =====
-- `kfree` of src/mm/heap.c up to its last step: the block is marked, and joined with the one behind.
use arc_monark.Base.{
  ℕ, ◌+◌, ◌%◌, ◌^◌, ◌≤◌, ◌<◌, ◌≡◌, refl, ◌∙◌, true, false, Option, some, List, [], ◌∷◌, ◌++◌, arith,
  ==_refl, ==_ne,
}
use arc_monark.Pmm.{sub64}
use arc_monark.Heap.{
  null, Block, sizeof_block, alignment, update, Heap, store, ◌>>=◌, ◌>>◌, join_prev, release, kfree,
}
use arc_monark.Heap.Chain.{
  Cell, Edge, edge, edge_after, first, header, Chain, Chain-le, Chain-frame, Chain-edge,
  Chain-split,
}
use arc_monark.Heap.Edit.{cell, load-ok}
use arc_monark.Heap.Inv.{base, live, IsHeap, edge_after-le}
use arc_monark.Heap.Join.{
  loose, next_size, next_cell, next_post, next_mem, JoinedNext, join_next_lem,
}

next_size-aligned :
    (m : ℕ → Option Block) (c : Cell) (e : Edge) (post : List Cell) (hi : ℕ)
    → Chain m e post null hi
    → c.size % alignment ≡ 0
    → next_size c post % alignment ≡ 0
next_size-aligned m c e [] hi ch h = h
next_size-aligned m c e (d ∷ ds) hi ch h = ground arith

pub live-next_post : (post : List Cell) → live (next_post post) ≡ live post
unfolding live
live-next_post [] = refl
live-next_post (d ∷ ds) = ground arith

-- A block in its place: the blocks before it, and what the memory holds from it on.
pub record At {S : Type 0} (h : Heap S) (pre : List Cell) (c : Cell) (post : List Cell)
    : Type 0 where
  pub before : Chain h.mem base pre c.addr (edge_after base pre).end
  pub here : Chain h.mem (edge_after base pre) (c ∷ post) null h.heap_end
  pub high : 0x1000 ≤ c.addr
  pub top : h.heap_end < 2 ^ 64

pub at :
    {S : Type 0} {h : Heap S} {pre : List Cell} {c : Cell} {post : List Cell}
    → IsHeap h (pre ++ c ∷ post)
    → At h pre c post
at {h = h} {pre} {c} {post} v =
    let (left, right) = Chain-split h.mem base pre (c ∷ post) null h.heap_end v.chain in
    record {
      before = left;
      here = right;
      high =
          omega
            (arith, edge_after-le h.mem base pre c.addr (edge_after base pre).end left, right.1);
      top = v.top;
    }

-- `kfree` of a used block is `release`, between the locks.
kfree-release :
    {S : Type 0} (h : Heap S) (b : ℕ) (blk : Block) {h' : Heap S}
    → 0 < b
    → b + sizeof_block < 2 ^ 64
    → h.mem b ≡ some blk
    → blk.free ≡ false
    → release b blk (record h { flags = false }) ≡ some (tt, h')
    → kfree (b + sizeof_block) h ≡ some (tt, record h' { flags = h.flags })
unfolding kfree
kfree-release h b blk {h'} pos top e used runs =
    let block : sub64 (b + sizeof_block) sizeof_block ≡ b = omega arith in
    rw (==_ne (b + sizeof_block) null (omega arith), block)
      (rw (load-ok (record h { flags = false }) b pos e, ◌>>=◌) (simp used (rw (runs, ◌>>◌))))

-- A second `kfree` of a block whose header stands, and `kfree` of NULL, change nothing.
pub kfree-free :
    {S : Type 0} (h : Heap S) (b : ℕ) (blk : Block)
    → 0 < b
    → b + sizeof_block < 2 ^ 64
    → h.mem b ≡ some blk
    → blk.free ≡ true
    → (kfree (b + sizeof_block) h ≡ some (tt, h)) × (kfree null h ≡ some (tt, h))
unfolding kfree
kfree-free h b blk pos top e free =
    let block : sub64 (b + sizeof_block) sizeof_block ≡ b = omega arith in
    (
      rw (==_ne (b + sizeof_block) null (omega arith), block)
          (rw (load-ok (record h { flags = false }) b pos e, ◌>>=◌) (simp free)),
      refl,
    )

-- A used block is marked free and joined with a free block behind it.
abbrev pub freed : Cell → Cell
freed c = cell c.addr c.size true

abbrev pub wide : Cell → List Cell → Cell
wide c post = next_cell (freed c) post

-- the heap with the block marked, and after the join with what is behind it
abbrev pub marked : {S : Type 0} → Heap S → Edge → Cell → List Cell → Heap S
marked h e c post = record h {
  mem = update h.mem c.addr (some (header (freed c) e.prev (first post null)));
  used_bytes = sub64 h.used_bytes c.size;
  flags = false;
}

abbrev pub after : {S : Type 0} → Heap S → Edge → Cell → List Cell → Heap S
after h e c post = record (marked h e c post) {
  mem = next_mem (marked h e c post).mem (freed c) e.prev post;
}

module _ {S : Type 0} (h : Heap S) (e : Edge) (c : Cell) (post : List Cell)
    (here : Chain h.mem e (c ∷ post) null h.heap_end) (high : 0x1000 ≤ c.addr)
    (top : h.heap_end < 2 ^ 64) where
  marked-post : Chain (marked h e c post).mem (loose (freed c)) post null h.heap_end
  marked-post =
      Chain-frame h.mem _ (loose (freed c)) post null h.heap_end
        (λ a lo up. rw (==_ne a c.addr (omega arith)))
        (Chain-edge h.mem (edge c) (loose (freed c)) post null h.heap_end refl (omega arith) refl
          here.5)

  pub joined : JoinedNext (marked h e c post) (freed c) e.prev post h.heap_end
  joined =
      join_next_lem (marked h e c post) (freed c) e.prev h.heap_end (omega arith) top post
        (rw (==_refl c.addr)) marked-post

  pub after-same : (a : ℕ) → a < c.addr → (after h e c post).mem a ≡ h.mem a
  after-same a lt = joined.same a lt ∙ rw (==_ne a c.addr (omega arith))

  pub wide-aligned : (wide c post).size % alignment ≡ 0
  wide-aligned = next_size-aligned h.mem (freed c) (edge c) post h.heap_end here.5 here.4

  -- everything of `kfree` but the last step of `release`
  pub kfree-join_prev :
      {h' : Heap S}
      → c.free ≡ false
      → join_prev c.addr (after h e c post) ≡ some (tt, h')
      → kfree (c.addr + sizeof_block) h ≡ some (tt, record h' { flags = h.flags })
  unfolding release store
  kfree-join_prev {h'} used last =
      kfree-release h c.addr (header c e.prev (first post null)) {h' = h'} (omega arith)
        (omega (arith, Chain-le h.mem (edge c) post null h.heap_end here.5)) here.0 used
        (rw (joined.runs, ◌>>◌) last)
