-- ===== src/Heap/Join.antt =====
-- How `kfree` of src/mm/heap.c joins a free block with its free neighbours.
use arc_monark.Base.{
  ℕ, ◌+◌, ◌^◌, ◌≤◌, ◌<◌, ◌≡◌, refl, sym, subst, ◌∙◌, inl, inr, true, false, not, Option, some, List,
  [], ◌∷◌, arith, if◌then◌else◌, ==_refl, ==_ne, Bool-cases,
}
use arc_monark.Pmm.{add64}
use arc_monark.Heap.{null, Block, sizeof_block, update, Heap, store, ◌>>=◌, join_next, join_prev}
use arc_monark.Heap.Chain.{
  Cell, Edge, edge, first, first_free, header, Chain, Chain-le, Chain-frame, Chain-edge,
  Chain-quiet, Chain-relink, relink, relink-same,
}
use arc_monark.Heap.Edit.{cell, load-ok, set_prev-relink}

-- the edge behind a block, with no word on whether that is free
abbrev pub loose : Cell → Edge
loose c = record { prev = c.addr; free = false; end = c.addr + sizeof_block + c.size }

-- `x` with the block `y` behind it taken in
abbrev pub big : Cell → Cell → Cell
big x y = cell x.addr (x.size + (sizeof_block + y.size)) x.free

-- the memory after `x` has taken in `y`, with the blocks `ts` behind that and the link `px` in front
abbrev pub absorb : (ℕ → Option Block) → Cell → Cell → ℕ → List Cell → ℕ → Option Block
absorb m x y px ts = relink (update m x.addr (some (header (big x y) px (first ts null)))) ts x.addr

module _ (m : ℕ → Option Block) (x y : Cell) (px : ℕ) (ts : List Cell) (hi : ℕ)
    (before : (edge x).end ≤ y.addr) (ch : Chain m (loose y) ts null hi) where
  pub absorb_tail :
      Chain (update m x.addr (some (header (big x y) px (first ts null)))) (loose y) ts null hi
  absorb_tail =
      Chain-frame m _ (loose y) ts null hi (λ a lo up. rw (==_ne a x.addr (omega arith))) ch

  pub absorb-here : absorb m x y px ts x.addr ≡ some (header (big x y) px (first ts null))
  absorb-here =
      relink-same _ (loose y) ts hi x.addr x.addr absorb_tail (omega arith) ∙ rw (==_refl x.addr)

  pub absorb-Chain : Chain (absorb m x y px ts) (loose (big x y)) ts null hi
  absorb-Chain = Chain-relink _ (loose y) (loose (big x y)) ts hi absorb_tail (omega arith) refl

  pub absorb-same : (a : ℕ) → a < x.addr → absorb m x y px ts a ≡ m a
  absorb-same a lt =
      relink-same _ (loose y) ts hi x.addr a absorb_tail (omega arith)
      ∙ rw (==_ne a x.addr (omega arith))

-- what `join_next` makes of a block, of the blocks behind it and of the memory
abbrev pub next_size : Cell → List Cell → ℕ
next_size c [] = c.size
next_size c (d ∷ ds) = if d.free then c.size + (sizeof_block + d.size) else c.size

abbrev pub next_cell : Cell → List Cell → Cell
next_cell c post = cell c.addr (next_size c post) c.free

abbrev pub next_post : List Cell → List Cell
next_post [] = []
next_post (d ∷ ds) = if d.free then ds else d ∷ ds

abbrev pub next_mem : (ℕ → Option Block) → Cell → ℕ → List Cell → ℕ → Option Block
next_mem m c prev [] = m
next_mem m c prev (d ∷ ds) = if d.free then absorb m c d prev ds else m

-- What holds when `join_next` is done: the memory is changed as said, from `c` on, and the block
-- behind is not free.
pub record JoinedNext {S : Type 0} (h : Heap S) (c : Cell) (prev : ℕ) (post : List Cell) (hi : ℕ)
    : Type 0 where
  pub runs : join_next c.addr h ≡ some (tt, record h { mem = next_mem h.mem c prev post })
  pub here :
      next_mem h.mem c prev post c.addr
      ≡ some (header (next_cell c post) prev (first (next_post post) null))
  pub chain : Chain (next_mem h.mem c prev post) (loose (next_cell c post)) (next_post post) null hi
  pub quiet : first_free (next_post post) ≡ false
  pub same : (a : ℕ) → a < c.addr → next_mem h.mem c prev post a ≡ h.mem a

module _ {S : Type 0} (h : Heap S) (c : Cell) (prev hi : ℕ) (pos : 0 < c.addr)
    (top : hi < 2 ^ 64) where
  module _ (d : Cell) (ds : List Cell) (here : h.mem c.addr ≡ some (header c prev d.addr))
      (ch : Chain h.mem (loose c) (d ∷ ds) null hi) where
    behind : Chain h.mem (loose d) ds null hi
    behind = Chain-edge h.mem (edge d) (loose d) ds null hi refl (omega arith) refl ch.5

    join_next-used : d.free ≡ false → JoinedNext h c prev (d ∷ ds) hi
    unfolding join_next
    join_next-used used = record {
      runs = rw used (
          rw (load-ok h c.addr pos here, ◌>>=◌, ==_ne d.addr null (omega arith))
            (rw (load-ok h d.addr (omega arith) ch.0, ◌>>=◌) (rw used)));
      here = rw used here;
      chain =
          subst
            (λ b.
              Chain (if b then absorb h.mem c d prev ds else h.mem)
                (loose
                  (cell c.addr (if b then c.size + (sizeof_block + d.size) else c.size) c.free))
                (if b then ds else d ∷ ds) null hi)
            (sym used) ch;
      quiet = subst (λ b. first_free (if b then ds else d ∷ ds) ≡ false) (sym used) used;
      same = λ a lt. rw used;
    }

    sum_size : add64 c.size (add64 sizeof_block d.size) ≡ c.size + (sizeof_block + d.size)
    sum_size = omega (arith, Chain-le h.mem (edge d) ds null hi ch.5)

    join_next-free : d.free ≡ true → JoinedNext h c prev (d ∷ ds) hi
    unfolding join_next store
    join_next-free free = record {
      runs = rw free (
          rw (load-ok h c.addr pos here, ◌>>=◌, ==_ne d.addr null (omega arith))
            (rw (load-ok h d.addr (omega arith) ch.0, ◌>>=◌)
              (rw (free, sum_size)
                (set_prev-relink
                  (record h {
                    mem = update h.mem c.addr (some (header (big c d) prev (first ds null)));
                  })
                  (loose d) ds hi c.addr (omega arith)
                  (absorb_tail h.mem c d prev ds hi ch.1 behind)))));
      here = rw free (absorb-here h.mem c d prev ds hi ch.1 behind);
      chain = rw free (absorb-Chain h.mem c d prev ds hi ch.1 behind);
      quiet = rw free (rw free at (Chain-quiet h.mem (edge d) ds null hi ch.5));
      same = λ a lt. rw free (absorb-same h.mem c d prev ds hi ch.1 behind a lt);
    }

  pub join_next_lem :
      (post : List Cell)
      → h.mem c.addr ≡ some (header c prev (first post null))
      → Chain h.mem (loose c) post null hi
      → JoinedNext h c prev post hi
  unfolding join_next
  join_next_lem [] here ch = record {
    runs = rw (load-ok h c.addr pos here, ◌>>=◌);
    here = here;
    chain = ch;
    quiet = refl;
    same = λ a lt. refl;
  }
  join_next_lem (d ∷ ds) here ch = elim (Bool-cases d.free) [
    | inl free ↦ join_next-free d ds here ch free
    | inr used ↦ join_next-used d ds here ch used
  ]

-- `join_prev` at the head of the list, behind a used block, and behind a free one
module _ {S : Type 0} (h : Heap S) (c : Cell) (post : List Cell) (hi : ℕ) (pos : 0 < c.addr) where
  pub join_prev-first :
      h.mem c.addr ≡ some (header c null (first post null)) → join_prev c.addr h ≡ some (tt, h)
  unfolding join_prev
  join_prev-first here = rw (load-ok h c.addr pos here, ◌>>=◌)

  module _ (b : Cell) (pb : ℕ) (pos_b : 0 < b.addr)
      (there : h.mem b.addr ≡ some (header b pb c.addr))
      (here : h.mem c.addr ≡ some (header c b.addr (first post null))) where
    pub join_prev-used : b.free ≡ false → join_prev c.addr h ≡ some (tt, h)
    unfolding join_prev
    join_prev-used used =
        rw (load-ok h c.addr pos here, ◌>>=◌, ==_ne b.addr null (omega arith))
          (rw (load-ok h b.addr pos_b there, ◌>>=◌) (rw used))

    pub join_prev-free :
        b.free ≡ true
        → (edge b).end ≤ c.addr
        → hi < 2 ^ 64
        → Chain h.mem (loose c) post null hi
        → join_prev c.addr h ≡ some (tt, record h { mem = absorb h.mem b c pb post })
    unfolding join_prev store
    join_prev-free free before top ch =
        let taken_in : not b.free ≡ false = rw free in
        let size : add64 b.size (add64 sizeof_block c.size) ≡ b.size + (sizeof_block + c.size) =
          omega (arith, Chain-le h.mem (loose c) post null hi ch) in
        rw (load-ok h c.addr pos here, ◌>>=◌, ==_ne b.addr null (omega arith))
          (rw (load-ok h b.addr pos_b there, ◌>>=◌)
            (rw (taken_in, size)
              (set_prev-relink
                (record h {
                  mem = update h.mem b.addr (some (header (big b c) pb (first post null)));
                })
                (loose c) post hi b.addr (omega arith)
                (absorb_tail h.mem b c pb post hi before ch))))
