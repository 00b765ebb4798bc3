-- ===== src/Heap/History.antt =====
-- The heap of src/mm/heap.c under any sequence of calls by callers that free and resize only what
-- they hold.
use arc_monark.Base.{
  ℕ, ◌+◌, ◌≤◌, ◌<◌, ◌≡◌, sym, ap, subst, ◌∙◌, ◌≢◌, true, false, some, List, [], ◌∷◌, ◌++◌,
}
use arc_monark.Heap.{null, sizeof_block, PageSource, Heap, kfree}
use arc_monark.Heap.Chain.{Cell}
use arc_monark.Heap.Inv.{live, IsHeap}
use arc_monark.Heap.Free.{at}
use arc_monark.Heap.Kmalloc.{HasRoom}
use arc_monark.Heap.Pages.{heap_init, kmalloc, krealloc}
use arc_monark.Heap.Locate.{Located, live-Located}
use arc_monark.Heap.Held.{Pointer, Held, Held-middle}

module _ (P : PageSource) where
  -- One call of the heap's functions: the heap and the pointers that are held, before and after.
  -- A call of `kmalloc` or `krealloc` leaves room in the address space.
  pub data Call (h : Heap P.State) (hs : List Pointer) (h' : Heap P.State)
      : List Pointer → Type 0 where
    kmalloc_null : (n : ℕ) → HasRoom h n → kmalloc P n h ≡ some (null, h') → Call h hs h' hs
    kmalloc_block :
        (n p : ℕ)
        → HasRoom h n
        → p ≢ null
        → kmalloc P n h ≡ some (p, h')
        → Call h hs h' ((p, n) ∷ hs)
    kfree_null : kfree null h ≡ some (tt, h') → Call h hs h' hs
    kfree_block :
        (ps : List Pointer) (p n : ℕ) (qs : List Pointer)
        → hs ≡ ps ++ (p, n) ∷ qs
        → kfree p h ≡ some (tt, h')
        → Call h hs h' (ps ++ qs)
    krealloc_zero :
        (ps : List Pointer) (p n : ℕ) (qs : List Pointer)
        → hs ≡ ps ++ (p, n) ∷ qs
        → krealloc P p 0 h ≡ some (null, h')
        → Call h hs h' (ps ++ qs)
    krealloc_null :
        (ps : List Pointer) (p n m : ℕ) (qs : List Pointer)
        → hs ≡ ps ++ (p, n) ∷ qs
        → 0 < m
        → HasRoom h m
        → krealloc P p m h ≡ some (null, h')
        → Call h hs h' hs
    krealloc_block :
        (ps : List Pointer) (p n m q : ℕ) (qs : List Pointer)
        → hs ≡ ps ++ (p, n) ∷ qs
        → 0 < m
        → HasRoom h m
        → q ≢ null
        → krealloc P p m h ≡ some (q, h')
        → Call h hs h' ((q, m) ∷ (ps ++ qs))

  -- What `heap_init` and any number of calls after it lead to.
  pub data Reach : Heap P.State → List Pointer → Type 0 where
    started : (h h' : Heap P.State) → heap_init P h ≡ some (true, h') → Reach h' []
    called :
        {h h' : Heap P.State} {hs hs' : List Pointer} → Reach h hs → Call h hs h' hs' → Reach h' hs'

  -- The heap is well formed, and its blocks that are given out are those that the pointers lead to.
  pub record Sound (h : Heap P.State) (hs : List Pointer) : Type 0 where
    pub xs : List Cell
    pub valid : IsHeap h xs
    pub held : Held hs (live xs)

  -- the block of a pointer that is held, in its place in the heap
  pub record Owned (h : Heap P.State) (ps : List Pointer) (p n : ℕ) (qs : List Pointer)
      : Type 0 where
    pub pre : List Cell
    pub c : Cell
    pub post : List Cell
    pub valid : IsHeap h (pre ++ c ∷ post)
    pub used : c.free ≡ false
    pub address : p ≡ c.addr + sizeof_block
    pub enough : n ≤ c.size
    pub others : Held (ps ++ qs) (live pre ++ live post)
    pub all : Held (ps ++ (p, n) ∷ qs) (live (pre ++ c ∷ post))

  pub owned :
      (h : Heap P.State) (ps : List Pointer) (p n : ℕ) (qs : List Pointer)
      → Sound h (ps ++ (p, n) ∷ qs)
      → Owned h ps p n qs
  owned h ps p n qs s =
      let (front, c, back, cut, at, le, rest) = Held-middle ps p n qs (live s.xs) s.held in
      let l : Located s.xs front c back = live-Located s.xs front c back cut in
      record {
        pre = l.pre;
        c = c;
        post = l.post;
        valid = subst (IsHeap h) l.whole s.valid;
        used = l.used;
        address = at;
        all = subst (λ t. Held (ps ++ (p, n) ∷ qs) (live t)) l.whole s.held;
        enough = le;
        others =
            subst (Held (ps ++ qs))
              (ap (λ t. t ++ back) (sym l.live_pre) ∙ ap (λ t. live l.pre ++ t) (sym l.live_post))
              rest;
      }
