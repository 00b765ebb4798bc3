-- ===== src/Heap/Move.antt =====
-- A block that `krealloc` of src/mm/heap.c moves: its bytes copied to a new one, and it freed.
use arc_monark.Base.{
  ℕ, ◌+◌, ◌%◌, ◌≤◌, ◌<◌, ◌≡◌, sym, ap, subst, ◌∙◌, ◌⊎◌, inl, inr, false, some, List, ◌∷◌, ◌++◌,
  append_assoc, arith,
}
use arc_monark.Heap.{null, sizeof_block, Heap, kfree}
use arc_monark.Heap.Chain.{Cell, edge}
use arc_monark.Heap.Inv.{base, live, IsHeap, live-append, live-used}
use arc_monark.Heap.Free.{At, at}
use arc_monark.Heap.Alloc.{Allocated}
use arc_monark.Heap.Kfree.{kfree-Freed}
use arc_monark.Heap.Pages.{copy}
use arc_monark.Heap.Extend.{Intact}
use arc_monark.Heap.Held.{Far, AllFar, Far-middle, AllFar-middle, live-AllFar}
use arc_monark.Heap.Locate.{cons_within, Located, live-Located}
use arc_monark.Heap.Copied.{copy-inside, copy-outside, Chain-before}

-- The contents of the memory are no part of what holds of a heap.
IsHeap-bytes :
    {S : Type 0} (h : Heap S) (xs : List Cell) (m : ℕ → ℕ)
    → IsHeap h xs
    → IsHeap (record h { bytes = m }) xs
IsHeap-bytes h xs m v = record {
  chain = v.chain;
  head = v.head;
  some_block = v.some_block;
  used = v.used;
  paged = v.paged;
  top = v.top;
}

-- What holds of the bytes of some blocks holds of fewer.
Intact-without :
    {S : Type 0} (h h' : Heap S) (xs : List Cell) (c : Cell) (ys : List Cell)
    → Intact h h' (xs ++ c ∷ ys)
    → Intact h h' (xs ++ ys)
Intact-without h h' xs c ys all front b back cut i lt =
    elim (cons_within front b back xs ys (sym cut)) [
      | inl (r, left, right) ↦
          all front b (r ++ c ∷ ys)
            (ap (λ t. t ++ c ∷ ys) left ∙ append_assoc front (b ∷ r) (c ∷ ys)) i lt
      | inr (r, left, right) ↦
          all (xs ++ c ∷ r) b back
            (ap (λ t. xs ++ c ∷ t) right ∙ sym (append_assoc xs (c ∷ r) (b ∷ back))) i lt
    ]

-- The block `c` was moved to the address `p`: the block there has the size asked for and begins
-- with the bytes of `c`, and is given out in place of `c`; the bytes of the others are as before.
pub record Moved {S : Type 0} (h h' : Heap S) (pre : List Cell) (c : Cell) (post : List Cell)
    (request p : ℕ) : Type 0 where
  pub xs : List Cell
  pub block : Cell
  pub front : List Cell
  pub back : List Cell
  pub valid : IsHeap h' xs
  pub address : p ≡ block.addr + sizeof_block
  pub aligned : p % 16 ≡ 0
  pub enough : request ≤ block.size
  pub given : live xs ≡ front ++ block ∷ back
  pub kept : live pre ++ live post ≡ front ++ back
  pub contents : (i : ℕ) → i < c.size → h'.bytes (p + i) ≡ h.bytes (c.addr + sizeof_block + i)
  pub others : Intact h h' (live pre ++ live post)
  pub flags : h'.flags ≡ h.flags

-- where `c` stands beside the new block
record Beside (c block : Cell) (pre post whole : List Cell) : Type 0 where
  p : List Cell
  q : List Cell
  front : List Cell
  back : List Cell
  cut : whole ≡ p ++ c ∷ q
  given : live p ++ live q ≡ front ++ block ∷ back
  kept : live pre ++ live post ≡ front ++ back
  apart :
      (c.addr + sizeof_block + c.size ≤ block.addr)
      ⊎ (block.addr + sizeof_block + block.size ≤ c.addr)

module _ {S : Type 0} (h h1 : Heap S) (pre : List Cell) (c : Cell) (post : List Cell)
    (request np : ℕ) (used : c.free ≡ false) (a : Allocated h h1 (pre ++ c ∷ post) request np) where
  abbrev blocks : List Cell
  blocks = a.pre ++ a.block ∷ a.post

  old_live : live (pre ++ c ∷ post) ≡ live pre ++ c ∷ live post
  old_live = live-append pre (c ∷ post) ∙ ap (λ t. live pre ++ t) (live-used c post used)

  live_before : live pre ++ c ∷ live post ≡ live a.pre ++ live a.post
  live_before = sym old_live ∙ a.kept

  before-Beside :
      (r : List Cell)
      → live a.pre ≡ live pre ++ c ∷ r
      → live post ≡ r ++ live a.post
      → Beside c a.block pre post blocks
  before-Beside r left right =
      let l : Located a.pre (live pre) c r = live-Located a.pre (live pre) c r left in
      let cut : blocks ≡ l.pre ++ c ∷ (l.post ++ a.block ∷ a.post) =
        ap (λ t. t ++ a.block ∷ a.post) l.whole
        ∙ append_assoc l.pre (c ∷ l.post) (a.block ∷ a.post) in
      let spot : At h1 l.pre c (l.post ++ a.block ∷ a.post) = at (subst (IsHeap h1) cut a.valid) in
      record {
        p = l.pre;
        q = l.post ++ a.block ∷ a.post;
        front = live pre ++ r;
        back = live a.post;
        cut = cut;
        given =
            ap (λ t. t ++ live (l.post ++ a.block ∷ a.post)) l.live_pre
            ∙ (ap (λ t. live pre ++ t)
                  (live-append l.post (a.block ∷ a.post)
                    ∙ (ap (λ t. t ++ live (a.block ∷ a.post)) l.live_post
                        ∙ ap (λ t. r ++ t) (live-used a.block a.post a.used)))
                ∙ sym (append_assoc (live pre) r (a.block ∷ live a.post)));
        kept = ap (λ t. live pre ++ t) right ∙ sym (append_assoc (live pre) r (live a.post));
        apart =
            inl (Chain-before h1.mem (edge c) l.post a.block a.post null h1.heap_end spot.here.5);
      }

  behind-Beside :
      (r : List Cell)
      → live pre ≡ live a.pre ++ r
      → live a.post ≡ r ++ c ∷ live post
      → Beside c a.block pre post blocks
  behind-Beside r left right =
      let l : Located a.post r c (live post) = live-Located a.post r c (live post) right in
      let cut : blocks ≡ (a.pre ++ a.block ∷ l.pre) ++ c ∷ l.post =
        ap (λ t. a.pre ++ a.block ∷ t) l.whole
        ∙ sym (append_assoc a.pre (a.block ∷ l.pre) (c ∷ l.post)) in
      let spot : At h1 a.pre a.block (l.pre ++ c ∷ l.post) =
        at (subst (λ t. IsHeap h1 (a.pre ++ a.block ∷ t)) l.whole a.valid) in
      record {
        p = a.pre ++ a.block ∷ l.pre;
        q = l.post;
        front = live a.pre;
        back = r ++ live post;
        cut = cut;
        given =
            ap (λ t. t ++ live l.post)
              (live-append a.pre (a.block ∷ l.pre)
                ∙ ap (λ t. live a.pre ++ t)
                    (live-used a.block l.pre a.used ∙ ap (λ t. a.block ∷ t) l.live_pre))
            ∙ (append_assoc (live a.pre) (a.block ∷ r) (live l.post)
                ∙ ap (λ t. live a.pre ++ a.block ∷ (r ++ t)) l.live_post);
        kept = ap (λ t. t ++ live post) left ∙ append_assoc (live a.pre) r (live post);
        apart =
            inr (Chain-before h1.mem (edge a.block) l.pre c l.post null h1.heap_end spot.here.5);
      }

  located : Beside c a.block pre post blocks
  located = elim (cons_within (live pre) c (live post) (live a.pre) (live a.post) live_before) [
    | inl (r, left, right) ↦ before-Beside r left right
    | inr (r, left, right) ↦ behind-Beside r left right
  ]

  -- the heap after `memcpy`
  abbrev copied : Heap S
  copied = record h1 { bytes = copy np (c.addr + sizeof_block) c.size h1.bytes }

  pub kfree-Moved :
      c.size < request
      → (h2 : Heap S) × (kfree (c.addr + sizeof_block) copied ≡ some (tt, h2))
        × Moved h h2 pre c post request np
  kfree-Moved lt =
      let l : Beside c a.block pre post blocks = located in
      let v : IsHeap copied (l.p ++ c ∷ l.q) =
        subst (IsHeap copied) l.cut (IsHeap-bytes h1 blocks copied.bytes a.valid) in
      let (xs, h2, runs, f) = kfree-Freed copied c l.q used l.p v in
      (
        h2,
        runs,
        record {
          xs = xs;
          block = a.block;
          front = l.front;
          back = l.back;
          valid = f.valid;
          address = a.address;
          aligned = a.aligned;
          enough = a.enough;
          given = f.kept ∙ l.given;
          kept = l.kept;
          contents = λ i small.
              ap (λ m. m (np + i)) f.bytes
              ∙ (copy-inside np (c.addr + sizeof_block) c.size i h1.bytes
                    (ground (arith, l.apart, a.address)) small
                  ∙ a.bytes (live pre) c (live post) old_live i small);
          others = λ front b back cut i small.
              let x : ℕ = b.addr + sizeof_block + i in
              let far = Far-middle a.block front b back (
                subst (Far a.block) (sym l.kept ∙ cut)
                  (AllFar-middle l.front a.block l.back (
                    subst AllFar (f.kept ∙ l.given)
                      (live-AllFar h2.mem base xs null h2.heap_end f.valid.chain))).0) in
              ap (λ m. m x) f.bytes
              ∙ (copy-outside np (c.addr + sizeof_block) c.size x h1.bytes
                    (ground (arith, far, a.enough, a.address, lt))
                  ∙ Intact-without h h1 (live pre) c (live post)
                      (subst (Intact h h1) old_live a.bytes) front b back cut i small);
          flags = f.flags ∙ a.flags;
        },
      )
