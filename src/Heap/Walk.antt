-- ===== src/Heap/Walk.antt =====
-- The two walks along the list of src/mm/heap.c: the search for a block that fits, and for the last.
use arc_monark.Base.{
  ℕ, zero, suc, ◌≤◌, ◌<◌, ◌≡◌, refl, ap, ◌⊎◌, inl, inr, Bool, true, false, ◌&&◌, some, List, [],
  ◌∷◌, ◌++◌, arith, leb, Bool-cases, length,
}
use arc_monark.Heap.{null, Heap, find_fit, find_last}
use arc_monark.Heap.Chain.{Cell, Edge, edge, edge_after, first, Chain}

-- the test that `kmalloc` makes of a block
abbrev pub fits : ℕ → Cell → Bool
fits size c = c.free && leb size c.size

abbrev pub NoneFits : ℕ → List Cell → Type 0
NoneFits size [] = Unit {0}
NoneFits size (c ∷ xs) = (fits size c ≡ false) × NoneFits size xs

-- The block at `r` is the first of `xs` that fits.
pub record FirstFit (size : ℕ) (xs : List Cell) (r : ℕ) : Type 0 where
  pub pre : List Cell
  pub found : Cell
  pub post : List Cell
  pub whole : xs ≡ pre ++ found ∷ post
  pub address : r ≡ found.addr
  pub free : found.free ≡ true
  pub size_le : size ≤ found.size
  pub earlier : NoneFits size pre

-- What the search gives: the first block that fits, or NULL where none does.
abbrev pub Search : ℕ → List Cell → ℕ → Type 0
Search size xs r = FirstFit size xs r ⊎ ((r ≡ null) × NoneFits size xs)

Search-cons :
    (size : ℕ) (c : Cell) (xs : List Cell) (r : ℕ)
    → fits size c ≡ false
    → Search size xs r
    → Search size (c ∷ xs) r
Search-cons size c xs r miss (inl f) = inl (record {
  pre = c ∷ f.pre;
  found = f.found;
  post = f.post;
  whole = ap (λ t. c ∷ t) f.whole;
  address = f.address;
  free = f.free;
  size_le = f.size_le;
  earlier = (miss, f.earlier);
})
Search-cons size c xs r miss (inr (e, all)) = inr (e, (miss, all))

module _ {S : Type 0} (h : Heap S) (size : ℕ) where
  -- On a list of fewer blocks than rounds, the search ends within its rounds, and finds the first
  -- block that fits, or none.
  pub find_fit-Search :
      (k : ℕ) (e : Edge) (xs : List Cell) (hi : ℕ)
      → Chain h.mem e xs null hi
      → 0 < e.end
      → length xs < k
      → (r : ℕ) × (find_fit k (first xs null) size h ≡ some r) × Search size xs r
  unfolding find_fit
  find_fit-Search zero e xs hi ch pos lt = absurd (omega arith)
  find_fit-Search (suc k) e [] hi ch pos lt = (null, refl, inr (refl, tt))
  find_fit-Search (suc k) e (c ∷ xs) hi ch pos lt = elim (Bool-cases (fits size c)) [
    | inl hit ↦ (
      c.addr,
      ground (arith, ch.0),
      inl (record {
        pre = [];
        found = c;
        post = xs;
        whole = refl;
        address = refl;
        free = ground arith;
        size_le = ground arith;
        earlier = tt;
      }),
    )
    | inr miss ↦
        let (r, runs, found) = find_fit-Search k (edge c) xs hi ch.5 (omega arith) (omega arith) in
        (r, ground (arith, ch.0), Search-cons size c xs r miss found)
  ]

module _ {S : Type 0} (h : Heap S) where
  -- The walk to the last block ends there.
  pub find_last_lem :
      (k : ℕ) (e : Edge) (c : Cell) (xs : List Cell) (hi : ℕ)
      → Chain h.mem e (c ∷ xs) null hi
      → length xs < k
      → find_last k c.addr h ≡ some (edge_after e (c ∷ xs)).prev
  unfolding find_last
  find_last_lem zero e c xs hi ch lt = absurd (omega arith)
  find_last_lem (suc k) e c [] hi ch lt = ground (arith, ch.0)
  find_last_lem (suc k) e c (d ∷ xs) hi ch lt =
      ground (arith, ch.0, find_last_lem k (edge c) d xs hi ch.5 (omega arith))

  pub find_last-first :
      (k : ℕ) (e : Edge) (xs : List Cell) (hi : ℕ)
      → 0 < length xs
      → Chain h.mem e xs null hi
      → length xs ≤ k
      → find_last k (first xs null) h ≡ some (edge_after e xs).prev
  find_last-first k e [] hi some_block ch le = absurd (omega arith)
  find_last-first k e (c ∷ xs) hi some_block ch le = find_last_lem k e c xs hi ch (omega arith)
