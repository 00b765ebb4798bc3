-- ===== src/Heap/Held.antt =====
-- The pointers that the callers of src/mm/heap.c hold, against the blocks that are given out.
use arc_monark.Base.{
  ℕ, ◌+◌, ◌≤◌, ◌≡◌, sym, ap, subst, ◌∙◌, ◌⊎◌, inl, inr, Option, List, [], ◌∷◌, ◌++◌, append_assoc,
  arith, Bool-cases,
}
use arc_monark.Heap.{Block, sizeof_block}
use arc_monark.Heap.Chain.{Cell, Edge, edge, Chain}
use arc_monark.Heap.Inv.{live}
use arc_monark.Heap.Locate.{cons_within}

-- a pointer, and the size that was asked for
abbrev pub Pointer : Type 0
Pointer = ℕ × ℕ

-- The pointers `hs` are one for one the addresses behind the headers of the blocks `cells`, each
-- of at least the size that was asked for.
abbrev pub Held : List Pointer → List Cell → Type 0
Held [] cells = cells ≡ []
Held ((p, n) ∷ hs) cells =
    (front : List Cell) × (c : Cell) × (back : List Cell) × (cells ≡ front ++ c ∷ back)
    × (p ≡ c.addr + sizeof_block)
    × (n ≤ c.size)
    × Held hs (front ++ back)

-- The block of a pointer among others, and those that remain.
pub Held-middle :
    (ps : List Pointer) (p n : ℕ) (qs : List Pointer) (cells : List Cell)
    → Held (ps ++ (p, n) ∷ qs) cells
    → (front : List Cell) × (c : Cell) × (back : List Cell) × (cells ≡ front ++ c ∷ back)
      × (p ≡ c.addr + sizeof_block)
      × (n ≤ c.size)
      × Held (ps ++ qs) (front ++ back)
Held-middle [] p n qs cells h = h
Held-middle ((q, m) ∷ ps) p n qs cells (front, d, back, cut, at, le, rest) =
    let (front', c, back', cut', at', le', rest') = Held-middle ps p n qs (front ++ back) rest in
    elim (cons_within front' c back' front back (sym cut')) [
      | inl (r, left, right) ↦ (
        front',
        c,
        r ++ d ∷ back,
        cut ∙ (ap (λ t. t ++ d ∷ back) left ∙ append_assoc front' (c ∷ r) (d ∷ back)),
        at',
        le',
        (
          front' ++ r,
          d,
          back,
          sym (append_assoc front' r (d ∷ back)),
          at,
          le,
          subst (Held (ps ++ qs)) (ap (λ t. front' ++ t) right ∙ sym (append_assoc front' r back))
              rest',
        ),
      )
      | inr (r, left, right) ↦ (
        front ++ d ∷ r,
        c,
        back',
        cut ∙ (ap (λ t. front ++ d ∷ t) right ∙ sym (append_assoc front (d ∷ r) (c ∷ back'))),
        at',
        le',
        (
          front,
          d,
          r ++ back',
          append_assoc front (d ∷ r) back',
          at,
          le,
          subst (Held (ps ++ qs)) (ap (λ t. t ++ back') left ∙ append_assoc front r back') rest',
        ),
      )
    ]

-- The block of `n` bytes at `p` has no byte in common with any of the others.
abbrev pub Clear : ℕ → ℕ → List Pointer → Type 0
Clear p n [] = Unit {0}
Clear p n ((q, m) ∷ hs) = ((p + n ≤ q) ⊎ (q + m ≤ p)) × Clear p n hs

-- No two of the blocks have a byte in common.
abbrev pub Disjoint : List Pointer → Type 0
Disjoint [] = Unit {0}
Disjoint ((p, n) ∷ hs) = Clear p n hs × Disjoint hs

-- the same of blocks, headers included
abbrev pub Far : Cell → List Cell → Type 0
Far c [] = Unit {0}
Far c (d ∷ cells) =
    ((c.addr + sizeof_block + c.size ≤ d.addr) ⊎ (d.addr + sizeof_block + d.size ≤ c.addr))
    × Far c cells

abbrev pub AllFar : List Cell → Type 0
AllFar [] = Unit {0}
AllFar (c ∷ cells) = Far c cells × AllFar cells

-- All blocks begin at `lo` or above.
abbrev Above : ℕ → List Cell → Type 0
Above lo [] = Unit {0}
Above lo (c ∷ cells) = (lo ≤ c.addr) × Above lo cells

Above-le : (lo hi : ℕ) (cells : List Cell) → lo ≤ hi → Above hi cells → Above lo cells
Above-le lo hi [] le a = tt
Above-le lo hi (c ∷ cells) le a = (omega (arith, a.0), Above-le lo hi cells le a.1)

live-Above :
    (m : ℕ → Option Block) (e : Edge) (xs : List Cell) (stop hi : ℕ)
    → Chain m e xs stop hi
    → Above e.end (live xs)
unfolding live
live-Above m e [] stop hi h = tt
live-Above m e (c ∷ xs) stop hi h =
    let rest : Above e.end (live xs) =
      Above-le e.end (edge c).end (live xs) (omega (arith, h.1))
        (live-Above m (edge c) xs stop hi h.5) in
    elim (Bool-cases c.free) [ inl free ↦ rw free rest | inr used ↦ rw used (h.1, rest) ]

Above-Far : (c : Cell) (cells : List Cell) → Above (edge c).end cells → Far c cells
Above-Far c [] a = tt
Above-Far c (d ∷ cells) a = (inl a.0, Above-Far c cells a.1)

-- The blocks of a list that are given out do not overlap.
pub live-AllFar :
    (m : ℕ → Option Block) (e : Edge) (xs : List Cell) (stop hi : ℕ)
    → Chain m e xs stop hi
    → AllFar (live xs)
unfolding live
live-AllFar m e [] stop hi h = tt
live-AllFar m e (c ∷ xs) stop hi h =
    let rest : AllFar (live xs) = live-AllFar m (edge c) xs stop hi h.5 in
    elim (Bool-cases c.free) [
      | inl free ↦ rw free rest
      | inr used ↦ rw used (Above-Far c (live xs) (live-Above m (edge c) xs stop hi h.5), rest)
    ]

Far-without :
    (d : Cell) (front : List Cell) (c : Cell) (back : List Cell)
    → Far d (front ++ c ∷ back)
    → Far d (front ++ back)
Far-without d [] c back f = f.1
Far-without d (x ∷ front) c back f = (f.0, Far-without d front c back f.1)

pub Far-middle :
    (d : Cell) (front : List Cell) (c : Cell) (back : List Cell)
    → Far d (front ++ c ∷ back)
    → (d.addr + sizeof_block + d.size ≤ c.addr) ⊎ (c.addr + sizeof_block + c.size ≤ d.addr)
Far-middle d [] c back f = f.0
Far-middle d (x ∷ front) c back f = Far-middle d front c back f.1

pub AllFar-middle :
    (front : List Cell) (c : Cell) (back : List Cell)
    → AllFar (front ++ c ∷ back)
    → Far c (front ++ back) × AllFar (front ++ back)
AllFar-middle [] c back f = f
AllFar-middle (x ∷ front) c back (far, rest) =
    let (here, others) = AllFar-middle front c back rest in
    (
      (ground (arith, Far-middle x front c back far), here),
      (Far-without x front c back far, others),
    )

Held-Clear :
    (hs : List Pointer) (cells : List Cell) (c : Cell) (n : ℕ)
    → n ≤ c.size
    → Far c cells
    → Held hs cells
    → Clear (c.addr + sizeof_block) n hs
Held-Clear [] cells c n le far h = tt
Held-Clear ((q, m) ∷ hs) cells c n le far (front, d, back, cut, at, le', rest) =
    let far' : Far c (front ++ d ∷ back) = subst (Far c) cut far in
    (
      ground (arith, at, le', Far-middle c front d back far'),
      Held-Clear hs (front ++ back) c n le (Far-without c front d back far') rest,
    )

-- Where blocks do not overlap, what the pointers lead to does not.
pub Held-Disjoint :
    (hs : List Pointer) (cells : List Cell) → AllFar cells → Held hs cells → Disjoint hs
Held-Disjoint [] cells far h = tt
Held-Disjoint ((p, n) ∷ hs) cells far (front, c, back, cut, at, le, rest) =
    let (here, others) = AllFar-middle front c back (subst AllFar cut far) in
    (
      subst (λ t. Clear t n hs) (sym at) (Held-Clear hs (front ++ back) c n le here rest),
      Held-Disjoint hs (front ++ back) others rest,
    )
