-- ===== src/Heap/Locate.antt =====
-- Where a block that is given out stands in the list of blocks of src/mm/heap.c.
use arc_monark.Base.{
  ◌≡◌, refl, sym, ap, subst, ◌∙◌, ◌⊎◌, inl, inr, true, false, List, [], ◌∷◌, ◌++◌, arith,
  Bool-cases,
}
use arc_monark.Heap.Chain.{Cell}
use arc_monark.Heap.Inv.{live, live-free, live-used}

-- An item behind the front of `xs ++ ys` stands in `xs` or in `ys`.
pub cons_within :
    (front : List Cell) (c : Cell) (back xs ys : List Cell)
    → front ++ c ∷ back ≡ xs ++ ys
    → ((r : List Cell) × (xs ≡ front ++ c ∷ r) × (back ≡ r ++ ys))
      ⊎ ((r : List Cell) × (front ≡ xs ++ r) × (ys ≡ r ++ c ∷ back))
cons_within front c back [] ys e = inr (front, refl, sym e)
cons_within [] c back (x ∷ xs) ys e = inl (xs, cc, cc)
cons_within (f ∷ front) c back (x ∷ xs) ys e =
    let same : f ≡ x = cc in
    elim (cons_within front c back xs ys cc) [
      | inl (r, left, right) ↦ inl (r, cc, right)
      | inr (r, left, right) ↦ inr (r, cc, right)
    ]

-- The place of a block among those that are given out is a place in the list.
pub record Located (xs front : List Cell) (c : Cell) (back : List Cell) : Type 0 where
  pub pre : List Cell
  pub post : List Cell
  pub whole : xs ≡ pre ++ c ∷ post
  pub live_pre : live pre ≡ front
  pub live_post : live post ≡ back
  pub used : c.free ≡ false

-- one more block in front, that is free
Located-free :
    (x : Cell) (xs front : List Cell) (c : Cell) (back : List Cell)
    → x.free ≡ true
    → Located xs front c back
    → Located (x ∷ xs) front c back
Located-free x xs front c back free l = record {
  pre = x ∷ l.pre;
  post = l.post;
  whole = ap (λ t. x ∷ t) l.whole;
  live_pre = live-free x l.pre free ∙ l.live_pre;
  live_post = l.live_post;
  used = l.used;
}

-- and one that is given out
Located-used :
    (x : Cell) (xs front : List Cell) (c : Cell) (back : List Cell)
    → x.free ≡ false
    → Located xs front c back
    → Located (x ∷ xs) (x ∷ front) c back
Located-used x xs front c back used l = record {
  pre = x ∷ l.pre;
  post = l.post;
  whole = ap (λ t. x ∷ t) l.whole;
  live_pre = live-used x l.pre used ∙ ap (λ t. x ∷ t) l.live_pre;
  live_post = l.live_post;
  used = l.used;
}

uncons :
    (xs front : List Cell) (x c : Cell) (back : List Cell)
    → x ∷ xs ≡ front ++ c ∷ back
    → ((front ≡ []) × (x ≡ c) × (xs ≡ back))
      ⊎ ((rest : List Cell) × (front ≡ x ∷ rest) × (xs ≡ rest ++ c ∷ back))
uncons xs [] x c back e = inl (refl, cc, cc)
uncons xs (f ∷ front) x c back e = inr (front, cc, cc)

pub live-Located :
    (xs front : List Cell) (c : Cell) (back : List Cell)
    → live xs ≡ front ++ c ∷ back
    → Located xs front c back
unfolding live
live-Located [] [] c back e = absurd (ground arith)
live-Located [] (f ∷ front) c back e = absurd (ground arith)
live-Located (x ∷ xs) front c back e = elim (Bool-cases x.free) [
  | inl free ↦
      let rest : Located xs front c back =
        live-Located xs front c back (sym (live-free x xs free) ∙ e) in
      Located-free x xs front c back free rest
  | inr used ↦ elim (uncons (live xs) front x c back (sym (live-used x xs used) ∙ e)) [
    | inl (empty, same, e') ↦ record {
      pre = [];
      post = xs;
      whole = ap (λ t. t ∷ xs) same;
      live_pre = sym empty;
      live_post = e';
      used = ap (λ t. t.free) (sym same) ∙ used;
    }
    | inr (front', cut, e') ↦
        let rest : Located xs front' c back = live-Located xs front' c back e' in
        subst (λ t. Located (x ∷ xs) t c back) (sym cut) (Located-used x xs front' c back used rest)
  ]
]
