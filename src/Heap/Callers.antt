-- ===== src/Heap/Callers.antt =====
-- What each call of the heap's functions in src/mm/heap.c makes of the pointers that are held.
use arc_monark.Base.{
  ℕ, zero, suc, ◌<◌, ◌≡◌, refl, sym, ap, subst, ◌∙◌, ◌≢◌, ◌⊎◌, inl, inr, false, Option, none, some,
  List, ◌∷◌, ◌++◌, arith,
}
use arc_monark.Heap.{null, PageSource, Heap, kfree}
use arc_monark.Heap.Chain.{Cell}
use arc_monark.Heap.Inv.{live, IsHeap, live-append, live-used}
use arc_monark.Heap.Grow.{Fails}
use arc_monark.Heap.Alloc.{Outcome}
use arc_monark.Heap.Kfree.{Freed, kfree-Freed}
use arc_monark.Heap.Kmalloc.{HasRoom, Allocation, kmalloc-Outcome}
use arc_monark.Heap.Pages.{kmalloc, krealloc}
use arc_monark.Heap.Realloc.{Reallocated, krealloc-Reallocated, krealloc_edges}
use arc_monark.Heap.Held.{Pointer, Held}
use arc_monark.Heap.History.{Sound, Owned}

-- A call on this heap returns a pointer, or `vmm_map` faults on a frame that it has asked for.
abbrev pub HasResult : (P : PageSource) → Heap P.State → Option (ℕ × Heap P.State) → Type 0
HasResult P h r =
    Fails P (record h { flags = false }) r ⊎ ((p : ℕ) × (h' : Heap P.State) × (r ≡ some (p, h')))

some_differs : {X : Type 0} (x : X) → some x ≢ none
some_differs x e = ground (arith, e)

module _ (P : PageSource) where
  -- A run has one result.
  pub result_same :
      {A : Type 0} (x y : A) (r : Option A) (Q : A → Type 0) → r ≡ some x → r ≡ some y → Q x → Q y
  result_same x y r Q e e' q = subst Q (ap (λ o. elim o [ none ↦ x | some z ↦ z ]) (sym e ∙ e')) q

  -- A run that has a result does not fail.
  pub no_fault :
      {A : Type 0} (h : Heap P.State) (x : A) (r : Option A) → r ≡ some x → Fails P h r → ⊥
  no_fault h x r e (fault, stops) = absurd (some_differs x (sym e ∙ stops))

  module _ (h : Heap P.State) (xs : List Cell) where
    pub Outcome-Sound :
        (h' : Heap P.State) (n p : ℕ) (hs : List Pointer)
        → Held hs (live xs)
        → p ≢ null
        → Outcome h h' xs n p
        → Sound P h' ((p, n) ∷ hs)
    Outcome-Sound h' n p hs held ne (inl (e, u)) = absurd (ne e)
    Outcome-Sound h' n p hs held ne (inr a) = record {
      xs = a.pre ++ a.block ∷ a.post;
      valid = a.valid;
      held = (
        live a.pre,
        a.block,
        live a.post,
        live-append a.pre (a.block ∷ a.post)
            ∙ ap (λ t. live a.pre ++ t) (live-used a.block a.post a.used),
        a.address,
        a.enough,
        subst (Held hs) a.kept held,
      );
    }

    pub Outcome-null :
        (h' : Heap P.State) (n : ℕ) (hs : List Pointer)
        → Held hs (live xs)
        → Outcome h h' xs n null
        → Sound P h' hs
    Outcome-null h' n hs held (inl (e, u)) = record { xs = xs; valid = u.valid; held = held }
    Outcome-null h' n hs held (inr a) = absurd (omega (arith, a.address))

  module _ (h : Heap P.State) (ps : List Pointer) (p n : ℕ) (qs : List Pointer)
      (o : Owned P h ps p n qs) where
    pub Freed-Sound :
        (h' : Heap P.State) (xs : List Cell) → Freed h h' o.pre o.post xs → Sound P h' (ps ++ qs)
    Freed-Sound h' xs f = record {
      xs = xs;
      valid = f.valid;
      held = subst (Held (ps ++ qs)) (sym f.kept) o.others;
    }

    pub live_owned : live (o.pre ++ o.c ∷ o.post) ≡ live o.pre ++ o.c ∷ live o.post
    live_owned =
        live-append o.pre (o.c ∷ o.post) ∙ ap (λ t. live o.pre ++ t) (live-used o.c o.post o.used)

    pub Reallocated-Sound :
        (h' : Heap P.State) (m q : ℕ)
        → q ≢ null
        → Reallocated h h' o.pre o.c o.post m q
        → Sound P h' ((q, m) ∷ (ps ++ qs))
    Reallocated-Sound h' m q ne (inl (le, e, same)) = record {
      xs = o.pre ++ o.c ∷ o.post;
      valid = subst (λ t. IsHeap t (o.pre ++ o.c ∷ o.post)) (sym same) o.valid;
      held = (live o.pre, o.c, live o.post, live_owned, e, le, o.others);
    }
    Reallocated-Sound h' m q ne (inr (lt, inl (e, u))) = absurd (ne e)
    Reallocated-Sound h' m q ne (inr (lt, inr v)) = record {
      xs = v.xs;
      valid = v.valid;
      held = (
        v.front,
        v.block,
        v.back,
        v.given,
        v.address,
        v.enough,
        subst (Held (ps ++ qs)) v.kept o.others,
      );
    }

    pub Reallocated-null :
        (h' : Heap P.State) (m : ℕ)
        → Reallocated h h' o.pre o.c o.post m null
        → Sound P h' (ps ++ (p, n) ∷ qs)
    Reallocated-null h' m (inl (le, e, same)) = absurd (omega (arith, e))
    Reallocated-null h' m (inr (lt, inl (e, u))) = record {
      xs = o.pre ++ o.c ∷ o.post;
      valid = u.valid;
      held = o.all;
    }
    Reallocated-null h' m (inr (lt, inr v)) = absurd (omega (arith, v.address))

    pub kfree-owned : (h' : Heap P.State) → kfree p h ≡ some (tt, h') → Sound P h' (ps ++ qs)
    kfree-owned h' e =
        let (xs, h1, runs, f) = kfree-Freed h o.c o.post o.used o.pre o.valid in
        result_same (tt {0}, h1) (tt {0}, h') (kfree p h) (λ r. Sound P r.1 (ps ++ qs))
          (ap (λ t. kfree t h) o.address ∙ runs) e (Freed-Sound h1 xs f)

    pub krealloc-owned :
        (h' : Heap P.State) (m q : ℕ) (Q : ℕ × Heap P.State → Type 0)
        → 0 < m
        → HasRoom h m
        → krealloc P p m h ≡ some (q, h')
        → ((q' : ℕ) (h2 : Heap P.State) → Reallocated h h2 o.pre o.c o.post m q' → Q (q', h2))
        → Q (q, h')
    krealloc-owned h' m q Q pos room e step =
        let same = ap (λ t. krealloc P t m h) o.address in
        elim (krealloc-Reallocated P h o.pre o.c o.post o.valid o.used m pos room) [
          | inl fails ↦ absurd (
              no_fault (record h { flags = false }) (q, h') (krealloc P _ m h) (sym same ∙ e) fails)
          | inr (q', h2, runs, out) ↦
              result_same (q', h2) (q, h') (krealloc P p m h) Q (same ∙ runs) e (step q' h2 out)
        ]

    pub krealloc_zero-owned :
        (h' : Heap P.State) → krealloc P p 0 h ≡ some (null, h') → Sound P h' (ps ++ qs)
    krealloc_zero-owned h' e =
        let (xs, h1, runs, f) = (krealloc_edges P h o.pre o.c o.post o.valid o.used).1 in
        result_same (null, h1) (null, h') (krealloc P p 0 h) (λ r. Sound P r.1 (ps ++ qs))
          (ap (λ t. krealloc P t 0 h) o.address ∙ runs) e (Freed-Sound h1 xs f)

  pub kmalloc-Outcome_any :
      (h : Heap P.State) (xs : List Cell)
      → IsHeap h xs
      → (n : ℕ) → HasRoom h n
      → Allocation P xs n h (kmalloc P n h)
  unfolding kmalloc
  kmalloc-Outcome_any h xs v zero room = inr (
    null,
    h,
    refl,
    inl (refl, record { valid = v; bytes = λ front b back cut i lt. refl; flags = refl }),
  )
  kmalloc-Outcome_any h xs v (suc n) room = kmalloc-Outcome P h xs v (suc n) (omega arith) room

  pub kmalloc-result :
      (h h' : Heap P.State) (xs : List Cell) (n p : ℕ)
      → IsHeap h xs
      → HasRoom h n
      → kmalloc P n h ≡ some (p, h')
      → Outcome h h' xs n p
  kmalloc-result h h' xs n p v room e = elim (kmalloc-Outcome_any h xs v n room) [
    | inl fails ↦ absurd (no_fault (record h { flags = false }) (p, h') (kmalloc P n h) e fails)
    | inr (p1, h1, runs, out) ↦
        result_same (p1, h1) (p, h') (kmalloc P n h) (λ r. Outcome h r.1 xs n r.0) runs e out
  ]

  pub kfree_null-same : (h h' : Heap P.State) → kfree null h ≡ some (tt, h') → h ≡ h'
  unfolding kfree
  kfree_null-same h h' e =
      result_same (tt {0}, h) (tt {0}, h') (kfree null h) (λ r. h ≡ r.1) refl e refl

  pub krealloc-returns :
      (h : Heap P.State) (ps : List Pointer) (p m : ℕ) (qs : List Pointer)
      → Owned P h ps p m qs
      → (n : ℕ) → HasRoom h n
      → HasResult P h (krealloc P p n h)
  krealloc-returns h ps p m qs o zero room =
      let (xs, h1, runs, f) = (krealloc_edges P h o.pre o.c o.post o.valid o.used).1 in
      inr (null, h1, ap (λ t. krealloc P t 0 h) o.address ∙ runs)
  krealloc-returns h ps p m qs o (suc n) room =
      let same = ap (λ t. krealloc P t (suc n) h) o.address in
      elim (krealloc-Reallocated P h o.pre o.c o.post o.valid o.used (suc n) (omega arith) room) [
        | inl (fault, stops) ↦ inl (fault, same ∙ stops)
        | inr (q, h1, runs, out) ↦ inr (q, h1, same ∙ runs)
      ]
