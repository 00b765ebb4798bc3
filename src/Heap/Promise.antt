-- ===== src/Heap/Promise.antt =====
-- The heap of src/mm/heap.c after any sequence of calls.
use arc_monark.Base.{◌≡◌, refl, sym, subst, ◌≢◌, inl, inr, true, some, List, [], ◌∷◌, ◌++◌, arith}
use arc_monark.Heap.{null, heap_base, PageSource, Heap}
use arc_monark.Heap.Inv.{base, live}
use arc_monark.Heap.Boot.{whole, heap_init-IsHeap}
use arc_monark.Heap.Pages.{heap_init}
use arc_monark.Heap.Realloc.{Reallocated}
use arc_monark.Heap.Held.{Pointer, Disjoint, live-AllFar, Held-Disjoint}
use arc_monark.Heap.History.{
  Call, kmalloc_null, kmalloc_block, kfree_null, kfree_block, krealloc_zero, krealloc_null,
  krealloc_block, started, called, Reach, Sound, Owned, owned,
}
use arc_monark.Heap.Callers.{
  result_same, no_fault, Outcome-Sound, Outcome-null, Reallocated-Sound, Reallocated-null,
  kfree-owned, krealloc-owned, krealloc_zero-owned, kmalloc-result, kfree_null-same,
}

module _ (P : PageSource) where
  -- Every call keeps the heap well formed and true to the pointers.
  Call-Sound :
      {h h' : Heap P.State} {hs hs' : List Pointer}
      → Sound P h hs
      → Call P h hs h' hs'
      → Sound P h' hs'
  Call-Sound {h} {h'} {hs} s (kmalloc_null n room e) =
      Outcome-null P h s.xs h' n hs s.held (kmalloc-result P h h' s.xs n null s.valid room e)
  Call-Sound {h} {h'} {hs} s (kmalloc_block n p room ne e) =
      Outcome-Sound P h s.xs h' n p hs s.held ne (kmalloc-result P h h' s.xs n p s.valid room e)
  Call-Sound {h} {h'} {hs} s (kfree_null e) = subst (λ t. Sound P t hs) (kfree_null-same P h h' e) s
  Call-Sound {h} {h'} s (kfree_block ps p n qs cut e) =
      kfree-owned P h ps p n qs (owned P h ps p n qs (subst (Sound P h) cut s)) h' e
  Call-Sound {h} {h'} s (krealloc_zero ps p n qs cut e) =
      krealloc_zero-owned P h ps p n qs (owned P h ps p n qs (subst (Sound P h) cut s)) h' e
  Call-Sound {h} {h'} s (krealloc_null ps p n m qs cut pos room e) =
      let o : Owned P h ps p n qs = owned P h ps p n qs (subst (Sound P h) cut s) in
      subst (Sound P h') (sym cut) (
        krealloc-owned P h ps p n qs o h' m null
          (λ r. (r.0 ≡ null) → Sound P r.1 (ps ++ (p, n) ∷ qs)) pos room e
          (λ q' h2 out is_null.
            Reallocated-null P h ps p n qs o h2 m
              (subst (Reallocated h h2 o.pre o.c o.post m) is_null out))
          refl)
  Call-Sound {h} {h'} s (krealloc_block ps p n m q qs cut pos room ne e) =
      let o : Owned P h ps p n qs = owned P h ps p n qs (subst (Sound P h) cut s) in
      krealloc-owned P h ps p n qs o h' m q
        (λ r. (r.0 ≢ null) → Sound P r.1 ((r.0, m) ∷ (ps ++ qs))) pos room e
        (λ q' h2 out is_block. Reallocated-Sound P h ps p n qs o h2 m q' is_block out) ne

  start-Sound : (h h' : Heap P.State) → heap_init P h ≡ some (true, h') → Sound P h' []
  unfolding live
  start-Sound h h' e = elim (heap_init-IsHeap P h) [
    | inl fails ↦
        absurd (no_fault P (record h { heap_end = heap_base }) (true, h') (heap_init P h) e fails)
    | inr (done, h1, runs, out) ↦
        result_same P (done, h1) (true, h') (heap_init P h) (λ r. (r.0 ≡ true) → Sound P r.1 [])
          runs e
          (λ works. elim out [
            | inl stopped ↦ absurd (ground (arith, stopped, works))
            | inr (t, v, b, f) ↦ record { xs = whole ∷ []; valid = v; held = refl }
          ])
          refl
  ]

  -- After `heap_init` has succeeded and any calls of `kmalloc`, `kfree` and `krealloc` whose
  -- requests leave room in the address space, by callers that free and resize only what they
  -- hold, the heap is well formed, and its blocks that are given out are, one for one, those that
  -- the pointers held lead to, each of at least the size asked for.
  pub Reach-Sound : {h : Heap P.State} {hs : List Pointer} → Reach P h hs → Sound P h hs
  Reach-Sound (started h h' e) = start-Sound h h' e
  Reach-Sound (called r c) = Call-Sound (Reach-Sound r) c

  -- No two of the blocks that are held then have a byte in common.
  pub Reach-Disjoint : {h : Heap P.State} {hs : List Pointer} → Reach P h hs → Disjoint hs
  Reach-Disjoint {h} {hs} r =
      let s : Sound P h hs = Reach-Sound r in
      Held-Disjoint hs (live s.xs) (live-AllFar h.mem base s.xs null h.heap_end s.valid.chain)
        s.held
