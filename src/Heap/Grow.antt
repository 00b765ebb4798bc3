-- ===== src/Heap/Grow.antt =====
-- `grow_pages` and `extend_heap` of src/mm/heap.c: new pages become a block at the end.
use arc_monark.Base.{
  ℕ, zero, suc, ◌+◌, ◌*◌, ◌^◌, ◌≤◌, ◌<◌, ◌≡◌, refl, subst, ◌∙◌, ◌⊎◌, inl, inr, Bool, true, false,
  Option, none, some, arith, Option-cases,
}
use arc_monark.Pmm.{add64, page_size}
use arc_monark.Heap.{page_write, PageSource, Heap}
use arc_monark.Heap.Pages.{grow_pages}

module _ (P : PageSource) where
  -- what `grow_pages` leaves after `j` of its pages
  abbrev pub grown : Heap P.State → ℕ → P.State → Heap P.State
  grown h j pages' = record h { heap_end = h.heap_end + j * page_size; pages = pages' }

  -- After some pages have been mapped at the end of this heap, `vmm_map` faults on the next frame.
  abbrev pub Faults : Heap P.State → Type 0
  Faults h =
      (j phys : ℕ) × (s : P.State) × (grow_pages P j h ≡ some (true, grown h j s))
      × ((P.alloc_frame s).0 ≡ some phys)
      × (P.map_page (h.heap_end + j * page_size) phys page_write (P.alloc_frame s).1 ≡ none)

  -- A run that ends in such a fault.
  abbrev pub Fails : Heap P.State → {A : Type 0} → Option A → Type 0
  Fails h r = Faults h × (r ≡ none)

  -- `grow_pages` maps all its pages, or stops short and says so; it moves the end of the heap by as
  -- many as it has mapped.
  pub record Grown (h : Heap P.State) (k : ℕ) : Type 0 where
    pub done : Bool
    pub mapped : ℕ
    pub pages : P.State
    pub runs : grow_pages P k h ≡ some (done, grown h mapped pages)
    pub at_most : mapped ≤ k
    pub all : done ≡ true → mapped ≡ k

  -- the last pages after one that was mapped
  grow_pages-Grown :
      (k f : ℕ) (h : Heap P.State) (s : P.State)
      → (P.alloc_frame h.pages).0 ≡ some f
      → P.map_page h.heap_end f page_write (P.alloc_frame h.pages).1 ≡ some s
      → h.heap_end + suc k * page_size < 2 ^ 64
      → Grown (record h { heap_end = add64 h.heap_end page_size; pages = s }) k
      → Grown h (suc k)
  unfolding grow_pages
  grow_pages-Grown k f h s works maps room g =
      let end : add64 h.heap_end page_size + g.mapped * page_size
          ≡ h.heap_end + suc g.mapped * page_size =
        omega (arith, g.at_most) in
      record {
        done = g.done;
        mapped = suc g.mapped;
        pages = g.pages;
        runs =
            rw (works, grow_pages)
              (rw maps
                (g.runs ∙ (λ i. some (g.done, record h { heap_end = end i; pages = g.pages }))));
        at_most = omega (arith, g.at_most);
        all = λ e. omega (arith, g.all e);
      }

  no_pages : (h : Heap P.State) → grow_pages P 0 h ≡ some (true, grown h 0 h.pages)
  unfolding grow_pages
  no_pages h =
      let same : h.heap_end ≡ h.heap_end + 0 * page_size = omega arith in
      λ i. some (true, record h { heap_end = same i })

  -- a fault on the page behind the first one
  grow_pages-Faults :
      (k f : ℕ) (h : Heap P.State) (s : P.State)
      → (P.alloc_frame h.pages).0 ≡ some f
      → P.map_page h.heap_end f page_write (P.alloc_frame h.pages).1 ≡ some s
      → h.heap_end + page_size < 2 ^ 64
      → Faults (record h { heap_end = add64 h.heap_end page_size; pages = s })
      → Faults h
  unfolding grow_pages
  grow_pages-Faults k f h s works maps room (j, phys, s', runs, given, faults) =
      let end : add64 h.heap_end page_size + j * page_size ≡ h.heap_end + suc j * page_size =
        omega arith in
      (
        suc j,
        phys,
        s',
        rw (works, grow_pages)
            (rw maps (runs ∙ (λ i. some (true, record h { heap_end = end i; pages = s' })))),
        given,
        subst (λ a. P.map_page a phys page_write (P.alloc_frame s').1 ≡ none) end faults,
      )

  pub grow_pages_lem :
      (k : ℕ) (h : Heap P.State)
      → h.heap_end + k * page_size < 2 ^ 64
      → Fails h (grow_pages P k h) ⊎ Grown h k
  unfolding grow_pages
  grow_pages_lem zero h room =
      let same : h.heap_end ≡ h.heap_end + 0 * page_size = omega arith in
      inr (record {
        done = true;
        mapped = 0;
        pages = h.pages;
        runs = λ i. some (true, record h { heap_end = same i });
        at_most = omega arith;
        all = λ e. refl;
      })
  grow_pages_lem (suc k) h room = elim (Option-cases (P.alloc_frame h.pages).0) [
    | inl fails ↦
        let same : h.heap_end ≡ h.heap_end + 0 * page_size = omega arith in
        inr (record {
          done = false;
          mapped = 0;
          pages = (P.alloc_frame h.pages).1;
          runs =
              rw (fails, grow_pages)
                (λ i.
                  some (false, record h { heap_end = same i; pages = (P.alloc_frame h.pages).1 }));
          at_most = omega arith;
          all = λ e. cc;
        })
    | inr (f, works) ↦
        elim (Option-cases (P.map_page h.heap_end f page_write (P.alloc_frame h.pages).1)) [
          | inl faults ↦
              let here : h.heap_end ≡ h.heap_end + 0 * page_size = omega arith in
              inl (
                (
                  0,
                  f,
                  h.pages,
                  no_pages h,
                  works,
                  subst (λ a. P.map_page a f page_write (P.alloc_frame h.pages).1 ≡ none) here
                      faults,
                ),
                rw (works, grow_pages) (rw faults refl),
              )
          | inr (s, maps) ↦
              let next : Heap P.State = record h {
                heap_end = add64 h.heap_end page_size;
                pages = s;
              } in
              elim (grow_pages_lem k next (omega arith)) [
                | inl (fault, stops) ↦ inl (
                  grow_pages-Faults k f h s works maps (omega arith) fault,
                  rw (works, grow_pages) (rw maps stops),
                )
                | inr g ↦ inr (grow_pages-Grown k f h s works maps room g)
              ]
        ]
  ]
