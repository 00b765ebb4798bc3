-- ===== src/Vmm/Level.antt =====
-- `get_next_level` of src/mm/vmm.c on every path.
use arc_monark.Base.{
  ℕ, ◌+◌, ◌*◌, ◌<◌, ◌≡◌, refl, sym, ap, ◌∙◌, ◌⊎◌, inl, inr, true, false, Option, none, some, arith,
  Bool-cases,
}
use arc_monark.Pmm.{Pmm, pmm_alloc_frame}
use arc_monark.Pmm.Count.{AllUsed, take_frame-hhdm_offset}
use arc_monark.Pmm.Alloc.{Found, pmm_alloc_frame-Found}
use arc_monark.Vmm.{
  Vmm, is_present, link, slot, zero_page, write_word, phys_to_virt, new_level, get_next_level,
}
use arc_monark.Vmm.Entry.{frame_of}
use arc_monark.Vmm.Tree.{Shape, entry, IsTree}
use arc_monark.Vmm.Next.{table, Stepped, slot-table, present-runs, present-Stepped, absent-runs}
use arc_monark.Vmm.Fresh.{after, shape, fresh-Stepped}

-- What `get_next_level` gives when it may allocate: NULL where there is no table and no frame is
-- left, or the next table.
abbrev pub Down : Vmm → Shape → ℕ → ℕ → Type 0
Down s t f i =
    ((get_next_level (table s f) i true s ≡ some (0, s)) × AllUsed s.pmm 1 s.pmm.total_frames)
    ⊎ ((g : ℕ) × (s' : Vmm) × (t' : Shape) × (get_next_level (table s f) i true s
          ≡ some (table s' g, s'))
        × Stepped s t f i s' t' g)

new_level-none :
    (s : Vmm) (q : Pmm) (at i : ℕ)
    → pmm_alloc_frame s.pmm ≡ (none, q)
    → q ≡ s.pmm
    → new_level at i s ≡ some (0, s)
unfolding new_level
new_level-none s q at i e same =
    rw (ap (λ r. r.0) e, new_level)
      (ap (λ x. some (0, record s { pmm = x })) (ap (λ r. r.1) e ∙ same))

new_level-some :
    (s : Vmm) (q : Pmm) (at i phys : ℕ)
    → pmm_alloc_frame s.pmm ≡ (some phys, q)
    → new_level at i s
      ≡ some (
        phys_to_virt s phys,
        record s {
          pmm = q;
          words = write_word (slot at i) (link phys) (zero_page (phys_to_virt s phys) s.words);
        },
      )
unfolding new_level
new_level-some s q at i phys e =
    rw (ap (λ r. r.0) e, new_level)
      (ap
        (λ x. some (
          phys_to_virt s phys,
          record s {
            pmm = x;
            words = write_word (slot at i) (link phys) (zero_page (phys_to_virt s phys) s.words);
          },
        ))
        (ap (λ r. r.1) e))

module _ (s : Vmm) (t : Shape) (v : IsTree s t) (f i : ℕ) (here : 0 < t.level f)
    (upper : t.level f < 4) (index : i < 512) (absent : is_present (entry s f i) ≡ false) where
  new_level-Down : (r : Option ℕ × Pmm) → pmm_alloc_frame s.pmm ≡ r → Found s.pmm 1 r → Down s t f i
  new_level-Down (none, q) e (same, all) =
      inl
        ((absent-runs s t v f i here index absent).1 ∙ new_level-none s q (table s f) i e same, all)
  new_level-Down (some phys, q) e (g, at, lo, inside, all, eq, took, ok) =
      let off : q.hhdm_offset ≡ s.pmm.hhdm_offset =
        ap (λ (x : Pmm). x.hhdm_offset) eq ∙ take_frame-hhdm_offset s.pmm g in
      let next : phys_to_virt s phys ≡ table s g = omega (arith, at, inside, v.top) in
      let runs =
        (absent-runs s t v f i here index absent).1 ∙ new_level-some s q (table s f) i phys e in
      let spot = slot-table s t v f i here index in
      inr (
        g,
        after s t v f i here upper index absent g q inside took ok off,
        shape s t v f i here upper index absent g q inside took ok off,
        runs
            ∙ ((λ k. some (
              next k,
              record s {
                pmm = q;
                words = write_word (spot k) (link (at k)) (zero_page (next k) s.words);
              },
            ))
                ∙ ap
                    (λ o. some (
                      o + g * 4096,
                      after s t v f i here upper index absent g q inside took ok off,
                    ))
                    (sym off)),
        fresh-Stepped s t v f i here upper index absent g q inside took ok off,
      )

-- A step with leave to allocate ends in one of these two ways.
pub get_next_level-Down :
    (s : Vmm) (t : Shape) (f i : ℕ)
    → IsTree s t
    → 0 < t.level f
    → t.level f < 4
    → i < 512
    → Down s t f i
get_next_level-Down s t f i v here upper index = elim (Bool-cases (is_present (entry s f i))) [
  | inl there ↦ inr (
    frame_of (entry s f i),
    s,
    t,
    present-runs s t v f i here index true upper there,
    present-Stepped s t v f i here index upper there,
  )
  | inr absent ↦
      new_level-Down s t v f i here upper index absent (pmm_alloc_frame s.pmm) refl
        (pmm_alloc_frame-Found v.frames v.some_frame)
]
