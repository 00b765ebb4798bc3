-- ===== src/Vmm/Unmap.antt =====
-- `vmm_unmap` of src/mm/vmm.c.
use arc_monark.Base.{
  ℕ, suc, ◌+◌, ◌*◌, ◌<◌, ◌≡◌, refl, ap, ◌∙◌, ◌≢◌, ◌⊎◌, inl, inr, false, none, some, [], ◌∷◌, arith,
  ◌==◌, ==_ne, Bool-cases,
}
use arc_monark.Base.State.{◌>>=◌, ◌>>◌}
use arc_monark.Vmm.{
  Vmm, is_present, set_entry, get_next_level, vmm_unmap, pml4_index, pdpt_index, pd_index, pt_index,
}
use arc_monark.Vmm.Entry.{is_present-zero, frame_of, page, page_lem, index-lt}
use arc_monark.Vmm.Tree.{Shape, entry, Leads, IsTree, lookup-absent, lookup-down, lookup-SameBut}
use arc_monark.Vmm.Next.{table, present-runs, absent-runs}
use arc_monark.Vmm.Write.{
  indices, walk, indices-AreIndices, IsRoot, written, set_entry-written, written-SameBut,
  written-at, written-IsTree, written-Leads,
}

-- What `get_next_level` gives when it may not allocate: NULL, or the next table.
abbrev Look : Vmm → Shape → ℕ → ℕ → Type 0
Look s t f i =
    ((get_next_level (table s f) i false s ≡ some (0, s)) × (is_present (entry s f i) ≡ false))
    ⊎ ((g : ℕ) × (get_next_level (table s f) i false s ≡ some (table s g, s))
        × Leads s f i g
        × (t.level g ≡ suc (t.level f))
        × (t.way g ≡ t.way f * 512 + i))

-- `vmm_unmap` leaves no entry for the page of `virt`, and all others as they were.
pub record Unmapped (s : Vmm) (t : Shape) (root virt : ℕ) (s' : Vmm) : Type 0 where
  pub tree : IsTree s' t
  pub gone : walk s' root virt ≡ none
  pub others : (w : ℕ) → page w ≢ page virt → walk s' root w ≡ walk s root w

module _ (s : Vmm) (t : Shape) (v : IsTree s t) where
  look : (f i : ℕ) → 0 < t.level f → t.level f < 4 → i < 512 → Look s t f i
  look f i here upper index = elim (Bool-cases (is_present (entry s f i))) [
    | inl there ↦
        let below = v.down f i here upper index there in
        inr (
          frame_of (entry s f i),
          present-runs s t v f i here index false upper there,
          (there, refl),
          below.0,
          below.1,
        )
    | inr absent ↦ inl ((absent-runs s t v f i here index absent).0, absent)
  ]

  some-table : (f : ℕ) → (table s f == 0) ≡ false
  some-table f = ==_ne (table s f) 0 (omega (arith, v.bottom))

  unchanged : (root virt : ℕ) → walk s root virt ≡ none → Unmapped s t root virt s
  unchanged root virt e = record { tree = v; gone = e; others = λ w far. refl }

module _ (pml4 virt : ℕ) (s : Vmm) where
  stops_1 :
      get_next_level pml4 (pml4_index virt) false s ≡ some (0, s)
      → vmm_unmap pml4 virt s ≡ some (tt, s)
  unfolding vmm_unmap
  stops_1 e1 = rw (e1, ◌>>=◌) refl

  stops_2 :
      (pdpt : ℕ)
      → get_next_level pml4 (pml4_index virt) false s ≡ some (pdpt, s)
      → (pdpt == 0) ≡ false
      → get_next_level pdpt (pdpt_index virt) false s ≡ some (0, s)
      → vmm_unmap pml4 virt s ≡ some (tt, s)
  unfolding vmm_unmap
  stops_2 pdpt e1 n1 e2 = rw (e1, ◌>>=◌) (rw n1 (rw (e2, ◌>>=◌) refl))

  stops_3 :
      (pdpt pd : ℕ)
      → get_next_level pml4 (pml4_index virt) false s ≡ some (pdpt, s)
      → (pdpt == 0) ≡ false
      → get_next_level pdpt (pdpt_index virt) false s ≡ some (pd, s)
      → (pd == 0) ≡ false
      → get_next_level pd (pd_index virt) false s ≡ some (0, s)
      → vmm_unmap pml4 virt s ≡ some (tt, s)
  unfolding vmm_unmap
  stops_3 pdpt pd e1 n1 e2 n2 e3 =
      rw (e1, ◌>>=◌) (rw n1 (rw (e2, ◌>>=◌) (rw n2 (rw (e3, ◌>>=◌) refl))))

  clears :
      (pdpt pd pt : ℕ) (s' : Vmm)
      → get_next_level pml4 (pml4_index virt) false s ≡ some (pdpt, s)
      → (pdpt == 0) ≡ false
      → get_next_level pdpt (pdpt_index virt) false s ≡ some (pd, s)
      → (pd == 0) ≡ false
      → get_next_level pd (pd_index virt) false s ≡ some (pt, s)
      → (pt == 0) ≡ false
      → set_entry pt (pt_index virt) 0 s ≡ some (tt, s')
      → vmm_unmap pml4 virt s ≡ some (tt, record s' { flushed = virt ∷ s'.flushed })
  unfolding vmm_unmap
  clears pdpt pd pt s' e1 n1 e2 n2 e3 n3 e4 =
      rw (e1, ◌>>=◌) (rw n1 (rw (e2, ◌>>=◌) (rw n2 (rw (e3, ◌>>=◌) (rw n3 (rw (e4, ◌>>◌) refl))))))

-- `vmm_unmap` always returns.
abbrev pub UnmapResult : Vmm → Shape → ℕ → ℕ → Type 0
UnmapResult s t root virt =
    (s' : Vmm) × (vmm_unmap (table s root) virt s ≡ some (tt, s')) × Unmapped s t root virt s'

module _ (s : Vmm) (t : Shape) (root virt : ℕ) (v : IsTree s t) (is_root : IsRoot t root) where
  abbrev a : ℕ
  a = pml4_index virt

  abbrev b : ℕ
  b = pdpt_index virt

  abbrev c : ℕ
  c = pd_index virt

  abbrev d : ℕ
  d = pt_index virt

  module _ (f1 f2 f3 : ℕ) (l1 : Leads s root a f1) (l2 : Leads s f1 b f2) (l3 : Leads s f2 c f3)
      (level_1 : t.level f1 ≡ 2) (level_2 : t.level f2 ≡ 3) (last : t.level f3 ≡ 4)
      (way : t.way f3 * 512 + d ≡ page virt) where
    abbrev cleared : Vmm
    cleared = written s t v f3 d last (index-lt virt).3 0 virt

    still :
        (h j k : ℕ) → 0 < t.level h → t.level h < 4 → j < 512 → Leads s h j k → Leads cleared h j k
    still = written-Leads s t v f3 d last (index-lt virt).3 0 virt

    cleared-Unmapped : Unmapped s t root virt cleared
    cleared-Unmapped = record {
      tree = written-IsTree s t v f3 d last (index-lt virt).3 0 virt;
      gone =
          lookup-down cleared root a f1 b (c ∷ d ∷ [])
            (still root a f1 (omega (arith, is_root)) (omega (arith, is_root)) (index-lt virt).0 l1)
          ∙ (lookup-down cleared f1 b f2 c (d ∷ []) (
                still f1 b f2 (omega (arith, level_1)) (omega (arith, level_1)) (index-lt virt).1
                  l2)
              ∙ (lookup-down cleared f2 c f3 d [] (
                    still f2 c f3 (omega (arith, level_2)) (omega (arith, level_2))
                      (index-lt virt).2 l3)
                  ∙ lookup-absent cleared f3 d [] (
                      ap is_present (written-at s t v f3 d last (index-lt virt).3 0 virt)
                      ∙ is_present-zero)));
      others = λ w far.
          lookup-SameBut s cleared t f3 d root (indices w) v last
            (written-SameBut s t v f3 d last (index-lt virt).3 0 virt) (omega (arith, is_root))
            (omega (arith, is_root)) (indices-AreIndices w)
            (λ e. far (omega (arith, e, way, is_root, page_lem w)));
    }

  -- On a tree of page tables that is well-formed, `vmm_unmap` returns, and leaves a well-formed tree
  -- in which a walk finds nothing for the page, and for every other page what it found before.
  pub vmm_unmap-Unmapped : UnmapResult s t root virt
  vmm_unmap-Unmapped =
      elim (look s t v root a (omega (arith, is_root)) (omega (arith, is_root)) (index-lt virt).0) [
        | inl (e1, gone) ↦ (
          s,
          stops_1 (table s root) virt s e1,
          unchanged s t v root virt (lookup-absent s root a (b ∷ c ∷ d ∷ []) gone),
        )
        | inr (f1, e1, l1, lv1, w1) ↦
            elim (look s t v f1 b (omega (arith, lv1)) (omega (arith, lv1, is_root))
              (index-lt virt).1) [
                | inl (e2, gone) ↦ (
                  s,
                  stops_2 (table s root) virt s (table s f1) e1 (some-table s t v f1) e2,
                  unchanged s t v root virt (
                      lookup-down s root a f1 b (c ∷ d ∷ []) l1
                      ∙ lookup-absent s f1 b (c ∷ d ∷ []) gone),
                )
                | inr (f2, e2, l2, lv2, w2) ↦
                    elim (look s t v f2 c (omega (arith, lv2)) (omega (arith, lv1, lv2, is_root))
                      (index-lt virt).2) [
                        | inl (e3, gone) ↦ (
                          s,
                          stops_3 (table s root) virt s (table s f1) (table s f2) e1
                              (some-table s t v f1) e2 (some-table s t v f2) e3,
                          unchanged s t v root virt (
                              lookup-down s root a f1 b (c ∷ d ∷ []) l1
                              ∙ (lookup-down s f1 b f2 c (d ∷ []) l2
                                  ∙ lookup-absent s f2 c (d ∷ []) gone)),
                        )
                        | inr (f3, e3, l3, lv3, w3) ↦
                            let last : t.level f3 ≡ 4 = omega (arith, lv1, lv2, lv3, is_root) in
                            let way : t.way f3 * 512 + d ≡ page virt =
                              omega (arith, w1, w2, w3, is_root, page_lem virt) in
                            (
                              cleared f1 f2 f3 l1 l2 l3 (omega (arith, lv1, is_root))
                                  (omega (arith, lv1, lv2, is_root)) last way,
                              clears (table s root) virt s (table s f1) (table s f2) (table s f3) _
                                  e1 (some-table s t v f1) e2 (some-table s t v f2) e3
                                  (some-table s t v f3)
                                  (set_entry-written s t v f3 d last (index-lt virt).3 0 virt),
                              cleared-Unmapped f1 f2 f3 l1 l2 l3 (omega (arith, lv1, is_root))
                                  (omega (arith, lv1, lv2, is_root)) last way,
                            )
                      ]
              ]
      ]
