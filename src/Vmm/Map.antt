-- ===== src/Vmm/Map.antt =====
-- `vmm_map` of src/mm/vmm.c.
use arc_monark.Base.{
  ℕ, ◌+◌, ◌*◌, ◌/◌, ◌%◌, ◌^◌, ◌≤◌, ◌<◌, ◌≡◌, refl, ap, ◌∙◌, ◌≢◌, ◌⊎◌, inl, inr, true, none, some,
  [], ◌∷◌, arith, if◌then◌else◌,
}
use arc_monark.Pmm.Count.{used_frames-AllUsed}
use arc_monark.Vmm.{
  is_present, Vmm, get_next_level, leaf, vmm_map, pml4_index, pdpt_index, pd_index, pt_index,
}
use arc_monark.Vmm.Entry.{leaf-odd, leaf_sum, leaf-is_present, page, page_lem, index-lt}
use arc_monark.Vmm.Tree.{Shape, Leads, IsTree, AreIndices, lookup-one, lookup-down, lookup-SameBut}
use arc_monark.Vmm.Next.{table, Stepped}
use arc_monark.Vmm.Runs.{faults_1, faults_2, faults_3, works}
use arc_monark.Vmm.Level.{get_next_level-Down}
use arc_monark.Vmm.Write.{
  indices, walk, indices-AreIndices, IsRoot, written, set_entry-written, written-SameBut,
  written-at, written-IsTree, written-Leads,
}

-- The entry is present and, where the flags have no bit but of the lowest 12 and those from 52 on, leads to the
-- frame that `phys` lies in: bits 12 to 51 are those of `phys`, the others those of the flags, with the
-- bit 0 set.
abbrev pub IsEntry : ℕ → ℕ → ℕ → Type 0
IsEntry e phys flags =
    (e % 2 ≡ 1)
    × (flags % 2 ^ 52 < 4096
        → e ≡ flags / 2 ^ 52 * 2 ^ 52 + phys / 4096 % 2 ^ 40 * 4096 + flags % 2 ^ 52 / 2 * 2 + 1)

-- `vmm_map` has mapped the page of `virt`: a walk finds the new entry there, and for every other page
-- what it found before.
pub record Mapped (s : Vmm) (t : Shape) (root virt phys flags : ℕ) (s' : Vmm) : Type 0 where
  pub shape : Shape
  pub tree : IsTree s' shape
  pub root_stays : IsRoot shape root
  pub entry : ℕ
  pub found : walk s' root virt ≡ some entry
  pub leads : IsEntry entry phys flags
  pub others : (w : ℕ) → page w ≢ page virt → walk s' root w ≡ walk s root w
  pub flushed : s'.flushed ≡ virt ∷ s.flushed

leaf-IsEntry : (phys flags : ℕ) → IsEntry (leaf phys flags) phys flags
leaf-IsEntry phys flags = (leaf-odd phys flags, leaf_sum phys flags)

module _ (s s1 s2 s3 : Vmm) (t t1 t2 t3 : Shape) (root f1 f2 f3 virt phys flags : ℕ)
    (is_root : IsRoot t root) (d1 : Stepped s t root (pml4_index virt) s1 t1 f1)
    (d2 : Stepped s1 t1 f1 (pdpt_index virt) s2 t2 f2)
    (d3 : Stepped s2 t2 f2 (pd_index virt) s3 t3 f3) where
  -- the levels, as they stand at the end
  level-3 : t3.level f3 ≡ 4
  level-3 = omega (arith, d1.level, d2.level, d3.level, is_root)

  top_found : IsRoot t3 root
  top_found =
      let g1 = d1.grows root (omega arith) in
      let g2 = d2.grows root (omega (arith, g1.0)) in
      let g3 = d3.grows root (omega (arith, g1.0, g2.0)) in
      (omega (arith, g1.0, g2.0, g3.0, is_root), omega (arith, g1.1, g2.1, g3.1, is_root))

  level-1 : (t2.level f1 ≡ 2) × (t3.level f1 ≡ 2)
  level-1 =
      let g2 = d2.grows f1 (omega (arith, d1.level)) in
      let g3 = d3.grows f1 (omega (arith, d1.level, g2.0)) in
      (omega (arith, d1.level, g2.0, is_root), omega (arith, d1.level, g2.0, g3.0, is_root))

  level-2 : (t2.level f2 ≡ 3) × (t3.level f2 ≡ 3)
  level-2 =
      let g3 = d3.grows f2 (omega (arith, d2.level)) in
      (omega (arith, d1.level, d2.level, is_root), omega (arith, d1.level, d2.level, g3.0, is_root))

  abbrev final : Vmm
  final = written s3 t3 d3.tree f3 (pt_index virt) level-3 (index-lt virt).3 (leaf phys flags) virt

  way_end : t3.way f3 * 512 + pt_index virt ≡ page virt
  way_end = omega (arith, d1.way, d2.way, d3.way, is_root, page_lem virt)

  -- the root on the way
  root_1 : t1.level root ≡ 1
  root_1 = omega (arith, (d1.grows root (omega arith)).0)

  root_2 : t2.level root ≡ 1
  root_2 = omega (arith, (d2.grows root (omega (arith, root_1))).0, root_1)

  way_1 : Leads final root (pml4_index virt) f1
  way_1 =
      let a = (index-lt virt).0 in
      written-Leads s3 t3 d3.tree f3 (pt_index virt) level-3 (index-lt virt).3 (leaf phys flags)
        virt root (pml4_index virt) f1 (omega (arith, top_found)) (omega (arith, top_found)) a
        (d3.keeps root (pml4_index virt) f1 (omega (arith, root_2)) a
          (d2.keeps root (pml4_index virt) f1 (omega (arith, root_1)) a d1.leads))

  way_2 : Leads final f1 (pdpt_index virt) f2
  way_2 =
      let b = (index-lt virt).1 in
      written-Leads s3 t3 d3.tree f3 (pt_index virt) level-3 (index-lt virt).3 (leaf phys flags)
        virt f1 (pdpt_index virt) f2 (omega (arith, level-1)) (omega (arith, level-1)) b
        (d3.keeps f1 (pdpt_index virt) f2 (omega (arith, level-1)) b d2.leads)

  way_3 : Leads final f2 (pd_index virt) f3
  way_3 =
      written-Leads s3 t3 d3.tree f3 (pt_index virt) level-3 (index-lt virt).3 (leaf phys flags)
        virt f2 (pd_index virt) f3 (omega (arith, level-2)) (omega (arith, level-2))
        (index-lt virt).2 d3.leads

  found : walk final root virt ≡ some (leaf phys flags)
  found =
      lookup-down final root (pml4_index virt) f1 (pdpt_index virt)
        (pd_index virt ∷ pt_index virt ∷ []) way_1
      ∙ (lookup-down final f1 (pdpt_index virt) f2 (pd_index virt) (pt_index virt ∷ []) way_2
          ∙ (lookup-down final f2 (pd_index virt) f3 (pt_index virt) [] way_3
              ∙ (lookup-one final f3 (pt_index virt)
                  ∙ (ap (λ x. if is_present x then some x else none)
                        (written-at s3 t3 d3.tree f3 (pt_index virt) level-3 (index-lt virt).3
                          (leaf phys flags) virt)
                      ∙ rw (leaf-is_present phys flags) refl))))

  others : (w : ℕ) → page w ≢ page virt → walk final root w ≡ walk s root w
  others w far =
      let ok : AreIndices (indices w) = indices-AreIndices w in
      lookup-SameBut s3 final t3 f3 (pt_index virt) root (indices w) d3.tree level-3
        (written-SameBut s3 t3 d3.tree f3 (pt_index virt) level-3 (index-lt virt).3
          (leaf phys flags) virt)
        (omega (arith, top_found)) (omega (arith, top_found)) ok
        (λ e. far (omega (arith, e, way_end, top_found, page_lem w)))
      ∙ (d3.looks root (indices w) (omega (arith, root_2)) (omega (arith, root_2)) ok
          ∙ (d2.looks root (indices w) (omega (arith, root_1)) (omega (arith, root_1)) ok
              ∙ d1.looks root (indices w) (omega (arith, is_root)) (omega (arith, is_root)) ok))

  final-Mapped : Mapped s t root virt phys flags final
  final-Mapped = record {
    shape = t3;
    tree =
        written-IsTree s3 t3 d3.tree f3 (pt_index virt) level-3 (index-lt virt).3 (leaf phys flags)
          virt;
    root_stays = top_found;
    entry = leaf phys flags;
    found = found;
    leads = leaf-IsEntry phys flags;
    others = others;
    flushed = ap (λ l. virt ∷ l) (d3.flushed ∙ (d2.flushed ∙ d1.flushed));
  }

-- `vmm_map` on a well-formed tree: the page is mapped; or the processor faults on a table that is NULL,
-- which happens only where at most three frames are left.
abbrev pub MapResult : Vmm → Shape → ℕ → ℕ → ℕ → ℕ → Type 0
MapResult s t root virt phys flags =
    ((vmm_map (table s root) virt phys flags s ≡ none)
      × (s.pmm.total_frames ≤ s.pmm.used_frames + 3))
    ⊎ ((s' : Vmm) × (vmm_map (table s root) virt phys flags s ≡ some (tt, s'))
        × Mapped s t root virt phys flags s')

module _ (s : Vmm) (t : Shape) (root virt phys flags : ℕ) (v : IsTree s t)
    (is_root : IsRoot t root) where
  after_2 :
      (s1 s2 : Vmm) (t1 t2 : Shape) (f1 f2 : ℕ)
      → get_next_level (table s root) (pml4_index virt) true s ≡ some (table s1 f1, s1)
      → Stepped s t root (pml4_index virt) s1 t1 f1
      → get_next_level (table s1 f1) (pdpt_index virt) true s1 ≡ some (table s2 f2, s2)
      → Stepped s1 t1 f1 (pdpt_index virt) s2 t2 f2
      → MapResult s t root virt phys flags
  after_2 s1 s2 t1 t2 f1 f2 e1 d1 e2 d2 =
      let level : t2.level f2 ≡ 3 = omega (arith, d1.level, d2.level, is_root) in
      elim (get_next_level-Down s2 t2 f2 (pd_index virt) d2.tree (omega (arith, level))
        (omega (arith, level)) (index-lt virt).2) [
          | inl (e3, all) ↦ inl (
            faults_3 (table s root) virt phys flags s (table s1 f1) (table s2 f2) s1 s2 s2 e1 e2 e3,
            omega (
              arith,
              used_frames-AllUsed d2.tree.frames all,
              d1.taken,
              d2.taken,
              d1.total,
              d2.total,
            ),
          )
          | inr (f3, s3, t3, e3, d3) ↦ inr (
            final s s1 s2 s3 t t1 t2 t3 root f1 f2 f3 virt phys flags is_root d1 d2 d3,
            works (table s root) virt phys flags s (table s1 f1) (table s2 f2) (table s3 f3) s1 s2
                s3 _ e1 e2 e3
                (set_entry-written s3 t3 d3.tree f3 (pt_index virt) (omega (arith, d3.level, level))
                  (index-lt virt).3 (leaf phys flags) virt),
            final-Mapped s s1 s2 s3 t t1 t2 t3 root f1 f2 f3 virt phys flags is_root d1 d2 d3,
          )
        ]

  after_1 :
      (s1 : Vmm) (t1 : Shape) (f1 : ℕ)
      → get_next_level (table s root) (pml4_index virt) true s ≡ some (table s1 f1, s1)
      → Stepped s t root (pml4_index virt) s1 t1 f1
      → MapResult s t root virt phys flags
  after_1 s1 t1 f1 e1 d1 =
      elim (get_next_level-Down s1 t1 f1 (pdpt_index virt) d1.tree (omega (arith, d1.level))
        (omega (arith, d1.level, is_root)) (index-lt virt).1) [
          | inl (e2, all) ↦ inl (
            faults_2 (table s root) virt phys flags s (table s1 f1) s1 s1 e1 e2,
            omega (arith, used_frames-AllUsed d1.tree.frames all, d1.taken, d1.total),
          )
          | inr (f2, s2, t2, e2, d2) ↦ after_2 s1 s2 t1 t2 f1 f2 e1 d1 e2 d2
        ]

  -- On a tree of page tables that is well-formed, `vmm_map` maps the page: a walk from the root finds
  -- for it an entry that is present and, for flags that have no bit of an address, leads to the frame of
  -- `phys` and has these flags, for every other page what it found before, the page is
  -- flushed, and the tree stays well-formed. It faults on a table that is NULL only where at most
  -- three frames are left.
  pub vmm_map-Mapped : MapResult s t root virt phys flags
  vmm_map-Mapped =
      elim (get_next_level-Down s t root (pml4_index virt) v (omega (arith, is_root))
        (omega (arith, is_root)) (index-lt virt).0) [
          | inl (e1, all) ↦ inl (
            faults_1 (table s root) virt phys flags s s e1,
            omega (arith, used_frames-AllUsed v.frames all),
          )
          | inr (f1, s1, t1, e1, d1) ↦ after_1 s1 t1 f1 e1 d1
        ]
