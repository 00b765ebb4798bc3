-- ===== src/Vmm/Write.antt =====
-- The walk of the processor through the page tables of src/mm/vmm.c, and a write into the last one.
use arc_monark.Base.{
  ℕ, suc, ◌+◌, ◌*◌, ◌<◌, ◌≡◌, refl, sym, ap, subst, ◌∙◌, Option, some, List, [], ◌∷◌, arith,
  ==_refl,
}
use arc_monark.Vmm.{
  Vmm, is_present, write_word, set_entry, pml4_index, pdpt_index, pd_index, pt_index,
}
use arc_monark.Vmm.Entry.{frame_of, index-lt}
use arc_monark.Vmm.Tree.{Shape, entry, Leads, IsTree, lookup, AreIndices, SameBut}
use arc_monark.Vmm.Next.{table, slot-table, table-some}

abbrev pub indices : ℕ → List ℕ
indices virt = pml4_index virt ∷ pdpt_index virt ∷ pd_index virt ∷ pt_index virt ∷ []

-- What the processor finds for an address: the entry for its page, if there is one.
abbrev pub walk : Vmm → ℕ → ℕ → Option ℕ
walk s root virt = lookup s root (indices virt)

pub indices-AreIndices : (virt : ℕ) → AreIndices (indices virt)
indices-AreIndices virt = let (a, b, c, d) = index-lt virt in (a, (b, (c, (d, tt))))

-- the table in the frame `f` is the root
abbrev pub IsRoot : Shape → ℕ → Type 0
IsRoot t f = (t.level f ≡ 1) × (t.way f ≡ 0)

-- An entry `e` written into a table of the last level.
module _ (s : Vmm) (t : Shape) (v : IsTree s t) (f i : ℕ) (last : t.level f ≡ 4) (index : i < 512)
    (e virt : ℕ) where
  abbrev pub written : Vmm
  written = record s {
    words = write_word (s.pmm.hhdm_offset + f * 4096 + i * 8) e s.words;
    flushed = virt ∷ s.flushed;
  }

  pub set_entry-written :
      set_entry (table s f) i e s
      ≡ some (tt, record s { words = write_word (s.pmm.hhdm_offset + f * 4096 + i * 8) e s.words })
  unfolding set_entry
  set_entry-written =
      rw (slot-table s t v f i (omega arith) index, table-some s t v f i (omega arith) index) refl

  pub written-SameBut : SameBut s written t f i
  written-SameBut h j p lt differ = ground (arith, differ)

  pub written-at : entry written f i ≡ e
  written-at = rw (==_refl (s.pmm.hhdm_offset + f * 4096 + i * 8)) refl

  written_upper :
      (h j : ℕ) → 0 < t.level h → t.level h < 4 → j < 512 → entry written h j ≡ entry s h j
  written_upper h j p up lt =
      written-SameBut h j p lt (λ (eh, ej). absurd (omega (arith, ap t.level eh)))

  pub written-IsTree : IsTree written t
  written-IsTree = record {
    frames = v.frames;
    top = v.top;
    bottom = v.bottom;
    some_frame = v.some_frame;
    few = v.few;
    inside = v.inside;
    used = v.used;
    down = λ h j p up lt there.
        let same : entry written h j ≡ entry s h j = written_upper h j p up lt in
        subst
          (λ x. (t.level (frame_of x) ≡ suc (t.level h)) × (t.way (frame_of x) ≡ t.way h * 512 + j))
          (sym same) (v.down h j p up lt (ap is_present (sym same) ∙ there));
  }

  pub written-Leads :
      (h j k : ℕ) → 0 < t.level h → t.level h < 4 → j < 512 → Leads s h j k → Leads written h j k
  written-Leads h j k p up lt (there, to) =
      let same : entry written h j ≡ entry s h j = written_upper h j p up lt in
      (ap is_present same ∙ there, ap frame_of same ∙ to)
