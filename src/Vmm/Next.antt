-- ===== src/Vmm/Next.antt =====
-- One step down the page tables of src/mm/vmm.c, `get_next_level`.
use arc_monark.Base.{
  ℕ, suc, ◌+◌, ◌*◌, ◌≤◌, ◌<◌, ◌≡◌, refl, ap, Bool, true, false, some, List, arith, ◌==◌, ==_ne,
  length,
}
use arc_monark.Vmm.{Vmm, is_present, entry_addr, slot, phys_to_virt, new_level, get_next_level}
use arc_monark.Vmm.Entry.{entry_addr-mod, frame_of}
use arc_monark.Vmm.Tree.{Shape, entry, Leads, IsTree, lookup, AreIndices}

-- where the table in the frame `f` is read
abbrev pub table : Vmm → ℕ → ℕ
table s f = s.pmm.hhdm_offset + f * 4096

-- A step from the table in `f` by the index `i` to the table in `g`: the tree may have grown by that
-- one, and no look through it has changed.
pub record Stepped (s : Vmm) (t : Shape) (f i : ℕ) (s' : Vmm) (t' : Shape) (g : ℕ) : Type 0 where
  pub tree : IsTree s' t'
  pub leads : Leads s' f i g
  pub level : t'.level g ≡ suc (t.level f)
  pub way : t'.way g ≡ t.way f * 512 + i
  pub grows : (h : ℕ) → 0 < t.level h → (t'.level h ≡ t.level h) × (t'.way h ≡ t.way h)
  pub keeps : (h j k : ℕ) → 0 < t.level h → j < 512 → Leads s h j k → Leads s' h j k
  pub looks :
      (h : ℕ) (is : List ℕ)
      → 0 < t.level h
      → t.level h + length is ≡ 5
      → AreIndices is
      → lookup s' h is ≡ lookup s h is
  pub offset : s'.pmm.hhdm_offset ≡ s.pmm.hhdm_offset
  pub flushed : s'.flushed ≡ s.flushed
  pub total : s'.pmm.total_frames ≡ s.pmm.total_frames
  pub taken : s'.pmm.used_frames ≤ s.pmm.used_frames + 1

module _ (s : Vmm) (t : Shape) (v : IsTree s t) (f i : ℕ) (here : 0 < t.level f)
    (index : i < 512) where
  pub slot-table : slot (table s f) i ≡ s.pmm.hhdm_offset + f * 4096 + i * 8
  slot-table = omega (arith, v.top, v.inside f here)

  pub table-some : (table s f == 0) ≡ false
  table-some = ==_ne (table s f) 0 (omega (arith, v.bottom))

  -- a table that is there already
  pub present-runs :
      (allocate : Bool)
      → t.level f < 4
      → is_present (entry s f i) ≡ true
      → get_next_level (table s f) i allocate s ≡ some (table s (frame_of (entry s f i)), s)
  unfolding get_next_level
  present-runs allocate upper there =
      let below = v.down f i here upper index there in
      let inside : frame_of (entry s f i) < s.pmm.total_frames =
        v.inside (frame_of (entry s f i)) (omega (arith, below.0)) in
      let whole : entry_addr (entry s f i) ≡ frame_of (entry s f i) * 4096 =
        omega (arith, entry_addr-mod (entry s f i)) in
      let to : phys_to_virt s (entry_addr (entry s f i)) ≡ table s (frame_of (entry s f i)) =
        omega (arith, whole, inside, v.top) in
      rw (slot-table, table-some, there) (ap (λ p. some (p, s)) to)

  pub present-Stepped :
      t.level f < 4 → is_present (entry s f i) ≡ true → Stepped s t f i s t (frame_of (entry s f i))
  present-Stepped upper there = record {
    tree = v;
    leads = (there, refl);
    level = (v.down f i here upper index there).0;
    way = (v.down f i here upper index there).1;
    grows = λ h p. (refl, refl);
    keeps = λ h j k p lt l. l;
    looks = λ h is p d ok. refl;
    offset = refl;
    flushed = refl;
    total = refl;
    taken = omega arith;
  }

  pub absent-runs :
      is_present (entry s f i) ≡ false
      → (get_next_level (table s f) i false s ≡ some (0, s))
        × (get_next_level (table s f) i true s ≡ new_level (table s f) i s)
  unfolding get_next_level
  absent-runs absent =
      (rw (slot-table, table-some, absent) refl, rw (slot-table, table-some, absent) refl)
