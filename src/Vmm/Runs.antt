-- ===== src/Vmm/Runs.antt =====
-- The steps of `vmm_map` in src/mm/vmm.c, one after the other.
use arc_monark.Base.{ℕ, ◌≡◌, refl, Bool, true, Option, none, some, ◌∷◌}
use arc_monark.Base.State.{◌>>=◌, ◌>>◌}
use arc_monark.Vmm.{
  Vmm, set_entry, get_next_level, leaf, vmm_map, pml4_index, pdpt_index, pd_index, pt_index,
}

-- a table that is NULL is a fault
null_step : (i : ℕ) (b : Bool) (s : Vmm) → get_next_level 0 i b s ≡ none
unfolding get_next_level
null_step i b s = refl

null_write : (i e : ℕ) (s : Vmm) → set_entry 0 i e s ≡ none
unfolding set_entry
null_write i e s = refl

module _ (pml4 virt phys flags : ℕ) (s : Vmm) where
  abbrev pub Step1 : Option (ℕ × Vmm) → Type 0
  Step1 r = get_next_level pml4 (pml4_index virt) true s ≡ r

  abbrev pub Step2 : ℕ → Vmm → Option (ℕ × Vmm) → Type 0
  Step2 pdpt s1 r = get_next_level pdpt (pdpt_index virt) true s1 ≡ r

  abbrev pub Step3 : ℕ → Vmm → Option (ℕ × Vmm) → Type 0
  Step3 pd s2 r = get_next_level pd (pd_index virt) true s2 ≡ r

  pub faults_1 : (s1 : Vmm) → Step1 (some (0, s1)) → vmm_map pml4 virt phys flags s ≡ none
  unfolding vmm_map
  faults_1 s1 e1 = rw (e1, ◌>>=◌) (rw (null_step (pdpt_index virt) true s1, ◌>>=◌) refl)

  pub faults_2 :
      (pdpt : ℕ) (s1 s2 : Vmm)
      → Step1 (some (pdpt, s1))
      → Step2 pdpt s1 (some (0, s2))
      → vmm_map pml4 virt phys flags s ≡ none
  unfolding vmm_map
  faults_2 pdpt s1 s2 e1 e2 =
      rw (e1, ◌>>=◌) (rw (e2, ◌>>=◌) (rw (null_step (pd_index virt) true s2, ◌>>=◌) refl))

  pub faults_3 :
      (pdpt pd : ℕ) (s1 s2 s3 : Vmm)
      → Step1 (some (pdpt, s1))
      → Step2 pdpt s1 (some (pd, s2))
      → Step3 pd s2 (some (0, s3))
      → vmm_map pml4 virt phys flags s ≡ none
  unfolding vmm_map
  faults_3 pdpt pd s1 s2 s3 e1 e2 e3 =
      rw (e1, ◌>>=◌)
        (rw (e2, ◌>>=◌)
          (rw (e3, ◌>>=◌) (rw (null_write (pt_index virt) (leaf phys flags) s3, ◌>>◌) refl)))

  pub works :
      (pdpt pd pt : ℕ) (s1 s2 s3 s4 : Vmm)
      → Step1 (some (pdpt, s1))
      → Step2 pdpt s1 (some (pd, s2))
      → Step3 pd s2 (some (pt, s3))
      → set_entry pt (pt_index virt) (leaf phys flags) s3 ≡ some (tt, s4)
      → vmm_map pml4 virt phys flags s ≡ some (tt, record s4 { flushed = virt ∷ s4.flushed })
  unfolding vmm_map
  works pdpt pd pt s1 s2 s3 s4 e1 e2 e3 e4 =
      rw (e1, ◌>>=◌) (rw (e2, ◌>>=◌) (rw (e3, ◌>>=◌) (rw (e4, ◌>>◌) refl)))
