-- ===== src/Pmm/Alloc.antt =====
-- `pmm_alloc_frame` and `pmm_free_frame` of src/mm/pmm.c: what they give and what they change.
use arc_monark.Base.{
  ℕ, zero, suc, ◌+◌, ◌-◌, ◌*◌, ◌/◌, ◌%◌, ◌≤◌, ◌<◌, ◌≡◌, refl, ap, ◌∙◌, ◌⊎◌, inl, inr, true, false,
  Option, none, some, List, [], ◌∷◌, arith, Bool-cases, length, get_or, set, get_or-set_self,
}
use arc_monark.Pmm.{
  Pmm, set_bit, clear_bit, page_size, bmp_set, bmp_clear, bmp_test, take_frame, release_frame,
  alloc_loop, pmm_alloc_frame, pmm_free_frame, add64, sub64,
}
use arc_monark.Pmm.Bitmap.{get_or-byte, clear_bit-set_bit}
use arc_monark.Pmm.Count.{
  AllUsed, IsValid, Taken, Released, covered, used_frames-le, take_frame-Taken, take_frame-IsValid,
  release_frame-Released, release_frame-IsValid,
}

-- What the search from frame `i` on gives: the address of the first free frame, which is taken; or
-- NULL, where every frame is used, and nothing changes.
abbrev pub Found : Pmm → ℕ → Option ℕ × Pmm → Type 0
Found s i (none, t) = (t ≡ s) × AllUsed s i s.total_frames
Found s i (some p, t) =
    (f : ℕ) × (p ≡ f * page_size)
    × (i ≤ f)
    × (f < s.total_frames)
    × AllUsed s i f
    × (t ≡ take_frame f s)
    × Taken s t f
    × IsValid t

Found-suc :
    (s : Pmm) (i : ℕ) (r : Option ℕ × Pmm) → bmp_test s i ≡ true → Found s (i + 1) r → Found s i r
Found-suc s i (none, t) h (same, all) = (same, λ g lo hi. ground (arith, all g))
Found-suc s i (some p, t) h (f, at, lo, hi, all, eq, tk, ok) =
    (f, at, omega arith, hi, (λ g l u. ground (arith, all g)), eq, tk, ok)

alloc_loop-Found :
    (s : Pmm) (rounds i : ℕ)
    → IsValid s
    → i + rounds ≡ s.total_frames
    → Found s i (alloc_loop rounds i s)
unfolding alloc_loop
alloc_loop-Found s zero i v h = (refl, λ g lo hi. absurd (omega arith))
alloc_loop-Found s (suc rounds) i v h = elim (Bool-cases (bmp_test s i)) [
  | inl used ↦ rw used (Found-suc s i _ used (alloc_loop-Found s rounds (i + 1) v (omega arith)))
  | inr free ↦ rw free (
    i,
    omega (arith, v.small),
    omega arith,
    omega arith,
    (λ g lo hi. absurd (omega arith)),
    refl,
    take_frame-Taken v i (omega arith) free,
    take_frame-IsValid v i (omega arith) free,
  )
]

-- In a valid manager of at least one frame, `pmm_alloc_frame` gives the lowest free frame but
-- frame 0, by its address, and takes that frame alone; it gives NULL and changes nothing exactly
-- where all of them are used. The count stays true.
pub pmm_alloc_frame-Found :
    {s : Pmm} → IsValid s → 0 < s.total_frames → Found s 1 (pmm_alloc_frame s)
unfolding pmm_alloc_frame
pmm_alloc_frame-Found {s} v h = alloc_loop-Found s (s.total_frames - 1) 1 v (omega arith)

-- What `pmm_free_frame` leaves: of a used frame, the memory with that frame given back; of a free
-- one (a second free), the memory as it was.
abbrev pub Freed : Pmm → ℕ → Pmm → Type 0
Freed s frame t =
    ((bmp_test s (frame / page_size) ≡ true) × Released s t (frame / page_size))
    ⊎ ((bmp_test s (frame / page_size) ≡ false) × (t ≡ s))

module _ {s : Pmm} (v : IsValid s) (frame : ℕ) (inside : frame / page_size < s.total_frames) where
  -- In a valid manager, on an address inside its frames, `pmm_free_frame` unmarks the frame that
  -- the address lies in, if it is used, and no other; a second free changes nothing. The count
  -- stays true.
  pub pmm_free_frame-Freed :
      Freed s frame (pmm_free_frame frame s) × IsValid (pmm_free_frame frame s)
  unfolding pmm_free_frame
  pmm_free_frame-Freed = elim (Bool-cases (bmp_test s (frame / page_size))) [
    | inl used ↦ rw used (
      inl (refl, release_frame-Released v (frame / page_size) inside used),
      release_frame-IsValid v (frame / page_size) inside used,
    )
    | inr free ↦ rw free (inr (refl, refl), v)
  ]

set-set_undo : (bs : List ℕ) (i v : ℕ) → i < length bs → set (set bs i v) i (get_or bs i 0) ≡ bs
set-set_undo [] i v h = absurd (omega arith)
set-set_undo (b ∷ bs) zero v h = refl
set-set_undo (b ∷ bs) (suc i) v h = ap (λ t. b ∷ t) (set-set_undo bs i v (omega arith))

release_frame-take_frame :
    {s : Pmm} (f : ℕ)
    → IsValid s
    → f < s.total_frames
    → bmp_test s f ≡ false
    → release_frame f (take_frame f s) ≡ s
unfolding release_frame take_frame bmp_set bmp_clear bmp_test
release_frame-take_frame {s} f v inside free =
    let k : ℕ = f / 8 in
    let old : ℕ = get_or s.bitmap k 0 in
    let new : ℕ = set_bit old (f % 8) in
    let room : k < length s.bitmap = covered v f inside in
    let byte_back : clear_bit (get_or (set s.bitmap k new) k 0) (f % 8) ≡ old =
      ap (λ b. clear_bit b (f % 8)) (get_or-set_self s.bitmap k new 0 room)
      ∙ clear_bit-set_bit old (f % 8) (get_or-byte s.bitmap k v.bytes) (omega arith) free in
    let bits_back : set (set s.bitmap k new) k (clear_bit (get_or (set s.bitmap k new) k 0) (f % 8))
        ≡ s.bitmap =
      ap (set (set s.bitmap k new) k) byte_back ∙ set-set_undo s.bitmap k new room in
    let count_back : sub64 (add64 s.used_frames 1) 1 ≡ s.used_frames =
      omega (arith, used_frames-le v, v.small) in
    λ i. record s { bitmap = bits_back i; used_frames = count_back i }

-- In a valid manager of at least one frame, a frame that is taken and given back leaves the
-- manager as it was.
pub pmm_free_frame-pmm_alloc_frame :
    {s t : Pmm} {p : ℕ}
    → IsValid s
    → 0 < s.total_frames
    → pmm_alloc_frame s ≡ (some p, t)
    → pmm_free_frame p t ≡ s
unfolding pmm_free_frame
pmm_free_frame-pmm_alloc_frame {s} {t} {p} v h e =
    let (f, at, lo, hi, all, eq, tk, ok) : Found s 1 (some p, t) =
      rw e at (pmm_alloc_frame-Found v h) in
    let idx : p / page_size ≡ f = omega arith in
    let marked : bmp_test t f ≡ true = ground (arith, tk.marked f) in
    rw (idx, marked) (rw eq (release_frame-take_frame f v hi tk.was_free))
