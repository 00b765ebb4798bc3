-- ===== src/Vmm/Tree.antt =====
-- The page tables of src/mm/vmm.c as a tree of frames: what holds of it between two calls, and what
-- a look through it finds.
use arc_monark.Base.{
  ℕ, suc, ◌+◌, ◌*◌, ◌^◌, ◌≤◌, ◌<◌, ◌≡◌, refl, sym, ap, ap₂, ◌∙◌, ◌≢◌, inl, inr, true, false, Option,
  none, some, List, [], ◌∷◌, arith, if◌then◌else◌, Bool-cases, length,
}
use arc_monark.Pmm.{bmp_test}
use arc_monark.Pmm.Count.{IsValid}
use arc_monark.Vmm.{Vmm, is_present}
use arc_monark.Vmm.Entry.{frame_of}

-- The place of each frame in the tree: its level, 1 for the root and 4 for the tables that lead to
-- pages, or 0 for a frame that is no table; and the indices on the way to it, as one number. A frame
-- has one place, so that no table is reached by two ways.
pub record Shape : Type 0 where
  pub level : ℕ → ℕ
  pub way : ℕ → ℕ

-- the entry `i` of the table in the frame `f`
abbrev pub entry : Vmm → ℕ → ℕ → ℕ
entry s f i = s.words (s.pmm.hhdm_offset + f * 4096 + i * 8)

-- The table in the frame `f` leads to the frame `g` at the index `i`.
abbrev pub Leads : Vmm → ℕ → ℕ → ℕ → Type 0
Leads s f i g = (is_present (entry s f i) ≡ true) × (frame_of (entry s f i) ≡ g)

-- Memory is mapped as one piece, not at 0; the frame allocator is well-formed; every table is in a used
-- frame; and each entry of a table that is not of the last level leads to the table of its place.
pub record IsTree (s : Vmm) (t : Shape) : Type 0 where
  pub frames : IsValid s.pmm
  pub top : s.pmm.hhdm_offset + s.pmm.total_frames * 4096 ≤ 2 ^ 64
  pub bottom : 0 < s.pmm.hhdm_offset
  pub some_frame : 0 < s.pmm.total_frames
  pub few : s.pmm.total_frames ≤ 2 ^ 40
  pub inside : (f : ℕ) → 0 < t.level f → f < s.pmm.total_frames
  pub used : (f : ℕ) → 0 < t.level f → bmp_test s.pmm f ≡ true
  pub down :
      (f i : ℕ)
      → 0 < t.level f
      → t.level f < 4
      → i < 512
      → is_present (entry s f i) ≡ true
      → (t.level (frame_of (entry s f i)) ≡ suc (t.level f))
        × (t.way (frame_of (entry s f i)) ≡ t.way f * 512 + i)

-- What is found from the table in `f` on, by the indices: an entry that is present, or nothing.
unfoldable pub lookup : Vmm → ℕ → List ℕ → Option ℕ
lookup s f [] = none
lookup s f (i ∷ []) = if is_present (entry s f i) then some (entry s f i) else none
lookup s f (i ∷ j ∷ is) =
    let rest = lookup s (frame_of (entry s f i)) (j ∷ is) in
    if is_present (entry s f i) then rest else none

abbrev pub AreIndices : List ℕ → Type 0
AreIndices [] = Unit {0}
AreIndices (i ∷ is) = (i < 512) × AreIndices is

-- the number of the entry that indices lead to
abbrev pub place : ℕ → List ℕ → ℕ
place w [] = w
place w (i ∷ is) = place (w * 512 + i) is

-- The entries of the tables are the same in `s'`, but for the entry `i` of the table in `f`.
abbrev pub SameBut : Vmm → Vmm → Shape → ℕ → ℕ → Type 0
SameBut s s' t f i =
    (h j : ℕ) → 0 < t.level h → j < 512 → ¬ ((h ≡ f) × (j ≡ i)) → entry s' h j ≡ entry s h j

pub lookup-one :
    (s : Vmm) (f i : ℕ)
    → lookup s f (i ∷ []) ≡ (if is_present (entry s f i) then some (entry s f i) else none)
unfolding lookup
lookup-one s f i = refl

pub lookup-absent :
    (s : Vmm) (f i : ℕ) (is : List ℕ)
    → is_present (entry s f i) ≡ false
    → lookup s f (i ∷ is) ≡ none
unfolding lookup
lookup-absent s f i [] e = rw e refl
lookup-absent s f i (j ∷ is) e = rw e refl

pub lookup-down :
    (s : Vmm) (f i g j : ℕ) (is : List ℕ)
    → Leads s f i g
    → lookup s f (i ∷ j ∷ is) ≡ lookup s g (j ∷ is)
unfolding lookup
lookup-down s f i g j is (here, to) = rw (here, to) refl

-- A write of one entry of a table of the last level changes no look but the one to that entry.
pub lookup-SameBut :
    (s s' : Vmm) (t : Shape) (f i h : ℕ) (is : List ℕ)
    → IsTree s t
    → t.level f ≡ 4
    → SameBut s s' t f i
    → 0 < t.level h
    → t.level h + length is ≡ 5
    → AreIndices is
    → place (t.way h) is ≢ t.way f * 512 + i
    → lookup s' h is ≡ lookup s h is
unfolding lookup
lookup-SameBut s s' t f i h [] v last same here depth ok far = refl
lookup-SameBut s s' t f i h (j ∷ []) v last same here depth ok far =
    let e : entry s' h j ≡ entry s h j =
      same h j here ok.0 (λ (eh, ej). far (ap₂ (λ a b. t.way a * 512 + b) eh ej)) in
    ap (λ x. if is_present x then some x else none) e
lookup-SameBut s s' t f i h (j ∷ k ∷ is) v last same here depth ok far =
    let e : entry s' h j ≡ entry s h j =
      same h j here ok.0 (λ (eh, ej). absurd (omega (arith, ap t.level eh))) in
    ap (λ x. if is_present x then lookup s' (frame_of x) (k ∷ is) else none) e
    ∙ elim (Bool-cases (is_present (entry s h j))) [
      | inr absent ↦ rw absent refl
      | inl there ↦
          let below = v.down h j here (omega arith) ok.0 there in
          rw there (
            lookup-SameBut s s' t f i (frame_of (entry s h j)) (k ∷ is) v last same
              (omega (arith, below.0)) (omega (arith, below.0)) ok.1
              (λ p. far (ap (λ w. place (w * 512 + k) is) (sym below.1) ∙ p)))
    ]
