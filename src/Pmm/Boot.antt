-- ===== src/Pmm/Boot.antt =====
-- `pmm_init` of src/mm/pmm.c: which frames are free when it returns.
use arc_monark.Base.{
  ℕ, zero, suc, ◌+◌, ◌*◌, ◌/◌, ◌%◌, ◌^◌, ◌≤◌, ◌<◌, ◌≡◌, refl, sym, ap, ap₂, subst, ◌∙◌, ◌⊎◌, inl,
  inr, Bool, true, false, not, ◌&&◌, ◌||◌, List, [], ◌∷◌, arith, ltb, leb, Bool-cases,
}
use arc_monark.Pmm.{Pmm, page_size, add64, bmp_test, release_frame, take_frame}
use arc_monark.Pmm.Count.{
  IsValid, Released, Taken, release_frame-Released, release_frame-IsValid, take_frame-Taken,
  take_frame-IsValid,
}
use arc_monark.Pmm.Init.{
  MemEntry, usable, place_bitmap, clear_pages, page_rounds, clear_usable, set_pages,
}

-- is `g` one of the `k` frames from `lo` on?
abbrev pub within : ℕ → ℕ → ℕ → Bool
within lo k g = leb lo g && ltb g (lo + k)

-- does the frame lie in the entry, if that is usable?
abbrev pub covers : MemEntry → ℕ → Bool
covers e g = usable e && within (e.base / page_size) (e.length / page_size) g

-- does it lie in a usable entry?
unfoldable pub is_usable : List MemEntry → ℕ → Bool
is_usable [] g = false
is_usable (e ∷ es) g = covers e g || is_usable es g

-- What the boot loader promises of the memory map: usable entries are made of whole pages, end below
-- 2^64, and have no frame in common. Nothing is asked of the other entries.
abbrev pub IsMap : List MemEntry → Type 0
IsMap [] = Unit {0}
IsMap (e ∷ es) =
    (usable e ≡ true → (e.base % 4096 ≡ 0) × (e.length % 4096 ≡ 0) × (e.base + e.length < 2 ^ 64))
    × ((g : ℕ) → covers e g ≡ true → is_usable es g ≡ false)
    × IsMap es

-- The entries that are usable end by frame `total`.
abbrev pub Below : ℕ → List MemEntry → Type 0
Below total [] = Unit {0}
Below total (e ∷ es) = (usable e ≡ true → e.base + e.length ≤ total * 4096) × Below total es

-- `t` is what `s` has become, with the bits that `test` says.
pub record Becomes (s t : Pmm) (test : ℕ → Bool) : Type 0 where
  pub valid : IsValid t
  pub bits : (g : ℕ) → bmp_test t g ≡ test g
  pub total : t.total_frames ≡ s.total_frames

pub Becomes-same :
    (s : Pmm) (test : ℕ → Bool) → IsValid s → ((g : ℕ) → bmp_test s g ≡ test g) → Becomes s s test
Becomes-same s test v e = record { valid = v; bits = e; total = refl }

pub Becomes-step :
    {s t u : Pmm} {test test' : ℕ → Bool}
    → Becomes t u test
    → t.total_frames ≡ s.total_frames
    → ((g : ℕ) → test g ≡ test' g)
    → Becomes s u test'
Becomes-step b e same = record {
  valid = b.valid;
  bits = λ g. b.bits g ∙ same g;
  total = b.total ∙ e;
}

-- the bits with `k` frames from `lo` on cleared, or set
abbrev pub cleared : ℕ → ℕ → Pmm → ℕ → Bool
cleared lo k s g = not (within lo k g) && bmp_test s g

abbrev pub marked : ℕ → ℕ → Pmm → ℕ → Bool
marked lo k s g = within lo k g || bmp_test s g

clear_pages-Becomes :
    (k base j : ℕ) (s : Pmm)
    → IsValid s
    → base % 4096 ≡ 0
    → j % 4096 ≡ 0
    → base + j + k * 4096 ≤ s.total_frames * 4096
    → ((g : ℕ) → within ((base + j) / 4096) k g ≡ true → bmp_test s g ≡ true)
    → Becomes s (clear_pages k base j s) (cleared ((base + j) / 4096) k s)
unfolding clear_pages
clear_pages-Becomes zero base j s v hb hj top used = Becomes-same s _ v (λ g. ground arith)
clear_pages-Becomes (suc k) base j s v hb hj top used =
    let f : ℕ = (base + j) / 4096 in
    let at : add64 base j / page_size ≡ f = omega (arith, v.small) in
    let here : bmp_test s f ≡ true = used f (ground arith) in
    let r : Released s (release_frame f s) f = release_frame-Released v f (omega arith) here in
    let rest =
      clear_pages-Becomes k base (j + page_size) (release_frame f s)
        (release_frame-IsValid v f (omega arith) here) hb (omega arith) (omega (arith, r.total))
        (λ g h. ground (arith, used g, r.unmarked g)) in
    subst
      (λ p.
        Becomes s (clear_pages k base (j + page_size) (release_frame p s))
          (cleared ((base + j) / 4096) (suc k) s))
      (sym at) (Becomes-step rest r.total (λ g. ground (arith, r.unmarked g)))

pub set_pages-Becomes :
    (k base j : ℕ) (s : Pmm)
    → IsValid s
    → base % 4096 ≡ 0
    → j % 4096 ≡ 0
    → base + j + k * 4096 ≤ s.total_frames * 4096
    → ((g : ℕ) → within ((base + j) / 4096) k g ≡ true → bmp_test s g ≡ false)
    → Becomes s (set_pages k base j s) (marked ((base + j) / 4096) k s)
unfolding set_pages
set_pages-Becomes zero base j s v hb hj top free = Becomes-same s _ v (λ g. ground arith)
set_pages-Becomes (suc k) base j s v hb hj top free =
    let f : ℕ = (base + j) / 4096 in
    let at : add64 base j / page_size ≡ f = omega (arith, v.small) in
    let here : bmp_test s f ≡ false = free f (ground arith) in
    let r : Taken s (take_frame f s) f = take_frame-Taken v f (omega arith) here in
    let rest =
      set_pages-Becomes k base (j + page_size) (take_frame f s)
        (take_frame-IsValid v f (omega arith) here) hb (omega arith) (omega (arith, r.total))
        (λ g h. ground (arith, free g, r.marked g)) in
    subst
      (λ p.
        Becomes s (set_pages k base (j + page_size) (take_frame p s))
          (marked ((base + j) / 4096) (suc k) s))
      (sym at) (Becomes-step rest r.total (λ g. ground (arith, r.marked g)))

clear_entry-Becomes :
    (e : MemEntry) (s : Pmm)
    → IsValid s
    → e.base % 4096 ≡ 0
    → e.length % 4096 ≡ 0
    → e.base + e.length ≤ s.total_frames * 4096
    → usable e ≡ true
    → ((g : ℕ) → covers e g ≡ true → bmp_test s g ≡ true)
    → Becomes s
        (clear_pages (page_rounds e.length) e.base 0 s)
        (λ g. not (covers e g) && bmp_test s g)
clear_entry-Becomes e s v hb hl low free used =
    let first : (e.base + 0) / 4096 ≡ e.base / page_size = omega arith in
    let count : page_rounds e.length ≡ e.length / page_size = omega arith in
    let same : (g : ℕ) → within ((e.base + 0) / 4096) (page_rounds e.length) g ≡ covers e g =
      λ g. ap₂ (λ lo k. within lo k g) first count ∙ rw free refl in
    Becomes-step
      (clear_pages-Becomes (page_rounds e.length) e.base 0 s v hb refl (omega arith)
        (λ g h. used g (sym (same g) ∙ h)))
      refl (λ g. ap (λ b. not b && bmp_test s g) (same g))

pub clear_usable-Becomes :
    (es : List MemEntry) (s : Pmm)
    → IsValid s
    → IsMap es
    → Below s.total_frames es
    → ((g : ℕ) → is_usable es g ≡ true → bmp_test s g ≡ true)
    → Becomes s (clear_usable es s) (λ g. not (is_usable es g) && bmp_test s g)
unfolding clear_usable is_usable
clear_usable-Becomes [] s v m low used = Becomes-same s _ v (λ g. refl)
clear_usable-Becomes (e ∷ es) s v (whole, apart, m) (low, lows) used =
    elim (Bool-cases (usable e)) [
      | inl free ↦
          let s1 : Pmm = clear_pages (page_rounds e.length) e.base 0 s in
          let (hb, hl, top) = whole free in
          let b1 = clear_entry-Becomes e s v hb hl (low free) free (λ g h. used g (ground arith)) in
          let b2 =
            clear_usable-Becomes es s1 b1.valid m (subst (λ n. Below n es) (sym b1.total) lows)
              (λ g h. ground (arith, b1.bits g, used g, apart g)) in
          rw free (Becomes-step b2 b1.total (λ g. ground (arith, b1.bits g)))
      | inr skip ↦
          let b2 = clear_usable-Becomes es s v m lows (λ g h. used g (ground arith)) in
          rw skip (Becomes-step b2 refl (λ g. refl))
    ]

-- No usable entry is as long as the bitmap.
abbrev pub NoRoom : ℕ → List MemEntry → Type 0
NoRoom size [] = Unit {0}
NoRoom size (e ∷ es) = (usable e ≡ true → e.length < size) × NoRoom size es

-- The bitmap is placed at the frame `b`, in usable memory.
pub record Placed (size offset total : ℕ) (es : List MemEntry) (b : ℕ) : Type 0 where
  pub at : place_bitmap size offset es ≡ add64 (b * 4096) offset
  pub inside : b * 4096 + page_rounds size * 4096 ≤ total * 4096
  pub room : (g : ℕ) → within b (page_rounds size) g ≡ true → is_usable es g ≡ true

pub place_bitmap-cases :
    (size offset total : ℕ) (es : List MemEntry)
    → IsMap es
    → Below total es
    → ((place_bitmap size offset es ≡ 0) × NoRoom size es)
      ⊎ ((b : ℕ) × Placed size offset total es b)
unfolding place_bitmap is_usable
place_bitmap-cases size offset total [] m low = inl (refl, tt)
place_bitmap-cases size offset total (e ∷ es) (whole, apart, m) (low, lows) =
    elim (Bool-cases (usable e && leb size e.length)) [
      | inl fits ↦
          let free : usable e ≡ true = ground arith in
          let (hb, hl, top) = whole free in
          let long : size ≤ e.length = ground arith in
          inr (
            e.base / 4096,
            record {
              at = rw fits (ap (λ x. add64 x offset) (omega arith));
              inside = omega (arith, low free);
              room = λ g h. ground arith;
            },
          )
      | inr skip ↦ elim (place_bitmap-cases size offset total es m lows) [
        | inl (none_there, no_room) ↦ inl (rw skip none_there, ((λ free. ground arith), no_room))
        | inr (b, p) ↦ inr (
          b,
          record { at = rw skip p.at; inside = p.inside; room = λ g h. ground (arith, p.room g) },
        )
      ]
    ]
