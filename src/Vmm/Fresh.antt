-- ===== src/Vmm/Fresh.antt =====
-- A step of `get_next_level` in src/mm/vmm.c that makes a new table.
use arc_monark.Base.{
  ℕ, suc, ◌+◌, ◌*◌, ◌<◌, ◌≡◌, refl, sym, ap, ap₂, ◌∙◌, ◌≢◌, inl, inr, true, false, not, ◌&&◌, none,
  some, List, [], ◌∷◌, arith, ltb, ◌==◌, if◌then◌else◌, ltb→lt, ltb→le, ==_refl, ==_ne, ==→eq,
  ==→ne, Bool-cases, length,
}
use arc_monark.Pmm.{Pmm, bmp_test}
use arc_monark.Pmm.Count.{IsValid, Taken}
use arc_monark.Vmm.{Vmm, is_present, link, zero_page, write_word}
use arc_monark.Vmm.Entry.{frame_of, is_present-zero, link-is_present, frame_of-link}
use arc_monark.Vmm.Tree.{
  Shape, entry, Leads, IsTree, lookup, AreIndices, SameBut, lookup-absent, lookup-down,
}
use arc_monark.Vmm.Next.{table, Stepped}

-- The table in `f` has no entry at `i`; the frame `g` is free, and is taken, which leaves `q`.
module _ (s : Vmm) (t : Shape) (v : IsTree s t) (f i : ℕ) (here : 0 < t.level f)
    (upper : t.level f < 4) (index : i < 512) (absent : is_present (entry s f i) ≡ false) (g : ℕ)
    (q : Pmm) (inside : g < s.pmm.total_frames) (took : Taken s.pmm q g) (ok : IsValid q)
    (off : q.hhdm_offset ≡ s.pmm.hhdm_offset) where
  abbrev pub after : Vmm
  after = record s {
    pmm = q;
    words =
        write_word (s.pmm.hhdm_offset + f * 4096 + i * 8) (link (g * 4096))
          (zero_page (table s g) s.words);
  }

  abbrev pub shape : Shape
  shape = record {
    level = λ h. if h == g then suc (t.level f) else t.level h;
    way = λ h. if h == g then t.way f * 512 + i else t.way h;
  }

  no_table : t.level g ≡ 0
  no_table = elim (Bool-cases (ltb 0 (t.level g))) [
    | inl is ↦ cc (v.used g (omega (arith, ltb→lt 0 (t.level g) is)), took.was_free)
    | inr not ↦ omega (arith, ltb→le 0 (t.level g) not)
  ]

  other : (h : ℕ) → 0 < t.level h → h ≢ g
  other h p e = absurd (omega (arith, ap t.level e, no_table))

  at_offset : (h j : ℕ) → entry after h j ≡ after.words (s.pmm.hhdm_offset + h * 4096 + j * 8)
  at_offset h j = ap (λ o. after.words (o + h * 4096 + j * 8)) off

  same : SameBut s after t f i
  same h j p lt differ = at_offset h j ∙ ground (arith, other h p, differ)

  empty : (j : ℕ) → j < 512 → entry after g j ≡ 0
  empty j lt = at_offset g j ∙ ground (arith, other f here)

  linked : entry after f i ≡ link (g * 4096)
  linked = at_offset f i ∙ ground arith

  linked-Leads : Leads after f i g
  linked-Leads = (
    ap is_present linked ∙ link-is_present g,
    ap frame_of linked ∙ frame_of-link g (omega (arith, v.few)),
  )

  shape-at_g : (shape.level g ≡ suc (t.level f)) × (shape.way g ≡ t.way f * 512 + i)
  shape-at_g = rw (==_refl g) (refl, refl)

  shape_other : (h : ℕ) → h ≢ g → (shape.level h ≡ t.level h) × (shape.way h ≡ t.way h)
  shape_other h ne = rw (==_ne h g ne) (refl, refl)

  inside_after : (h : ℕ) → 0 < shape.level h → h < q.total_frames
  inside_after h p = elim (Bool-cases (h == g)) [
    | inl e ↦ omega (arith, ==→eq e, inside, took.total)
    | inr ne ↦
        omega (arith, v.inside h (omega (arith, (shape_other h (==→ne h g ne)).0, p)), took.total)
  ]

  used_after : (h : ℕ) → 0 < shape.level h → bmp_test q h ≡ true
  used_after h p = elim (Bool-cases (h == g)) [
    | inl e ↦ ground (arith, took.marked h)
    | inr ne ↦
        let old : bmp_test s.pmm h ≡ true =
          v.used h (omega (arith, (shape_other h (==→ne h g ne)).0, p)) in
        ground (arith, took.marked h, old)
  ]

  -- the entry that was written leads to the new table
  down_new :
      (h j : ℕ)
      → h ≡ f
      → j ≡ i
      → (shape.level (frame_of (entry after h j)) ≡ suc (shape.level h))
        × (shape.way (frame_of (entry after h j)) ≡ shape.way h * 512 + j)
  down_new h j eh ej =
      let to : frame_of (entry after h j) ≡ g =
        ap₂ (λ a b. frame_of (entry after a b)) eh ej ∙ linked-Leads.1 in
      let at_f = shape_other f (other f here) in
      (
        ap shape.level to ∙ (shape-at_g.0 ∙ ap suc (sym (ap shape.level eh ∙ at_f.0))),
        ap shape.way to
            ∙ (shape-at_g.1
                ∙ sym (ap₂ (λ a b. shape.way a * 512 + b) eh ej ∙ ap (λ w. w * 512 + i) at_f.1)),
      )

  down_old :
      (h j : ℕ)
      → h ≢ g
      → ¬ ((h ≡ f) × (j ≡ i))
      → 0 < t.level h
      → t.level h < 4
      → j < 512
      → is_present (entry after h j) ≡ true
      → (shape.level (frame_of (entry after h j)) ≡ suc (shape.level h))
        × (shape.way (frame_of (entry after h j)) ≡ shape.way h * 512 + j)
  down_old h j ne differ p up lt there =
      let e : entry after h j ≡ entry s h j = same h j p lt differ in
      let below = v.down h j p up lt (ap is_present (sym e) ∙ there) in
      let at_h = shape_other h ne in
      let at_k =
        shape_other (frame_of (entry s h j))
          (other (frame_of (entry s h j)) (omega (arith, below.0))) in
      (
        ap (λ x. shape.level (frame_of x)) e ∙ (at_k.0 ∙ (below.0 ∙ ap suc (sym at_h.0))),
        ap (λ x. shape.way (frame_of x)) e
            ∙ (at_k.1 ∙ (below.1 ∙ ap (λ w. w * 512 + j) (sym at_h.1))),
      )

  tree : IsTree after shape
  tree = record {
    frames = ok;
    top = omega (arith, v.top, off, took.total);
    bottom = omega (arith, v.bottom, off);
    some_frame = omega (arith, v.some_frame, took.total);
    few = omega (arith, v.few, took.total);
    inside = inside_after;
    used = used_after;
    down = λ h j p up lt there. elim (Bool-cases (h == g)) [
      | inl e ↦
          let gone : entry after h j ≡ 0 = ap (λ x. entry after x j) (==→eq e) ∙ empty j lt in
          cc (there, gone, is_present-zero)
      | inr ne ↦
          let at_h = shape_other h (==→ne h g ne) in
          elim (Bool-cases ((h == f) && (j == i))) [
            | inl e ↦ down_new h j (ground arith) (ground arith)
            | inr differ ↦
                down_old h j (==→ne h g ne) (λ (a, b). ground arith) (omega (arith, at_h.0, p))
                  (omega (arith, at_h.0, up)) lt there
          ]
    ];
  }

  looks :
      (h : ℕ) (is : List ℕ)
      → 0 < t.level h
      → t.level h + length is ≡ 5
      → AreIndices is
      → lookup after h is ≡ lookup s h is
  unfolding lookup
  looks h [] p d ix = refl
  looks h (j ∷ []) p d ix =
      let e : entry after h j ≡ entry s h j =
        same h j p ix.0 (λ (eh, ej). absurd (omega (arith, ap t.level eh))) in
      ap (λ x. if is_present x then some x else none) e
  looks h (j ∷ k ∷ is) p d ix = elim (Bool-cases ((h == f) && (j == i))) [
    | inl e ↦
        let eh : h ≡ f = ground arith in
        let ej : j ≡ i = ground arith in
        ap₂ (λ a b. lookup after a (b ∷ k ∷ is)) eh ej
        ∙ (lookup-down after f i g k is linked-Leads
            ∙ (lookup-absent after g k is (ap is_present (empty k ix.1.0) ∙ is_present-zero)
                ∙ sym (
                    ap₂ (λ a b. lookup s a (b ∷ k ∷ is)) eh ej
                    ∙ lookup-absent s f i (k ∷ is) absent)))
    | inr differ ↦
        let e : entry after h j ≡ entry s h j = same h j p ix.0 (λ (a, b). ground arith) in
        ap (λ x. if is_present x then lookup after (frame_of x) (k ∷ is) else none) e
        ∙ elim (Bool-cases (is_present (entry s h j))) [
          | inr gone ↦ rw gone refl
          | inl there ↦
              let below = v.down h j p (omega arith) ix.0 there in
              rw there (
                looks (frame_of (entry s h j)) (k ∷ is) (omega (arith, below.0))
                  (omega (arith, below.0)) ix.1)
        ]
  ]

  keeps : (h j k : ℕ) → 0 < t.level h → j < 512 → Leads s h j k → Leads after h j k
  keeps h j k p lt (there, to) =
      let e : entry after h j ≡ entry s h j =
        same h j p lt
          (λ (eh, ej). cc (ap₂ (λ a b. is_present (entry s a b)) eh ej, there, absent)) in
      (ap is_present e ∙ there, ap frame_of e ∙ to)

  pub fresh-Stepped : Stepped s t f i after shape g
  fresh-Stepped = record {
    tree = tree;
    leads = linked-Leads;
    level = shape-at_g.0;
    way = shape-at_g.1;
    grows = λ h p. shape_other h (other h p);
    keeps = keeps;
    looks = looks;
    offset = off;
    flushed = refl;
    total = took.total;
    taken = omega (arith, took.used);
  }
