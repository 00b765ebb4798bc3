-- ===== src/Gfx/Scroll.antt =====
-- `gfx_scroll_up` of src/gui/gfx.c.
use arc_monark.Base.{
  ℕ, ◌+◌, ◌-◌, ◌*◌, ◌^◌, ◌≤◌, ◌<◌, ◌≡◌, refl, ap, ◌∙◌, inl, inr, arith, ltb, leb, ◌==◌,
  if◌then◌else◌, Bool-cases,
}
use arc_monark.Gfx.{Gfx, Memory, add32, put_rows, from, gfx_scroll_up}
use arc_monark.Gfx.Screen.{
  IsScreen, address, pixel_at, put_rows_inside, put_rows_outside, put_rows_beyond, outside_rect,
}
use arc_monark.Gfx.Fill.{Paints, Paints-same, Paints-as, fill_after}
use arc_monark.Gfx.Shapes.{gfx_clear-Paints}

-- the picture moved up, and what comes in from below
abbrev pub scrolled : ℕ → ℕ → Gfx → ℕ → ℕ → ℕ
scrolled dy argb g x y = if ltb (y + dy) g.g_height then pixel_at g x (y + dy) else argb

-- after the loop of `gfx_scroll_up`
abbrev pub moved : ℕ → Gfx → Gfx
moved dy g = record g {
  memory =
      put_rows (g.g_height - dy) g.g_width (λ y. g.g_fb + y * g.g_pitch)
        (λ y. from (g.g_fb + add32 y dy * g.g_pitch)) 0 g.memory;
}

moved-Paints :
    {g : Gfx}
    → IsScreen g
    → (dy : ℕ) → 0 < dy
    → dy < g.g_height
    → Paints g
        (moved dy g)
        (λ x y. if ltb (y + dy) g.g_height then pixel_at g x (y + dy) else pixel_at g x y)
moved-Paints {g} i dy pos low =
    let h : ℕ = g.g_height - dy in
    let row : ℕ → ℕ = λ y. g.g_fb + y * g.g_pitch in
    let f : ℕ → ℕ → Memory → ℕ = λ y. from (g.g_fb + add32 y dy * g.g_pitch) in
    let rows : (k j : ℕ) → j < k → row j ≡ address g.g_fb g.g_pitch 0 (0 + j) =
      λ k j lt. omega arith in
    let whole : 0 + g.g_width ≤ g.g_width = omega arith in
    record {
      kept = refl;
      pixels = λ px py lx ly. elim (Bool-cases (ltb (py + dy) g.g_height)) [
        | inl here ↦
            let line : add32 (py - 0) dy ≡ py + dy = ground (arith, i.high) in
            put_rows_inside g.g_fb g.g_pitch g.g_width i.line 0 0 g.g_width h whole row (rows h) f
              g.memory px py _ (ground arith)
              (λ n same.
                ap n (omega (arith, ap (λ z. z * g.g_pitch) line))
                ∙ same (address g.g_fb g.g_pitch px (py + dy)) (λ u le lt.
                  outside_rect g.g_fb g.g_pitch g.g_width i.line 0 0 g.g_width (py - 0 + 1) whole
                    row (rows (py - 0 + 1)) px (py + dy) lx (ground arith) u le (omega arith)))
            ∙ rw here refl
        | inr away ↦
            put_rows_outside g.g_fb g.g_pitch g.g_width i.line 0 0 g.g_width h whole row (rows h) f
              g.memory px py lx (ground arith)
            ∙ rw away refl
      ];
      beyond = λ a away.
          put_rows_beyond g.g_fb g.g_pitch g.g_width i.line 0 0 g.g_width h whole row (rows h) f
            g.memory g.g_height a (omega arith) away;
    }

same_line : (y dy : ℕ) → dy ≡ 0 → y + dy ≡ y
same_line y dy e = omega (arith, e)

-- On a screen whose lines hold their pixels, `gfx_scroll_up` moves the picture up by `dy` lines,
-- also where that is 0 or more than there are, fills the lines that come in with the colour, and
-- changes no byte outside the buffer.
pub gfx_scroll_up-Paints :
    {g : Gfx}
    → IsScreen g
    → (dy argb : ℕ) → dy < 2 ^ 32
    → Paints g (gfx_scroll_up dy argb g) (scrolled dy argb g)
unfolding gfx_scroll_up
gfx_scroll_up-Paints {g} i dy argb small = elim (Bool-cases (dy == 0)) [
  | inl none_there ↦
      let e : dy ≡ 0 = ground arith in
      rw none_there (
        Paints-as (Paints-same g)
          (λ px py lx ly. ground (arith, ap (λ z. pixel_at g px z) (same_line py dy e))))
  | inr some_there ↦ elim (Bool-cases (leb g.g_height dy)) [
    | inl all ↦
        rw (some_there, all) (Paints-as (gfx_clear-Paints i argb) (λ px py lx ly. ground arith))
    | inr part ↦
        rw (some_there, part)
          (Paints-as
            (fill_after i (moved-Paints i dy (ground arith) (ground arith)) 0 (g.g_height - dy)
              g.g_width dy argb (omega (arith, i.wide)) (ground (arith, i.high)))
            (λ px py lx ly. ground arith))
  ]
]
