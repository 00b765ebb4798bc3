-- ===== src/Gfx/Copy.antt =====
-- Copying pixels, in src/gui/gfx.c: the back buffer to the screen, a rectangle out of it and back
-- into it, and the whole of it upwards.
use arc_monark.Base.{
  ℕ, ◌+◌, ◌-◌, ◌*◌, ◌^◌, ◌≤◌, ◌<◌, ◌≡◌, refl, ap, ◌∙◌, ◌⊎◌, inl, inr, arith, ◌==◌, if◌then◌else◌,
  Bool-cases,
}
use arc_monark.Gfx.{Gfx, Memory, add32, off_screen, from, clip, gfx_present_rect}
use arc_monark.Gfx.Screen.{
  address_lt, outside_block, IsScreen, address, pixel_at, shown_at, in_rect, clip_fits,
  put_rows_inside, put_rows_outside, put_rows_beyond,
}
use arc_monark.Gfx.Fill.{rows_at, in_clipped}

-- The back buffer and the screen have no byte in common.
abbrev pub AreApart : Gfx → Type 0
AreApart g = (g.g_fb + g.g_height * g.g_pitch ≤ g.g_hw) ⊎ (g.g_hw + g.g_height * g.g_pitch ≤ g.g_fb)

-- the source of the pixel in the rows of a rectangle at `x`, `y`
pub source :
    (g : Gfx)
    → IsScreen g
    → (x y base px py : ℕ) → x ≤ px
    → y ≤ py
    → py < g.g_height
    → base + (add32 y (py - y) * g.g_pitch + x * 4) + (px - x) * 4 ≡ address base g.g_pitch px py
source g i x y base px py left up ly =
    let line : add32 y (py - y) ≡ py = omega (arith, i.high) in
    omega (arith, ap (λ z. z * g.g_pitch) line)

-- what is shown after a rectangle of the back buffer is copied to the screen
pub record Presented (x y w h : ℕ) (s t : Gfx) : Type 0 where
  pub kept : t ≡ record s { memory = t.memory }
  pub drawn : (px py : ℕ) → px < s.g_width → py < s.g_height → pixel_at t px py ≡ pixel_at s px py
  pub shown :
      (px py : ℕ)
      → px < s.g_width
      → py < s.g_height
      → shown_at t px py ≡ (if in_rect x y w h px py then pixel_at s px py else shown_at s px py)

-- On a screen whose lines hold their pixels, with a back buffer apart from it, where `x + w` and
-- `y + h` do not wrap in 32 bits: `gfx_present_rect` shows exactly the rectangle's pixels of the
-- back buffer on the screen, leaves the other pixels of the screen as they were, and does not
-- change the back buffer.
pub gfx_present_rect-Presented :
    {g : Gfx}
    → IsScreen g
    → AreApart g
    → (x y w h : ℕ) → x + w < 2 ^ 32
    → y + h < 2 ^ 32
    → Presented x y w h g (gfx_present_rect x y w h g)
unfolding gfx_present_rect
gfx_present_rect-Presented {g} i apart x y w h fx fy = elim (Bool-cases (g.g_fb == g.g_hw)) [
  | inl same ↦
      let e : g.g_fb ≡ g.g_hw = ground arith in
      rw same (record {
        kept = refl;
        drawn = λ px py lx ly. refl;
        shown = λ px py lx ly. ground (arith, ap (λ b. g.memory (address b g.g_pitch px py)) e);
      })
  | inr two ↦ elim (Bool-cases (off_screen x y g)) [
    | inl off ↦
        rw (two, off)
          (record { kept = refl; drawn = λ px py lx ly. refl; shown = λ px py lx ly. ground arith })
    | inr on ↦
        let x_in : x < g.g_width = ground arith in
        let y_in : y < g.g_height = ground arith in
        let off : ℕ → ℕ = λ j. add32 y j * g.g_pitch + x * 4 in
        let row : ℕ → ℕ = λ j. g.g_hw + off j in
        let f : ℕ → ℕ → Memory → ℕ = λ j. from (g.g_fb + off j) in
        let lines = rows_at g i x y w h x_in y_in fx fy g.g_hw in
        let rows : (j : ℕ) → j < clip y h g.g_height → row j ≡ address g.g_hw g.g_pitch x (y + j) =
          λ j lt. omega (arith, lines j lt) in
        let fits = clip_fits x w g.g_width x_in fx in
        let tall = clip_fits y h g.g_height y_in fy in
        let clear : (px py : ℕ)
            → px < g.g_width
            → py < g.g_height
            → (g.g_fb + py * g.g_pitch + px * 4 < g.g_hw)
              ⊎ (g.g_hw + g.g_height * g.g_pitch ≤ g.g_fb + py * g.g_pitch + px * 4) =
          λ px py lx ly. ground (
            arith,
            apart,
            address_lt g.g_fb g.g_pitch px py g.g_height (omega (arith, i.line)) ly,
          ) in
        rw (two, on)
          (record {
            kept = refl;
            drawn = λ px py lx ly.
                put_rows_beyond g.g_hw g.g_pitch g.g_width i.line x y _ _ fits row rows f g.memory
                  g.g_height _ tall (clear px py lx ly);
            shown = λ px py lx ly. elim (Bool-cases (in_rect x y w h px py)) [
              | inl here ↦
                  put_rows_inside g.g_hw g.g_pitch g.g_width i.line x y _ _ fits row rows f g.memory
                    px py (pixel_at g px py)
                    (in_clipped g i x y w h x_in y_in fx fy px py lx ly ∙ here)
                    (λ n same.
                      ap n (source g i x y g.g_fb px py (ground arith) (ground arith) ly)
                      ∙ same (address g.g_fb g.g_pitch px py) (λ u le lt.
                        outside_block g.g_hw g.g_pitch g.g_width i.line x y _ _ fits row rows
                          g.g_height _ tall (clear px py lx ly) u le (ground arith)))
                  ∙ rw here refl
              | inr away ↦
                  put_rows_outside g.g_hw g.g_pitch g.g_width i.line x y _ _ fits row rows f
                    g.memory px py lx (in_clipped g i x y w h x_in y_in fx fy px py lx ly ∙ away)
                  ∙ rw away refl
            ];
          })
  ]
]
