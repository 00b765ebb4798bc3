-- ===== src/Gfx/Under.antt =====
-- `gfx_copy_out` and `gfx_blit` of src/gui/gfx.c: what is under the cursor is saved and put back.
use arc_monark.Base.{
  ℕ, ◌+◌, ◌-◌, ◌*◌, ◌^◌, ◌≤◌, ◌<◌, ◌≡◌, refl, sym, ap, ap₂, subst, ◌∙◌, ◌⊎◌, inl, inr, false, arith,
  if◌then◌else◌, Bool-cases,
}
use arc_monark.Gfx.{Gfx, Memory, add32, off_screen, from, gfx_copy_out, gfx_blit}
use arc_monark.Gfx.Screen.{
  IsScreen, address, pixel_at, in_rect, clip_fits, put_rows_inside, put_rows_outside,
  put_rows_beyond, outside_block, address_lt,
}
use arc_monark.Gfx.Fill.{Paints, Paints-as, Paints-IsScreen, rows_at, in_clipped}

-- The `w` by `h` pixels at `p` are not in the buffer that is drawn to.
abbrev pub IsAway : ℕ → ℕ → ℕ → Gfx → Type 0
IsAway p w h g = (p + h * (w * 4) ≤ g.g_fb) ⊎ (g.g_fb + g.g_height * g.g_pitch ≤ p)

-- the word for the column `c` and the line `r` of such pixels
abbrev pub saved_at : ℕ → ℕ → Gfx → ℕ → ℕ → ℕ
saved_at p w g c r = g.memory (address p (w * 4) c r)

pub record Saved (p x y w h : ℕ) (s t : Gfx) : Type 0 where
  pub kept : t ≡ record s { memory = t.memory }
  pub drawn : (px py : ℕ) → px < s.g_width → py < s.g_height → pixel_at t px py ≡ pixel_at s px py
  pub saved : (c r : ℕ) → c < w → r < h → saved_at p w t c r ≡ pixel_at s (x + c) (y + r)

away_from :
    (p w h : ℕ) (g : Gfx)
    → IsScreen g
    → IsAway p w h g
    → (px py : ℕ) → px < g.g_width
    → py < g.g_height
    → (address g.g_fb g.g_pitch px py < p) ⊎ (p + h * (w * 4) ≤ address g.g_fb g.g_pitch px py)
away_from p w h g i away px py lx ly =
    ground (arith, away, address_lt g.g_fb g.g_pitch px py g.g_height (omega (arith, i.line)) ly)

pub gfx_copy_out-Saved :
    {g : Gfx}
    → IsScreen g
    → (p x y w h : ℕ) → x + w ≤ g.g_width
    → y + h ≤ g.g_height
    → IsAway p w h g
    → Saved p x y w h g (gfx_copy_out x y w h p g)
unfolding gfx_copy_out
gfx_copy_out-Saved {g} i p x y w h fx fy away =
    let row : ℕ → ℕ = λ j. p + j * w * 4 in
    let f : ℕ → ℕ → Memory → ℕ = λ j. from (g.g_fb + add32 y j * g.g_pitch + x * 4) in
    let rows : (j : ℕ) → j < h → row j ≡ address p (w * 4) 0 (0 + j) = λ j lt. omega arith in
    let whole : w * 4 ≤ w * 4 = omega arith in
    let all : 0 + w ≤ w = omega arith in
    let line : (r : ℕ) → r < h → add32 y (r - 0) ≡ y + r = λ r lr. omega (arith, i.high) in
    record {
      kept = refl;
      drawn = λ px py lx ly.
          put_rows_beyond p (w * 4) w whole 0 0 w h all row rows f g.memory h _ (omega arith)
            (away_from p w h g i away px py lx ly);
      saved = λ c r lc lr.
          put_rows_inside p (w * 4) w whole 0 0 w h all row rows f g.memory c r _ (ground arith)
            (λ n same.
              ap n (omega (arith, ap (λ z. z * g.g_pitch) (line r lr)))
              ∙ same (address g.g_fb g.g_pitch (x + c) (y + r)) (λ u le lt.
                outside_block p (w * 4) w whole 0 0 w h all row rows h _ (omega arith)
                  (away_from p w h g i away (x + c) (y + r) (omega arith) (omega arith)) u le
                  (omega arith)));
    }

abbrev pub blitted : ℕ → ℕ → ℕ → ℕ → ℕ → Gfx → ℕ → ℕ → ℕ
blitted p x y w h g px py =
    if in_rect x y w h px py then saved_at p w g (px - x) (py - y) else pixel_at g px py

pub gfx_blit-Paints :
    {g : Gfx}
    → IsScreen g
    → (p x y w h : ℕ) → x + w < 2 ^ 32
    → y + h < 2 ^ 32
    → IsAway p w h g
    → Paints g (gfx_blit p x y w h g) (blitted p x y w h g)
unfolding gfx_blit
gfx_blit-Paints {g} i p x y w h fx fy away = elim (Bool-cases (off_screen x y g)) [
  | inl off ↦
      rw off (record { kept = refl; pixels = λ px py lx ly. ground arith; beyond = λ a away. refl })
  | inr on ↦
      let x_in : x < g.g_width = ground arith in
      let y_in : y < g.g_height = ground arith in
      let row : ℕ → ℕ = λ j. g.g_fb + add32 y j * g.g_pitch + x * 4 in
      let f : ℕ → ℕ → Memory → ℕ = λ j. from (p + j * w * 4) in
      let rows = rows_at g i x y w h x_in y_in fx fy g.g_fb in
      let fits = clip_fits x w g.g_width x_in fx in
      let tall = clip_fits y h g.g_height y_in fy in
      rw on (record {
        kept = refl;
        pixels = λ px py lx ly. elim (Bool-cases (in_rect x y w h px py)) [
          | inl here ↦
              put_rows_inside g.g_fb g.g_pitch g.g_width i.line x y _ _ fits row rows f g.memory px
                py (saved_at p w g (px - x) (py - y))
                (in_clipped g i x y w h x_in y_in fx fy px py lx ly ∙ here)
                (λ n same.
                  ap n (omega arith)
                  ∙ same (address p (w * 4) (px - x) (py - y)) (λ u le lt.
                    outside_block g.g_fb g.g_pitch g.g_width i.line x y _ _ fits row rows g.g_height
                      _ tall
                      (ground (
                        arith,
                        away,
                        address_lt p (w * 4) (px - x) (py - y) h (ground arith) (ground arith),
                      ))
                      u le (ground arith)))
              ∙ rw here refl
          | inr away ↦
              put_rows_outside g.g_fb g.g_pitch g.g_width i.line x y _ _ fits row rows f g.memory px
                py lx (in_clipped g i x y w h x_in y_in fx fy px py lx ly ∙ away)
              ∙ rw away refl
        ];
        beyond = λ a away.
            put_rows_beyond g.g_fb g.g_pitch g.g_width i.line x y _ _ fits row rows f g.memory
              g.g_height a tall away;
      })
]

-- Where the `w` by `h` pixels at `x`, `y` are on the screen and their copy at `p` is not in the
-- buffer: after they are copied out, and after any drawing that changes no other pixel, `gfx_blit`
-- puts back every pixel of the buffer as it was.
pub gfx_blit-gfx_copy_out :
    {g t : Gfx} {f : ℕ → ℕ → ℕ}
    → IsScreen g
    → (p x y w h : ℕ) → x + w ≤ g.g_width
    → y + h ≤ g.g_height
    → IsAway p w h g
    → Paints (gfx_copy_out x y w h p g) t f
    → ((px py : ℕ)
        → in_rect x y w h px py ≡ false
        → f px py ≡ pixel_at (gfx_copy_out x y w h p g) px py)
    → Paints t (gfx_blit p x y w h t) (pixel_at g)
unfolding gfx_copy_out
gfx_blit-gfx_copy_out {g} {t} {f} i p x y w h fx fy away drawn around =
    let s = gfx_copy_out-Saved i p x y w h fx fy away in
    let like : t ≡ record g { memory = t.memory } = drawn.kept in
    let screen : IsScreen t =
      Paints-IsScreen drawn (record { line = i.line; wide = i.wide; high = i.high }) in
    let off : IsAway p w h t = subst (IsAway p w h) (sym like) away in
    Paints-as (gfx_blit-Paints screen p x y w h (omega (arith, i.wide)) (omega (arith, i.high)) off)
      (λ px py lx ly.
        let lx' : px < g.g_width = subst (λ r. px < r.g_width) like lx in
        let ly' : py < g.g_height = subst (λ r. py < r.g_height) like ly in
        elim (Bool-cases (in_rect x y w h px py)) [
          | inl here ↦
              let same : address g.g_fb g.g_pitch (x + (px - x)) (y + (py - y))
                  ≡ address g.g_fb g.g_pitch px py =
                ap₂ (address g.g_fb g.g_pitch) (ground arith) (ground arith) in
              rw here (
                drawn.beyond (address p (w * 4) (px - x) (py - y)) (
                  ground (
                    arith,
                    away,
                    address_lt p (w * 4) (px - x) (py - y) h (ground arith) (ground arith),
                  ))
                ∙ s.saved (px - x) (py - y) (ground arith) (ground arith)
                ∙ ap g.memory same)
          | inr out ↦ rw out (drawn.pixels px py lx' ly' ∙ around px py out ∙ s.drawn px py lx' ly')
        ])
