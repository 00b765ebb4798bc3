-- ===== src/Shell/Under.antt =====
-- What is under the pointer of src/kernel/kernel.c is put back.
use arc_monark.Base.{
  ℕ, ◌+◌, ◌^◌, ◌≤◌, ◌<◌, ◌≡◌, refl, ◌∙◌, inl, inr, Bool, true, ◌&&◌, List, [], ◌∷◌, arith, leb,
  ◌==◌, if◌then◌else◌, Bool-cases, length,
}
use arc_monark.Base.Int.{ℤ, pos, ◌+ℤ◌}
use arc_monark.Gfx.{Gfx, gfx_rgb, gfx_pixel, gfx_copy_out, gfx_blit}
use arc_monark.Gfx.Screen.{IsScreen, pixel_at, in_rect}
use arc_monark.Gfx.Fill.{Paints}
use arc_monark.Gfx.Text.{pixel_after}
use arc_monark.Gfx.Under.{IsAway, gfx_blit-gfx_copy_out}
use arc_monark.Shell.Pointer.{
  cur_w, cur_h, cursor_glyph, to_u32, draw_cols, draw_lines, draw_cursor,
}

-- the picture of `t` in the rectangle, and of `s` elsewhere
abbrev pub patched : ℕ → ℕ → ℕ → ℕ → Gfx → Gfx → ℕ → ℕ → ℕ
patched x y w h s t px py = if in_rect x y w h px py then pixel_at t px py else pixel_at s px py

to_u32_sum : (a b : ℕ) → a + b < 2 ^ 32 → to_u32 (pos a +ℤ pos b) ≡ a + b
unfolding to_u32 ◌+ℤ◌
to_u32_sum a b fits = let up : leb (0 + 0) (a + b) ≡ true = ground arith in rw up (omega arith)

-- The lines of a glyph are at most `w` long.
unfoldable are_short : ℕ → List (List ℕ) → Bool
are_short w [] = true
are_short w (row ∷ rows) = leb (length row) w && are_short w rows

module _ {s : Gfx} (i : IsScreen s) (x y w h : ℕ) (x_fits : x + w ≤ 2 ^ 32)
    (y_fits : y + h ≤ 2 ^ 32) where
  abbrev Within : Gfx → Type 0
  Within t = Paints s t (patched x y w h s t)

  nothing_drawn : Within s
  nothing_drawn = record {
    kept = refl;
    pixels = λ px py lx ly. ground arith;
    beyond = λ a away. refl;
  }

  pixel_drawn :
      {t : Gfx}
      → Within t
      → (gx gy argb : ℕ) → in_rect x y w h gx gy ≡ true
      → Within (gfx_pixel gx gy argb t)
  pixel_drawn {t} q gx gy argb inside =
      let p = pixel_after i q gx gy argb in
      record {
        kept = p.kept;
        pixels = λ px py lx ly. elim (Bool-cases (in_rect x y w h px py)) [
          | inl here ↦ rw here refl
          | inr out ↦ rw out (p.pixels px py lx ly ∙ ground (arith, out, inside))
        ];
        beyond = p.beyond;
      }

  cols_drawn :
      (row : List ℕ) {t : Gfx} (gy : ℤ) (c fill : ℕ)
      → Within t
      → c + length row ≤ w
      → y ≤ to_u32 gy
      → to_u32 gy < y + h
      → Within (draw_cols row (pos x) gy c fill t)
  unfolding draw_cols
  cols_drawn [] gy c fill q fits up low = q
  cols_drawn (ch ∷ row) {t} gy c fill q fits up low =
      let at : to_u32 (pos x +ℤ pos c) ≡ x + c = to_u32_sum x c (omega arith) in
      let dot : (argb : ℕ) → Within (gfx_pixel (to_u32 (pos x +ℤ pos c)) (to_u32 gy) argb t) =
        λ argb. pixel_drawn q _ _ argb (ground (arith, at)) in
      elim (Bool-cases (ch == 88)) [
        | inl edge ↦
            rw edge (cols_drawn row gy (c + 1) fill (dot (gfx_rgb 0 0 0)) (omega arith) up low)
        | inr n ↦ elim (Bool-cases (ch == 111)) [
          | inl inner ↦
              rw (n, inner) (cols_drawn row gy (c + 1) fill (dot fill) (omega arith) up low)
          | inr clear ↦ rw (n, clear) (cols_drawn row gy (c + 1) fill q (omega arith) up low)
        ]
      ]

  lines_drawn :
      (rows : List (List ℕ)) {t : Gfx} (r fill : ℕ)
      → Within t
      → are_short w rows ≡ true
      → r + length rows ≤ h
      → Within (draw_lines rows (pos x) (pos y) r fill t)
  unfolding draw_lines are_short
  lines_drawn [] r fill q short fits = q
  lines_drawn (row ∷ rows) r fill q short fits =
      let at : to_u32 (pos y +ℤ pos r) ≡ y + r = to_u32_sum y r (omega arith) in
      lines_drawn rows (r + 1) fill
        (cols_drawn row (pos y +ℤ pos r) 0 fill q (ground arith) (omega (arith, at))
          (omega (arith, at)))
        (ground arith) (omega arith)

short_lines : are_short 12 cursor_glyph ≡ true
unfolding are_short
short_lines = refl

draw_cursor-Within :
    {s : Gfx} (i : IsScreen s) (x y b : ℕ)
    → x + 12 ≤ 2 ^ 32
    → y + 15 ≤ 2 ^ 32
    → Paints s
        (draw_cursor (pos x) (pos y) b s)
        (patched x y 12 15 s (draw_cursor (pos x) (pos y) b s))
unfolding draw_cursor
draw_cursor-Within {s} i x y b fx fy =
    lines_drawn i x y 12 15 fx fy cursor_glyph 0 _ (nothing_drawn i x y 12 15 fx fy) short_lines
      (omega arith)

-- On a screen whose lines hold their pixels, where the pointer is on the screen and the place of the
-- copy is not in the buffer: `gfx_blit` after `gfx_copy_out` and `draw_cursor` has every pixel of the
-- buffer as it was before the pointer was drawn, whatever the buttons.
pub gfx_blit-draw_cursor :
    {g : Gfx}
    → IsScreen g
    → (under x y b : ℕ) → x + cur_w ≤ g.g_width
    → y + cur_h ≤ g.g_height
    → IsAway under cur_w cur_h g
    → Paints
        (draw_cursor (pos x) (pos y) b (gfx_copy_out x y cur_w cur_h under g))
        (gfx_blit under x y cur_w cur_h
          (draw_cursor (pos x) (pos y) b (gfx_copy_out x y cur_w cur_h under g)))
        (pixel_at g)
unfolding gfx_copy_out
gfx_blit-draw_cursor {g} i under x y b fx fy away =
    gfx_blit-gfx_copy_out i under x y cur_w cur_h fx fy away
      (draw_cursor-Within (record { line = i.line; wide = i.wide; high = i.high }) x y b
        (omega (arith, i.wide)) (omega (arith, i.high)))
      (λ px py out. rw out refl)
