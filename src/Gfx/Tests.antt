-- ===== src/Gfx/Tests.antt =====
-- Drawing on a concrete screen.
use arc_monark.Base.{ℕ, ◌≡◌, refl, inr, false, [], ◌∷◌, arith}
use arc_monark.Gfx.{
  Gfx, gfx_fill_rect, gfx_char, gfx_text, gfx_copy_out, gfx_blit, put_row, put_rows,
}
use arc_monark.Gfx.Screen.{IsScreen, pixel_at, in_rect}
use arc_monark.Gfx.Fill.{Paints, filled, gfx_fill_rect-Paints}
use arc_monark.Gfx.Text.{char_pixels, gfx_char-Paints}
use arc_monark.Gfx.Safe.{Stays, gfx_text-Stays}
use arc_monark.Gfx.Under.{gfx_blit-gfx_copy_out}

-- 20 by 20 pixels in lines of 96 bytes, with a back buffer; each word holds its address
abbrev small : Gfx
small = record {
  g_hw = 0x10000;
  g_fb = 0x1000;
  g_width = 20;
  g_height = 20;
  g_pitch = 96;
  g_bpp = 32;
  memory = λ a. a;
}

small-IsScreen : IsScreen small
small-IsScreen = record { line = omega arith; wide = omega arith; high = omega arith }

-- the last pixel of a rectangle that is clipped, and one beside it
fill_corner : pixel_at (gfx_fill_rect 18 18 5 5 7 small) 19 19 ≡ 7
unfolding gfx_fill_rect put_rows put_row
fill_corner = refl

fill_beside : pixel_at (gfx_fill_rect 18 18 5 5 7 small) 17 19 ≡ 5988
unfolding gfx_fill_rect put_rows put_row
fill_beside = refl

gfx_fill_rect-Paints_example :
    Paints small (gfx_fill_rect 18 18 5 5 7 small) (filled 18 18 5 5 7 (pixel_at small))
gfx_fill_rect-Paints_example =
    gfx_fill_rect-Paints small-IsScreen 18 18 5 5 7 (omega arith) (omega arith)

gfx_char-Paints_example :
    Paints small (gfx_char 65 15 1 9 8 small) (char_pixels 65 15 1 9 8 (pixel_at small))
gfx_char-Paints_example = gfx_char-Paints small-IsScreen 65 15 1 9 8 (omega arith) (omega arith)

gfx_text-Stays_example : Stays small (gfx_text (65 ∷ 200 ∷ []) 4294967290 18 9 8 small)
gfx_text-Stays_example = gfx_text-Stays (65 ∷ 200 ∷ []) small-IsScreen 4294967290 18 9 8

-- 12 by 15 pixels are saved at 0x20000
abbrev saved : Gfx
saved = gfx_copy_out 4 5 12 15 0x20000 small

saved-IsScreen : IsScreen saved
unfolding gfx_copy_out
saved-IsScreen = record { line = omega arith; wide = omega arith; high = omega arith }

covered : Paints saved (gfx_fill_rect 4 5 12 15 7 saved) (filled 4 5 12 15 7 (pixel_at saved))
covered = gfx_fill_rect-Paints saved-IsScreen 4 5 12 15 7 (omega arith) (omega arith)

around_covered :
    (px py : ℕ)
    → in_rect 4 5 12 15 px py ≡ false
    → filled 4 5 12 15 7 (pixel_at saved) px py ≡ pixel_at saved px py
around_covered px py out = rw out refl

gfx_blit-gfx_copy_out_example :
    Paints
      (gfx_fill_rect 4 5 12 15 7 saved)
      (gfx_blit 0x20000 4 5 12 15 (gfx_fill_rect 4 5 12 15 7 saved))
      (pixel_at small)
gfx_blit-gfx_copy_out_example =
    gfx_blit-gfx_copy_out small-IsScreen 0x20000 4 5 12 15 (omega arith) (omega arith)
      (inr (omega arith)) covered around_covered
