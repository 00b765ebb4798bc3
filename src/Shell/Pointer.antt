-- ===== src/Shell/Pointer.antt =====
-- The pointer of the mouse demonstration in src/kernel/kernel.c: `draw_cursor` and `draw_btns`, and
-- that what is under the pointer is put back.
use arc_monark.Base.{ℕ, ◌+◌, ◌-◌, ◌%◌, ◌^◌, bit_and, List, [], ◌∷◌, ◌==◌, if◌then◌else◌}
use arc_monark.Base.Int.{ℤ, pos, negsuc, ◌+ℤ◌}
use arc_monark.Base.Text.{codes}
use arc_monark.Gfx.{Gfx, gfx_rgb, gfx_pixel, gfx_fill_rect}

abbrev pub cur_w : ℕ
cur_w = 12

abbrev pub cur_h : ℕ
cur_h = 15

abbrev pub mouse_left : ℕ
mouse_left = 1

abbrev pub mouse_right : ℕ
mouse_right = 2

abbrev pub mouse_middle : ℕ
mouse_middle = 4

-- the lines before the final NULL
abbrev pub cursor_glyph : List (List ℕ)
cursor_glyph =
    codes "X           "
    ∷ codes "XX          "
    ∷ codes "XoX         "
    ∷ codes "XooX        "
    ∷ codes "XoooX       "
    ∷ codes "XooooX      "
    ∷ codes "XoooooX     "
    ∷ codes "XooooooX    "
    ∷ codes "XoooooooX   "
    ∷ codes "XoooooXXXX  "
    ∷ codes "XooXooX     "
    ∷ codes "XoX XooX    "
    ∷ codes "XX   XooX   "
    ∷ codes "X     XooX  "
    ∷ codes "       XX   "
    ∷ []

-- `(uint32_t)n`
unfoldable pub to_u32 : ℤ → ℕ
to_u32 (pos n) = n % 2 ^ 32
to_u32 (negsuc n) = 2 ^ 32 - 1 - n % 2 ^ 32

-- the loop over the columns of a line, from column `c` on; 88 is `X` and 111 is `o`
unfoldable pub draw_cols : List ℕ → ℤ → ℤ → ℕ → ℕ → Gfx → Gfx
draw_cols [] cx y c fill g = g
draw_cols (ch ∷ row) cx y c fill g = draw_cols row cx y (c + 1) fill (
    if ch == 88
    then gfx_pixel (to_u32 (cx +ℤ pos c)) (to_u32 y) (gfx_rgb 0 0 0) g
    else if ch == 111
    then gfx_pixel (to_u32 (cx +ℤ pos c)) (to_u32 y) fill g
    else g)

-- the loop over the lines, from line `r` on
unfoldable pub draw_lines : List (List ℕ) → ℤ → ℤ → ℕ → ℕ → Gfx → Gfx
draw_lines [] cx cy r fill g = g
draw_lines (row ∷ rows) cx cy r fill g =
    draw_lines rows cx cy (r + 1) fill (draw_cols row cx (cy +ℤ pos r) 0 fill g)

unfoldable pub draw_cursor : ℤ → ℤ → ℕ → Gfx → Gfx
draw_cursor cx cy buttons g =
    let fill : ℕ =
      if bit_and buttons mouse_left == 0 then gfx_rgb 255 255 255 else gfx_rgb 255 210 0 in
    draw_lines cursor_glyph cx cy 0 fill g

abbrev lamp : ℕ → ℕ → ℕ
lamp b mask = if bit_and b mask == 0 then gfx_rgb 90 90 90 else gfx_rgb 0 220 0

pub draw_btns : ℕ → Gfx → Gfx
draw_btns b g = gfx_fill_rect 236 2 14 14 (lamp b mouse_right) (
    gfx_fill_rect 218 2 14 14 (lamp b mouse_middle)
      (gfx_fill_rect 200 2 14 14 (lamp b mouse_left) g))
