-- ===== src/Console.antt =====
-- src/drivers/fb.c and include/fb.h: the text console on the drawing of src/gui/gfx.c. Its
-- definitions are here; `Console.Keep` is about the sides of the screen, `Console.Cursor` about the
-- cursor, `Console.Cell` about what a character shows.
pub mod Keep
pub mod Cursor
pub mod Run
pub mod Cell
mod Tests
use arc_monark.Base.{
  ℕ, zero, suc, ◌*◌, ◌/◌, ◌%◌, ◌^◌, Option, none, some, List, [], ◌∷◌, leb, ◌==◌, if◌then◌else◌,
}
use arc_monark.Gfx.{
  Gfx, add32, sub32, gfx_clear, gfx_present, gfx_present_rect, gfx_scroll_up, gfx_fill_rect,
  gfx_char, gfx_width, gfx_height,
}

abbrev pub ch_w : ℕ
ch_w = 8

abbrev pub ch_h : ℕ
ch_h = 16

-- The static data of fb.c, with that of gfx.c. The cursor counts in cells.
pub record Console : Type 0 where
  pub cur_x : ℕ
  pub cur_y : ℕ
  pub con_fg : ℕ
  pub con_bg : ℕ
  pub gfx : Gfx

unfoldable pub set_color : ℕ → ℕ → Console → Console
set_color fg bg s = record s { con_fg = fg; con_bg = bg }

pub color : ℕ → Console → Console
color fg s = record s { con_fg = fg }

unfoldable pub clear_screen : Console → Console
clear_screen s = record s { gfx = gfx_present (gfx_clear s.con_bg s.gfx); cur_x = 0; cur_y = 0 }

unfoldable pub con_scroll : Console → Console
con_scroll s = record s {
  gfx = gfx_present (gfx_scroll_up ch_h s.con_bg s.gfx);
  cur_y = sub32 s.cur_y 1;
}

-- `while (cur_y >= gfx_height() / CH_H) con_scroll();`, on fuel; `none` is a loop that has used it up
unfoldable pub scroll_loop : ℕ → Console → Option Console
scroll_loop zero s = none
scroll_loop (suc k) s =
    let rest = scroll_loop k (con_scroll s) in
    if leb (gfx_height s.gfx / ch_h) s.cur_y then rest else some s

abbrev pub cell_x : Console → ℕ
cell_x s = s.cur_x * ch_w % 2 ^ 32

abbrev pub cell_y : Console → ℕ
cell_y s = s.cur_y * ch_h % 2 ^ 32

abbrev pub next_line : Console → Console
next_line s = record s { cur_x = 0; cur_y = add32 s.cur_y 1 }

-- the branch of `\b`
unfoldable pub back : Console → Console
back s =
    let t : Console = record s { cur_x = if s.cur_x == 0 then 0 else sub32 s.cur_x 1 } in
    record t {
      gfx =
          gfx_present_rect (cell_x t) (cell_y t) ch_w ch_h
            (gfx_fill_rect (cell_x t) (cell_y t) ch_w ch_h t.con_bg t.gfx);
    }

-- the cell of a character, drawn and shown
unfoldable pub show : ℕ → Console → Console
show c s = record s {
  gfx =
      gfx_present_rect (cell_x s) (cell_y s) ch_w ch_h
        (gfx_char c (cell_x s) (cell_y s) s.con_fg s.con_bg s.gfx);
}

-- the last branch
unfoldable pub visible : ℕ → Console → Console
visible c s =
    let t : Console = show c s in
    let x : ℕ = add32 t.cur_x 1 in
    if leb (gfx_width t.gfx / ch_w) x then next_line t else record t { cur_x = x }

-- `putchar` before its loop
unfoldable pub place : ℕ → Console → Console
place c s =
    if c == 10
    then next_line s
    else if c == 13
    then record s { cur_x = 0 }
    else if c == 8
    then back s
    else visible c s

unfoldable pub putchar : ℕ → ℕ → Console → Option Console
putchar k c s = scroll_loop k (place c s)

-- on the characters before the end of the string
unfoldable pub print : ℕ → List ℕ → Console → Option Console
print k [] s = some s
print k (c ∷ cs) s = elim (putchar k c s) [ none ↦ none | some t ↦ print k cs t ]
