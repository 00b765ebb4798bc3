-- ===== src/Console/Cell.antt =====
-- A character of the console of src/drivers/fb.c on the screen.
use arc_monark.Base.{
  ℕ, ◌+◌, ◌-◌, ◌*◌, ◌<◌, ◌≡◌, refl, sym, ap, ap₂, subst, ◌∙◌, inl, inr, true, false, arith,
  if◌then◌else◌, Bool-cases, get_or,
}
use arc_monark.Gfx.{Gfx, glyph_of, ink, gfx_char}
use arc_monark.Gfx.Screen.{address, address_lt, IsScreen, in_rect, shown_at}
use arc_monark.Gfx.Fill.{Paints-IsScreen}
use arc_monark.Gfx.Text.{gfx_char-char_drawn}
use arc_monark.Gfx.Copy.{AreApart, gfx_present_rect-Presented}
use arc_monark.Console.{Console, cell_x, cell_y, show}
use arc_monark.Console.Cursor.{IsValid}

-- what is seen at a pixel once the character is in the cell of the cursor
abbrev pub with_char : ℕ → Console → ℕ → ℕ → ℕ
with_char c s px py =
    if in_rect (s.cur_x * 8) (s.cur_y * 16) 8 16 px py
    then ink (get_or (glyph_of c) (py - s.cur_y * 16) 0) (px - s.cur_x * 8) s.con_fg s.con_bg
    else shown_at s.gfx px py

-- On a console that is valid, with a back buffer apart from the screen, `show` has the glyph of the
-- character seen in the cell of the cursor, in the colours of the console, and nothing else changed
-- on the screen.
pub show-with_char :
    {s : Console}
    → IsValid s
    → IsScreen s.gfx
    → AreApart s.gfx
    → (c px py : ℕ) → px < s.gfx.g_width
    → py < s.gfx.g_height
    → shown_at (show c s).gfx px py ≡ with_char c s px py
unfolding show
show-with_char {s} v i apart c px py lx ly =
    let x : cell_x s ≡ s.cur_x * 8 = omega (arith, v.wide, v.x_in) in
    let y : cell_y s ≡ s.cur_y * 16 = omega (arith, v.high, v.y_in) in
    let p =
      gfx_char-char_drawn i c (cell_x s) (cell_y s) s.con_fg s.con_bg
        (omega (arith, v.wide, v.x_in)) (omega (arith, v.high, v.y_in)) in
    let q =
      gfx_present_rect-Presented (Paints-IsScreen p i) (subst AreApart (sym p.kept) apart)
        (cell_x s) (cell_y s) 8 16 (omega (arith, v.wide, v.x_in))
        (omega (arith, v.high, v.y_in)) in
    let d : Gfx = gfx_char c (cell_x s) (cell_y s) s.con_fg s.con_bg s.gfx in
    let seen : shown_at d px py ≡ shown_at s.gfx px py =
      ap {A = Gfx} {B = ℕ} (λ r. d.memory (address r.g_hw r.g_pitch px py)) p.kept
      ∙ p.beyond (address s.gfx.g_hw s.gfx.g_pitch px py) (
          ground (
            arith,
            apart,
            address_lt s.gfx.g_hw s.gfx.g_pitch px py s.gfx.g_height (omega (arith, i.line)) ly,
          )) in
    let in_cell : in_rect (cell_x s) (cell_y s) 8 16 px py ≡ true
        → ink (get_or (glyph_of c) (py - cell_y s) 0) (px - cell_x s) s.con_fg s.con_bg
          ≡ with_char c s px py =
      λ here.
        ap₂ (λ a b. ink (get_or (glyph_of c) (py - b) 0) (px - a) s.con_fg s.con_bg) x y
        ∙ sym (rw (sym (ap₂ (λ a b. in_rect a b 8 16 px py) x y) ∙ here) refl) in
    let out_cell : in_rect (cell_x s) (cell_y s) 8 16 px py ≡ false
        → shown_at s.gfx px py ≡ with_char c s px py =
      λ away. sym (rw (sym (ap₂ (λ a b. in_rect a b 8 16 px py) x y) ∙ away) refl) in
    q.shown px py (subst (λ r. px < r.g_width) (sym p.kept) lx)
      (subst (λ r. py < r.g_height) (sym p.kept) ly)
    ∙ elim (Bool-cases (in_rect (cell_x s) (cell_y s) 8 16 px py)) [
      | inl here ↦
          let here' : in_rect (cell_x s) (cell_y s + 0) 8 16 px py ≡ true = ground arith in
          rw here (p.pixels px py lx ly ∙ rw here' (in_cell here))
      | inr away ↦ rw away (seen ∙ out_cell away)
    ]
