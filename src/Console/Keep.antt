-- ===== src/Console/Keep.antt =====
-- Drawing changes the memory alone, and so keeps the size of the console of src/drivers/fb.c.
use arc_monark.Base.{
  ℕ, zero, suc, ◌+◌, ◌-◌, ◌≡◌, refl, ap, ◌∙◌, inl, inr, List, leb, ◌==◌, Bool-cases, get_or,
}
use arc_monark.Gfx.{
  Gfx, add32, ink, glyph_of, off_screen, gfx_clear, gfx_pixel, gfx_present, gfx_present_rect,
  gfx_scroll_up, gfx_fill_rect, char_cols, char_rows, gfx_char,
}
use arc_monark.Console.{Console, con_scroll, back, show}

-- `t` is `s` with another memory.
pub record Drawn (s t : Gfx) : Type 0 where
  pub kept : t ≡ record s { memory = t.memory }

pub Drawn-then : {s t u : Gfx} → Drawn s t → Drawn t u → Drawn s u
Drawn-then {s} {t} {u} p q = record {
  kept = q.kept ∙ ap {A = Gfx} {B = Gfx} (λ r. record r { memory = u.memory }) p.kept;
}

pub gfx_fill_rect-Drawn : (x y w h argb : ℕ) (g : Gfx) → Drawn g (gfx_fill_rect x y w h argb g)
unfolding gfx_fill_rect
gfx_fill_rect-Drawn x y w h argb g = elim (Bool-cases (off_screen x y g)) [
  | inl off ↦ rw off (record { kept = refl })
  | inr on ↦ rw on (record { kept = refl })
]

pub gfx_clear-Drawn : (argb : ℕ) (g : Gfx) → Drawn g (gfx_clear argb g)
unfolding gfx_clear
gfx_clear-Drawn argb g = gfx_fill_rect-Drawn 0 0 g.g_width g.g_height argb g

pub gfx_present-Drawn : (g : Gfx) → Drawn g (gfx_present g)
unfolding gfx_present
gfx_present-Drawn g = elim (Bool-cases (g.g_fb == g.g_hw)) [
  | inl one ↦ rw one (record { kept = refl })
  | inr two ↦ rw two (record { kept = refl })
]

pub gfx_present_rect-Drawn : (x y w h : ℕ) (g : Gfx) → Drawn g (gfx_present_rect x y w h g)
unfolding gfx_present_rect
gfx_present_rect-Drawn x y w h g = elim (Bool-cases (g.g_fb == g.g_hw)) [
  | inl one ↦ rw one (record { kept = refl })
  | inr two ↦ elim (Bool-cases (off_screen x y g)) [
    | inl off ↦ rw (two, off) (record { kept = refl })
    | inr on ↦ rw (two, on) (record { kept = refl })
  ]
]

pub gfx_scroll_up-Drawn : (dy argb : ℕ) (g : Gfx) → Drawn g (gfx_scroll_up dy argb g)
unfolding gfx_scroll_up
gfx_scroll_up-Drawn dy argb g = elim (Bool-cases (dy == 0)) [
  | inl e ↦ rw e (record { kept = refl })
  | inr n ↦ elim (Bool-cases (leb g.g_height dy)) [
    | inl all ↦ rw (n, all) (gfx_clear-Drawn argb g)
    | inr part ↦
        rw (n, part)
          (Drawn-then {s = g} (record { kept = refl })
            (gfx_fill_rect-Drawn 0 (g.g_height - dy) g.g_width dy argb _))
  ]
]

gfx_pixel-Drawn : (x y argb : ℕ) (g : Gfx) → Drawn g (gfx_pixel x y argb g)
unfolding gfx_pixel
gfx_pixel-Drawn x y argb g = elim (Bool-cases (off_screen x y g)) [
  | inl off ↦ rw off (record { kept = refl })
  | inr on ↦ rw on (record { kept = refl })
]

char_cols-Drawn : (k bits x y col fg bg : ℕ) (g : Gfx) → Drawn g (char_cols k bits x y col fg bg g)
unfolding char_cols
char_cols-Drawn zero bits x y col fg bg g = record { kept = refl }
char_cols-Drawn (suc k) bits x y col fg bg g =
    Drawn-then (gfx_pixel-Drawn (add32 x col) y (ink bits col fg bg) g)
      (char_cols-Drawn k bits x y (col + 1) fg bg _)

char_rows-Drawn :
    (k : ℕ) (glyph : List ℕ) (x y row fg bg : ℕ) (g : Gfx)
    → Drawn g (char_rows k glyph x y row fg bg g)
unfolding char_rows
char_rows-Drawn zero glyph x y row fg bg g = record { kept = refl }
char_rows-Drawn (suc k) glyph x y row fg bg g =
    Drawn-then (char_cols-Drawn 8 (get_or glyph row 0) x (add32 y row) 0 fg bg g)
      (char_rows-Drawn k glyph x y (row + 1) fg bg _)

pub gfx_char-Drawn : (c x y fg bg : ℕ) (g : Gfx) → Drawn g (gfx_char c x y fg bg g)
unfolding gfx_char
gfx_char-Drawn c x y fg bg g = char_rows-Drawn 16 (glyph_of c) x y 0 fg bg g

pub con_scroll-Drawn : (s : Console) → Drawn s.gfx (con_scroll s).gfx
unfolding con_scroll
con_scroll-Drawn s = Drawn-then (gfx_scroll_up-Drawn 16 s.con_bg s.gfx) (gfx_present-Drawn _)

pub back-Drawn : (s : Console) → Drawn s.gfx (back s).gfx
unfolding back
back-Drawn s =
    Drawn-then (gfx_fill_rect-Drawn _ _ 8 16 s.con_bg s.gfx) (gfx_present_rect-Drawn _ _ 8 16 _)

pub show-Drawn : (c : ℕ) (s : Console) → Drawn s.gfx (show c s).gfx
unfolding show
show-Drawn c s =
    Drawn-then (gfx_char-Drawn c _ _ s.con_fg s.con_bg s.gfx) (gfx_present_rect-Drawn _ _ 8 16 _)
