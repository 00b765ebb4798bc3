-- ===== src/Console/Cursor.antt =====
-- The cursor of src/drivers/fb.c: where it goes, and that the scrolling ends.
use arc_monark.Base.{
  ℕ, ◌+◌, ◌-◌, ◌/◌, ◌^◌, ◌<◌, ◌≡◌, refl, ap, inl, inr, true, false, List, [], ◌∷◌, arith, ltb, leb,
  ◌==◌, if◌then◌else◌, Bool-cases,
}
use arc_monark.Gfx.{Gfx, add32}
use arc_monark.Console.{Console, back, show, visible, place}
use arc_monark.Console.Keep.{Drawn, back-Drawn, show-Drawn}

abbrev pub cols : Console → ℕ
cols s = s.gfx.g_width / 8

abbrev pub rows : Console → ℕ
rows s = s.gfx.g_height / 16

-- The screen has a cell, and the cursor is in one.
pub record IsValid (s : Console) : Type 0 where
  pub wide : s.gfx.g_width < 2 ^ 32
  pub high : s.gfx.g_height < 2 ^ 32
  pub x_in : s.cur_x < cols s
  pub y_in : s.cur_y < rows s

-- the line below, where the last line stays the last
abbrev pub below : ℕ → ℕ → ℕ
below height y = if ltb (y + 1) height then y + 1 else y

-- where the cursor of a console of this size goes with a character
abbrev pub moved : ℕ → ℕ → ℕ → ℕ × ℕ → ℕ × ℕ
moved width height c (x, y) =
    if c == 10
    then (0, below height y)
    else if c == 13
    then (0, y)
    else if c == 8
    then (x - 1, y)
    else if ltb (x + 1) width
    then (x + 1, y)
    else (0, below height y)

abbrev pub moved_all : ℕ → ℕ → List ℕ → ℕ × ℕ → ℕ × ℕ
moved_all width height [] p = p
moved_all width height (c ∷ cs) p = moved_all width height cs (moved width height c p)

-- `t` is `s` with another picture and the cursor at `x`, `y`.
pub record Went (s t : Console) (x y : ℕ) : Type 0 where
  pub drawn : Drawn s.gfx t.gfx
  pub at_x : t.cur_x ≡ x
  pub at_y : t.cur_y ≡ y
  pub fg : t.con_fg ≡ s.con_fg
  pub bg : t.con_bg ≡ s.con_bg

pub unchanged : (g : Gfx) → Drawn g g
unchanged g = record { kept = refl }

pub width_of : {s t : Gfx} → Drawn s t → t.g_width ≡ s.g_width
width_of d = ap {A = Gfx} {B = ℕ} (λ g. g.g_width) d.kept

pub height_of : {s t : Gfx} → Drawn s t → t.g_height ≡ s.g_height
height_of d = ap {A = Gfx} {B = ℕ} (λ g. g.g_height) d.kept

-- where `place` leaves the cursor, which may be below the last line
abbrev pub placed : ℕ → ℕ → ℕ × ℕ → ℕ × ℕ
placed width c (x, y) =
    if c == 10
    then (0, y + 1)
    else if c == 13
    then (0, y)
    else if c == 8
    then (x - 1, y)
    else if ltb (x + 1) width
    then (x + 1, y)
    else (0, y + 1)

-- the width of a console is a 32-bit number, and its cursor is before it
module _ {s : Console} (v : IsValid s) (c : ℕ) where
  visible-Went :
      Went s
        (visible c s)
        (if ltb (s.cur_x + 1) (cols s) then s.cur_x + 1 else 0)
        (if ltb (s.cur_x + 1) (cols s) then s.cur_y else s.cur_y + 1)
  unfolding visible show
  visible-Went =
      let d = show-Drawn c s in
      elim (Bool-cases (ltb (s.cur_x + 1) (cols s))) [
        | inl fits ↦
            let e : leb ((show c s).gfx.g_width / 8) (add32 s.cur_x 1) ≡ false =
              ground (arith, width_of d, v.wide, v.x_in) in
            rw e (record {
              drawn = d;
              at_x = ground (arith, v.wide, v.x_in);
              at_y = ground arith;
              fg = refl;
              bg = refl;
            })
        | inr last ↦
            let e : leb ((show c s).gfx.g_width / 8) (add32 s.cur_x 1) ≡ true =
              ground (arith, width_of d, v.wide, v.x_in) in
            rw e (record {
              drawn = d;
              at_x = ground arith;
              at_y = ground (arith, v.high, v.y_in);
              fg = refl;
              bg = refl;
            })
      ]

  back-Went : Went s (back s) (s.cur_x - 1) s.cur_y
  unfolding back
  back-Went = record {
    drawn = back-Drawn s;
    at_x = ground (arith, v.wide, v.x_in);
    at_y = refl;
    fg = refl;
    bg = refl;
  }

  pub place-Went :
      Went s
        (place c s)
        (placed (cols s) c (s.cur_x, s.cur_y)).0
        (placed (cols s) c (s.cur_x, s.cur_y)).1
  unfolding place
  place-Went = elim (Bool-cases (c == 10)) [
    | inl line ↦ rw line (record {
      drawn = unchanged s.gfx;
      at_x = refl;
      at_y = omega (arith, v.high, v.y_in);
      fg = refl;
      bg = refl;
    })
    | inr n1 ↦ elim (Bool-cases (c == 13)) [
      | inl start ↦
          rw (n1, start)
            (record { drawn = unchanged s.gfx; at_x = refl; at_y = refl; fg = refl; bg = refl })
      | inr n2 ↦ elim (Bool-cases (c == 8)) [
        | inl erase ↦ rw (n1, n2, erase) back-Went
        | inr n3 ↦ elim (Bool-cases (ltb (s.cur_x + 1) (cols s))) [
          | inl fits ↦ rw (n1, n2, n3, fits) (rw fits at visible-Went)
          | inr last ↦ rw (n1, n2, n3, last) (rw last at visible-Went)
        ]
      ]
    ]
  ]
