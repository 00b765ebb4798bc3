-- ===== src/Console/Run.antt =====
-- `putchar` and `print` of src/drivers/fb.c: that they return, and where the cursor is then.
use arc_monark.Base.{
  ℕ, zero, suc, ◌-◌, ◌/◌, ◌≤◌, ◌<◌, ◌≡◌, refl, ap, ap₂, ◌∙◌, inl, inr, true, false, Option, none,
  some, List, [], ◌∷◌, arith, ltb, leb, ◌==◌, if◌then◌else◌, Bool-cases,
}
use arc_monark.Gfx.{add32, sub32}
use arc_monark.Console.{Console, con_scroll, scroll_loop, show, visible, place, putchar, print}
use arc_monark.Console.Keep.{Drawn, Drawn-then, con_scroll-Drawn, back-Drawn, show-Drawn}
use arc_monark.Console.Cursor.{
  cols, rows, IsValid, moved, moved_all, Went, placed, place-Went, width_of, height_of, unchanged,
}

Went-then : {s t u : Console} {x y x' y' : ℕ} → Went s t x y → Went t u x' y' → Went s u x' y'
Went-then p q = record {
  drawn = Drawn-then p.drawn q.drawn;
  at_x = q.at_x;
  at_y = q.at_y;
  fg = q.fg ∙ p.fg;
  bg = q.bg ∙ p.bg;
}

Went-as : {s t : Console} {x y x' y' : ℕ} → Went s t x y → x ≡ x' → y ≡ y' → Went s t x' y'
Went-as p ex ey = record {
  drawn = p.drawn;
  at_x = p.at_x ∙ ex;
  at_y = p.at_y ∙ ey;
  fg = p.fg;
  bg = p.bg;
}

con_scroll-Went : (s : Console) → Went s (con_scroll s) s.cur_x (sub32 s.cur_y 1)
unfolding con_scroll
con_scroll-Went s = record {
  drawn = con_scroll-Drawn s;
  at_x = refl;
  at_y = refl;
  fg = refl;
  bg = refl;
}

-- The loop has no more than one round, on a cursor that is at most one line too low.
scroll_loop_ends :
    (k : ℕ) {s t : Console} {x y : ℕ}
    → IsValid s
    → Went s t x y
    → y ≤ rows s
    → (u : Console) × (scroll_loop (suc (suc k)) t ≡ some u)
      × Went s u x (if ltb y (rows s) then y else y - 1)
unfolding scroll_loop
scroll_loop_ends k {s} {t} {x} {y} v p low = elim (Bool-cases (ltb y (rows s))) [
  | inl here ↦
      let stop : leb (t.gfx.g_height / 16) t.cur_y ≡ false =
        ground (arith, height_of p.drawn, p.at_y) in
      (t, rw stop refl, rw here p)
  | inr under ↦
      let u : Console = con_scroll t in
      let q = Went-then p (con_scroll-Went t) in
      let go : leb (t.gfx.g_height / 16) t.cur_y ≡ true =
        ground (arith, height_of p.drawn, p.at_y) in
      let stop : leb (u.gfx.g_height / 16) u.cur_y ≡ false =
        ground (arith, height_of q.drawn, q.at_y, p.at_y, v.y_in, v.high) in
      (u, rw (go, stop) refl, rw under (Went-as q p.at_x (ground (arith, p.at_y, v.y_in, v.high))))
]

Went-IsValid :
    {s t : Console} {x y : ℕ} → IsValid s → Went s t x y → x < cols s → y < rows s → IsValid t
Went-IsValid v p lx ly = record {
  wide = omega (arith, width_of p.drawn, v.wide);
  high = omega (arith, height_of p.drawn, v.high);
  x_in = omega (arith, width_of p.drawn, p.at_x);
  y_in = omega (arith, height_of p.drawn, p.at_y);
}

-- `r` is a console that is valid, with the picture changed and the cursor at `p`.
abbrev pub Returns : Console → Option Console → ℕ × ℕ → Type 0
Returns s r (x, y) = (t : Console) × (r ≡ some t) × Went s t x y × IsValid t

moved_in :
    (w h c x y : ℕ) → x < w → y < h → ((moved w h c (x, y)).0 < w) × ((moved w h c (x, y)).1 < h)
moved_in w h c x y lx ly = (ground arith, ground arith)

moved-placed :
    (w h c x y : ℕ)
    → x < w
    → y < h
    → ((placed w c (x, y)).0 ≡ (moved w h c (x, y)).0)
      × ((if ltb (placed w c (x, y)).1 h then (placed w c (x, y)).1 else (placed w c (x, y)).1 - 1)
          ≡ (moved w h c (x, y)).1)
      × ((placed w c (x, y)).1 ≤ h)
moved-placed w h c x y lx ly = (ground arith, ground arith, ground arith)

-- The same for one character.
pub putchar-Returns :
    {s : Console}
    → IsValid s
    → (k c : ℕ)
    → Returns s (putchar (suc (suc k)) c s) (moved (cols s) (rows s) c (s.cur_x, s.cur_y))
unfolding putchar
putchar-Returns {s} v k c =
    let (ex, ey, low) = moved-placed (cols s) (rows s) c s.cur_x s.cur_y v.x_in v.y_in in
    let (u, run, went) = scroll_loop_ends k v (place-Went v c) low in
    let w = Went-as went ex ey in
    let (lx, ly) = moved_in (cols s) (rows s) c s.cur_x s.cur_y v.x_in v.y_in in
    (u, run, w, Went-IsValid v w lx ly)

-- For a valid console and fuel of at least 2, which is the number of rounds that `putchar` may
-- need for its loop, `print` returns on every string: the console is valid, has the same size and
-- colours, and its cursor is where the characters move it one after the other.
pub print-Returns :
    (cs : List ℕ) {s : Console}
    → IsValid s
    → (k : ℕ)
    → Returns s (print (suc (suc k)) cs s) (moved_all (cols s) (rows s) cs (s.cur_x, s.cur_y))
unfolding print
print-Returns [] {s} v k =
    (s, refl, record { drawn = unchanged s.gfx; at_x = refl; at_y = refl; fg = refl; bg = refl }, v)
print-Returns (c ∷ cs) {s} v k =
    let (t, run, went, v') = putchar-Returns v k c in
    let (u, run', went', v'') = print-Returns cs v' k in
    let e : moved_all (cols t) (rows t) cs (t.cur_x, t.cur_y)
        ≡ moved_all (cols s) (rows s) (c ∷ cs) (s.cur_x, s.cur_y) =
      ap₂ (λ w h. moved_all w h cs (t.cur_x, t.cur_y)) (ap (λ n. n / 8) (width_of went.drawn))
        (ap (λ n. n / 16) (height_of went.drawn))
      ∙ ap₂ (λ x y. moved_all (cols s) (rows s) cs (x, y)) went.at_x went.at_y in
    (
      u,
      rw (run, print) run',
      Went-as (Went-then went went') (ap {A = ℕ × ℕ} (λ p. p.0) e) (ap {A = ℕ × ℕ} (λ p. p.1) e),
      v'',
    )

visible-Drawn : (c : ℕ) (s : Console) → Drawn s.gfx (visible c s).gfx
unfolding visible
visible-Drawn c s =
    elim (Bool-cases (leb ((show c s).gfx.g_width / 8) (add32 (show c s).cur_x 1))) [
      | inl last ↦ rw last (show-Drawn c s)
      | inr fits ↦ rw fits (show-Drawn c s)
    ]

place-Drawn : (c : ℕ) (s : Console) → Drawn s.gfx (place c s).gfx
unfolding place
place-Drawn c s = elim (Bool-cases (c == 10)) [
  | inl line ↦ rw line (unchanged s.gfx)
  | inr n1 ↦ elim (Bool-cases (c == 13)) [
    | inl start ↦ rw (n1, start) (unchanged s.gfx)
    | inr n2 ↦ elim (Bool-cases (c == 8)) [
      | inl erase ↦ rw (n1, n2, erase) (back-Drawn s)
      | inr n3 ↦ rw (n1, n2, n3) (visible-Drawn c s)
    ]
  ]
]

scroll_loop_stuck : (k : ℕ) (s : Console) → s.gfx.g_height < 16 → scroll_loop k s ≡ none
unfolding scroll_loop
scroll_loop_stuck zero s low = refl
scroll_loop_stuck (suc k) s low =
    let go : leb (s.gfx.g_height / 16) s.cur_y ≡ true = ground (arith) in
    rw go (scroll_loop_stuck k (con_scroll s) (omega (arith, height_of (con_scroll-Drawn s))))

-- On a screen of less than 16 lines, which has no cell, the loop of `putchar` does not end, whatever
-- the character: no fuel is enough.
pub putchar_stuck : (k c : ℕ) (s : Console) → s.gfx.g_height < 16 → putchar k c s ≡ none
unfolding putchar
putchar_stuck k c s low =
    scroll_loop_stuck k (place c s) (omega (arith, height_of (place-Drawn c s)))
