-- ===== src/Gfx/Fill.antt =====
-- `gfx_pixel`, `gfx_fill_rect`, `gfx_rect` and `gfx_clear` of src/gui/gfx.c: which pixels they paint.
use arc_monark.Base.{
  ℕ, ◌+◌, ◌*◌, ◌^◌, ◌≤◌, ◌<◌, ◌≡◌, refl, sym, ap, ap₂, subst, ◌∙◌, ◌⊎◌, inl, inr, ◌&&◌, arith, leb,
  if◌then◌else◌, Bool-cases,
}
use arc_monark.Gfx.{Gfx, add32, clip, off_screen, gfx_fill_rect}
use arc_monark.Gfx.Screen.{
  IsScreen, address, pixel_at, in_rect, clip_fits, clip_same, put_rows_outside, put_rows_inside,
  put_rows_beyond,
}

-- `t` is `s` after drawing: only the memory of the buffer that is drawn to may differ, and its pixel
-- in the column `x` and the line `y` is `picture x y`.
pub record Paints (s t : Gfx) (picture : ℕ → ℕ → ℕ) : Type 0 where
  pub kept : t ≡ record s { memory = t.memory }
  pub pixels : (x y : ℕ) → x < s.g_width → y < s.g_height → pixel_at t x y ≡ picture x y
  pub beyond :
      (a : ℕ) → (a < s.g_fb) ⊎ (s.g_fb + s.g_height * s.g_pitch ≤ a) → t.memory a ≡ s.memory a

pub Paints-same : (s : Gfx) → Paints s s (pixel_at s)
Paints-same s = record { kept = refl; pixels = λ x y a b. refl; beyond = λ a away. refl }

pub Paints-IsScreen : {s t : Gfx} {f : ℕ → ℕ → ℕ} → Paints s t f → IsScreen s → IsScreen t
Paints-IsScreen p i =
    subst IsScreen (sym p.kept) (record { line = i.line; wide = i.wide; high = i.high })

pub Paints-then :
    {s t u : Gfx} {f f' f'' : ℕ → ℕ → ℕ}
    → Paints s t f
    → Paints t u f'
    → ((x y : ℕ) → x < s.g_width → y < s.g_height → pixel_at t x y ≡ f x y → f' x y ≡ f'' x y)
    → Paints s u f''
Paints-then {s} {t} {u} p q same = record {
  kept = q.kept ∙ ap {A = Gfx} {B = Gfx} (λ r. record r { memory = u.memory }) p.kept;
  pixels = λ x y lx ly.
      let there =
        q.pixels x y (subst (λ r. x < r.g_width) (sym p.kept) lx)
          (subst (λ r. y < r.g_height) (sym p.kept) ly) in
      there ∙ same x y lx ly (p.pixels x y lx ly);
  beyond = λ a away.
      q.beyond a
        (subst (λ r. (a < r.g_fb) ⊎ (r.g_fb + r.g_height * r.g_pitch ≤ a)) (sym p.kept) away)
      ∙ p.beyond a away;
}

pub Paints-as :
    {s t : Gfx} {f f' : ℕ → ℕ → ℕ}
    → Paints s t f
    → ((x y : ℕ) → x < s.g_width → y < s.g_height → f x y ≡ f' x y)
    → Paints s t f'
Paints-as {s} {t} p same = record {
  kept = p.kept;
  pixels = λ x y lx ly. p.pixels x y lx ly ∙ same x y lx ly;
  beyond = p.beyond;
}

abbrev pub filled : ℕ → ℕ → ℕ → ℕ → ℕ → (ℕ → ℕ → ℕ) → ℕ → ℕ → ℕ
filled x y w h argb old px py = if in_rect x y w h px py then argb else old px py

module _ (g : Gfx) (i : IsScreen g) (x y w h : ℕ) (x_in : x < g.g_width) (y_in : y < g.g_height)
    (x_fits : x + w < 2 ^ 32) (y_fits : y + h < 2 ^ 32) where
  abbrev pub cw : ℕ
  cw = clip x w g.g_width

  abbrev pub ch : ℕ
  ch = clip y h g.g_height

  pub rows_at :
      (base j : ℕ)
      → j < ch
      → base + add32 y j * g.g_pitch + x * 4 ≡ address base g.g_pitch x (y + j)
  rows_at base j lt =
      ap (λ z. address base g.g_pitch x z)
        (omega (arith, clip_fits y h g.g_height y_in y_fits, i.high))

  pub in_clipped :
      (px py : ℕ)
      → px < g.g_width
      → py < g.g_height
      → in_rect x y cw ch px py ≡ in_rect x y w h px py
  in_clipped px py lx ly =
      ap₂ (λ a b. (leb x px && a) && (leb y py && b)) (clip_same x w g.g_width px x_in x_fits lx)
        (clip_same y h g.g_height py y_in y_fits ly)

-- On a screen whose lines hold their pixels, where `x + w` and `y + h` do not wrap in 32 bits,
-- `gfx_fill_rect` gives the colour to exactly the pixels of the screen that lie in the rectangle,
-- and changes no byte outside the buffer that is drawn to.
pub gfx_fill_rect-Paints :
    {g : Gfx}
    → IsScreen g
    → (x y w h argb : ℕ) → x + w < 2 ^ 32
    → y + h < 2 ^ 32
    → Paints g (gfx_fill_rect x y w h argb g) (filled x y w h argb (pixel_at g))
unfolding gfx_fill_rect
gfx_fill_rect-Paints {g} i x y w h argb fx fy = elim (Bool-cases (off_screen x y g)) [
  | inl off ↦
      rw off (record { kept = refl; pixels = λ px py lx ly. ground arith; beyond = λ a away. refl })
  | inr on ↦
      let x_in : x < g.g_width = ground arith in
      let y_in : y < g.g_height = ground arith in
      let row : ℕ → ℕ = λ j. g.g_fb + add32 y j * g.g_pitch + x * 4 in
      let rows = rows_at g i x y w h x_in y_in fx fy g.g_fb in
      let fits = clip_fits x w g.g_width x_in fx in
      rw on (record {
        kept = refl;
        pixels = λ px py lx ly. elim (Bool-cases (in_rect x y w h px py)) [
          | inl here ↦
              put_rows_inside g.g_fb g.g_pitch g.g_width i.line x y _ _ fits row rows
                (λ j k m. argb) g.memory px py argb
                (in_clipped g i x y w h x_in y_in fx fy px py lx ly ∙ here) (λ n same. refl)
              ∙ rw here refl
          | inr away ↦
              put_rows_outside g.g_fb g.g_pitch g.g_width i.line x y _ _ fits row rows
                (λ j k m. argb) g.memory px py lx
                (in_clipped g i x y w h x_in y_in fx fy px py lx ly ∙ away)
              ∙ rw away refl
        ];
        beyond = λ a away.
            put_rows_beyond g.g_fb g.g_pitch g.g_width i.line x y _ _ fits row rows (λ j k m. argb)
              g.memory g.g_height a (clip_fits y h g.g_height y_in fy) away;
      })
]

-- the same, after other drawing
pub fill_after :
    {s t : Gfx} {f : ℕ → ℕ → ℕ}
    → IsScreen s
    → Paints s t f
    → (x y w h argb : ℕ) → x + w < 2 ^ 32
    → y + h < 2 ^ 32
    → Paints s (gfx_fill_rect x y w h argb t) (filled x y w h argb f)
fill_after i p x y w h argb fx fy =
    Paints-then p (gfx_fill_rect-Paints (Paints-IsScreen p i) x y w h argb fx fy)
      (λ px py lx ly at. ap (λ z. if in_rect x y w h px py then argb else z) at)
