-- ===== src/Gfx/Shapes.antt =====
-- The frame and the whole screen, of src/gui/gfx.c.
use arc_monark.Base.{
  ℕ, ◌+◌, ◌-◌, ◌^◌, ◌<◌, ◌≡◌, refl, inl, inr, Bool, true, ◌&&◌, ◌||◌, arith, ltb, leb, ◌==◌,
  if◌then◌else◌, Bool-cases,
}
use arc_monark.Gfx.{Gfx, add32, sub32, gfx_hline, gfx_vline, gfx_rect, gfx_clear}
use arc_monark.Gfx.Screen.{IsScreen, pixel_at, in_rect}
use arc_monark.Gfx.Fill.{filled, Paints, Paints-same, Paints-as, fill_after, gfx_fill_rect-Paints}

-- is the pixel on the edge of the rectangle?
abbrev pub on_frame : ℕ → ℕ → ℕ → ℕ → ℕ → ℕ → Bool
on_frame x y w h px py =
    in_rect x y w h px py && (((px == x) || (px + 1 == x + w)) || ((py == y) || (py + 1 == y + h)))

abbrev pub framed : ℕ → ℕ → ℕ → ℕ → ℕ → (ℕ → ℕ → ℕ) → ℕ → ℕ → ℕ
framed x y w h argb old px py = if on_frame x y w h px py then argb else old px py

pub gfx_clear-Paints :
    {g : Gfx} → IsScreen g → (argb : ℕ) → Paints g (gfx_clear argb g) (λ x y. argb)
unfolding gfx_clear
gfx_clear-Paints {g} i argb =
    Paints-as
      (gfx_fill_rect-Paints i 0 0 g.g_width g.g_height argb (omega (arith, i.wide))
        (omega (arith, i.high)))
      (λ x y lx ly. ground arith)

-- the pixel at `px` is in a strip of width 1 at `r`
strip : (r px : ℕ) → (leb r px && ltb px (r + 1)) ≡ (px == r)
strip r px = ground arith

next : (px r e : ℕ) → r + 1 ≡ e → (px == r) ≡ (px + 1 == e)
next px r e same = ground arith

-- A pixel in the range of width `w` is at its first place, at its last, or elsewhere.
edge :
    (x w r px : ℕ)
    → 0 < w
    → r + 1 ≡ x + w
    → (px == x) || (px + 1 == x + w) ≡ true
    → (leb x px && ltb px (x + w)) ≡ true
edge x w r px pos last h = ground arith

four :
    (a b c d p q : Bool) (argb v : ℕ)
    → (d || c ≡ true → q ≡ true)
    → (b || a ≡ true → p ≡ true)
    → (if a && q
        then argb
        else if b && q
        then argb
        else if p && c
        then argb
        else if p && d
        then argb
        else v)
      ≡ (if (p && q) && ((b || a) || (d || c)) then argb else v)
four a b c d p q argb v h h' = ground arith

frame_lem :
    (x y w h r b argb v px py : ℕ)
    → 0 < w
    → 0 < h
    → r + 1 ≡ x + w
    → b + 1 ≡ y + h
    → filled r y 1 h argb
        (filled x y 1 h argb (filled x b w 1 argb (filled x y w 1 argb (λ s t. v))))
        px
        py
      ≡ framed x y w h argb (λ s t. v) px py
frame_lem x y w h r b argb v px py pw ph er eb =
    rw (strip r px, strip x px, strip b py, strip y py, next px r (x + w) er, next py b (y + h) eb)
      (four _ _ _ _ _ _ argb v (edge y h b py ph eb) (edge x w r px pw er))

-- On a screen whose lines hold their pixels, where `x + w` and `y + h` do not wrap in 32 bits, `gfx_rect` gives the colour to exactly the pixels of the screen on
-- the edge of the rectangle, and changes no byte outside the buffer.
pub gfx_rect-Paints :
    {g : Gfx}
    → IsScreen g
    → (x y w h argb : ℕ) → x + w < 2 ^ 32
    → y + h < 2 ^ 32
    → Paints g (gfx_rect x y w h argb g) (framed x y w h argb (pixel_at g))
unfolding gfx_rect gfx_hline gfx_vline
gfx_rect-Paints {g} i x y w h argb fx fy = elim (Bool-cases ((w == 0) || (h == 0))) [
  | inl empty ↦
      rw empty
        (record { kept = refl; pixels = λ px py lx ly. ground arith; beyond = λ a away. refl })
  | inr sides ↦
      let right : sub32 (add32 x w) 1 ≡ x + w - 1 = ground arith in
      let bottom : sub32 (add32 y h) 1 ≡ y + h - 1 = ground arith in
      let p1 = fill_after i (Paints-same g) x y w 1 argb fx (ground arith) in
      let p2 = fill_after i p1 x (sub32 (add32 y h) 1) w 1 argb fx (omega (arith, bottom)) in
      let p3 = fill_after i p2 x y 1 h argb (ground arith) fy in
      let p4 = fill_after i p3 (sub32 (add32 x w) 1) y 1 h argb (omega (arith, right)) fy in
      rw sides (
        Paints-as p4 (λ px py lx ly.
          frame_lem x y w h _ _ argb (pixel_at g px py) px py (ground arith) (ground arith)
            (ground (arith, right)) (ground (arith, bottom))))
]
