-- ===== src/Gfx/Screen.antt =====
-- Rectangles of pixels in a framebuffer, for the loops of src/gui/gfx.c.
use arc_monark.Base.{
  ℕ, ◌+◌, ◌-◌, ◌*◌, ◌^◌, ◌≤◌, ◌<◌, ◌≡◌, sym, ap, subst, ◌∙◌, ◌⊎◌, inl, inr, Bool, true, false, ◌&&◌,
  arith, ltb, leb, ◌==◌, Bool-cases,
}
use arc_monark.Gfx.{Gfx, Memory, clip, put_rows}
use arc_monark.Gfx.Rows.{Misses, Clear, put_rows_away, put_rows_at}
use native.Mathlib.Nat.{mul-le-mul_right}

-- What the framebuffer promises: a line holds its pixels, and the sides are 32-bit numbers.
pub record IsScreen (g : Gfx) : Type 0 where
  pub line : g.g_width * 4 ≤ g.g_pitch
  pub wide : g.g_width < 2 ^ 32
  pub high : g.g_height < 2 ^ 32

-- the address of a pixel, of lines of `pitch` bytes from `base` on
abbrev pub address : ℕ → ℕ → ℕ → ℕ → ℕ
address base pitch x y = base + y * pitch + x * 4

-- the pixel at the column `x` and the line `y`, in the buffer that is drawn to and in the screen's
abbrev pub pixel_at : Gfx → ℕ → ℕ → ℕ
pixel_at g x y = g.memory (address g.g_fb g.g_pitch x y)

abbrev pub shown_at : Gfx → ℕ → ℕ → ℕ
shown_at g x y = g.memory (address g.g_hw g.g_pitch x y)

-- is the pixel in the rectangle?
abbrev pub in_rect : ℕ → ℕ → ℕ → ℕ → ℕ → ℕ → Bool
in_rect x y w h px py = (leb x px && ltb px (x + w)) && (leb y py && ltb py (y + h))

pub line_step : (p a b : ℕ) → a < b → a * p + p ≤ b * p
line_step p a b lt = omega (arith, mul-le-mul_right p lt)

pub address_lt :
    (base p x y height : ℕ) → x * 4 < p → y < height → address base p x y < base + height * p
address_lt base p x y height lx ly = omega (arith, line_step p y height ly)

pub clip_fits : (x w limit : ℕ) → x < limit → x + w < 2 ^ 32 → x + clip x w limit ≤ limit
clip_fits x w limit lt small = ground arith

pub clip_same :
    (x w limit p : ℕ)
    → x < limit
    → x + w < 2 ^ 32
    → p < limit
    → ltb p (x + clip x w limit) ≡ ltb p (x + w)
clip_same x w limit p lt small in_limit = ground arith

module _ (base p width : ℕ) (line : width * 4 ≤ p) (x y w h : ℕ) (inside : x + w ≤ width)
    (row : ℕ → ℕ) (rows : (j : ℕ) → j < h → row j ≡ address base p x (y + j)) where
  other_line :
      (px py q : ℕ)
      → px < width
      → (py < q) ⊎ (q < py)
      → Misses (address base p px py) (address base p x q) w
  other_line px py q lt (inl before) = inl (omega (arith, line_step p py q before))
  other_line px py q lt (inr after) = inr (omega (arith, line_step p q py after))

  same_line :
      (px py : ℕ) → (px < x) ⊎ (x + w ≤ px) → Misses (address base p px py) (address base p x py) w
  same_line px py away = ground (arith, away)

  pixel_off :
      (px py q : ℕ)
      → px < width
      → ((py ≡ q) → (px < x) ⊎ (x + w ≤ px))
      → Misses (address base p px py) (address base p x q) w
  pixel_off px py q lt away = elim (Bool-cases (py == q)) [
    | inl same ↦
        let e : py ≡ q = ground arith in
        subst (λ z. Misses (address base p px py) (address base p x z) w) e
          (same_line px py (away e))
    | inr other ↦ other_line px py q lt (ground arith)
  ]

  pub outside_rect :
      (px py : ℕ)
      → px < width
      → in_rect x y w h px py ≡ false
      → Clear (address base p px py) row w 0 (0 + h)
  outside_rect px py lt out u le lt_h =
      subst (λ a. Misses (address base p px py) a w) (sym (rows u (omega arith)))
        (pixel_off px py (y + u) lt (λ e. ground arith))

  pub later_lines :
      (px py t : ℕ) → px < width → py < y + t → Clear (address base p px py) row w t (0 + h)
  later_lines px py t lt low u le lt_h =
      subst (λ a. Misses (address base p px py) a w) (sym (rows u (omega arith)))
        (pixel_off px py (y + u) lt (λ e. absurd (omega arith)))

  pub put_rows_outside :
      (f : ℕ → ℕ → Memory → ℕ) (m : Memory) (px py : ℕ)
      → px < width
      → in_rect x y w h px py ≡ false
      → put_rows h w row f 0 m (address base p px py) ≡ m (address base p px py)
  put_rows_outside f m px py lt out =
      put_rows_away h w row f 0 m (address base p px py) (outside_rect px py lt out)

  pub put_rows_inside :
      (f : ℕ → ℕ → Memory → ℕ) (m : Memory) (px py v : ℕ)
      → in_rect x y w h px py ≡ true
      → ((n : Memory)
          → ((a : ℕ) → Clear a row w 0 (py - y + 1) → n a ≡ m a)
          → f (py - y) (px - x) n ≡ v)
      → put_rows h w row f 0 m (address base p px py) ≡ v
  put_rows_inside f m px py v here value =
      let t : ℕ = py - y in
      let line_at : row t ≡ address base p x py =
        rows t (ground arith) ∙ ap (λ z. address base p x z) (ground arith) in
      let at : row t + (px - x) * 4 ≡ address base p px py = ground (arith, line_at) in
      subst (λ a. put_rows h w row f 0 m a ≡ v) at
        (put_rows_at h w row f 0 m t (px - x) v (omega arith) (ground arith) (ground arith)
          (subst (λ a. Clear a row w (t + 1) (0 + h)) (sym at)
            (later_lines px py (t + 1) (ground arith) (ground arith)))
          value)

  pub outside_block :
      (height a : ℕ)
      → y + h ≤ height
      → (a < base) ⊎ (base + height * p ≤ a)
      → Clear a row w 0 (0 + h)
  outside_block height a fits away u le lt =
      ground (arith, away, rows u (omega arith), line_step p (y + u) height)

  pub put_rows_beyond :
      (f : ℕ → ℕ → Memory → ℕ) (m : Memory) (height a : ℕ)
      → y + h ≤ height
      → (a < base) ⊎ (base + height * p ≤ a)
      → put_rows h w row f 0 m a ≡ m a
  put_rows_beyond f m height a fits away =
      put_rows_away h w row f 0 m a (outside_block height a fits away)
