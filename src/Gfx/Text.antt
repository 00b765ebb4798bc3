-- ===== src/Gfx/Text.antt =====
-- `gfx_pixel`, `gfx_char` and `gfx_text` of src/gui/gfx.c.
use arc_monark.Base.{
  ℕ, zero, suc, ◌+◌, ◌-◌, ◌*◌, ◌/◌, ◌%◌, ◌^◌, ◌≤◌, ◌<◌, bit_and, ◌≡◌, refl, ap, ◌∙◌, inl, inr, Bool,
  true, false, not, ◌&&◌, List, [], arith, ltb, leb, ◌==◌, if◌then◌else◌, Bool-cases, get_or,
}
use arc_monark.Gfx.{
  Gfx, add32, off_screen, ink, glyph_of, char_cols, char_rows, gfx_pixel, gfx_char,
}
use arc_monark.Gfx.Font.{font8x16}
use arc_monark.Base.Masks.{bit_and-shift}
use arc_monark.Base.Bits.{bit_and-one}
use native.Mathlib.Nat.{two-pow-succ}
use arc_monark.Gfx.Screen.{IsScreen, address, pixel_at, in_rect, line_step, address_lt}
use arc_monark.Gfx.Fill.{Paints, Paints-same, Paints-as, Paints-IsScreen, Paints-then}

abbrev pub dotted : ℕ → ℕ → ℕ → (ℕ → ℕ → ℕ) → ℕ → ℕ → ℕ
dotted x y argb old px py = if (px == x) && (py == y) then argb else old px py

address_eq :
    (base p x y px py : ℕ)
    → x * 4 + 4 ≤ p
    → px * 4 + 4 ≤ p
    → (address base p px py == address base p x y) ≡ ((px == x) && (py == y))
address_eq base p x y px py lx lp = elim (Bool-cases (py == y)) [
  | inl same ↦ let e : py * p ≡ y * p = ap (λ z. z * p) (ground arith) in ground (arith, e)
  | inr other ↦ elim (Bool-cases (ltb py y)) [
    | inl before ↦ ground (arith, line_step p py y)
    | inr after ↦ ground (arith, line_step p y py)
  ]
]

pub gfx_pixel-Paints :
    {g : Gfx}
    → IsScreen g
    → (x y argb : ℕ) → Paints g (gfx_pixel x y argb g) (dotted x y argb (pixel_at g))
unfolding gfx_pixel
gfx_pixel-Paints {g} i x y argb = elim (Bool-cases (off_screen x y g)) [
  | inl off ↦
      rw off (record { kept = refl; pixels = λ px py lx ly. ground arith; beyond = λ a away. refl })
  | inr on ↦ rw on (record {
    kept = refl;
    pixels = λ px py lx ly.
        ap (λ b. if b then argb else pixel_at g px py)
          (address_eq g.g_fb g.g_pitch x y px py (ground (arith, i.line)) (omega (arith, i.line)));
    beyond = λ a away. ground (
      arith,
      away,
      address_lt g.g_fb g.g_pitch x y g.g_height (ground (arith, i.line)) (ground arith),
    );
  })
]

pub pixel_after :
    {s t : Gfx} {f : ℕ → ℕ → ℕ}
    → IsScreen s
    → Paints s t f
    → (x y argb : ℕ) → Paints s (gfx_pixel x y argb t) (dotted x y argb f)
pixel_after i p x y argb =
    Paints-then p (gfx_pixel-Paints (Paints-IsScreen p i) x y argb)
      (λ px py lx ly at. ap (λ z. if (px == x) && (py == y) then argb else z) at)

-- Is the pixel of the glyph in this row and column set? The leftmost pixel of a row is the highest of
-- its 8 bits; a character from 128 on has the glyph of the question mark.
abbrev pub lit : ℕ → ℕ → ℕ → Bool
lit c row col =
    get_or (get_or font8x16 (if ltb c 128 then c else 63) []) row 0 / 2 ^ (7 - col) % 2 == 1

-- the pixels of a character's cell, and those around it
abbrev pub char_pixels : ℕ → ℕ → ℕ → ℕ → ℕ → (ℕ → ℕ → ℕ) → ℕ → ℕ → ℕ
char_pixels c x y fg bg old px py =
    if leb x px && ltb px (x + 8) && leb y py && ltb py (y + 16)
    then (if lit c (py - y) (px - x) then fg else bg)
    else old px py

-- the mask of a column, as a power
mask_bit : (col : ℕ) → col < 8 → 0x80 / 2 ^ col ≡ 1 * 2 ^ (7 - col)
mask_bit zero lt = refl
mask_bit (suc zero) lt = refl
mask_bit (suc (suc zero)) lt = refl
mask_bit (suc (suc (suc zero))) lt = refl
mask_bit (suc (suc (suc (suc zero)))) lt = refl
mask_bit (suc (suc (suc (suc (suc zero))))) lt = refl
mask_bit (suc (suc (suc (suc (suc (suc zero)))))) lt = refl
mask_bit (suc (suc (suc (suc (suc (suc (suc zero))))))) lt = refl
mask_bit (suc (suc (suc (suc (suc (suc (suc (suc n)))))))) lt = absurd (omega arith)

mask_pos : (j : ℕ) → 0 < 2 ^ j
mask_pos zero = omega arith
mask_pos (suc j) = omega (arith, mask_pos j, two-pow-succ j)

no_bit : (p b : ℕ) → 0 < p → b < 2 → (b * p == 0) ≡ not (b == 1)
no_bit p zero pos lt = ground arith
no_bit p (suc zero) pos lt = ground arith
no_bit p (suc (suc b)) pos lt = absurd (omega arith)

ink_lem :
    (bits col fg bg : ℕ)
    → col < 8
    → ink bits col fg bg ≡ (if bits / 2 ^ (7 - col) % 2 == 1 then fg else bg)
ink_lem bits col fg bg lt =
    let j : ℕ = 7 - col in
    let same : bit_and bits (0x80 / 2 ^ col) ≡ bits / 2 ^ j % 2 * 2 ^ j =
      ap (bit_and bits) (mask_bit col lt)
      ∙ (bit_and-shift j bits 1 ∙ ap (λ t. t * 2 ^ j) (bit_and-one (bits / 2 ^ j))) in
    rw same (
      rw (no_bit (2 ^ j) (bits / 2 ^ j % 2) (mask_pos j) (omega arith))
        (elim (Bool-cases (bits / 2 ^ j % 2 == 1)) [ inl e ↦ rw e refl | inr e ↦ rw e refl ]))

glyph_lem : (c : ℕ) → glyph_of c ≡ get_or font8x16 (if ltb c 128 then c else 63) []
unfolding glyph_of
glyph_lem c = elim (Bool-cases (ltb c 128)) [
  | inl e ↦ let up : leb 128 c ≡ false = ground arith in rw (e, up) refl
  | inr e ↦ let up : leb 128 c ≡ true = ground arith in rw (e, up) refl
]

-- a glyph's row, from a column on
abbrev pub row_drawn : ℕ → ℕ → ℕ → ℕ → ℕ → ℕ → ℕ → (ℕ → ℕ → ℕ) → ℕ → ℕ → ℕ
row_drawn k bits x y col fg bg old px py =
    if in_rect (x + col) y k 1 px py then ink bits (px - x) fg bg else old px py

col_step :
    (v : ℕ → ℕ) (old x y col k px py : ℕ)
    → x + col < 2 ^ 32
    → (if in_rect (x + (col + 1)) y k 1 px py
        then v (px - x)
        else if (px == add32 x col) && (py == y)
        then v col
        else old)
      ≡ (if in_rect (x + col) y (suc k) 1 px py then v (px - x) else old)
col_step v old x y col k px py fits = elim (Bool-cases (px == x + col)) [
  | inl here ↦ let same : px - x ≡ col = ground arith in ground (arith, ap v same)
  | inr away ↦ ground arith
]

row_step :
    (v : ℕ → ℕ) (old x y row k px py : ℕ)
    → y + row < 2 ^ 32
    → (if in_rect x (y + (row + 1)) 8 k px py
        then v (py - y)
        else if in_rect (x + 0) (add32 y row) 8 1 px py
        then v row
        else old)
      ≡ (if in_rect x (y + row) 8 (suc k) px py then v (py - y) else old)
row_step v old x y row k px py fits = elim (Bool-cases (py == y + row)) [
  | inl here ↦ let same : py - y ≡ row = ground arith in ground (arith, ap v same)
  | inr away ↦ ground arith
]

cols_after :
    (k : ℕ) {s t : Gfx} {f : ℕ → ℕ → ℕ}
    → IsScreen s
    → Paints s t f
    → (bits x y col fg bg : ℕ) → x + col + k ≤ 2 ^ 32
    → Paints s (char_cols k bits x y col fg bg t) (row_drawn k bits x y col fg bg f)
unfolding char_cols
cols_after zero i p bits x y col fg bg fits = Paints-as p (λ px py lx ly. ground arith)
cols_after (suc k) {s} {t} {f} i p bits x y col fg bg fits =
    Paints-as
      (cols_after k i (pixel_after i p (add32 x col) y (ink bits col fg bg)) bits x y (col + 1) fg
        bg (omega arith))
      (λ px py lx ly. col_step (λ c. ink bits c fg bg) (f px py) x y col k px py (omega arith))

abbrev pub char_drawn : ℕ → List ℕ → ℕ → ℕ → ℕ → ℕ → ℕ → (ℕ → ℕ → ℕ) → ℕ → ℕ → ℕ
char_drawn k glyph x y row fg bg old px py =
    if in_rect x (y + row) 8 k px py
    then ink (get_or glyph (py - y) 0) (px - x) fg bg
    else old px py

rows_after :
    (k : ℕ) {s t : Gfx} {f : ℕ → ℕ → ℕ}
    → IsScreen s
    → Paints s t f
    → (glyph : List ℕ) (x y row fg bg : ℕ) → x + 8 ≤ 2 ^ 32
    → y + row + k ≤ 2 ^ 32
    → Paints s (char_rows k glyph x y row fg bg t) (char_drawn k glyph x y row fg bg f)
unfolding char_rows
rows_after zero i p glyph x y row fg bg fx fy = Paints-as p (λ px py lx ly. ground arith)
rows_after (suc k) {s} {t} {f} i p glyph x y row fg bg fx fy =
    Paints-as
      (rows_after k i (cols_after 8 i p (get_or glyph row 0) x (add32 y row) 0 fg bg (omega arith))
        glyph x y (row + 1) fg bg fx (omega arith))
      (λ px py lx ly.
        row_step (λ r. ink (get_or glyph r 0) (px - x) fg bg) (f px py) x y row k px py
          (omega arith))

pub gfx_char-char_drawn :
    {g : Gfx}
    → IsScreen g
    → (c x y fg bg : ℕ) → x + 8 ≤ 2 ^ 32
    → y + 16 ≤ 2 ^ 32
    → Paints g (gfx_char c x y fg bg g) (char_drawn 16 (glyph_of c) x y 0 fg bg (pixel_at g))
unfolding gfx_char
gfx_char-char_drawn {g} i c x y fg bg fx fy =
    rows_after 16 i (Paints-same g) (glyph_of c) x y 0 fg bg fx (omega arith)

char_drawn-char_pixels :
    (c x y fg bg : ℕ) (old : ℕ → ℕ → ℕ) (px py : ℕ)
    → char_drawn 16 (glyph_of c) x y 0 fg bg old px py ≡ char_pixels c x y fg bg old px py
char_drawn-char_pixels c x y fg bg old px py = elim (Bool-cases (in_rect x (y + 0) 8 16 px py)) [
  | inl here ↦
      let cell : (leb x px && ltb px (x + 8) && leb y py && ltb py (y + 16)) ≡ true =
        ground arith in
      rw (here, cell)
        (ap (λ gl. ink (get_or gl (py - y) 0) (px - x) fg bg) (glyph_lem c)
          ∙ ink_lem _ (px - x) fg bg (ground arith))
  | inr away ↦
      let cell : (leb x px && ltb px (x + 8) && leb y py && ltb py (y + 16)) ≡ false =
        ground arith in
      rw (away, cell) refl
]

-- On a screen whose lines hold their pixels, for a cell of 8 by 16 pixels that does not wrap in 32
-- bits, `gfx_char` paints the glyph of the character: a pixel of the cell gets the first colour
-- where the glyph of font8x16 has it set, the highest bit of a row's byte for the leftmost column, and
-- else the second, and a character from 128 on is drawn as the question mark; no other pixel and no byte
-- outside the buffer changes.
pub gfx_char-Paints :
    {g : Gfx}
    → IsScreen g
    → (c x y fg bg : ℕ) → x + 8 ≤ 2 ^ 32
    → y + 16 ≤ 2 ^ 32
    → Paints g (gfx_char c x y fg bg g) (char_pixels c x y fg bg (pixel_at g))
gfx_char-Paints {g} i c x y fg bg fx fy =
    Paints-as (gfx_char-char_drawn i c x y fg bg fx fy)
      (λ px py lx ly. char_drawn-char_pixels c x y fg bg (pixel_at g) px py)
