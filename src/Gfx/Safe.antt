-- ===== src/Gfx/Safe.antt =====
-- `gfx_char` and `gfx_text` of src/gui/gfx.c stay inside the buffer, wherever the text begins.
use arc_monark.Base.{
  ℕ, zero, suc, ◌+◌, ◌*◌, ◌≤◌, ◌<◌, ◌≡◌, refl, sym, ap, subst, ◌∙◌, ◌⊎◌, inl, inr, List, [], ◌∷◌,
  ltb, Bool-cases, get_or,
}
use arc_monark.Gfx.{Gfx, add32, ink, glyph_of, char_cols, char_rows, gfx_pixel, gfx_char, gfx_text}
use arc_monark.Gfx.Screen.{IsScreen}
use arc_monark.Gfx.Text.{gfx_pixel-Paints}

-- `t` is `s` but for the bytes of the buffer that is drawn to.
pub record Stays (s t : Gfx) : Type 0 where
  pub kept : t ≡ record s { memory = t.memory }
  pub beyond :
      (a : ℕ) → (a < s.g_fb) ⊎ (s.g_fb + s.g_height * s.g_pitch ≤ a) → t.memory a ≡ s.memory a

Stays-same : (s : Gfx) → Stays s s
Stays-same s = record { kept = refl; beyond = λ a away. refl }

Stays-then : {s t u : Gfx} → Stays s t → Stays t u → Stays s u
Stays-then {s} {t} {u} p q = record {
  kept = q.kept ∙ ap {A = Gfx} {B = Gfx} (λ r. record r { memory = u.memory }) p.kept;
  beyond = λ a away.
      q.beyond a
        (subst (λ r. (a < r.g_fb) ⊎ (r.g_fb + r.g_height * r.g_pitch ≤ a)) (sym p.kept) away)
      ∙ p.beyond a away;
}

Stays-IsScreen : {s t : Gfx} → Stays s t → IsScreen s → IsScreen t
Stays-IsScreen p i =
    subst IsScreen (sym p.kept) (record { line = i.line; wide = i.wide; high = i.high })

gfx_pixel-Stays : {g : Gfx} → IsScreen g → (x y argb : ℕ) → Stays g (gfx_pixel x y argb g)
gfx_pixel-Stays i x y argb =
    let p = gfx_pixel-Paints i x y argb in record { kept = p.kept; beyond = p.beyond }

char_cols-Stays :
    (k : ℕ) {g : Gfx}
    → IsScreen g
    → (bits x y col fg bg : ℕ) → Stays g (char_cols k bits x y col fg bg g)
unfolding char_cols
char_cols-Stays zero {g} i bits x y col fg bg = Stays-same g
char_cols-Stays (suc k) {g} i bits x y col fg bg =
    let p = gfx_pixel-Stays i (add32 x col) y (ink bits col fg bg) in
    Stays-then p (char_cols-Stays k (Stays-IsScreen p i) bits x y (col + 1) fg bg)

char_rows-Stays :
    (k : ℕ) {g : Gfx}
    → IsScreen g
    → (glyph : List ℕ) (x y row fg bg : ℕ) → Stays g (char_rows k glyph x y row fg bg g)
unfolding char_rows
char_rows-Stays zero {g} i glyph x y row fg bg = Stays-same g
char_rows-Stays (suc k) {g} i glyph x y row fg bg =
    let p = char_cols-Stays 8 i (get_or glyph row 0) x (add32 y row) 0 fg bg in
    Stays-then p (char_rows-Stays k (Stays-IsScreen p i) glyph x y (row + 1) fg bg)

-- For a screen whose lines hold their pixels, `gfx_text` changes nothing but the bytes of the buffer
-- that is drawn to, for every string, position and pair of colours, also where the position is off
-- the screen or wraps in 32 bits.
pub gfx_text-Stays :
    (s : List ℕ) {g : Gfx} → IsScreen g → (x y fg bg : ℕ) → Stays g (gfx_text s x y fg bg g)
unfolding gfx_text gfx_char
gfx_text-Stays [] {g} i x y fg bg = Stays-same g
gfx_text-Stays (c ∷ s) {g} i x y fg bg =
    let p = char_rows-Stays 16 i (glyph_of c) x y 0 fg bg in
    let j = Stays-IsScreen p i in
    let next : ℕ = add32 x 8 in
    elim (Bool-cases (ltb (gfx_char c x y fg bg g).g_width (add32 next 8))) [
      | inl wraps ↦ rw wraps (Stays-then p (gfx_text-Stays s j 0 (add32 y 16) fg bg))
      | inr fits ↦ rw fits (Stays-then p (gfx_text-Stays s j next y fg bg))
    ]
