-- ===== src/Gfx/Rows.antt =====
-- The loops of src/gui/gfx.c over rows of pixels: what is written, and what is not.
use arc_monark.Base.{
  ℕ, zero, suc, ◌+◌, ◌*◌, ◌≤◌, ◌<◌, ◌≡◌, refl, sym, ap, subst, ◌∙◌, ◌⊎◌, inl, inr, arith, ◌==◌,
  Bool-cases,
}
use arc_monark.Gfx.{Memory, write, put_row, put_rows}

-- The address is not among the `w` pixels from `row` on.
abbrev pub Misses : ℕ → ℕ → ℕ → Type 0
Misses a row w = (a < row) ⊎ (row + w * 4 ≤ a)

-- The two memories are the same but for the `w` pixels from `row` on.
abbrev pub Beyond : ℕ → ℕ → Memory → Memory → Type 0
Beyond row w m n = (a : ℕ) → Misses a row w → n a ≡ m a

-- The address is not in the rows from `j` to before `top`.
abbrev pub Clear : ℕ → (ℕ → ℕ) → ℕ → ℕ → ℕ → Type 0
Clear a row w j top = (u : ℕ) → j ≤ u → u < top → Misses a (row u) w

pub put_row-Beyond :
    (k row : ℕ) (f : ℕ → Memory → ℕ) (i : ℕ) (m : Memory)
    → Beyond (row + i * 4) k m (put_row k row f i m)
unfolding put_row
put_row-Beyond zero row f i m a away = refl
put_row-Beyond (suc k) row f i m a away =
    put_row-Beyond k row f (i + 1) (write (row + i * 4) (f i m) m) a (ground (arith, away))
    ∙ ground (arith, away)

pub put_row_at :
    (k row : ℕ) (f : ℕ → Memory → ℕ) (i : ℕ) (m : Memory) (t v : ℕ)
    → i ≤ t
    → t < i + k
    → ((n : Memory) → Beyond (row + i * 4) k m n → f t n ≡ v)
    → put_row k row f i m (row + t * 4) ≡ v
unfolding put_row
put_row_at zero row f i m t v le lt value = absurd (omega arith)
put_row_at (suc k) row f i m t v le lt value =
    let next : Memory = write (row + i * 4) (f i m) m in
    elim (Bool-cases (i == t)) [
      | inl here ↦
          let same : i ≡ t = ground arith in
          put_row-Beyond k row f (i + 1) next (row + t * 4) (inl (omega arith))
          ∙ ground (arith, ap (λ x. f x m) same, value m (λ a h. refl))
      | inr later ↦
          put_row_at k row f (i + 1) next t v (ground arith) (omega arith)
            (λ n same. value n (λ a away. same a (ground (arith, away)) ∙ ground (arith, away)))
    ]

pub put_rows_away :
    (k w : ℕ) (row : ℕ → ℕ) (f : ℕ → ℕ → Memory → ℕ) (j : ℕ) (m : Memory) (a : ℕ)
    → Clear a row w j (j + k)
    → put_rows k w row f j m a ≡ m a
unfolding put_rows
put_rows_away zero w row f j m a away = refl
put_rows_away (suc k) w row f j m a away =
    put_rows_away k w row f (j + 1) (put_row w (row j) (f j) 0 m) a
      (λ u le lt. away u (omega arith) (omega arith))
    ∙ put_row-Beyond w (row j) (f j) 0 m a (ground (arith, away j (omega arith) (omega arith)))

pub put_rows_at :
    (k w : ℕ) (row : ℕ → ℕ) (f : ℕ → ℕ → Memory → ℕ) (j : ℕ) (m : Memory) (t c v : ℕ)
    → j ≤ t
    → t < j + k
    → c < w
    → Clear (row t + c * 4) row w (t + 1) (j + k)
    → ((n : Memory) → ((a : ℕ) → Clear a row w j (t + 1) → n a ≡ m a) → f t c n ≡ v)
    → put_rows k w row f j m (row t + c * 4) ≡ v
unfolding put_rows
put_rows_at zero w row f j m t c v le lt cw away value = absurd (omega arith)
put_rows_at (suc k) w row f j m t c v le lt cw away value =
    let next : Memory = put_row w (row j) (f j) 0 m in
    elim (Bool-cases (j == t)) [
      | inl here ↦
          let same : j ≡ t = ground arith in
          subst (λ x. put_rows k w row f (j + 1) next (row x + c * 4) ≡ v) same
            (put_rows_away k w row f (j + 1) next (row j + c * 4) (λ u le lt.
                subst (λ x. Misses (row x + c * 4) (row u) w) (sym same)
                  (away u (omega arith) (omega arith)))
              ∙ put_row_at w (row j) (f j) 0 m c v (omega arith) (omega arith) (λ n beyond.
                ap (λ x. f x c n) same
                ∙ value n (λ a off. beyond a (ground (arith, off j (omega arith) (omega arith))))))
      | inr later ↦
          put_rows_at k w row f (j + 1) next t c v (ground arith) (omega arith) cw
            (λ u le lt. away u le (omega arith))
            (λ n same. value n (λ a off.
              same a (λ u le lt. off u (omega arith) lt)
              ∙ put_row-Beyond w (row j) (f j) 0 m a
                  (ground (arith, off j (omega arith) (omega arith)))))
    ]
