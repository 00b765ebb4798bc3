-- ===== src/Str/Text.antt =====
-- `strlen`, `strcmp`, `streq` and `str_starts_with` of src/lib/string.c, on strings in memory.
use arc_monark.Base.{
  ℕ, zero, suc, ◌+◌, ◌<◌, ◌≡◌, refl, ap, ◌∙◌, inl, inr, Bool, true, false, ◌&&◌, Option, none, some,
  List, [], ◌∷◌, arith, ◌==◌, if◌then◌else◌, Bool-cases, length,
}
use arc_monark.Str.{Memory, strlen, strcmp, is_zero, streq, str_starts_with}

-- The bytes `cs`, none of them 0, stand in memory from `p` on, with a 0 behind them.
abbrev pub IsText : Memory → ℕ → List ℕ → Type 0
IsText m p [] = m p ≡ 0
IsText m p (c ∷ cs) = (m p ≡ c) × (0 < c) × IsText m (p + 1) cs

strlen-from :
    (k s n at : ℕ) (m : Memory) (cs : List ℕ)
    → at ≡ s + n
    → IsText m at cs
    → length cs < k
    → strlen k s n m ≡ some (n + length cs)
unfolding strlen
strlen-from zero s n at m cs e t lt = absurd (omega arith)
strlen-from (suc k) s n at m [] e t lt = ground arith
strlen-from (suc k) s n at m (c ∷ cs) e t lt =
    ground (arith, strlen-from k s (n + 1) (at + 1) m cs (omega arith) t.2 (omega arith))

-- `strlen` returns the number of characters in front of the final 0.
pub strlen-length :
    (k s : ℕ) (m : Memory) (cs : List ℕ)
    → IsText m s cs
    → length cs < k
    → strlen k s 0 m ≡ some (length cs)
strlen-length k s m cs t lt =
    strlen-from k s 0 s m cs (omega arith) t lt ∙ ap (λ n. some n) (omega arith)

-- Are the two texts the same?
unfoldable pub same_text : List ℕ → List ℕ → Bool
same_text [] [] = true
same_text [] (y ∷ ys) = false
same_text (x ∷ xs) [] = false
same_text (x ∷ xs) (y ∷ ys) = (x == y) && same_text xs ys

-- `streq` returns, and says whether the two strings are the same.
pub streq-same_text :
    (k a b : ℕ) (m : Memory) (xs ys : List ℕ)
    → IsText m a xs
    → IsText m b ys
    → length xs < k
    → streq k a b m ≡ some (same_text xs ys)
unfolding streq strcmp same_text is_zero
streq-same_text zero a b m xs ys t u lt = absurd (omega arith)
streq-same_text (suc k) a b m [] [] t u lt = ground arith
streq-same_text (suc k) a b m [] (y ∷ ys) t u lt = ground arith
streq-same_text (suc k) a b m (x ∷ xs) [] t u lt = ground arith
streq-same_text (suc k) a b m (x ∷ xs) (y ∷ ys) t u lt =
    ground (arith, streq-same_text k (a + 1) (b + 1) m xs ys t.2 u.2 (omega arith))

-- Where the second text is the beginning of the first, the rest.
unfoldable pub strip : List ℕ → List ℕ → Option (List ℕ)
strip xs [] = some xs
strip [] (y ∷ ys) = none
strip (x ∷ xs) (y ∷ ys) = if x == y then strip xs ys else none

-- What `str_starts_with` returns for this: the address of the rest, or NULL.
abbrev pub StartsWith : Memory → Option (List ℕ) → Option (Option ℕ) → Type 0
StartsWith m none r = r ≡ some none
StartsWith m (some rest) r = (p : ℕ) × (r ≡ some (some p)) × IsText m p rest

-- `str_starts_with` returns; the result is the address of what follows the prefix, or NULL where the
-- string does not begin with it.
pub str_starts_with-StartsWith :
    (k s prefix : ℕ) (m : Memory) (xs ys : List ℕ)
    → IsText m s xs
    → IsText m prefix ys
    → length ys < k
    → StartsWith m (strip xs ys) (str_starts_with k s prefix m)
unfolding str_starts_with strip
str_starts_with-StartsWith zero s prefix m xs ys t u lt = absurd (omega arith)
str_starts_with-StartsWith (suc k) s prefix m xs [] t u lt = (s, ground arith, t)
str_starts_with-StartsWith (suc k) s prefix m [] (y ∷ ys) t u lt = ground arith
str_starts_with-StartsWith (suc k) s prefix m (x ∷ xs) (y ∷ ys) t u lt =
    let more : (m prefix == 0) ≡ false = ground arith in
    elim (Bool-cases (x == y)) [
      | inl e ↦
          let same : (m s == m prefix) ≡ true = ground arith in
          rw (e, more, same)
            (str_starts_with-StartsWith k (s + 1) (prefix + 1) m xs ys t.2 u.2 (omega arith))
      | inr ne ↦ let differ : (m s == m prefix) ≡ false = ground arith in rw (ne, more, differ) refl
    ]
