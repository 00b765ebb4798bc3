-- ===== src/Str/Copy.antt =====
-- `memset`, `memcpy`, `memmove` and `memcmp` of src/lib/string.c, byte by byte.
use arc_monark.Base.{
  ℕ, zero, suc, ◌+◌, ◌-◌, ◌%◌, ◌≤◌, ◌<◌, ◌≡◌, refl, sym, ap, ◌∙◌, ◌≢◌, ◌⊎◌, inl, inr, Bool, ◌&&◌,
  arith, ltb, leb, ◌==◌, if◌then◌else◌, ltb→lt, ltb→le, ==→eq, ==→ne, Bool-cases,
}
use arc_monark.Base.Int.{ℤ, pos, sub_ℕ}
use arc_monark.Str.{
  Memory, write, memset_loop, memset, copy_up, copy_down, memcpy, memmove, memcmp_loop, memcmp,
}

-- is `a` one of the `n` addresses from `p` on?
abbrev pub within : ℕ → ℕ → ℕ → Bool
within p n a = leb p a && ltb a (p + n)

-- the memory `m` with `n` bytes from `s` on put at `d`
abbrev pub moved : ℕ → ℕ → ℕ → Memory → Memory
moved d s n m a = if within d n a then m (s + (a - d)) else m a

memset_loop_lem :
    (k p i value : ℕ) (m : Memory) (a : ℕ)
    → memset_loop k p i value m a ≡ (if within (p + i) k a then value % 256 else m a)
unfolding memset_loop
memset_loop_lem zero p i value m a = ground arith
memset_loop_lem (suc k) p i value m a =
    ground (arith, memset_loop_lem k p (i + 1) value (write (p + i) (value % 256) m) a)

-- `memset` sets the bytes of its range to the value's low byte, and no others.
pub memset_lem :
    (dest value count : ℕ) (m : Memory) (a : ℕ)
    → (memset dest value count m).1 a ≡ (if within dest count a then value % 256 else m a)
unfolding memset
memset_lem dest value count m a = ground (arith, memset_loop_lem count dest 0 value m a)

-- Upwards, no byte is overwritten before it is read, if the target is lower or apart.
copy_up_lem :
    (k d s i : ℕ) (m : Memory) (a : ℕ)
    → (d ≤ s) ⊎ (s + (i + k) ≤ d)
    → copy_up k d s i m a ≡ (if within (d + i) k a then m (s + (a - d)) else m a)
unfolding copy_up
copy_up_lem zero d s i m a apart = ground arith
copy_up_lem (suc k) d s i m a (inl lower) =
    ground (arith, copy_up_lem k d s (i + 1) (write (d + i) (m (s + i)) m) a (inl lower))
copy_up_lem (suc k) d s i m a (inr above) =
    ground (arith, copy_up_lem k d s (i + 1) (write (d + i) (m (s + i)) m) a (inr (omega arith)))

-- Downwards, if the target is higher.
copy_down_lem : (i d s : ℕ) (m : Memory) (a : ℕ) → s ≤ d → copy_down i d s m a ≡ moved d s i m a
unfolding copy_down
copy_down_lem zero d s m a higher = ground arith
copy_down_lem (suc i) d s m a higher =
    ground (arith, copy_down_lem i d s (write (d + i) (m (s + i)) m) a higher)

-- `memcpy` copies the bytes of its range, where the two ranges do not overlap, or the target is the
-- lower one, and changes no others.
pub memcpy_lem :
    (dest src count : ℕ) (m : Memory) (a : ℕ)
    → (dest ≤ src) ⊎ (src + count ≤ dest)
    → (memcpy dest src count m).1 a ≡ moved dest src count m a
unfolding memcpy
memcpy_lem dest src count m a (inl lower) =
    ground (arith, copy_up_lem count dest src 0 m a (inl lower))
memcpy_lem dest src count m a (inr above) =
    ground (arith, copy_up_lem count dest src 0 m a (inr (omega arith)))

-- `memmove` copies the bytes of its range as they were before the call, however the two ranges
-- overlap, changes no others, and returns its first argument.
pub memmove_lem :
    (dest src count : ℕ) (m : Memory) (a : ℕ)
    → ((memmove dest src count m).0 ≡ dest)
      × ((memmove dest src count m).1 a ≡ moved dest src count m a)
unfolding memmove
memmove_lem dest src count m a = elim (Bool-cases (ltb dest src)) [
  | inl lower ↦
      ground (arith, copy_up_lem count dest src 0 m a (inl (omega (arith, ltb→lt dest src lower))))
  | inr not_lower ↦ ground (arith, copy_down_lem count dest src m a (ltb→le dest src not_lower))
]

-- Do the two ranges of memory agree?
abbrev pub Agree : ℕ → ℕ → ℕ → Memory → Type 0
Agree a b n m = (i : ℕ) → i < n → m (a + i) ≡ m (b + i)

-- What a comparison gives: 0 where the ranges agree, or the difference of the first two bytes that
-- are not the same.
abbrev pub Compared : ℕ → ℕ → ℕ → Memory → ℤ → Type 0
Compared a b n m r =
    ((r ≡ pos 0) × Agree a b n m)
    ⊎ ((i : ℕ) × (i < n)
        × Agree a b i m
        × (m (a + i) ≢ m (b + i))
        × (r ≡ sub_ℕ (m (a + i)) (m (b + i))))

Agree-suc : (a b i : ℕ) (m : Memory) → Agree a b i m → m (a + i) ≡ m (b + i) → Agree a b (i + 1) m
Agree-suc a b i m before here j lt = elim (Bool-cases (j == i)) [
  | inl e ↦ ap (λ t. m (a + t)) (==→eq e) ∙ (here ∙ ap (λ t. m (b + t)) (sym (==→eq e)))
  | inr ne ↦ before j (omega (arith, ==→ne j i ne))
]

memcmp_loop-Compared :
    (k a b i n : ℕ) (m : Memory)
    → i + k ≡ n
    → Agree a b i m
    → Compared a b n m (memcmp_loop k a b i m)
unfolding memcmp_loop
memcmp_loop-Compared zero a b i n m e before = inl (refl, λ j lt. before j (omega arith))
memcmp_loop-Compared (suc k) a b i n m e before = elim (Bool-cases (m (a + i) == m (b + i))) [
  | inl same ↦
      rw same (
        memcmp_loop-Compared k a b (i + 1) n m (omega arith)
          (Agree-suc a b i m before (==→eq same)))
  | inr differ ↦
      rw differ (inr (i, omega arith, before, ==→ne (m (a + i)) (m (b + i)) differ, refl))
]

-- `memcmp` gives 0 where the two ranges agree, and else the difference of the first bytes that are
-- not the same.
pub memcmp-Compared : (a b count : ℕ) (m : Memory) → Compared a b count m (memcmp a b count m)
unfolding memcmp
memcmp-Compared a b count m =
    memcmp_loop-Compared count a b 0 count m (omega arith) (λ j lt. absurd (omega arith))
