-- ===== src/Str.antt =====
-- src/lib/string.c and include/string.h: copying and comparing memory, C strings, and numbers in
-- decimal. Its definitions are here; `Str.Copy` is about the copying functions, `Str.Text` about
-- strings, `Str.Decimal` about `u64_to_dec`.
pub mod Copy
pub mod Text
pub mod Decimal
mod Tests
use arc_monark.Base.{
  ℕ, zero, suc, ◌+◌, ◌/◌, ◌%◌, Bool, false, not, ◌&&◌, ◌||◌, Option, none, some, List, [], ◌∷◌, ltb,
  ◌==◌, if◌then◌else◌,
}
use arc_monark.Base.Int.{ℤ, pos, negsuc, sub_ℕ}

-- The memory, a byte (an `uint8_t`) at each address. Pointer arithmetic is not wrapped: an object
-- does not reach beyond the last address.
abbrev pub Memory : Type 0
Memory = ℕ → ℕ

abbrev pub write : ℕ → ℕ → Memory → Memory
write p v m a = if a == p then v else m a

-- `for (i = ...; i < count; i++) p[i] = (uint8_t)value;`, with the rounds that are left
pub memset_loop : ℕ → ℕ → ℕ → ℕ → Memory → Memory
memset_loop zero p i value m = m
memset_loop (suc k) p i value m = memset_loop k p (i + 1) value (write (p + i) (value % 256) m)

pub memset : ℕ → ℕ → ℕ → Memory → ℕ × Memory
memset dest value count m = (dest, memset_loop count dest 0 value m)

-- `for (i = ...; i < count; i++) d[i] = s[i];`
pub copy_up : ℕ → ℕ → ℕ → ℕ → Memory → Memory
copy_up zero d s i m = m
copy_up (suc k) d s i m = copy_up k d s (i + 1) (write (d + i) (m (s + i)) m)

-- `for (i = count; i > 0; i--) d[i - 1] = s[i - 1];`
pub copy_down : ℕ → ℕ → ℕ → Memory → Memory
copy_down zero d s m = m
copy_down (suc i) d s m = copy_down i d s (write (d + i) (m (s + i)) m)

pub memcpy : ℕ → ℕ → ℕ → Memory → ℕ × Memory
memcpy dest src count m = (dest, copy_up count dest src 0 m)

pub memmove : ℕ → ℕ → ℕ → Memory → ℕ × Memory
memmove dest src count m =
    if (dest == src) || (count == 0)
    then (dest, m)
    else (dest, (if ltb dest src then copy_up count dest src 0 m else copy_down count dest src m))

-- the loop of `memcmp` from index `i` on
pub memcmp_loop : ℕ → ℕ → ℕ → ℕ → Memory → ℤ
memcmp_loop zero a b i m = pos 0
memcmp_loop (suc k) a b i m =
    let rest = memcmp_loop k a b (i + 1) m in
    if not (m (a + i) == m (b + i)) then sub_ℕ (m (a + i)) (m (b + i)) else rest

pub memcmp : ℕ → ℕ → ℕ → Memory → ℤ
memcmp a b count m = memcmp_loop count a b 0 m

-- The loops on strings are recursive on fuel; `none` is a loop that has used it up.
pub strlen : ℕ → ℕ → ℕ → Memory → Option ℕ
strlen zero s n m = none
strlen (suc k) s n m = let rest = strlen k s (n + 1) m in if m (s + n) == 0 then some n else rest

pub strcmp : ℕ → ℕ → ℕ → Memory → Option ℤ
strcmp zero a b m = none
strcmp (suc k) a b m =
    let rest = strcmp k (a + 1) (b + 1) m in
    if not (m a == 0) && (m a == m b) then rest else some (sub_ℕ (m a) (m b))

pub is_zero : ℤ → Bool
is_zero (pos n) = n == 0
is_zero (negsuc n) = false

pub streq : ℕ → ℕ → ℕ → Memory → Option Bool
streq k a b m = elim (strcmp k a b m) [ none ↦ none | some d ↦ some (is_zero d) ]

-- `some none` is NULL.
pub str_starts_with : ℕ → ℕ → ℕ → Memory → Option (Option ℕ)
str_starts_with zero s prefix m = none
str_starts_with (suc k) s prefix m =
    let rest = str_starts_with k (s + 1) (prefix + 1) m in
    if m prefix == 0 then some (some s) else if not (m s == m prefix) then some none else rest

-- `while (v > 0) { tmp[i++] = '0' + v % 10; v /= 10; }`: `tmp` with its last character in front, so
-- that `i` is its length
pub digits_loop : ℕ → ℕ → List ℕ → Option (List ℕ)
digits_loop zero v tmp = none
digits_loop (suc k) v tmp =
    let rest = digits_loop k (v / 10) ((48 + v % 10) ∷ tmp) in if v == 0 then some tmp else rest

-- `while (i > 0) buf[j++] = tmp[--i]; buf[j] = '\0';`
pub put_digits : List ℕ → ℕ → ℕ → Memory → Memory
put_digits [] buf j m = write (buf + j) 0 m
put_digits (c ∷ tmp) buf j m = put_digits tmp buf (j + 1) (write (buf + j) c m)

pub u64_to_dec : ℕ → ℕ → Memory → Option (ℕ × Memory)
u64_to_dec v buf m =
    if v == 0
    then some (buf, write (buf + 1) 0 (write buf 48 m))
    else elim (digits_loop 21 v []) [ none ↦ none | some tmp ↦ some (buf, put_digits tmp buf 0 m) ]
