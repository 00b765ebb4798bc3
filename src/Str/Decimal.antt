-- ===== src/Str/Decimal.antt =====
-- `u64_to_dec` of src/lib/string.c: the characters are the decimal digits of the number.
use arc_monark.Base.{
  ℕ, zero, suc, ◌+◌, ◌-◌, ◌*◌, ◌/◌, ◌%◌, ◌^◌, ◌≤◌, ◌<◌, ◌≡◌, refl, sym, ap, subst, ◌∙◌, inl, inr,
  false, some, List, [], ◌∷◌, arith, ◌==◌, ==→eq, Bool-cases, length,
}
use arc_monark.Str.{Memory, write, digits_loop, put_digits, u64_to_dec}

-- the number that a sequence of digits stands for, behind a number that was read before
abbrev pub value : ℕ → List ℕ → ℕ
value acc [] = acc
value acc (c ∷ cs) = value (acc * 10 + (c - 48)) cs

abbrev pub AreDigits : List ℕ → Type 0
AreDigits [] = Unit {0}
AreDigits (c ∷ cs) = (48 ≤ c) × (c ≤ 57) × AreDigits cs

-- The characters `cs` stand in memory from `p` on, with the final 0 behind them.
abbrev pub IsString : Memory → ℕ → List ℕ → Type 0
IsString m p [] = m p ≡ 0
IsString m p (c ∷ cs) = (m p ≡ c) × IsString m (p + 1) cs

abbrev pub pow10 : ℕ → ℕ
pow10 zero = 1
pow10 (suc k) = 10 * pow10 k

-- what the first loop leaves in `tmp`
pub record Spelled (k v : ℕ) (tmp : List ℕ) : Type 0 where
  pub out : List ℕ
  pub runs : digits_loop (suc k) v tmp ≡ some out
  pub number : value 0 out ≡ value v tmp
  pub digits : AreDigits tmp → AreDigits out
  pub count : length out ≤ k + length tmp

-- nothing is left of the number
Spelled-zero : (k : ℕ) (tmp : List ℕ) → Spelled k 0 tmp
unfolding digits_loop
Spelled-zero k tmp = record {
  out = tmp;
  runs = refl;
  number = refl;
  digits = λ d. d;
  count = omega arith;
}

more :
    (k v : ℕ) (tmp out : List ℕ)
    → (v == 0) ≡ false
    → digits_loop k (v / 10) ((48 + v % 10) ∷ tmp) ≡ some out
    → digits_loop (suc k) v tmp ≡ some out
unfolding digits_loop
more k v tmp out ne e = rw ne e

pub digits_loop-Spelled : (k v : ℕ) (tmp : List ℕ) → v < pow10 k → Spelled k v tmp
digits_loop-Spelled zero v tmp lt =
    subst (λ t. Spelled 0 t tmp) {x = 0} {y = v} (omega arith) (Spelled-zero 0 tmp)
digits_loop-Spelled (suc k) v tmp lt = elim (Bool-cases (v == 0)) [
  | inl e ↦ subst (λ t. Spelled (suc k) t tmp) (sym (==→eq e)) (Spelled-zero (suc k) tmp)
  | inr ne ↦
      let d : Spelled k (v / 10) ((48 + v % 10) ∷ tmp) =
        digits_loop-Spelled k (v / 10) ((48 + v % 10) ∷ tmp) (omega arith) in
      record {
        out = d.out;
        runs = more (suc k) v tmp d.out ne d.runs;
        number = d.number ∙ ap (λ t. value t tmp) (omega arith);
        digits = λ old. d.digits (omega arith, omega arith, old);
        count = omega (arith, d.count);
      }
]

-- nothing is written in front of the index
put_digits-before :
    (cs : List ℕ) (buf j : ℕ) (m : Memory) (a : ℕ) → a < buf + j → put_digits cs buf j m a ≡ m a
unfolding put_digits
put_digits-before [] buf j m a lt = ground arith
put_digits-before (c ∷ cs) buf j m a lt =
    ground (arith, put_digits-before cs buf (j + 1) (write (buf + j) c m) a)

put_digits-IsString :
    (cs : List ℕ) (buf j at : ℕ) (m : Memory)
    → at ≡ buf + j
    → IsString (put_digits cs buf j m) at cs
unfolding put_digits
put_digits-IsString [] buf j at m e = ground arith
put_digits-IsString (c ∷ cs) buf j at m e = (
  ground (arith, put_digits-before cs buf (j + 1) (write (buf + j) c m) at),
  put_digits-IsString cs buf (j + 1) (at + 1) (write (buf + j) c m) (omega arith),
)

-- what `u64_to_dec` leaves: a string of digits that stands for the number
pub record Decimal (v buf : ℕ) (m : Memory) : Type 0 where
  pub out : Memory
  pub text : List ℕ
  pub runs : u64_to_dec v buf m ≡ some (buf, out)
  pub string : IsString out buf text
  pub digits : AreDigits text
  pub number : value 0 text ≡ v
  pub count : length text ≤ 20

zero-Decimal : (buf : ℕ) (m : Memory) → Decimal 0 buf m
unfolding u64_to_dec
zero-Decimal buf m = record {
  out = write (buf + 1) 0 (write buf 48 m);
  text = 48 ∷ [];
  runs = refl;
  string = (ground arith, ground arith);
  digits = (omega arith, omega arith, tt);
  number = refl;
  count = omega arith;
}

u64_to_dec-runs :
    (v buf : ℕ) (m : Memory) (tmp : List ℕ)
    → (v == 0) ≡ false
    → digits_loop 21 v [] ≡ some tmp
    → u64_to_dec v buf m ≡ some (buf, put_digits tmp buf 0 m)
unfolding u64_to_dec
u64_to_dec-runs v buf m tmp ne e = rw ne (rw e)

-- `u64_to_dec` returns, and leaves at `buf` a string of at most 20 characters, all of them digits,
-- which read in decimal are the number; so `tmp` is large enough.
pub u64_to_dec-Decimal : (v buf : ℕ) (m : Memory) → v < 2 ^ 64 → Decimal v buf m
u64_to_dec-Decimal v buf m lt = elim (Bool-cases (v == 0)) [
  | inl e ↦ subst (λ t. Decimal t buf m) (sym (==→eq e)) (zero-Decimal buf m)
  | inr ne ↦
      let d : Spelled 20 v [] = digits_loop-Spelled 20 v [] (omega arith) in
      record {
        out = put_digits d.out buf 0 m;
        text = d.out;
        runs = u64_to_dec-runs v buf m d.out ne d.runs;
        string = put_digits-IsString d.out buf 0 buf m (omega arith);
        digits = d.digits tt;
        number = d.number;
        count = omega (arith, d.count);
      }
]
