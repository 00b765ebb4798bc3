-- ===== src/Str/Tests.antt =====
-- The string functions on concrete memory.
use arc_monark.Base.{◌≡◌, refl, some, [], ◌∷◌, arith}
use arc_monark.Str.{Memory, write, digits_loop, put_digits, memmove, streq, u64_to_dec}
use arc_monark.Str.Copy.{moved, memmove_lem}
use arc_monark.Str.Text.{IsText, same_text, streq-same_text}
use arc_monark.Str.Decimal.{Decimal, u64_to_dec-Decimal}

-- "abc" at 100, and "ab" at 200
abbrev memory : Memory
memory = write 100 97 (write 101 98 (write 102 99 (write 200 97 (write 201 98 (λ a. 0)))))

abc-IsText : IsText memory 100 (97 ∷ 98 ∷ 99 ∷ [])
abc-IsText = (refl, omega arith, (refl, omega arith, (refl, omega arith, refl)))

ab-IsText : IsText memory 200 (97 ∷ 98 ∷ [])
ab-IsText = (refl, omega arith, (refl, omega arith, refl))

dec_907 :
    u64_to_dec 907 0 (λ a. 0) ≡ some (0, write 3 0 (write 2 55 (write 1 48 (write 0 57 (λ a. 0)))))
unfolding u64_to_dec digits_loop put_digits
dec_907 = refl

memmove_lem_example :
    ((memmove 101 100 3 memory).0 ≡ 101)
    × ((memmove 101 100 3 memory).1 102 ≡ moved 101 100 3 memory 102)
memmove_lem_example = memmove_lem 101 100 3 memory 102

streq-same_text_example :
    streq 9 100 200 memory ≡ some (same_text (97 ∷ 98 ∷ 99 ∷ []) (97 ∷ 98 ∷ []))
streq-same_text_example =
    streq-same_text 9 100 200 memory (97 ∷ 98 ∷ 99 ∷ []) (97 ∷ 98 ∷ []) abc-IsText ab-IsText
      (omega arith)

u64_to_dec-Decimal_example : Decimal 907 0 memory
u64_to_dec-Decimal_example = u64_to_dec-Decimal 907 0 memory (omega arith)
