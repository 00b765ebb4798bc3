-- ===== src/Keyboard/ReadLine.antt =====
-- `read_line` of src/drivers/keyboard.c as an editor of a line, and the bounds of its buffer.
use arc_monark.Base.{
  ℕ, ◌+◌, ◌<◌, ◌≡◌, Option, none, some, List, [], ◌∷◌, ltb, ◌==◌, if◌then◌else◌, length, get_or,
}
use arc_monark.Keyboard.{Line}

-- The line as it stands, its last character in front.
abbrev pub Typed : Type 0
Typed = List ℕ

unfoldable pub type_char : ℕ → ℕ → Typed → Typed
type_char max c [] = if c == 8 then [] else if ltb 1 max then c ∷ [] else []
type_char max c (x ∷ xs) =
    if c == 8 then xs else if ltb (length xs + 2) max then c ∷ x ∷ xs else x ∷ xs

-- all characters up to the first '\n'; `none` where there is no '\n'
unfoldable pub type_line : ℕ → List ℕ → Typed → Option Typed
type_line max [] xs = none
type_line max (c ∷ keys) xs =
    let rest = type_line max keys (type_char max c xs) in if c == 10 then some xs else rest

-- The characters stand in the buffer from its start on.
abbrev pub Holds : List ℕ → Typed → Type 0
Holds buf [] = Unit {0}
Holds buf (x ∷ xs) = (get_or buf (length xs) 0 ≡ x) × Holds buf xs

-- what holds of the local state between two turns of the loop
record Shows (max : ℕ) (l : Line) (xs : Typed) : Type 0 where
  len : l.len ≡ length xs
  room : l.len < max
  storage : length l.buf ≡ max
  text : Holds l.buf xs

-- What `read_line` leaves: the line, with a 0 behind it, inside the buffer.
pub record Finished (max : ℕ) (xs : Typed) (out : Line) : Type 0 where
  pub len : out.len ≡ length xs
  pub room : out.len < max
  pub storage : length out.buf ≡ max
  pub text : Holds out.buf xs
  pub end : get_or out.buf out.len 1 ≡ 0

abbrev pub Reads : ℕ → Option Typed → Option Line → Type 0
Reads max none r = r ≡ none
Reads max (some xs) r = (out : Line) × (r ≡ some out) × Finished max xs out
