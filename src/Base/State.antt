-- ===== src/Base/State.antt =====
-- Commands on a state, which may fail.
use arc_monark.Base.{Option, none, some}

-- `none` is a fault of the processor, or a loop that has used up its rounds.
abbrev pub Command : Type 0 → Type 0 → Type 0
Command S A = S → Option (A × S)

module _ {S : Type 0} where
  abbrev pub pure : {A : Type 0} → A → Command S A
  pure a s = some (a, s)

  abbrev pub fault : {A : Type 0} → Command S A
  fault s = none

  infixl 5 ◌>>=◌ ◌>>◌
  abbrev pub ◌>>=◌ : {A B : Type 0} → Command S A → (A → Command S B) → Command S B
  ◌>>=◌ m f s = elim (m s) [ none ↦ none | some (a, s') ↦ f a s' ]

  abbrev pub ◌>>◌ : {A B : Type 0} → Command S A → Command S B → Command S B
  ◌>>◌ m n s = elim (m s) [ none ↦ none | some (a, s') ↦ n s' ]
