-- ===== src/Base/Text.antt =====
-- Texts as the bytes of C strings.
use arc_monark.Base.{ℕ, List, [], ◌∷◌}
use Prim.Native.String.{String}
use Prim.Native.Char.{code}

-- The bytes of a text, which is ASCII.
abbrev pub codes : String → List ℕ
codes String.[] = []
codes (String.◌∷◌ c s) = code c ∷ codes s
