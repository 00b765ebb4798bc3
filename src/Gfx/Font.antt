-- ===== src/Gfx/Font.antt =====
-- include/font8x16.h: the glyphs, by character.
mod Controls
mod Letters
mod Accents
mod Symbols
use arc_monark.Base.{ℕ, List, ◌++◌}
use Controls.{controls}
use Letters.{letters}
use Accents.{accents}
use Symbols.{symbols}

abbrev pub font8x16 : List (List ℕ)
font8x16 = controls ++ letters ++ accents ++ symbols
