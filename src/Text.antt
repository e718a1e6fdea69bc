-- ===== src/Text.antt =====
-- Texts of the C code as lists of bytes, without the terminator.
use Prim.Native.String.{String}
use Prim.Native.Char.{code}
use hvme.Prelude.{ℕ, List, [], ◌∷◌}

-- The bytes of a literal.
abbrev pub codes : String → List ℕ
codes String.[] = []
codes (String.◌∷◌ c s) = code c ∷ codes s
