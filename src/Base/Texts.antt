-- ===== src/Base/Texts.antt =====
-- A literal text as the list of its bytes, for texts of ASCII.
use Prim.Native.Nat.{ℕ}
use Prim.Native.Char.{code}
use Prim.Native.String.{String}
use mathlib.Core.List.{List, [], ◌∷◌}

abbrev pub codes : String → List ℕ
codes String.[] = []
codes (String.◌∷◌ ch txt) = code ch ∷ codes txt
