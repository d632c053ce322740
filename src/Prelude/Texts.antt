-- ===== src/Prelude/Texts.antt =====
-- Names as texts: Python's order on `str`, by code points, and membership in a set of names.
use Prim.Native.Char.{code}
use Prim.Native.String.{String}
use mathlib.Core.Bool.{Bool, true, false, ◌||◌}
use mathlib.Core.List.{List, [], ◌∷◌}
use text.Mathlib.Text.{◌==◌ as str_eq}
use blackboardx.Prelude.Tests.{ltb, ◌==◌, if◌then◌else◌}

-- s <= t
unfoldable pub str_le : String → String → Bool
str_le String.[] t = true
str_le (String.◌∷◌ c s) String.[] = false
str_le (String.◌∷◌ c s) (String.◌∷◌ d t) =
    if ltb (code c) (code d) then true else if code c == code d then str_le s t else false

-- name in names
abbrev pub contains : List String → String → Bool
contains [] n = false
contains (m ∷ ms) n = str_eq m n || contains ms n
