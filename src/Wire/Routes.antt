-- ===== src/Wire/Routes.antt =====
-- A path that the one half builds is matched by the other (`Operation.path` of src/blackboard/wire.py and
-- `_match` of src/blackboard/server.py).
use Prim.Native.Char.{code}
use Prim.Native.String
use text.Mathlib.TextLemmas.{nil-append, cons-append}
use blackboardx.Prelude.{
  String, ◌≡◌, refl, ◌∙◌, ap, Bool, true, List, [], ◌∷◌, All, arith, ◌==◌, ◌&&◌, not,
}
use blackboardx.Wire.Paths.{split_slash, join_slash}

-- The text holds no slash.
abbrev pub no_slash : String → Bool
no_slash String.[] = true
no_slash (String.◌∷◌ c s) = not (code c == b'/') && no_slash s

abbrev pub NoSlash : String → Type 0
NoSlash s = no_slash s ≡ true

-- A segment split off before a slash.
split_slash-before :
    (s rest : String)
    → NoSlash s
    → split_slash (String.◌++◌ s (String.◌++◌ "/" rest)) ≡ s ∷ split_slash rest
unfolding split_slash
split_slash-before String.[] rest h = rw (nil-append, cons-append, nil-append) refl
split_slash-before (String.◌∷◌ c s) rest h =
    rw cons-append (ground (arith, h, split_slash-before s rest))

split_slash-last : (s : String) → NoSlash s → split_slash s ≡ s ∷ []
unfolding split_slash
split_slash-last String.[] h = refl
split_slash-last (String.◌∷◌ c s) h = ground (arith, h, split_slash-last s)

-- Segments without slashes, joined and split again.
pub split_slash-join_slash :
    (s : String) (ss : List String)
    → NoSlash s
    → All NoSlash ss
    → split_slash (join_slash (s ∷ ss)) ≡ s ∷ ss
split_slash-join_slash s [] h k = split_slash-last s h
split_slash-join_slash s (t ∷ ts) h k =
    split_slash-before s (join_slash (t ∷ ts)) h
    ∙ ap (λ l. s ∷ l) (split_slash-join_slash t ts k.0 k.1)
