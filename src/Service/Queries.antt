-- ===== src/Service/Queries.antt =====
-- The bounds of a read over HTTP: `_bounds`, `_whole`, `_one_more` and `_trim` of src/blackboard/server.py.
use Prim.Native.String
use blackboardx.Prelude.{
  ℕ, ◌+◌, String, Bool, true, false, Option, none, some, List, [], ◌∷◌, min, leb, length, take,
  if◌then◌else◌,
}
use blackboardx.Dict.{Dict, get}
use blackboardx.Json.{text}
use blackboardx.Wire.{to_json}
use blackboardx.Service.{Library, whole, negative, Response}

-- DEFAULT_LIMIT
abbrev pub default_limit : ℕ
default_limit = 100

-- MAX_LIMIT
abbrev pub max_limit : ℕ
max_limit = 1000

-- _error
abbrev pub error_response : ℕ → String → String → Response
error_response status error detail = record {
  status = status;
  body = some (to_json (("error", text error) ∷ ("detail", text detail) ∷ []));
  headers = [];
}

-- What a read of the query gives: a value, or the response that says why it could not be read.
pub data Read {ℓ} (A : Type ℓ) : Type ℓ where
  read : A → Read A
  refused : Response → Read A

module _ (lib : Library) where
  -- _whole
  unfoldable pub read_whole : String → String → Read ℕ
  read_whole given name = elim (lib.int_of given) [
    | none ↦ refused (
        error_response 400 "bad_query"
          (String.◌++◌ name (String.◌++◌ " is a whole number, not " (lib.repr given))))
    | some (negative n) ↦ refused (
        error_response 400 "bad_query"
          (String.◌++◌ name (String.◌++◌ " is not negative, and was -" (lib.str_of n))))
    | some (whole n) ↦ read n
  ]

  abbrev pub bound_or : ℕ → String → Dict String → Read ℕ
  bound_or default name query = elim (get name query) [
    | none ↦ read default
    | some given ↦ read_whole given name
  ]

  -- _bounds
  unfoldable pub read_bounds : Dict String → Read (ℕ × ℕ)
  read_bounds query = elim (bound_or 0 "from_sequence" query) [
    | refused r ↦ refused r
    | read from_sequence ↦ elim (bound_or default_limit "limit" query) [
      | refused r ↦ refused r
      | read limit ↦ read (from_sequence, min limit max_limit)
    ]
  ]

-- _one_more, of the limit that `_bounds` always gives
abbrev pub one_more : ℕ → Option ℕ
one_more limit = some (limit + 1)

-- _trim
unfoldable pub trim {ℓ} : {A : Type ℓ} → List A → ℕ → List A × Bool
trim found limit = if leb (length found) limit then (found, false) else (take limit found, true)
