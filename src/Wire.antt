-- ===== src/Wire.antt =====
-- The bodies of src/blackboard/wire.py: `_Body` and its kinds. A body is its fields by name, in the order of
-- the class; a field holds whatever JSON arrived, since nothing in `from_json` looks at a value's type.
pub mod Bodies
pub mod RoundTrip
pub mod Pages
pub mod Paths
pub mod Routes
mod Tests
use blackboardx.Prelude.{
  String, Bool, true, false, Option, none, some, List, [], ◌∷◌, map, str_eq, if◌then◌else◌, ◌≡◌,
  not, ◌||◌, ◌==◌,
}
use blackboardx.Dict.{Dict, get}
use blackboardx.Errors.{Result, ok, err, wire_error, type_error, ◌>>=◌}
use blackboardx.Json.{
  Value, Fields, object, end, field, name, null, text, natural, bool, array, nil, cons, Items,
  tuple, number,
}

-- A class of bodies: its `_required`, and its fields with their defaults. A field that has no default is
-- required, and its entry here is never read.
pub record Kind : Type 0 where
  pub required : List String
  pub fields : Dict Value

-- `body.get(name)`: of the object's pairs, the one with this key.
unfoldable pub value_of : String → Fields → Option Value
value_of n end = none
value_of n (field (name k) v fs) = if str_eq k n then some v else value_of n fs
value_of n (field _ v fs) = value_of n fs

-- An object of these pairs.
unfoldable pub fields_of : Dict Value → Fields
fields_of [] = end
fields_of ((n, v) ∷ body) = field (name n) v (fields_of body)

-- to_json
abbrev pub to_json : Dict Value → Value
to_json body = object (fields_of body)

-- [n for n in cls._required if n not in body]
abbrev pub missing : List String → Fields → List String
missing [] fs = []
missing (n ∷ ns) fs = elim (value_of n fs) [ none ↦ n ∷ missing ns fs | some _ ↦ missing ns fs ]

abbrev pub given_or : Value → Option Value → Value
given_or default none = default
given_or default (some v) = v

-- cls(**{k: v for k, v in body.items() if k in known})
abbrev pub filled : Dict Value → Fields → Dict Value
filled [] fs = []
filled ((n, default) ∷ known) fs = (n, given_or default (value_of n fs)) ∷ filled known fs

-- from_json: the error names what is missing, and nothing where the body is no object.
unfoldable pub from_json : Kind → Value → Result (Dict Value)
from_json kind (object fs) = elim (missing kind.required fs) [
  | [] ↦ ok (filled kind.fields fs)
  | n ∷ ns ↦ err (wire_error (n ∷ ns))
]
from_json kind _ = err (wire_error [])

-- bool(value)
unfoldable pub truthy : Value → Bool
truthy null = false
truthy (bool b) = b
truthy (natural n) = not (n == 0)
truthy (number n) = not (str_eq n "0.0" || str_eq n "-0.0")
truthy (text s) = not (str_eq s "")
truthy (array nil) = false
truthy (tuple nil) = false
truthy (object end) = false
truthy _ = true

-- The rows of a page, `body.get(name) or []`, each read by `read`. An iteration over a text or an object
-- meets a text first, which is no body, and anything else does not iterate.
unfoldable pub read_items {ℓ} : {A : Type ℓ} → (Value → Result A) → Items → Result (List A)
read_items read nil = ok []
read_items read (cons v vs) = do r ← read v; rs ← read_items read vs; ok (r ∷ rs)

unfoldable pub read_rows {ℓ} : {A : Type ℓ} → (Value → Result A) → Value → Result (List A)
read_rows read (array vs) = read_items read vs
read_rows read (tuple vs) = read_items read vs
read_rows read (text s) = if str_eq s "" then ok [] else err (wire_error [])
read_rows read (object end) = ok []
read_rows read (object (field k v fs)) = err (wire_error [])
read_rows read v = if truthy v then err type_error else ok []

abbrev pub items_of : List Value → Items
items_of [] = nil
items_of (v ∷ vs) = cons v (items_of vs)
