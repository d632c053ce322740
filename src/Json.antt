-- ===== src/Json.antt =====
-- `_as_json` of src/blackboard/_board.py: content as JSON carries it, `json.loads(json.dumps(c))`.
-- A natural number is itself, any other number its printed numeral, which the round trip keeps. `opaque` is any object that
-- `json.dumps` refuses, such as a set or an instance of a class.
use blackboardx.Prelude.{ℕ, String, Bool, true, false, if◌then◌else◌, str_eq}
use blackboardx.Errors.{Result, ok, err, type_error, ◌>>=◌}

-- What a Python `dict` may have for a key.
pub data Key : Type 0 where
  name : String → Key
  numeral : String → Key
  flag : Bool → Key
  nothing : Key
  other : Key

mutual
  pub data Value : Type 0 where
    null : Value
    bool : Bool → Value
    natural : ℕ → Value
    number : String → Value
    text : String → Value
    array : Items → Value
    tuple : Items → Value
    object : Fields → Value
    opaque : Value

  pub data Items : Type 0 where
    nil : Items
    cons : Value → Items → Items

  pub data Fields : Type 0 where
    end : Fields
    field : Key → Value → Fields → Fields

-- `json.dumps` writes a key as text, or refuses it.
unfoldable pub key_text : Key → Result String
key_text (name s) = ok s
key_text (numeral s) = ok s
key_text (flag true) = ok "true"
key_text (flag false) = ok "false"
key_text nothing = ok "null"
key_text other = err type_error

-- `json.loads` reads an object's pairs into a `dict`: of two pairs with one key the last value stays,
-- at the first one's place. Read from the end, a pair moves an equal key up to its own place.
value_at : String → Value → Fields → Value
value_at k v end = v
value_at k v (field (name j) w fs) = if str_eq j k then w else value_at k v fs
value_at k v (field _ w fs) = value_at k v fs

drop_key : String → Fields → Fields
drop_key k end = end
drop_key k (field (name j) w fs) =
    let rest = drop_key k fs in if str_eq j k then rest else field (name j) w rest
drop_key k (field j w fs) = field j w (drop_key k fs)

load_field : String → Value → Fields → Fields
load_field k v fs = field (name k) (value_at k v fs) (drop_key k fs)

unfoldable mutual
  unfolding key_text load_field value_at drop_key

  -- _as_json
  pub as_json : Value → Result Value
  as_json null = ok null
  as_json (bool b) = ok (bool b)
  as_json (natural n) = ok (natural n)
  as_json (number n) = ok (number n)
  as_json (text s) = ok (text s)
  as_json (array xs) = do ys ← items_as_json xs; ok (array ys)
  as_json (tuple xs) = do ys ← items_as_json xs; ok (array ys)
  as_json (object fs) = do gs ← fields_as_json fs; ok (object gs)
  as_json opaque = err type_error

  pub items_as_json : Items → Result Items
  items_as_json nil = ok nil
  items_as_json (cons x xs) = do y ← as_json x; ys ← items_as_json xs; ok (cons y ys)

  pub fields_as_json : Fields → Result Fields
  fields_as_json end = ok end
  fields_as_json (field k v fs) = do
    j ← key_text k
    w ← as_json v
    gs ← fields_as_json fs
    ok (load_field j w gs)

-- No tuple, no object that JSON refuses, and texts for keys.
abbrev mutual
  pub IsJson : Value → Type 0
  IsJson (array xs) = AreJson xs
  IsJson (object fs) = FieldsJson fs
  IsJson (tuple xs) = ⊥
  IsJson opaque = ⊥
  IsJson null = Unit
  IsJson (bool b) = Unit
  IsJson (natural n) = Unit
  IsJson (number n) = Unit
  IsJson (text s) = Unit

  pub AreJson : Items → Type 0
  AreJson nil = Unit
  AreJson (cons x xs) = IsJson x × AreJson xs

  pub FieldsJson : Fields → Type 0
  FieldsJson end = Unit
  FieldsJson (field (name k) v fs) = IsJson v × FieldsJson fs
  FieldsJson (field _ v fs) = ⊥
