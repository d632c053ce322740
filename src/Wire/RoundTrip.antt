-- ===== src/Wire/RoundTrip.antt =====
-- Bodies sent and read back (`to_json` and `from_json` of `_Body`, src/blackboard/wire.py).
use blackboardx.Prelude.{
  String, ◌≡◌, refl, Bool, true, false, some, List, [], ◌∷◌, map, All, contains, arith, str_eq,
  eq_iff, ◌&&◌, not, inl, inr, Bool-cases,
}
use blackboardx.Dict.{Dict}
use blackboardx.Errors.{ok}
use blackboardx.Json.{Value, Fields, object, field, name}
use blackboardx.Wire.{Kind, value_of, fields_of, to_json, missing, filled, from_json}
use blackboardx.Wire.Bodies.{kinds}

abbrev pub names {ℓ} : {V : Type ℓ} → Dict V → List String
names = map (λ e. e.0)

abbrev pub distinct : List String → Bool
distinct [] = true
distinct (n ∷ ns) = not (contains ns n) && distinct ns

abbrev pub all_in : List String → List String → Bool
all_in known [] = true
all_in known (n ∷ ns) = contains known n && all_in known ns

-- A class of bodies names each field once, and requires fields alone.
abbrev pub IsKind : Kind → Type 0
IsKind k = (distinct (names k.fields) ≡ true) × (all_in (names k.fields) k.required ≡ true)

-- A body of the class: its fields, in their order.
abbrev pub IsBody : Kind → Dict Value → Type 0
IsBody k body = names body ≡ names k.fields

value_of-other :
    (n k : String) (v : Value) (fs : Fields)
    → str_eq k n ≡ false
    → value_of n (field (name k) v fs) ≡ value_of n fs
unfolding value_of
value_of-other n k v fs h = ground arith

filled-other :
    (known : Dict Value) (k : String) (v : Value) (fs : Fields)
    → contains (names known) k ≡ false
    → filled known (field (name k) v fs) ≡ filled known fs
filled-other [] k v fs h = refl
filled-other ((n, d) ∷ known) k v fs h =
    rw
      (
        value_of-other n k v fs (ground (arith, h, eq_iff n k, eq_iff k n)),
        filled-other known k v fs (ground (arith, h)),
      )
      refl

filled-fields :
    (known body : Dict Value)
    → names body ≡ names known
    → distinct (names known) ≡ true
    → filled known (fields_of body) ≡ body
unfolding value_of fields_of
filled-fields [] [] e h = refl
filled-fields [] (b ∷ body) e h = absurd (cc e)
filled-fields (k ∷ known) [] e h = absurd (cc e)
filled-fields ((n, d) ∷ known) ((m, v) ∷ body) e h =
    ground
      (arith, e, h, eq_iff m n, filled-other known m v (fields_of body), filled-fields known body)

held :
    (body : Dict Value) (n : String)
    → contains (names body) n ≡ true
    → (v : Value) × (value_of n (fields_of body) ≡ some v)
unfolding value_of fields_of
held [] n h = absurd (cc h)
held ((m, v) ∷ body) n h = elim (Bool-cases (str_eq m n)) [
  | inl e ↦ (v, ground arith)
  | inr e ↦ let r = held body n (ground arith) in (r.0, ground (arith, r.1))
]

missing-body :
    (body : Dict Value) (ns : List String)
    → all_in (names body) ns ≡ true
    → missing ns (fields_of body) ≡ []
missing-body body [] h = refl
missing-body body (n ∷ ns) h =
    let r = held body n (ground arith) in ground (arith, r.1, missing-body body ns)

-- Every class of bodies on the wire names each field once, and requires fields alone.
pub kinds-IsKind : All IsKind kinds
kinds-IsKind = (
  (refl, refl),
  (
    (refl, refl),
    (
      (refl, refl),
      (
        (refl, refl),
        (
          (refl, refl),
          (
            (refl, refl),
            (
              (refl, refl),
              ((refl, refl), ((refl, refl), ((refl, refl), ((refl, refl), ((refl, refl), tt))))),
            ),
          ),
        ),
      ),
    ),
  ),
)

-- A body that one half sends is the body that the other half reads.
pub from_json-to_json :
    (k : Kind) (body : Dict Value) → IsKind k → IsBody k body → from_json k (to_json body) ≡ ok body
unfolding from_json
from_json-to_json k body w b =
    rw (missing-body body k.required (rw b w.1), filled-fields k.fields body b w.0, from_json) refl

-- The two objects hold the same under these names.
abbrev pub AgreeOn : List String → Fields → Fields → Type 0
AgreeOn known fs gs = (n : String) → contains known n ≡ true → value_of n fs ≡ value_of n gs

missing-AgreeOn :
    (known ns : List String) (fs gs : Fields)
    → all_in known ns ≡ true
    → AgreeOn known fs gs
    → missing ns fs ≡ missing ns gs
missing-AgreeOn known [] fs gs h a = refl
missing-AgreeOn known (n ∷ ns) fs gs h a =
    ground (arith, a n (ground arith), missing-AgreeOn known ns fs gs (ground arith) a)

filled-AgreeOn :
    (known : Dict Value) (fs gs : Fields)
    → AgreeOn (names known) fs gs
    → filled known fs ≡ filled known gs
filled-AgreeOn [] fs gs a = refl
filled-AgreeOn ((n, d) ∷ known) fs gs a =
    rw
      (
        a n (ground (arith, eq_iff n n)),
        filled-AgreeOn known fs gs (λ m h. a m (ground (arith, h))),
      )
      refl

-- Two objects that agree on the fields of a class are read as one body, or refused in one way, whatever
-- else they hold: a field that a class does not name is ignored.
pub from_json_tolerant :
    (k : Kind) (fs gs : Fields)
    → IsKind k
    → AgreeOn (names k.fields) fs gs
    → from_json k (object fs) ≡ from_json k (object gs)
unfolding from_json
from_json_tolerant k fs gs w a = ground (
  arith,
  missing-AgreeOn (names k.fields) k.required fs gs w.1 a,
  filled-AgreeOn k.fields fs gs a,
)
