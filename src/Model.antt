-- ===== src/Model.antt =====
-- Opening a run (src/blackboard/_model.py): `create_model` and `attach_model`, with the checks that they make on a
-- configuration. The names that a message lists are one text, in their order; `on_open` returns or raises but makes
-- no call of its own, so it changes nothing here.
pub mod Agrees
pub mod Fails
mod Tests
use Prim.Native.String
use blackboardx.Prelude.{
  ℕ, String, Bool, true, false, Option, none, some, List, [], ◌∷◌, ◌++◌, map, filter, contains,
  str_eq, str_le, sort_by, not, ◌&&◌, if◌then◌else◌,
}
use blackboardx.Dict.{Dict, get, has, put}
use blackboardx.Errors.{
  Error, Result, ok, err, ◌>>◌, ◌>>=◌, guard, duplicate_region, duplicate_agent, premise_error,
  premise_value, undeclared_region, region_kind, run_closed,
}
use blackboardx.Json.{Value, as_json}
use blackboardx.Board.{Region, level, premise, name_of}
use blackboardx.Store
use blackboardx.Control.{World, App, Agent, RegionKind, level_kind, premise_kind}
use blackboardx.Control.Closing.{abort}
use blackboardx.Control.Register.{open_control, register_agent, kind_of, or_none}
use blackboardx.Control.Relay.{distinct}
use blackboardx.Control.Openings.{open_premises, without}

-- ", ".join(...)
abbrev pub listed : List String → String
listed [] = ""
listed (n ∷ []) = n
listed (n ∷ m ∷ ns) = String.◌++◌ n (String.◌++◌ ", " (listed (m ∷ ns)))

-- sorted({...})
abbrev pub sorted_set : List String → List String
sorted_set ns = sort_by str_le (distinct ns)

-- {n for n in names if names.count(n) > 1}
abbrev pub repeated : List String → List String
repeated [] = []
repeated (n ∷ ns) = let rest = repeated ns in if contains ns n then n ∷ rest else rest

-- Nothing of these, or the error that names them.
abbrev pub refuse_any : List String → (String → Error) → Result (Unit {0})
refuse_any [] e = ok tt
refuse_any (n ∷ ns) e = err (e (listed (sorted_set (n ∷ ns))))

-- {r.name: type(r).__name__ for r in regions}
abbrev pub kinds_from : Dict RegionKind → List Region → Dict RegionKind
kinds_from d [] = d
kinds_from d (r ∷ rs) = kinds_from (put (name_of r) (kind_of r) d) rs

abbrev pub kinds_of : List Region → Dict RegionKind
kinds_of rs = kinds_from [] rs

abbrev pub keys_of {ℓ} : {V : Type ℓ} → Dict V → List String
keys_of d = map (λ e. e.0) d

abbrev pub same : Option RegionKind → RegionKind → Bool
same (some level_kind) level_kind = true
same (some premise_kind) premise_kind = true
same k kind = false

-- [n for n, kind in wanted.items() if on_record[n] != kind]
unfoldable pub wrong_kinds : Dict RegionKind → Dict RegionKind → List String
wrong_kinds on_record [] = []
wrong_kinds on_record ((n, kind) ∷ wanted) =
    let rest = wrong_kinds on_record wanted in
    if same (get n on_record) kind then rest else n ∷ rest

-- _agree
unfoldable pub agree : List Region → List Region → String → Result (Unit {0})
agree [] declared id = err (undeclared_region id)
agree (r ∷ rs) declared id =
    let on_record = kinds_of (r ∷ rs) in
    let wanted = kinds_of declared in
    refuse_any (without (keys_of wanted) (keys_of on_record)) undeclared_region
    >> (refuse_any (without (keys_of on_record) (keys_of wanted)) undeclared_region
        >> refuse_any (wrong_kinds on_record wanted) region_kind)

-- _refuse_unknown
abbrev pub refuse_unknown : Option (List String) → List String → Result (Unit {0})
refuse_unknown named allowed = refuse_any (without (or_none named) allowed) undeclared_region

abbrev pub levels_of : List Region → List String
levels_of [] = []
levels_of (level n w ∷ rs) = n ∷ levels_of rs
levels_of (premise n w ∷ rs) = levels_of rs

abbrev pub premises_in : List Region → List String
premises_in [] = []
premises_in (level n w ∷ rs) = premises_in rs
premises_in (premise n w ∷ rs) = n ∷ premises_in rs

-- The inner loop of `_check_roster`, over what an agent writes to
unfoldable pub check_permitted : List String → List String → List String → Result (Unit {0})
check_permitted names levels [] = ok tt
check_permitted names levels (n ∷ ns) =
    if contains names n
    then (if contains levels n then check_permitted names levels ns else err (region_kind n))
    else err (undeclared_region n)

unfoldable pub check_agents : List String → List String → List Agent → Result (Unit {0})
check_agents names levels [] = ok tt
check_agents names levels (a ∷ roster) =
    refuse_unknown a.subscribes_to names
    >> (check_permitted names levels (or_none a.writes_to) >> check_agents names levels roster)

-- _check_roster
unfoldable pub check_roster : List Region → List Agent → Result (Unit {0})
check_roster regions roster = elim (repeated (map (λ (a : Agent). a.name) roster)) [
  | n ∷ ns ↦ err (duplicate_agent (sorted_set (n ∷ ns)))
  | [] ↦ check_agents (map name_of regions) (levels_of regions) roster
]

unfoldable pub check_values : List (String × Value) → Result (Unit {0})
check_values [] = ok tt
check_values ((n, v) ∷ values) = elim (as_json v) [
  | err e ↦ err (premise_value n)
  | ok x ↦ check_values values
]

-- _check
unfoldable pub check : List Region → List (String × Value) → List Agent → Result (Unit {0})
check regions premises roster =
    let declared = premises_in regions in
    let given = keys_of premises in
    refuse_any (repeated (map name_of regions)) duplicate_region >> (elim (without declared given) [
      | n ∷ ns ↦ err (premise_error (sorted_set (n ∷ ns)) [])
      | [] ↦ elim (without given declared) [
        | n ∷ ns ↦ err (premise_error [] (sorted_set (n ∷ ns)))
        | [] ↦ check_values premises >> check_roster regions roster
      ]
    ])

-- The loop over the roster.
unfoldable pub register_each : App → List Agent → World → Result (Unit {0}) × World
register_each app [] w = (ok tt, w)
register_each app (a ∷ roster) w =
    let r = register_agent app a w in
    elim r.0 [ err e ↦ (err e, r.1) | ok u ↦ register_each app roster r.1 ]

-- What follows the opening: a run that has closed is no error, and any other closes it.
unfoldable pub settled_opening :
    String → (Error → String) → Result (Unit {0}) → World → Result (Unit {0}) × World
settled_opening failed said (ok u) w = (ok u, w)
settled_opening failed said (err run_closed) w = (ok tt, w)
settled_opening failed said (err e) w = (err e, abort (String.◌++◌ failed (said e)) w)

-- The premises opened and the roster registered.
unfoldable pub begin : App → List (String × Value) → List Agent → World → Result (Unit {0}) × World
begin app premises roster w =
    let p = open_premises app premises w in
    elim p.0 [ err e ↦ (err e, p.1) | ok u ↦ register_each app roster p.1 ]

-- create_model
unfoldable pub create_model :
    App
    → (Error → String)
    → String
    → List Region
    → List (String × Value)
    → List Agent
    → ℕ
    → ℕ
    → Bool
    → World
    → Result (Unit {0}) × World
create_model app said id regions premises roster wall_clock idle reach w =
    elim (check regions premises roster) [
      | err e ↦ (err e, w)
      | ok u ↦
          let c = open_control id regions wall_clock idle false reach w in
          elim c.0 [
            | err e ↦ (err e, c.1)
            | ok u ↦
                let r = begin app premises roster c.1 in
                settled_opening "creation failed: " said r.0 r.1
          ]
    ]

-- attach_model
unfoldable pub attach_model :
    App
    → (Error → String)
    → String
    → List Region
    → List Agent
    → ℕ
    → ℕ
    → Bool
    → World
    → Result (Unit {0}) × World
attach_model app said id regions roster wall_clock idle reach w =
    elim (check_roster regions roster) [
      | err e ↦ (err e, w)
      | ok u ↦
          let held = Store.read_regions id w.store in
          let w1 = record w { store = held.1 } in
          elim (agree held.0 regions id) [
            | err e ↦ (err e, w1)
            | ok u ↦
                let c = open_control id regions wall_clock idle true reach w1 in
                elim c.0 [
                  | err e ↦ (err e, c.1)
                  | ok u ↦
                      let r = register_each app roster c.1 in
                      settled_opening "attaching failed: " said r.0 r.1
                ]
          ]
    ]
