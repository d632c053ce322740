-- ===== src/Control/Openings.antt =====
-- Opening the premises of a run: `_open_premises` of `Control` (src/blackboard/_control.py).
use blackboardx.Control.Register.{has_value}
use blackboardx.Prelude.{
  ◌+◌, String, none, some, List, [], ◌∷◌, ◌++◌, map, filter, not, contains, if◌then◌else◌,
}
use blackboardx.Dict.{Dict, get_or, map_values}
use blackboardx.Errors.{Result, ok, err, premise_error, ◌>>=◌, assertion_failed}
use blackboardx.Json.{Value}
use blackboardx.Board.{written, conflict}
use blackboardx.Store
use blackboardx.Store.{Store, board_of}
use blackboardx.Control.{World, App, RegionKind, level_kind, premise_kind}
use blackboardx.Control.Tail.{add_pending}
use blackboardx.Control.Dispatch.{evaluate_each}
use blackboardx.Control.Deliver.{deliver, check_completion}

-- The declared premises, in the order of their declaration.
abbrev pub premises_of : Dict RegionKind → List String
premises_of [] = []
premises_of ((n, premise_kind) ∷ kinds) = n ∷ premises_of kinds
premises_of ((n, level_kind) ∷ kinds) = premises_of kinds

abbrev pub without : List String → List String → List String
without ns ms = filter (λ n. not (contains ms n)) ns

-- The declared premises that hold a value.
unfoldable pub standing_of : List String → World → Result (List String)
standing_of [] w = ok []
standing_of (n ∷ ns) w = do
  held ← has_value n w
  rest ← standing_of ns w
  ok (if held then n ∷ rest else rest)

-- The loop of `_open_premises` over the opening values: a premise that holds a value keeps it.
unfoldable pub set_openings :
    List String → List (String × Value) → World → Result (Unit {0}) × World
set_openings standing [] w = (ok tt, w)
set_openings standing ((n, v) ∷ vs) w =
    if contains standing n
    then set_openings standing vs w
    else (let r =
          Store.set w.store_now w.board_id n v 0 (record { key = none; writer = none; notify = [] })
            w.store in
        elim r.0 [
          | err e ↦ (err e, record w { store = r.1 })
          | ok (conflict current) ↦ (err assertion_failed, record w { store = r.1 })
          | ok (written answer) ↦ set_openings standing vs (record w {
            store = r.1;
            last_sequence = answer.sequence;
            agents = map_values (λ name s. add_pending n (w.now + get_or n 0 w.windows) s) w.agents;
          })
        ])

-- _open_premises
unfoldable pub open_premises : App → List (String × Value) → World → Result (Unit {0}) × World
open_premises app values w = elim w.outcome [
  | some _ ↦ (ok tt, w)
  | none ↦
      let declared = premises_of w.kinds in
      let given = map (λ e. e.0) values in
      elim (without declared given ++ without given declared) [
        | n ∷ ns ↦ (err (premise_error (without declared given) (without given declared)), w)
        | [] ↦ elim (standing_of declared w) [
          | err e ↦ (err e, w)
          | ok standing ↦
              let r = set_openings standing values w in
              elim r.0 [
                | err e ↦ (err e, r.1)
                | ok _ ↦
                    let d = evaluate_each (map (λ e. e.0) r.1.agents) [] r.1 in
                    (ok tt, check_completion (deliver app d.0 d.1))
              ]
        ]
      ]
]
