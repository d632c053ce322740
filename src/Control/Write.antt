-- ===== src/Control/Write.antt =====
-- `write` and `set_premise` of `Control` (src/blackboard/_control.py).
use blackboardx.Prelude.{
  ℕ, String, Bool, true, Option, none, some, List, [], map, contains, if◌then◌else◌,
}
use blackboardx.Errors.{Result, ok, err}
use blackboardx.Json.{Value}
use blackboardx.Board.{Written, written, conflict, AgentProgress}
use blackboardx.Store
use blackboardx.Control.{
  World, App, Delivery, Rejected, contribution, premise_write, accept, reject, admission,
  not_permitted, level_kind, premise_kind,
}
use blackboardx.Control.Roster.{may_write_to, who_hears}
use blackboardx.Control.Tail.{note_region_change}
use blackboardx.Control.Deliver.{deliver, check_completion}
use blackboardx.Control.Admit.{rejected, sequencing_gate, refuse_region}

-- What a caller of `write` or `set_premise` is answered with.
pub data WriteAnswer : Type 0 where
  sequenced : Written → WriteAnswer
  conflicts : ℕ → WriteAnswer
  refused : Rejected → WriteAnswer

-- The permission that `write` checks under the lock.
abbrev pub permitted : String → String → World → Bool
permitted writer level w = elim (may_write_to writer w) [
  | none ↦ true
  | some levels ↦ contains levels level
]

-- The end of a write that the board sequenced, or that changed nothing: deliveries, then the idle deadline.
abbrev pub finish : App → List Delivery → World → World
finish app ds w = check_completion (deliver app ds w)

-- What follows a write that the store sequenced.
abbrev pub landed : App → String → String → List AgentProgress → ℕ → World → World
landed app region writer hearers sequence w =
    let r = note_region_change region writer hearers (record w { last_sequence = sequence }) in
    finish app r.0 r.1

abbrev pub names_of : List AgentProgress → List String
names_of = map (λ (h : AgentProgress). h.agent)

-- The part of `write` under the lock, after admission.
unfoldable pub sequence_write :
    App → String → Value → Option String → String → World → Result WriteAnswer × World
sequence_write app level content key writer w = elim (sequencing_gate w) [
  | some gate ↦ (ok (refused gate), finish app [] w)
  | none ↦
      let hearers = who_hears level writer w in
      let r =
        Store.append w.store_now w.board_id level content
          (record { key = key; writer = some writer; notify = names_of hearers }) w.store in
      let w1 = record w { store = r.1 } in
      elim r.0 [
        | err e ↦ (err e, w1)
        | ok answer ↦
            if answer.repeated
            then (ok (sequenced answer), w1)
            else (ok (sequenced answer), landed app level writer hearers answer.sequence w1)
      ]
]

-- write
unfoldable pub write :
    App → String → Value → Option String → String → World → Result WriteAnswer × World
write app level content key writer w = elim (refuse_region level level_kind w) [
  | err e ↦ (err e, w)
  | ok (some refusal) ↦ (ok (refused refusal), w)
  | ok none ↦
      if permitted writer level w
      then elim (app.admission_rule (contribution writer level content) w.store) [
        | err e ↦ (err e, w)
        | ok (reject reason) ↦ (ok (refused (rejected admission reason)), finish app [] w)
        | ok accept ↦ sequence_write app level content key writer w
      ]
      else (ok (refused (rejected not_permitted "the writer may not write to the level")), w)
]

-- The part of `set_premise` under the lock, after admission.
unfoldable pub sequence_set :
    App → String → Value → ℕ → Option String → String → World → Result WriteAnswer × World
sequence_set app premise value expected key writer w = elim (sequencing_gate w) [
  | some gate ↦ (ok (refused gate), finish app [] w)
  | none ↦
      let hearers = who_hears premise writer w in
      let r =
        Store.set w.store_now w.board_id premise value expected
          (record { key = key; writer = some writer; notify = names_of hearers }) w.store in
      let w1 = record w { store = r.1 } in
      elim r.0 [
        | err e ↦ (err e, w1)
        | ok (conflict current) ↦ (ok (conflicts current), finish app [] w1)
        | ok (written answer) ↦
            if answer.repeated
            then (ok (sequenced answer), w1)
            else (ok (sequenced answer), landed app premise writer hearers answer.sequence w1)
      ]
]

-- set_premise
unfoldable pub set_premise :
    App → String → Value → ℕ → Option String → String → World → Result WriteAnswer × World
set_premise app premise value expected key writer w = elim (refuse_region premise premise_kind w) [
  | err e ↦ (err e, w)
  | ok (some refusal) ↦ (ok (refused refusal), w)
  | ok none ↦ elim (app.admission_rule (premise_write writer premise value expected) w.store) [
    | err e ↦ (err e, w)
    | ok (reject reason) ↦ (ok (refused (rejected admission reason)), finish app [] w)
    | ok accept ↦ sequence_set app premise value expected key writer w
  ]
]
