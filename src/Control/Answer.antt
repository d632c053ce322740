-- ===== src/Control/Answer.antt =====
-- `ack` and `notify_due` of `Control` (src/blackboard/_control.py), and the calls that its clock makes.
use blackboardx.Prelude.{
  ℕ, String, Bool, true, false, Option, none, some, List, [], ◌∷◌, map, max, leb, if◌then◌else◌,
}
use blackboardx.Dict.{get}
use blackboardx.Errors.{Result, ok, err, unknown_notification}
use blackboardx.Board.{RunRecord}
use blackboardx.Store
use blackboardx.Control.{World, App, Delivery, Armed, wall_clock_passes, idle_passes, window_closes}
use blackboardx.Control.Closing.{
  close_locked, tell_closed, outcome_of, wall_clock_passed, idle_passed,
}
use blackboardx.Control.Dispatch.{set_agent, evaluate_each, close_window}
use blackboardx.Control.Tail.{take_tail}
use blackboardx.Control.Deliver.{deliver, check_completion}

-- The run that the record holds has closed.
abbrev pub has_closed : Option RunRecord → Bool
has_closed none = false
has_closed (some r) = elim r.closed_as [ none ↦ false | some _ ↦ true ]

-- The cursor that this process caches rises with the answer.
abbrev pub cache_answer : String → ℕ → World → World
cache_answer agent through w = elim (get agent w.agents) [
  | none ↦ w
  | some s ↦
      set_agent agent (record s { acknowledged_through = max s.acknowledged_through through }) w
]

-- ack
unfoldable pub ack : ℕ → String → World → Result (Unit {0}) × World
ack through agent w =
    let r = Store.acknowledge w.board_id agent through w.store in
    let w1 = record w { store = r.1 } in
    elim r.0 [
      | none ↦
          if has_closed (Store.read_run w.store_now w.board_id r.1)
          then (ok tt, w1)
          else (err (unknown_notification through agent), w1)
      | some prior ↦
          if leb through prior.acknowledged_through
          then (ok tt, w1)
          else (ok tt, check_completion (cache_answer agent through w1))
    ]

abbrev pub agents_of : List Delivery → List String
agents_of = map (λ (d : Delivery). d.notification.agent)

-- notify_due
unfoldable pub notify_due : App → World → List String × World
notify_due app w = elim w.outcome [
  | some _ ↦ ([], w)
  | none ↦ elim (Store.read_run w.store_now w.board_id w.store) [
    | none ↦ ([], w)
    | some run ↦ elim run.closed_as [
      | some name ↦ ([], tell_closed (close_locked (outcome_of name run) w))
      | none ↦ elim w.agents [
        | [] ↦ ([], w)
        | a ∷ rest ↦
            let d = evaluate_each (map (λ e. e.0) w.agents) [] (take_tail run none w) in
            (agents_of d.0, deliver app d.0 d.1)
      ]
    ]
  ]
]

-- The end of `_close_window`, with the lock released.
unfoldable pub window_passed : App → String → ℕ → World → World
window_passed app name generation w =
    let r = close_window name generation w in
    if r.1 then check_completion (deliver app r.0 r.2) else r.2

-- A call that the clock makes.
unfoldable pub fire : App → Armed → World → World
fire app wall_clock_passes w = wall_clock_passed w
fire app (idle_passes generation) w = idle_passed app generation w
fire app (window_closes name generation) w = window_passed app name generation w
