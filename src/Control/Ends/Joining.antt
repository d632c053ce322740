-- ===== src/Control/Ends/Joining.antt =====
-- How registering an agent and opening the premises (`register_agent` and `_open_premises`,
-- src/blackboard/_control.py) leave a run's end as it is.
use blackboardx.Control.Ends.Calls.{store-Ends}
use blackboardx.Prelude.{
  contains, String, ◌≡◌, refl, sym, subst, none, List, [], ◌∷◌, ◌++◌, arith, Option-cases,
  Bool-cases, List-cases, ◌⊎◌, inl, inr, map,
}
use blackboardx.Errors.{Result, Result-cases, ◌>>◌}
use blackboardx.Dict.{get, put}
use blackboardx.Json.{Value}
use blackboardx.Board.{SetAnswer, written, conflict}
use blackboardx.Store
use blackboardx.Store.{Store}
use blackboardx.Control.{World, App, Agent, AgentState}
use blackboardx.Control.Ends.{Ends, Ends-refl, Ends-trans, Frame-Ends}
use blackboardx.Control.Frame.{cancel-Frame, evaluate-Frame, evaluate_each-Frame}
use blackboardx.Control.Frame.Writes.{finish-Frame, deliver-Frame}
use blackboardx.Control.Clock.{cancel}
use blackboardx.Control.Dispatch.{evaluate, evaluate_each, set_agent, with_delivery}
use blackboardx.Control.Deliver.{deliver, check_completion}
use blackboardx.Control.Register.{
  register_agent, opening_pending, check_subscribes, check_writes, or_none, window_call_of,
  answered_by, joined,
}
use blackboardx.Control.Openings.{set_openings, open_premises, premises_of, without, standing_of}

-- The world of `register_agent` before the agent's pending set is found.
abbrev registered : Agent → World → World
registered a w = record (cancel (window_call_of (get a.name w.agents)) w) {
  store =
      Store.declare_agent w.board_id a.name
        (record { subscribes_to = a.subscribes_to; writes_to = a.writes_to; address = a.address })
        w.store;
  agents =
      put a.name (joined a (answered_by a.name (Store.read_agents w.board_id w.store))) w.agents;
}

register_agent-cases :
    (app : App) (a : Agent) (w : World)
    → ((register_agent app a w).1 ≡ w)
      ⊎ (((register_agent app a w).1 ≡ registered a w)
          ⊎ ((s : AgentState) × ((register_agent app a w).1 ≡ (
                let r = evaluate a.name s (set_agent a.name s (registered a w)) in
                deliver app (with_delivery r.0 []) r.1))))
unfolding register_agent
register_agent-cases app a w = elim (Option-cases w.outcome) [
  | inr (o, e) ↦ inl (ground arith)
  | inl e ↦
      elim (Result-cases
        (check_subscribes (or_none a.subscribes_to) w >> check_writes (or_none a.writes_to) w)) [
          | inl (x, c) ↦ inl (ground arith)
          | inr (x, c) ↦
              elim (Result-cases (
                opening_pending w.kinds (registered a w)
                  (joined a (answered_by a.name (Store.read_agents w.board_id w.store))))) [
                    | inl (y, p) ↦ inr (inl (ground arith))
                    | inr (s, p) ↦ inr (inr (s, ground arith))
                  ]
        ]
]

registered-Ends : (a : Agent) (w : World) → Ends w (registered a w)
registered-Ends a w = record {
  outcome = cancelled.outcome;
  closing = cancelled.closing;
  told = cancelled.told;
}
  where
    cancelled : Ends w (cancel (window_call_of (get a.name w.agents)) w)
    cancelled = Frame-Ends (cancel-Frame _ w)

-- An agent's state put on the roster.
set_agent-Ends : (name : String) (s : AgentState) (w : World) → Ends w (set_agent name s w)
set_agent-Ends name s w = record { outcome = refl; closing = refl; told = refl }

pub register_agent-Ends : (app : App) (a : Agent) (w : World) → Ends w (register_agent app a w).1
register_agent-Ends app a w = elim (register_agent-cases app a w) [
  | inl e ↦ subst (Ends w) (sym e) Ends-refl
  | inr (inl e) ↦ subst (Ends w) (sym e) (registered-Ends a w)
  | inr (inr (s, e)) ↦ subst (Ends w) (sym e) (
      Ends-trans (registered-Ends a w) (
        Ends-trans (set_agent-Ends a.name s (registered a w)) (
          Ends-trans (Frame-Ends (evaluate-Frame a.name s _))
            (Frame-Ends (deliver-Frame app _ _)))))
]

pub set_openings-Ends :
    (standing : List String) (vs : List (String × Value)) (w : World)
    → Ends w (set_openings standing vs w).1
unfolding set_openings
set_openings-Ends standing [] w = Ends-refl
set_openings-Ends standing ((n, v) ∷ vs) w = elim (Bool-cases (contains standing n)) [
  | inl b ↦ simp (b, set_openings) (set_openings-Ends standing vs w)
  | inr b ↦ elim (Result-cases answer.0) [
    | inl (x, e) ↦ simp (b, e, set_openings) (store-Ends w answer.1)
    | inr (conflict current, e) ↦ simp (b, e, set_openings) (store-Ends w answer.1)
    | inr (written done, e) ↦
        simp (b, e, set_openings)
          (Ends-trans (record { outcome = refl; closing = refl; told = refl })
            (set_openings-Ends standing vs _))
  ]
]
  where
    answer : Result SetAnswer × Store
    answer =
        Store.set w.store_now w.board_id n v 0 (record { key = none; writer = none; notify = [] })
          w.store

-- The openings were set and the agents evaluated.
open_premises-cases :
    (app : App) (vs : List (String × Value)) (w : World)
    → ((open_premises app vs w).1 ≡ w)
      ⊎ ((standing : List String) × (((open_premises app vs w).1 ≡ (set_openings standing vs w).1)
            ⊎ ((open_premises app vs w).1 ≡ (
                let r = (set_openings standing vs w).1 in
                let d = evaluate_each (map (λ e. e.0) r.agents) [] r in
                check_completion (deliver app d.0 d.1)))))
unfolding open_premises
open_premises-cases app vs w = elim (Option-cases w.outcome) [
  | inr (o, e) ↦ inl (ground arith)
  | inl e ↦
      elim (List-cases (
        without (premises_of w.kinds) (map (λ e. e.0) vs)
        ++ without (map (λ e. e.0) vs) (premises_of w.kinds))) [
          | inr (n, ns, l) ↦ inl (ground arith)
          | inl l ↦ elim (Result-cases (standing_of (premises_of w.kinds) w)) [
            | inl (x, s) ↦ inl (ground arith)
            | inr (standing, s) ↦ inr (
              standing,
              elim (Result-cases (set_openings standing vs w).0) [
                | inl (x, r) ↦ inl (ground arith)
                | inr (u, r) ↦ inr (ground arith)
              ],
            )
          ]
        ]
]

pub open_premises-Ends :
    (app : App) (vs : List (String × Value)) (w : World) → Ends w (open_premises app vs w).1
unfolding check_completion
open_premises-Ends app vs w = elim (open_premises-cases app vs w) [
  | inl e ↦ subst (Ends w) (sym e) Ends-refl
  | inr (standing, inl e) ↦ subst (Ends w) (sym e) (set_openings-Ends standing vs w)
  | inr (standing, inr e) ↦ subst (Ends w) (sym e) (
      Ends-trans (set_openings-Ends standing vs w)
        (Ends-trans (Frame-Ends (evaluate_each-Frame _ [] _)) (Frame-Ends (finish-Frame app _ _))))
]
