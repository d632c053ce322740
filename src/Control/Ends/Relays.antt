-- ===== src/Control/Ends/Relays.antt =====
-- The passes of `Control` that send what is owed (`relay` and its parts, src/blackboard/_control.py)
-- leave a run's end as it is.
use blackboardx.Prelude.{
  String, ◌≡◌, refl, sym, subst, Option, none, some, List, [], ◌∷◌, arith, Option-cases, Bool-cases,
  List-cases, ◌⊎◌, inl, inr, not, get_last?, ◌+◌,
}
use blackboardx.Dict.{has}
use blackboardx.Board.{Unsent, AgentProgress, BoardChange, RunRecord}
use blackboardx.Store
use blackboardx.Control.{transport, World, App}
use blackboardx.Control.Ends.{Ends, Ends-refl, Ends-trans, Frame-Ends}
use blackboardx.Control.Ends.Calls.{store-Ends}
use blackboardx.Control.Frame.{evaluate_each-Frame}
use blackboardx.Control.Frame.Writes.{deliver-Frame}
use blackboardx.Control.Roster.{find_agent}
use blackboardx.Control.Tail.{take_tail, owed_regions, floor_of, tail_from}
use blackboardx.Control.Relay.{
  relay_one, relay_notification, sequence_of_last, relay_each, relay_by_address, relay_held, relay,
  agents_owed, rows_for,
}

pub take_tail-Ends :
    (run : RunRecord) (only : Option (List String)) (w : World) → Ends w (take_tail run only w)
unfolding take_tail
take_tail-Ends run only w = elim (Option-cases (floor_of only none w.agents)) [
  | inl e ↦ simp (e, take_tail) Ends-refl
  | inr (floor, e) ↦ elim (Option-cases (get_last? (tail_from (floor + 1) w))) [
    | inl l ↦ simp (e, l, take_tail) Ends-refl
    | inr (newest, l) ↦
        simp (e, l, take_tail) (record { outcome = refl; closing = refl; told = refl })
  ]
]

relay_one-Ends :
    (app : App) (rows : List Unsent) (changes : List BoardChange) (agent : AgentProgress)
    (address : String) (w : World)
    → Ends w (relay_one app rows changes agent address w).1
unfolding relay_one
relay_one-Ends app rows changes agent address w =
    elim (List-cases (owed_regions agent w.kinds changes)) [
      | inl e ↦ simp (e, relay_one) (store-Ends w _)
      | inr (r, rs, e) ↦
          elim (Bool-cases (
            app.sends (transport address) (
              relay_notification w agent.agent agent.acknowledged_through (sequence_of_last changes)
                (r ∷ rs)))) [
                  | inl b ↦ simp (e, b, relay_one) (store-Ends w _)
                  | inr b ↦ simp (e, b, relay_one) (store-Ends w _)
                ]
    ]

relay_each-Ends :
    (app : App) (rows : List Unsent) (changes : List BoardChange) (declared : List AgentProgress)
    (names : List String) (w : World)
    → Ends w (relay_each app rows changes declared names w).1
relay_each-Ends app rows changes declared [] w = Ends-refl
relay_each-Ends app rows changes declared (name ∷ names) w =
    elim (Option-cases (find_agent name declared)) [
      | inl e ↦ rw (e, relay_each) (relay_each-Ends app rows changes declared names w)
      | inr (agent, e) ↦ elim (Option-cases agent.address) [
        | inl a ↦ rw (e, a, relay_each) (relay_each-Ends app rows changes declared names w)
        | inr (address, a) ↦
            rw (e, a, relay_each)
              (Ends-trans (relay_one-Ends app rows changes agent address w)
                (relay_each-Ends app rows changes declared names _))
      ]
    ]

relay_by_address-Ends : (app : App) (w : World) → Ends w (relay_by_address app w).1
unfolding relay_by_address
relay_by_address-Ends app w = elim (Bool-cases w.reach) [
  | inr e ↦ simp (e, relay_by_address) Ends-refl
  | inl e ↦ elim (List-cases (rows_for (λ n. not (has n w.agents)) w)) [
    | inl r ↦ simp (e, r, relay_by_address) Ends-refl
    | inr (r, rs, q) ↦
        simp (e, q, relay_by_address)
          (relay_each-Ends app (r ∷ rs) (tail_from 0 w) (Store.read_agents w.board_id w.store)
            (agents_owed (r ∷ rs)) w)
  ]
]

relay_held-Ends :
    (app : App) (sent owed : List String) (run : RunRecord) (w : World)
    → Ends w (relay_held app sent owed run w).1
relay_held-Ends app sent owed run w =
    Ends-trans (take_tail-Ends run (some owed) w)
      (Ends-trans (Frame-Ends (evaluate_each-Frame owed [] _)) (Frame-Ends (deliver-Frame app _ _)))

relay-cases :
    (app : App) (w : World)
    → let r = relay_by_address app w in
      ((relay app w).1 ≡ r.1)
      ⊎ ((owed : List String) × (run : RunRecord) × ((relay app w).1
            ≡ (relay_held app r.0 owed run r.1).1))
unfolding relay
relay-cases app w = elim (Option-cases (relay_by_address app w).1.outcome) [
  | inr (o, e) ↦ inl (ground arith)
  | inl e ↦
      elim (List-cases (
        agents_owed
          (rows_for (λ n. has n (relay_by_address app w).1.agents) (relay_by_address app w).1))) [
            | inl l ↦ inl (ground arith)
            | inr (n, ns, l) ↦
                elim (Option-cases
                  (Store.read_run w.store_now w.board_id (relay_by_address app w).1.store)) [
                    | inl r ↦ inl (ground arith)
                    | inr (run, r) ↦ inr (n ∷ ns, run, ground arith)
                  ]
          ]
]

pub relay-Ends : (app : App) (w : World) → Ends w (relay app w).1
relay-Ends app w = elim (relay-cases app w) [
  | inl e ↦ subst (Ends w) (sym e) (relay_by_address-Ends app w)
  | inr (owed, run, e) ↦ subst (Ends w) (sym e) (
      Ends-trans (relay_by_address-Ends app w)
        (relay_held-Ends app (relay_by_address app w).0 owed run _))
]
