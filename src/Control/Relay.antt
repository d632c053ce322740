-- ===== src/Control/Relay.antt =====
-- Sending what a write recorded and nothing has sent: `relay` and `_relay_by_address` of `Control`
-- (src/blackboard/_control.py).
use blackboardx.Prelude.{
  ℕ, ◌+◌, String, Bool, true, false, none, some, List, [], ◌∷◌, ◌++◌, map, filter, not, ◌&&◌, ◌||◌,
  any, contains, str_eq, str_le, sort_by, get_last?, if◌then◌else◌,
}
use blackboardx.Dict.{has}
use blackboardx.Board.{Unsent, AgentProgress, BoardChange, RunRecord}
use blackboardx.Store
use blackboardx.Store.{board_of}
use blackboardx.Control.{World, App, Delivery, Notification, transport, tail_limit}
use blackboardx.Control.Roster.{find_agent}
use blackboardx.Control.Dispatch.{evaluate_each}
use blackboardx.Control.Tail.{owed_regions, take_tail, tail_from}
use blackboardx.Control.Deliver.{deliver, marks_sent}

-- {row.agent: row.through for row in rows}: of several rows the last one's
abbrev pub row_through : String → List Unsent → ℕ → ℕ
row_through name [] through = through
row_through name (r ∷ rows) through =
    row_through name rows (if str_eq r.agent name then r.through else through)

-- sorted({...}), of the agents of some rows
abbrev pub distinct : List String → List String
distinct [] = []
distinct (n ∷ ns) = let rest = distinct ns in if contains rest n then rest else n ∷ rest

abbrev pub agents_owed : List Unsent → List String
agents_owed rows = sort_by str_le (distinct (map (λ (r : Unsent). r.agent) rows))

-- The rows of this board for agents that pass the test.
abbrev pub rows_for : (String → Bool) → World → List Unsent
rows_for test w =
    filter (λ r. str_eq r.board_id w.board_id && test r.agent) (Store.unsent tail_limit w.store)

abbrev pub sequence_of_last : List BoardChange → ℕ
sequence_of_last changes = elim (get_last? changes) [ none ↦ 0 | some c ↦ c.sequence ]

abbrev pub relay_notification : World → String → ℕ → ℕ → List String → Notification
relay_notification w name answered last regions = record {
  notification_id = last;
  board_id = w.board_id;
  agent = name;
  from_sequence = answered + 1;
  to_sequence = last;
  regions = regions;
}

-- One agent of the loop: whether it was sent its notification.
unfoldable pub relay_one :
    App → List Unsent → List BoardChange → AgentProgress → String → World → Bool × World
relay_one app rows changes agent address w = elim (owed_regions agent w.kinds changes) [
  | [] ↦ (
    false,
    record w {
      store = Store.mark_sent w.board_id agent.agent (row_through agent.agent rows 0) w.store;
    },
  )
  | r ∷ rs ↦
      let last = sequence_of_last changes in
      let notified = Store.mark_notified w.board_id agent.agent last w.store in
      if app.sends (transport address)
        (relay_notification w agent.agent agent.acknowledged_through last (r ∷ rs))
      then (true, record w { store = Store.mark_sent w.board_id agent.agent last notified })
      else (false, record w { store = notified })
]

abbrev pub relay_each :
    App
    → List Unsent
    → List BoardChange
    → List AgentProgress
    → List String
    → World
    → List String × World
relay_each app rows changes declared [] w = ([], w)
relay_each app rows changes declared (name ∷ names) w = elim (find_agent name declared) [
  | none ↦ relay_each app rows changes declared names w
  | some agent ↦ elim agent.address [
    | none ↦ relay_each app rows changes declared names w
    | some address ↦
        let r = relay_one app rows changes agent address w in
        let rest = relay_each app rows changes declared names r.1 in
        ((if r.0 then name ∷ rest.0 else rest.0), rest.1)
  ]
]

-- _relay_by_address
unfoldable pub relay_by_address : App → World → List String × World
relay_by_address app w =
    if w.reach
    then elim (rows_for (λ n. not (has n w.agents)) w) [
      | [] ↦ ([], w)
      | r ∷ rs ↦
          relay_each app (r ∷ rs) (tail_from 0 w) (Store.read_agents w.board_id w.store)
            (agents_owed (r ∷ rs)) w
    ]
    else ([], w)

-- Whether the outbox still holds a row for the agent.
abbrev pub still_owed : String → World → Bool
still_owed name w =
    any (λ r. str_eq r.agent name && str_eq r.board_id w.board_id) (Store.unsent tail_limit w.store)

abbrev pub named_sent : World → List Delivery → List String
named_sent w [] = []
named_sent w (d ∷ ds) =
    let rest = named_sent w ds in
    if marks_sent d.carrier || not (still_owed d.notification.agent w)
    then d.notification.agent ∷ rest
    else rest

-- The pass of `relay` over the agents that this process holds.
abbrev pub relay_held : App → List String → List String → RunRecord → World → List String × World
relay_held app sent owed run w =
    let d = evaluate_each owed [] (take_tail run (some owed) w) in
    let w1 = deliver app d.0 d.1 in (sent ++ named_sent w1 d.0, w1)

-- relay
unfoldable pub relay : App → World → List String × World
relay app w =
    let r = relay_by_address app w in
    elim r.1.outcome [
      | some _ ↦ r
      | none ↦ elim (agents_owed (rows_for (λ n. has n r.1.agents) r.1)) [
        | [] ↦ r
        | n ∷ ns ↦ elim (Store.read_run w.store_now w.board_id r.1.store) [
          | none ↦ r
          | some run ↦ relay_held app r.0 (n ∷ ns) run r.1
        ]
      ]
    ]
