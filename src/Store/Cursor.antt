-- ===== src/Store/Cursor.antt =====
-- The cursors of `InMemoryStore` (src/blackboard/_board.py): how far an agent has been told, and how far
-- it has answered.
use blackboardx.Prelude.{
  ℕ, ◌≤◌, String, ◌≡◌, refl, ap, ◌∙◌, true, none, some, List, arith, str_eq, eq_iff, Option-cases,
  Bool-cases, inl, inr, max, ltb,
}
use blackboardx.Dict.{get, get_or, put, get-put}
use blackboardx.Errors.{Result-cases}
use blackboardx.Json.{as_json}
use blackboardx.Board.{HeldAgent, AgentProgress, new_agent, BoardState}
use blackboardx.Board.Agents.{declare_agent_on, mark_notified_on, acknowledge_on}
use blackboardx.Board.Aside.{declare_on-SameRun, append_on-SameRun, set_on-SameRun}
use blackboardx.Board.Outbox.{mark_sent_on}
use blackboardx.Board.Run.{open_run_on, touch_run_on}
use blackboardx.Store.{Store, board_of, on_held, acknowledge}
use blackboardx.Store.Calls.{
  Call, run, effect, declares, appends, sets, deletes, opens_run, touches_run, closes_run,
  marks_sent, declares_agent, marks_notified, acknowledges,
}
use blackboardx.Store.Isolation.{board_of-put_self}
use blackboardx.Store.Stays.{keeps_agents, AllOn, run-stays}

-- The agent has been told to `told` at least, and has answered to `answered` at least.
pub record IsPastCursor (agent : String) (told answered : ℕ) (b : BoardState) : Type 0 where
  pub entry : HeldAgent
  pub held : get agent b.agents ≡ some entry
  pub notified : told ≤ entry.notified_through
  pub acknowledged : answered ≤ entry.acknowledged_through

module _ {agent : String} {told answered : ℕ} where
  same_cursor :
      {b c : BoardState}
      → c.agents ≡ b.agents
      → IsPastCursor agent told answered b
      → IsPastCursor agent told answered c
  same_cursor e h = record {
    entry = h.entry;
    held = ap (get agent) e ∙ h.held;
    notified = h.notified;
    acknowledged = h.acknowledged;
  }

  -- An entry that is put in place of another, or beside it.
  put_cursor :
      (b c : BoardState) (j : String) (e : HeldAgent)
      → c.agents ≡ put j e b.agents
      → ((get_or j new_agent b.agents).notified_through ≤ e.notified_through)
      → ((get_or j new_agent b.agents).acknowledged_through ≤ e.acknowledged_through)
      → IsPastCursor agent told answered b
      → IsPastCursor agent told answered c
  put_cursor b c j e q n a h = elim (Bool-cases (str_eq j agent)) [
    | inl s ↦ record {
      entry = e;
      held = ap (get agent) q ∙ ground (arith, get-put j agent e b.agents);
      notified = ground (arith, h.held, h.notified, eq_iff j agent);
      acknowledged = ground (arith, h.held, h.acknowledged, eq_iff j agent);
    }
    | inr s ↦ record {
      entry = h.entry;
      held = ap (get agent) q ∙ ground (arith, get-put j agent e b.agents, h.held);
      notified = h.notified;
      acknowledged = h.acknowledged;
    }
  ]

  acknowledge_on-cursor :
      (j : String) (through : ℕ) (b : BoardState)
      → IsPastCursor agent told answered b
      → IsPastCursor agent told answered (acknowledge_on j through b).1
  unfolding acknowledge_on
  acknowledge_on-cursor j through b h = elim (Option-cases (get j b.agents)) [
    | inl e ↦ rw (e, acknowledge_on) h
    | inr (x, e) ↦ elim (Bool-cases (ltb x.notified_through through)) [
      | inl l ↦ rw (e, acknowledge_on, l) h
      | inr l ↦
          rw (e, acknowledge_on, l)
            (put_cursor b _ j
              (record x { acknowledged_through = max x.acknowledged_through through }) refl
              (ground arith) (ground arith) h)
    ]
  ]

  effect-cursor :
      (c : Call) (b : BoardState)
      → keeps_agents c ≡ true
      → IsPastCursor agent told answered b
      → IsPastCursor agent told answered (effect c b)
  unfolding effect open_run_on touch_run_on mark_sent_on declare_agent_on mark_notified_on
  effect-cursor (declares r) b k h = same_cursor (declare_on-SameRun r b).agents h
  effect-cursor (appends now n w c) b k h = elim (Result-cases (as_json w)) [
    | inl (e, q) ↦ rw (q, effect) h
    | inr (x, q) ↦ rw (q, effect) (same_cursor (append_on-SameRun now n x c b).agents h)
  ]
  effect-cursor (sets now n w expected c) b k h = elim (Result-cases (as_json w)) [
    | inl (e, q) ↦ rw (q, effect) h
    | inr (x, q) ↦ rw (q, effect) (same_cursor (set_on-SameRun now n x expected c b).agents h)
  ]
  effect-cursor deletes b k h = cc
  effect-cursor (opens_run now wall idle) b k h = same_cursor {b = b} refl h
  effect-cursor (touches_run now idle) b k h = same_cursor {b = b} (ground arith) h
  effect-cursor (closes_run a r u) b k h = cc
  effect-cursor (marks_sent j through) b k h = same_cursor {b = b} (ground arith) h
  effect-cursor (declares_agent j w) b k h =
      put_cursor b _ j
        (record (get_or j new_agent b.agents) {
          subscribes_to = w.subscribes_to;
          writes_to = w.writes_to;
          address = w.address;
        })
        refl (omega arith) (omega arith) h
  effect-cursor (marks_notified j through) b k h =
      put_cursor b _ j
        (record (get_or j new_agent b.agents) {
          notified_through = max (get_or j new_agent b.agents).notified_through through;
        })
        refl (omega arith) (omega arith) h
  effect-cursor (acknowledges j through) b k h = acknowledge_on-cursor j through b h
  effect-cursor _ b k h = h

-- What `acknowledge` leaves: the agent has answered to `through`, and was told as far.
acknowledge_on-cursor_first :
    (agent : String) (through : ℕ) (b : BoardState) (p : AgentProgress)
    → (acknowledge_on agent through b).0 ≡ some p
    → IsPastCursor agent through through (acknowledge_on agent through b).1
unfolding acknowledge_on
acknowledge_on-cursor_first agent through b p h = elim (Option-cases (get agent b.agents)) [
  | inl e ↦ absurd (ground arith)
  | inr (x, e) ↦ elim (Bool-cases (ltb x.notified_through through)) [
    | inl l ↦ absurd (ground arith)
    | inr l ↦ record {
      entry = record x { acknowledged_through = max x.acknowledged_through through };
      held = ground (
        arith,
        eq_iff agent agent,
        get-put agent agent (record x { acknowledged_through = max x.acknowledged_through through })
            b.agents,
      );
      notified = ground arith;
      acknowledged = ground arith;
    }
  ]
]

acknowledge-cursor_first :
    (id agent : String) (through : ℕ) (s : Store) (p : AgentProgress)
    → (acknowledge id agent through s).0 ≡ some p
    → IsPastCursor agent through through (board_of id (acknowledge id agent through s).1)
unfolding acknowledge
acknowledge-cursor_first id agent through s p h = elim (Option-cases (get id s)) [
  | inl e ↦ absurd (ground arith)
  | inr (b, e) ↦
      rw (e, acknowledge, on_held, board_of-put_self)
        (acknowledge_on-cursor_first agent through b p (ground arith))
]

acknowledge-cursor_again :
    (id agent : String) (through : ℕ) (s : Store)
    → IsPastCursor agent through through (board_of id s)
    → (q : AgentProgress) × ((acknowledge id agent through s).0 ≡ some q)
      × (through ≤ q.acknowledged_through)
unfolding acknowledge acknowledge_on get
acknowledge-cursor_again id agent through s h = (
  record {
    agent = agent;
    notified_through = h.entry.notified_through;
    acknowledged_through = h.entry.acknowledged_through;
    subscribes_to = none;
    writes_to = none;
    address = none;
  },
  ground (arith, h.held, h.notified),
  h.acknowledged,
)

-- Of several callers that acknowledge one range only the first can be answered with an entry below it:
-- once `acknowledge` has answered a caller, every later one that names the same `through` is answered
-- with an entry that had got there already, whatever calls came between, if none deletes the board or
-- closes its run.
pub acknowledge_once :
    (id agent : String) (through : ℕ) (s : Store) (p : AgentProgress) (cs : List (String × Call))
    → (acknowledge id agent through s).0 ≡ some p
    → AllOn keeps_agents id cs
    → (q : AgentProgress) × ((acknowledge id agent through
          (run cs (acknowledge id agent through s).1)).0
        ≡ some q)
      × (through ≤ q.acknowledged_through)
acknowledge_once id agent through s p cs h keep =
    acknowledge-cursor_again id agent through (run cs (acknowledge id agent through s).1) (
      run-stays {P = IsPastCursor agent through through} keeps_agents effect-cursor id cs
        (acknowledge id agent through s).1 keep (acknowledge-cursor_first id agent through s p h))
