-- ===== src/Board/Agents.antt =====
-- The agents of a board's run in `InMemoryStore` (src/blackboard/_board.py): what wakes each, and how
-- far each has been told and has answered.
use blackboardx.Prelude.{ℕ, String, Option, none, some, List, map, max, ltb, if◌then◌else◌}
use blackboardx.Dict.{get, get_or, put}
use blackboardx.Board.{AgentProgress, HeldAgent, new_agent, BoardState}

-- What a declaration says of an agent, beside its name and its callable.
pub record Wants : Type 0 where
  pub subscribes_to : Option (List String)
  pub writes_to : Option (List String)
  pub address : Option String

abbrev pub progress_of : String × HeldAgent → AgentProgress
progress_of e = record {
  agent = e.0;
  notified_through = e.1.notified_through;
  acknowledged_through = e.1.acknowledged_through;
  subscribes_to = e.1.subscribes_to;
  writes_to = e.1.writes_to;
  address = e.1.address;
}

-- read_agents
unfoldable pub read_agents_of : BoardState → List AgentProgress
read_agents_of b = map progress_of b.agents

-- declare_agent
unfoldable pub declare_agent_on : String → Wants → BoardState → BoardState
declare_agent_on agent w b =
    let held = get_or agent new_agent b.agents in
    record b {
      agents =
          put agent
            (record held {
              subscribes_to = w.subscribes_to;
              writes_to = w.writes_to;
              address = w.address;
            })
            b.agents;
    }

-- mark_notified
unfoldable pub mark_notified_on : String → ℕ → BoardState → BoardState
mark_notified_on agent through b =
    let held = get_or agent new_agent b.agents in
    record b {
      agents =
          put agent (record held { notified_through = max held.notified_through through }) b.agents;
    }

-- acknowledge
unfoldable pub acknowledge_on : String → ℕ → BoardState → Option AgentProgress × BoardState
acknowledge_on agent through b = elim (get agent b.agents) [
  | none ↦ (none, b)
  | some held ↦ if ltb held.notified_through through then (none, b) else (
    some (record {
      agent = agent;
      notified_through = held.notified_through;
      acknowledged_through = held.acknowledged_through;
      subscribes_to = none;
      writes_to = none;
      address = none;
    }),
    record b {
      agents =
          put agent (record held { acknowledged_through = max held.acknowledged_through through })
            b.agents;
    },
  )
]
