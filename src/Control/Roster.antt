-- ===== src/Control/Roster.antt =====
-- Who is on the run, and what each wants: the helpers of `Control` (src/blackboard/_control.py) that
-- read its roster and the store's.
use blackboardx.Prelude.{
  String, Bool, true, false, Option, none, some, List, [], ◌∷◌, map, filter, not, ◌&&◌, contains,
  str_eq, if◌then◌else◌,
}
use blackboardx.Dict.{get}
use blackboardx.Board.{AgentProgress, outstanding}
use blackboardx.Store
use blackboardx.Store.{Store}
use blackboardx.Control.{
  World, RegionKind, level_kind, premise_kind, Agent, AgentState, Carrier, callable, transport,
}

-- _wants
unfoldable pub wants : Option (List String) → String → RegionKind → Bool
wants (some names) region kind = contains names region
wants none region premise_kind = true
wants none region level_kind = false

-- _subscribed
unfoldable pub subscribed : AgentState → String → RegionKind → Bool
subscribed state region kind = wants state.declaration.subscribes_to region kind

-- _unfinished
unfoldable pub unfinished : Store → String → List String
unfinished s id = map (λ (p : AgentProgress). p.agent) (filter outstanding (Store.read_agents id s))

-- The first entry that names the agent.
abbrev pub find_agent : String → List AgentProgress → Option AgentProgress
find_agent name [] = none
find_agent name (p ∷ ps) = if str_eq p.agent name then some p else find_agent name ps

-- _may_write_to
unfoldable pub may_write_to : String → World → Option (List String)
may_write_to writer w = elim (get writer w.agents) [
  | some state ↦ state.declaration.writes_to
  | none ↦ elim (find_agent writer (Store.read_agents w.board_id w.store)) [
    | some p ↦ p.writes_to
    | none ↦ none
  ]
]

-- _who_hears
unfoldable pub who_hears : String → String → World → List AgentProgress
who_hears region writer w = elim (get region w.kinds) [
  | none ↦ []
  | some kind ↦
      filter (λ p. not (str_eq p.agent writer) && wants p.subscribes_to region kind)
        (Store.read_agents w.board_id w.store)
]

-- _carrier_for
unfoldable pub carrier_for : Agent → Bool → Option Carrier
carrier_for a reach = elim a.notify [
  | some (c, marks) ↦ some (callable c marks)
  | none ↦ elim a.address [
    | some address ↦ if reach then some (transport address) else none
    | none ↦ none
  ]
]
