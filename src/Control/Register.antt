-- ===== src/Control/Register.antt =====
-- Building a `Control` over a board, declaring regions and registering agents
-- (src/blackboard/_control.py).
use blackboardx.Prelude.{
  ℕ, ◌+◌, String, Bool, true, false, Option, none, some, List, [], ◌∷◌, str_eq, get_last?,
  if◌then◌else◌,
}
use blackboardx.Dict.{Dict, get, get_or, put, has}
use blackboardx.Errors.{
  Result, ok, err, undeclared_region, region_kind, run_closed, ◌>>◌, guard, unset_premise,
}
use blackboardx.Board.{Region, level, premise, name_of, window_of, AgentProgress, BoardState}
use blackboardx.Board.Read.{read_board_of, read_premise_of, read_level_of}
use blackboardx.Store
use blackboardx.Store.{Store, board_of}
use blackboardx.Control.{
  World, App, Agent, AgentState, RegionKind, level_kind, premise_kind, wall_clock_passes,
}
use blackboardx.Control.Clock.{call_at, cancel}
use blackboardx.Control.Roster.{subscribed, find_agent}
use blackboardx.Control.Dispatch.{set_agent, evaluate, with_delivery}
use blackboardx.Control.Deliver.{deliver}

abbrev pub kind_of : Region → RegionKind
kind_of (level n w) = level_kind
kind_of (premise n w) = premise_kind

-- _record_kind
unfoldable pub record_kind : Region → World → World
record_kind r w = record w {
  kinds = put (name_of r) (kind_of r) w.kinds;
  windows = put (name_of r) (window_of r) w.windows;
}

-- declare
unfoldable pub declare : Region → World → Result (Unit {0}) × World
declare r w = elim w.outcome [
  | some _ ↦ (err run_closed, w)
  | none ↦
      let d = Store.declare w.board_id r w.store in
      elim d.0 [
        | err e ↦ (err e, record w { store = d.1 })
        | ok _ ↦ (ok tt, record_kind r (record w { store = d.1 }))
      ]
]

abbrev pub find_region : String → List Region → Option Region
find_region n [] = none
find_region n (r ∷ rs) = if str_eq (name_of r) n then some r else find_region n rs

abbrev pub same_kind : Region → Region → Bool
same_kind (level n w) (level m v) = true
same_kind (premise n w) (premise m v) = true
same_kind _ _ = false

-- The loop of `__init__` over the declared regions, against those that the record held.
unfoldable pub converge : Bool → List Region → List Region → World → Result (Unit {0}) × World
converge adopt held [] w = (ok tt, w)
converge adopt held (r ∷ rs) w = elim (find_region (name_of r) held) [
  | none ↦
      if adopt
      then (err (undeclared_region (name_of r)), w)
      else (let d = Store.declare w.board_id r w.store in
          elim d.0 [
            | err e ↦ (err e, record w { store = d.1 })
            | ok _ ↦ converge adopt held rs (record_kind r (record w { store = d.1 }))
          ])
  | some standing ↦
      if same_kind standing r
      then converge adopt held rs (record_kind r w)
      else (err (region_kind (name_of r)), w)
]

abbrev pub last_written : BoardState → ℕ
last_written b = elim (get_last? (read_board_of 0 none b)) [ none ↦ 0 | some c ↦ c.sequence ]

-- The fields that `__init__` sets before it reads the store.
abbrev pub blank : String → ℕ → ℕ → Bool → World → World
blank id wall_clock idle reach w = record w {
  board_id = id;
  kinds = [];
  windows = [];
  last_sequence = 0;
  agents = [];
  closing = [];
  told = [];
  queue = [];
  reach = reach;
  wall_clock = wall_clock;
  idle = idle;
  outcome = none;
  wall_call = none;
  idle_call = none;
  idle_generation = 0;
}

-- Control.__init__: the world's store and clock are what it is given.
unfoldable pub open_control :
    String → List Region → ℕ → ℕ → Bool → Bool → World → Result (Unit {0}) × World
open_control id regions wall_clock idle adopt reach w =
    let held = Store.read_regions id w.store in
    let r =
      converge adopt held.0 regions
        (blank id wall_clock idle reach (record w { store = held.1 })) in
    elim r.0 [
      | err e ↦ (err e, r.1)
      | ok _ ↦ (
        ok tt,
        call_at (w.now + wall_clock) wall_clock_passes (record r.1 {
          last_sequence = last_written (board_of id r.1.store);
          store = Store.open_run w.store_now id wall_clock idle r.1.store;
          wall_call = some w.armed;
        }),
      )
    ]

-- _has_value
unfoldable pub has_value : String → World → Result Bool
has_value n w = elim (read_premise_of n (board_of w.board_id w.store)) [
  | ok s ↦ ok true
  | err (unset_premise n) ↦ ok false
  | err e ↦ err e
]

abbrev pub or_none : Option (List String) → List String
or_none none = []
or_none (some names) = names

-- The regions that a declaration subscribes to are declared.
abbrev pub check_subscribes : List String → World → Result (Unit {0})
check_subscribes [] w = ok tt
check_subscribes (n ∷ ns) w = do guard (has n w.kinds) (undeclared_region n); check_subscribes ns w

-- The regions that a declaration writes to are declared levels.
abbrev pub check_writes : List String → World → Result (Unit {0})
check_writes [] w = ok tt
check_writes (n ∷ ns) w = elim (get n w.kinds) [
  | none ↦ err (undeclared_region n)
  | some premise_kind ↦ err (region_kind n)
  | some level_kind ↦ check_writes ns w
]

-- Whether a region of this kind holds something that a joining agent should hear of.
unfoldable pub holds_something : String → RegionKind → World → Result Bool
holds_something n premise_kind w = has_value n w
holds_something n level_kind w = elim (read_level_of n 0 none (board_of w.board_id w.store)) [
  | err e ↦ err e
  | ok [] ↦ ok false
  | ok (c ∷ cs) ↦ ok true
]

-- A premise's change is due when its window has passed, a level's at once.
abbrev pub due_for : String → RegionKind → World → ℕ
due_for n premise_kind w = w.now + get_or n 0 w.windows
due_for n level_kind w = w.now

-- The pending set of an agent that joins.
unfoldable pub opening_pending : Dict RegionKind → World → AgentState → Result AgentState
opening_pending [] w s = ok s
opening_pending ((n, kind) ∷ kinds) w s =
    if subscribed s n kind
    then (elim (holds_something n kind w) [
      | err e ↦ err e
      | ok true ↦
          opening_pending kinds w (record s { pending = put n (due_for n kind w) s.pending })
      | ok false ↦ opening_pending kinds w s
    ])
    else opening_pending kinds w s

-- How far the agent answered, by the record.
abbrev pub answered_by : String → List AgentProgress → ℕ
answered_by name ps = elim (find_agent name ps) [ none ↦ 0 | some p ↦ p.acknowledged_through ]

abbrev pub joined : Agent → ℕ → AgentState
joined a answered = record {
  declaration = a;
  notified_through = answered;
  acknowledged_through = answered;
  pending = [];
  window_call = none;
  window_due = none;
  window_generation = 0;
}

abbrev pub window_call_of : Option AgentState → Option ℕ
window_call_of none = none
window_call_of (some s) = s.window_call

-- register_agent
unfoldable pub register_agent : App → Agent → World → Result (Unit {0}) × World
register_agent app a w = elim w.outcome [
  | some _ ↦ (err run_closed, w)
  | none ↦
      elim (check_subscribes (or_none a.subscribes_to) w >> check_writes (or_none a.writes_to) w) [
        | err e ↦ (err e, w)
        | ok _ ↦
            let w1 = cancel (window_call_of (get a.name w.agents)) w in
            let answered = answered_by a.name (Store.read_agents w.board_id w.store) in
            let w2 = record w1 {
              store =
                  Store.declare_agent w.board_id a.name
                    (record {
                      subscribes_to = a.subscribes_to;
                      writes_to = a.writes_to;
                      address = a.address;
                    })
                    w.store;
              agents = put a.name (joined a answered) w.agents;
            } in
            elim (opening_pending w.kinds w2 (joined a answered)) [
              | err e ↦ (err e, w2)
              | ok s ↦
                  let r = evaluate a.name s (set_agent a.name s w2) in
                  (ok tt, deliver app (with_delivery r.0 []) r.1)
            ]
      ]
]
