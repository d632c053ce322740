-- ===== src/Board.antt =====
-- The data of src/blackboard/_board.py: what a board holds, and what its operations answer with.
-- Sequence numbers, versions, instants and durations (in microseconds) are natural numbers; a
-- `frozenset` of names is the list of its names.
pub mod Write
pub mod Read
pub mod Run
pub mod Agents
pub mod Outbox
pub mod Outcomes
pub mod Aside
pub mod Log
use blackboardx.Prelude.{ℕ, String, Bool, Option, none, some, List, [], ltb, leb, if◌then◌else◌}
use blackboardx.Dict.{Dict}
use blackboardx.Json.{Value}

-- `Level` and `Premise`: a name and a batch window.
pub data Region : Type 0 where
  level : String → ℕ → Region
  premise : String → ℕ → Region

abbrev pub name_of : Region → String
name_of (level n w) = n
name_of (premise n w) = n

abbrev pub window_of : Region → ℕ
window_of (level n w) = w
window_of (premise n w) = w

pub record Written : Type 0 where
  pub sequence : ℕ
  pub version : Option ℕ
  pub repeated : Bool

-- What `set` answers with: `Written | Conflict`.
pub data SetAnswer : Type 0 where
  written : Written → SetAnswer
  conflict : ℕ → SetAnswer

pub record Deleted : Type 0 where
  pub board_id : String
  pub regions_removed : ℕ
  pub writes_removed : ℕ

pub record RunRecord : Type 0 where
  pub now : ℕ
  pub idle_deadline : ℕ
  pub wall_deadline : ℕ
  pub closed_as : Option String
  pub reason : Option String
  pub unfinished : List String

-- RunRecord.expired
unfoldable pub expired : RunRecord → Option String
expired r = elim r.closed_as [
  | some _ ↦ none
  | none ↦
      if leb r.wall_deadline r.now
      then some "wall_clock_expired"
      else if leb r.idle_deadline r.now
      then some "settled"
      else none
]

pub record AgentProgress : Type 0 where
  pub agent : String
  pub notified_through : ℕ
  pub acknowledged_through : ℕ
  pub subscribes_to : Option (List String)
  pub writes_to : Option (List String)
  pub address : Option String

-- AgentProgress.outstanding
unfoldable pub outstanding : AgentProgress → Bool
outstanding p = ltb p.acknowledged_through p.notified_through

pub record Unsent : Type 0 where
  pub board_id : String
  pub agent : String
  pub through : ℕ

pub record Contribution : Type 0 where
  pub sequence : ℕ
  pub content : Value
  pub writer : Option String
  pub written_at : Option ℕ

pub record PremiseState : Type 0 where
  pub value : Value
  pub version : ℕ
  pub writer : Option String
  pub written_at : Option ℕ

pub record BoardChange : Type 0 where
  pub sequence : ℕ
  pub region : String
  pub content : Value
  pub writer : Option String
  pub written_at : Option ℕ

-- _AgentProgress
pub record HeldAgent : Type 0 where
  pub notified_through : ℕ
  pub acknowledged_through : ℕ
  pub subscribes_to : Option (List String)
  pub writes_to : Option (List String)
  pub address : Option String

-- _RunState
pub record RunState : Type 0 where
  pub idle_deadline : ℕ
  pub wall_deadline : ℕ
  pub closed_as : Option String
  pub reason : Option String
  pub unfinished : List String

-- _BoardState
pub record BoardState : Type 0 where
  pub sequence : ℕ
  pub levels : Dict (List Contribution)
  pub premises : Dict (Option PremiseState)
  pub changes : List BoardChange
  pub keys : Dict (String × Written)
  pub run : Option RunState
  pub agents : Dict HeldAgent
  pub outbox : Dict (List ℕ)

-- A board that nobody declared a region on.
abbrev pub new_board : BoardState
new_board = record {
  sequence = 0;
  levels = [];
  premises = [];
  changes = [];
  keys = [];
  run = none;
  agents = [];
  outbox = [];
}

abbrev pub new_agent : HeldAgent
new_agent = record {
  notified_through = 0;
  acknowledged_through = 0;
  subscribes_to = none;
  writes_to = none;
  address = none;
}
