-- ===== src/Control.antt =====
-- The control component, src/blackboard/_control.py: its data. A world is one process's `Control` with
-- the store behind it and the clock that arms its calls.
--
-- The application's callables are parameters (`App`). All that a callback does here is return or
-- raise; what it writes to the board is a call of its own. A call reads each clock once.
pub mod Clock
pub mod Roster
pub mod Closing
pub mod Dispatch
pub mod Tail
pub mod Deliver
pub mod Admit
pub mod Write
pub mod Register
pub mod Openings
pub mod Answer
pub mod Relay
pub mod Frame
pub mod Landing
pub mod Ends
pub mod Acts
pub mod Told
pub mod Agreement
pub mod Passed
pub mod Advance
pub mod Notified
mod Tests
use blackboardx.Prelude.{ℕ, ◌+◌, String, Bool, Option, List}
use blackboardx.Dict.{Dict}
use blackboardx.Errors.{Result}
use blackboardx.Json.{Value}
use blackboardx.Store.{Store}

pub data RegionKind : Type 0 where
  level_kind premise_kind : RegionKind

pub record Notification : Type 0 where
  pub notification_id : ℕ
  pub board_id : String
  pub agent : String
  pub from_sequence : ℕ
  pub to_sequence : ℕ
  pub regions : List String

-- What a notification is handed to: a callable of the application, and whether it answers
-- `marks_sent`, or the transport aimed at an address, `partial(self._reach, address)`.
pub data Carrier : Type 0 where
  callable : ℕ → Bool → Carrier
  transport : String → Carrier

pub record Delivery : Type 0 where
  pub carrier : Carrier
  pub notification : Notification

-- `Agent`: `notify` is a callable and its `marks_sent`.
pub record Agent : Type 0 where
  pub name : String
  pub notify : Option (ℕ × Bool)
  pub subscribes_to : Option (List String)
  pub writes_to : Option (List String)
  pub address : Option String

-- _AgentState: `pending` holds for each region the instant at which its change is due.
pub record AgentState : Type 0 where
  pub declaration : Agent
  pub notified_through : ℕ
  pub acknowledged_through : ℕ
  pub pending : Dict ℕ
  pub window_call : Option ℕ
  pub window_due : Option ℕ
  pub window_generation : ℕ

pub data Proposed : Type 0 where
  contribution : String → String → Value → Proposed
  premise_write : String → String → Value → ℕ → Proposed

pub data Verdict : Type 0 where
  accept : Verdict
  reject : String → Verdict

pub data RejectionCause : Type 0 where
  admission not_permitted run_closed : RejectionCause

pub record Rejected : Type 0 where
  pub cause : RejectionCause
  pub reason : String

pub data RunOutcome : Type 0 where
  settled : List String → RunOutcome
  wall_clock_expired : List String → RunOutcome
  aborted : String → List String → RunOutcome

-- The calls that `Control` arms on its clock.
pub data Armed : Type 0 where
  wall_clock_passes : Armed
  idle_passes : ℕ → Armed
  window_closes : String → ℕ → Armed

-- _ManualScheduledCall: its handle is the order in which it was armed.
pub record Scheduled : Type 0 where
  pub when : ℕ
  pub order : ℕ
  pub call : Armed
  pub cancelled : Bool

pub record World : Type 0 where
  pub store : Store
  pub store_now : ℕ
  pub now : ℕ
  pub scheduled : List Scheduled
  pub armed : ℕ
  pub board_id : String
  pub kinds : Dict RegionKind
  pub windows : Dict ℕ
  pub last_sequence : ℕ
  pub agents : Dict AgentState
  pub closing : List RunOutcome
  pub told : List RunOutcome
  pub queue : List Delivery
  pub reach : Bool
  pub wall_clock : ℕ
  pub idle : ℕ
  pub outcome : Option RunOutcome
  pub wall_call : Option ℕ
  pub idle_call : Option ℕ
  pub idle_generation : ℕ

-- The application: its admission rule, its termination predicate (true for `COMPLETE`), and whether a
-- carrier returns from a notification rather than raising.
pub record App : Type 0 where
  pub admission_rule : Proposed → Store → Result Verdict
  pub termination_predicate : Option (Store → Result Bool)
  pub sends : Carrier → Notification → Bool

-- _TAIL
abbrev pub tail_limit : ℕ
tail_limit = 1000
