-- ===== src/Store/Calls.antt =====
-- The calls that processes make on `InMemoryStore` (src/blackboard/_board.py). Each is atomic under the
-- store's lock, so what several processes do together is a list of calls in some order.
use blackboardx.Prelude.{ℕ, String, Option, List, [], ◌∷◌, str_eq, if◌then◌else◌}
use blackboardx.Errors.{ok, err}
use blackboardx.Json.{Value, as_json}
use blackboardx.Board.{Region, BoardState, new_board}
use blackboardx.Board.Write.{Carried, declare_on, append_on, set_on}
use blackboardx.Board.Run.{open_run_on, touch_run_on, close_run_on}
use blackboardx.Board.Agents.{Wants, declare_agent_on, mark_notified_on, acknowledge_on}
use blackboardx.Board.Outbox.{mark_sent_on}
use blackboardx.Store
use blackboardx.Store.{Store}

-- A read that creates an empty board where there is none is a call too. The others change nothing.
pub data Call : Type 0 where
  declares : Region → Call
  appends : ℕ → String → Value → Carried → Call
  sets : ℕ → String → Value → ℕ → Carried → Call
  reads_level : String → ℕ → Option ℕ → Call
  reads_premise : String → Call
  reads_board : ℕ → Option ℕ → Call
  reads_regions : Call
  deletes : Call
  opens_run : ℕ → ℕ → ℕ → Call
  touches_run : ℕ → ℕ → Call
  closes_run : String → Option String → List String → Call
  marks_sent : String → ℕ → Call
  declares_agent : String → Wants → Call
  marks_notified : String → ℕ → Call
  acknowledges : String → ℕ → Call

-- The store after one call on the board `id`.
unfoldable pub step : String → Call → Store → Store
step id (declares r) s = (Store.declare id r s).1
step id (appends now n v c) s = (Store.append now id n v c s).1
step id (sets now n v expected c) s = (Store.set now id n v expected c s).1
step id (reads_level n from_sequence limit) s = (Store.read_level id n from_sequence limit s).1
step id (reads_premise n) s = (Store.read_premise id n s).1
step id (reads_board from_sequence limit) s = (Store.read_board id from_sequence limit s).1
step id reads_regions s = (Store.read_regions id s).1
step id deletes s = (Store.delete id s).1
step id (opens_run now wall idle) s = Store.open_run now id wall idle s
step id (touches_run now idle) s = Store.touch_run now id idle s
step id (closes_run closed_as reason unfinished) s =
    (Store.close_run id closed_as reason unfinished s).1
step id (marks_sent agent through) s = Store.mark_sent id agent through s
step id (declares_agent agent w) s = Store.declare_agent id agent w s
step id (marks_notified agent through) s = Store.mark_notified id agent through s
step id (acknowledges agent through) s = (Store.acknowledge id agent through s).1

unfoldable pub run : List (String × Call) → Store → Store
run [] s = s
run ((id, c) ∷ cs) s = run cs (step id c s)

-- What a call does to the board it names.
unfoldable pub effect : Call → BoardState → BoardState
effect (declares r) b = (declare_on r b).1
effect (appends now n v c) b = elim (as_json v) [
  | err e ↦ b
  | ok carried ↦ (append_on now n carried c b).1
]
effect (sets now n v expected c) b = elim (as_json v) [
  | err e ↦ b
  | ok carried ↦ (set_on now n carried expected c b).1
]
effect (reads_level n from_sequence limit) b = b
effect (reads_premise n) b = b
effect (reads_board from_sequence limit) b = b
effect reads_regions b = b
effect deletes b = new_board
effect (opens_run now wall idle) b = open_run_on now wall idle b
effect (touches_run now idle) b = touch_run_on now idle b
effect (closes_run closed_as reason unfinished) b = (close_run_on closed_as reason unfinished b).1
effect (marks_sent agent through) b = mark_sent_on agent through b
effect (declares_agent agent w) b = declare_agent_on agent w b
effect (marks_notified agent through) b = mark_notified_on agent through b
effect (acknowledges agent through) b = (acknowledge_on agent through b).1

unfoldable pub effects : List Call → BoardState → BoardState
effects [] b = b
effects (c ∷ cs) b = effects cs (effect c b)

-- The calls that name one board.
unfoldable pub calls_on : String → List (String × Call) → List Call
calls_on j [] = []
calls_on j ((id, c) ∷ cs) = let rest = calls_on j cs in if str_eq id j then c ∷ rest else rest
