-- ===== src/Store.antt =====
-- `InMemoryStore` of src/blackboard/_board.py: many boards, each call atomic under the store's lock. A
-- call's first argument is the store's clock at the call, where the code reads it.
pub mod Calls
pub mod Isolation
pub mod Record
pub mod Progress
mod Tests
pub mod Frame
pub mod Answers
pub mod Stays
pub mod Cursor
pub mod Grows
pub mod Retry
pub mod Closing
pub mod Versions
use blackboardx.Prelude.{
  ℕ, String, Bool, false, Option, none, some, List, [], ◌∷◌, ◌++◌, ◌+◌, map, filter, take, length,
  sort_by, str_le, ltb, str_eq, ◌==◌, if◌then◌else◌, true,
}
use blackboardx.Dict.{Dict, get, get_or, put, remove}
use blackboardx.Errors.{Result, ok, err}
use blackboardx.Json.{Value, as_json}
use blackboardx.Board.{
  Region, Written, SetAnswer, Deleted, RunRecord, AgentProgress, Unsent, Contribution, PremiseState,
  BoardChange, BoardState, new_board,
}
use blackboardx.Board.Write.{Carried, declare_on, append_on, set_on}
use blackboardx.Board.Read.{read_level_of, read_premise_of, read_board_of, read_regions_of}
use blackboardx.Board.Run.{open_run_on, read_run_of, touch_run_on, close_run_on, past_deadline}
use blackboardx.Board.Agents.{
  Wants, read_agents_of, declare_agent_on, mark_notified_on, acknowledge_on,
}
use blackboardx.Board.Outbox.{mark_sent_on, unsent_of}

abbrev pub Store : Type 0
Store = Dict BoardState

-- _board: `self._boards.setdefault(board_id, _BoardState())`
abbrev pub board_of : String → Store → BoardState
board_of id s = get_or id new_board s

-- A call that begins with `_board` and changes the board.
abbrev pub on_board {ℓ} : {A : Type ℓ} → String → Store → (BoardState → A × BoardState) → A × Store
on_board id s f = let r = f (board_of id s) in (r.0, put id r.1 s)

-- A call that begins with `self._boards.get(board_id)` and answers `default` where there is none.
abbrev pub on_held {ℓ} :
    {A : Type ℓ} → String → Store → A → (BoardState → A × BoardState) → A × Store
on_held id s default f = elim (get id s) [
  | none ↦ (default, s)
  | some b ↦ let r = f b in (r.0, put id r.1 s)
]

unfoldable pub declare : String → Region → Store → Result (Unit {0}) × Store
declare id region s = on_board id s (declare_on region)

unfoldable pub append : ℕ → String → String → Value → Carried → Store → Result Written × Store
append now id level content c s = elim (as_json content) [
  | err e ↦ (err e, s)
  | ok carried ↦ on_board id s (append_on now level carried c)
]

unfoldable pub set : ℕ → String → String → Value → ℕ → Carried → Store → Result SetAnswer × Store
set now id premise value expected c s = elim (as_json value) [
  | err e ↦ (err e, s)
  | ok carried ↦ on_board id s (set_on now premise carried expected c)
]

unfoldable pub read_level :
    String → String → ℕ → Option ℕ → Store → Result (List Contribution) × Store
read_level id level from_sequence limit s =
    on_board id s (λ b. (read_level_of level from_sequence limit b, b))

unfoldable pub read_premise : String → String → Store → Result PremiseState × Store
read_premise id premise s = on_board id s (λ b. (read_premise_of premise b, b))

unfoldable pub read_board : String → ℕ → Option ℕ → Store → List BoardChange × Store
read_board id from_sequence limit s = on_board id s (λ b. (read_board_of from_sequence limit b, b))

unfoldable pub read_regions : String → Store → List Region × Store
read_regions id s = on_board id s (λ b. (read_regions_of b, b))

unfoldable pub delete : String → Store → Deleted × Store
delete id s = elim (get id s) [
  | none ↦ (record { board_id = id; regions_removed = 0; writes_removed = 0 }, s)
  | some b ↦ (
    record {
      board_id = id;
      regions_removed = length b.levels + length b.premises;
      writes_removed = length b.changes;
    },
    remove id s,
  )
]

unfoldable pub open_run : ℕ → String → ℕ → ℕ → Store → Store
open_run now id wall_clock idle s =
    (on_board id s (λ b. (tt {0}, open_run_on now wall_clock idle b))).1

unfoldable pub read_run : ℕ → String → Store → Option RunRecord
read_run now id s = elim (get id s) [ none ↦ none | some b ↦ read_run_of now b ]

unfoldable pub touch_run : ℕ → String → ℕ → Store → Store
touch_run now id idle s = (on_held id s (tt {0}) (λ b. (tt {0}, touch_run_on now idle b))).1

unfoldable pub close_run : String → String → Option String → List String → Store → Bool × Store
close_run id closed_as reason unfinished s =
    on_held id s false (close_run_on closed_as reason unfinished)

unfoldable pub runs_past_deadline : ℕ → ℕ → Store → List String
runs_past_deadline now limit s = take limit (map (λ e. e.0) (filter (λ e. past_deadline now e.1) s))

abbrev pub all_unsent : Store → List Unsent
all_unsent [] = []
all_unsent ((id, b) ∷ s) = unsent_of id b.outbox ++ all_unsent s

-- The order of `key=lambda row: (row.through, row.board_id, row.agent)`.
unfoldable pub unsent_le : Unsent → Unsent → Bool
unfolding str_le
unsent_le r t =
    if ltb r.through t.through
    then true
    else if r.through == t.through
    then (if str_eq r.board_id t.board_id
        then str_le r.agent t.agent
        else str_le r.board_id t.board_id)
    else false

unfoldable pub unsent : ℕ → Store → List Unsent
unfolding sort_by unsent_le unsent_of
unsent limit s = take limit (sort_by unsent_le (all_unsent s))

unfoldable pub mark_sent : String → String → ℕ → Store → Store
mark_sent id agent through s =
    (on_held id s (tt {0}) (λ b. (tt {0}, mark_sent_on agent through b))).1

unfoldable pub read_agents : String → Store → List AgentProgress
read_agents id s = elim (get id s) [ none ↦ [] | some b ↦ read_agents_of b ]

unfoldable pub declare_agent : String → String → Wants → Store → Store
declare_agent id agent w s = (on_board id s (λ b. (tt {0}, declare_agent_on agent w b))).1

unfoldable pub mark_notified : String → String → ℕ → Store → Store
mark_notified id agent through s =
    (on_board id s (λ b. (tt {0}, mark_notified_on agent through b))).1

unfoldable pub acknowledge : String → String → ℕ → Store → Option AgentProgress × Store
acknowledge id agent through s = on_held id s none (acknowledge_on agent through)
