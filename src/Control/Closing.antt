-- ===== src/Control/Closing.antt =====
-- How a run ends in `Control` (src/blackboard/_control.py): the idle deadline, the wall clock, the
-- application's abort, and telling the application.
use blackboardx.Prelude.{
  ℕ, ◌+◌, String, Bool, true, false, Option, none, some, List, [], ◌∷◌, ◌++◌, ◌==◌, str_eq,
  if◌then◌else◌,
}
use blackboardx.Dict.{map_values}
use blackboardx.Errors.{ok, err}
use blackboardx.Board.{RunRecord}
use blackboardx.Store
use blackboardx.Store.{Store}
use blackboardx.Control.{
  World, App, RunOutcome, settled, wall_clock_expired, aborted, AgentState, idle_passes,
}
use blackboardx.Control.Clock.{call_at, cancel}
use blackboardx.Control.Roster.{unfinished}

-- _CLOSED_AS
abbrev pub closed_as : RunOutcome → String
closed_as (settled u) = "settled"
closed_as (wall_clock_expired u) = "wall_clock_expired"
closed_as (aborted r u) = "aborted"

-- getattr(outcome, "reason", None)
abbrev pub reason_of : RunOutcome → Option String
reason_of (aborted r u) = some r
reason_of _ = none

abbrev pub unfinished_of : RunOutcome → List String
unfinished_of (settled u) = u
unfinished_of (wall_clock_expired u) = u
unfinished_of (aborted r u) = u

abbrev pub or_empty : Option String → String
or_empty none = ""
or_empty (some s) = s

-- _outcome_of, of a record that closed as this
unfoldable pub outcome_of : String → RunRecord → RunOutcome
outcome_of name r =
    if str_eq name "aborted"
    then aborted (or_empty r.reason) r.unfinished
    else if str_eq name "wall_clock_expired"
    then wall_clock_expired r.unfinished
    else settled r.unfinished

-- The open run's idle deadline pushed out, in the store and on the clock.
abbrev pub touched : World → World
touched w =
    call_at (w.now + w.idle) (idle_passes (w.idle_generation + 1))
      (record (cancel w.idle_call
        (record w { store = Store.touch_run w.store_now w.board_id w.idle w.store })) {
          idle_generation = w.idle_generation + 1;
          idle_call = some w.armed;
        })

-- _touch_idle_locked
unfoldable pub touch_idle : World → World
touch_idle w = elim w.outcome [ some _ ↦ w | none ↦ touched w ]

-- An agent's window is disarmed and its pending set cleared.
abbrev pub quiet : AgentState → AgentState
quiet s = elim s.window_call [
  | none ↦ record s { pending = [] }
  | some _ ↦ record s {
    pending = [];
    window_call = none;
    window_due = none;
    window_generation = s.window_generation + 1;
  }
]

-- The cancellations of every armed window.
abbrev pub cancel_windows : List (String × AgentState) → World → World
cancel_windows [] w = w
cancel_windows ((name, s) ∷ agents) w = cancel_windows agents (cancel s.window_call w)

-- The outcome that this process adopts: its own if the store let it close the run, and otherwise the one
-- that the store holds.
unfoldable pub adopted : RunOutcome → Bool → Option RunRecord → RunOutcome
adopted outcome true r = outcome
adopted outcome false none = outcome
adopted outcome false (some r) = elim r.closed_as [ none ↦ outcome | some name ↦ outcome_of name r ]

-- What `close_run` answers this process, and the store after it.
abbrev pub closing_answer : RunOutcome → World → Bool × Store
closing_answer outcome w =
    Store.close_run w.board_id (closed_as outcome) (reason_of outcome) (unfinished_of outcome)
      w.store

-- The outcome that the run has for this process from here on.
abbrev pub final_outcome : RunOutcome → World → RunOutcome
final_outcome outcome w =
    adopted outcome (closing_answer outcome w).0
      (Store.read_run w.store_now w.board_id (closing_answer outcome w).1)

abbrev pub closed_world : RunOutcome → World → World
closed_world outcome w =
    record (cancel_windows w.agents (
      cancel w.idle_call (
        cancel w.wall_call (record w {
          store = (closing_answer outcome w).1;
          outcome = some (final_outcome outcome w);
          idle_call = none;
          idle_generation = w.idle_generation + 1;
          closing = w.closing ++ final_outcome outcome w ∷ [];
        })))) { agents = map_values (λ name s. quiet s) w.agents }

-- _close_locked
unfoldable pub close_locked : RunOutcome → World → World
close_locked outcome w = elim w.outcome [ some _ ↦ w | none ↦ closed_world outcome w ]

abbrev newest_first : List RunOutcome → List RunOutcome
newest_first [] = []
newest_first (o ∷ os) = newest_first os ++ o ∷ []

-- _tell_closed
unfoldable pub tell_closed : World → World
tell_closed w = record w { closing = []; told = w.told ++ newest_first w.closing }

-- abort
unfoldable pub abort : String → World → World
abort reason w = tell_closed (close_locked (aborted reason []) w)

-- _wall_clock_expired
unfoldable pub wall_clock_passed : World → World
wall_clock_passed w = elim w.outcome [
  | some _ ↦ w
  | none ↦ tell_closed (close_locked (wall_clock_expired (unfinished w.store w.board_id)) w)
]

-- _idle_passed: the predicate is read with the lock released, and nothing else runs meanwhile; where it raises,
-- the run is left as it is.
unfoldable pub idle_passed : App → ℕ → World → World
idle_passed app generation w = elim w.outcome [
  | some _ ↦ w
  | none ↦
      if generation == w.idle_generation
      then (elim app.termination_predicate [
        | none ↦ tell_closed (close_locked (settled (unfinished w.store w.board_id)) w)
        | some complete ↦ elim (complete w.store) [
          | err e ↦ w
          | ok true ↦ tell_closed (close_locked (settled (unfinished w.store w.board_id)) w)
          | ok false ↦ tell_closed (touch_idle w)
        ]
      ])
      else w
]
