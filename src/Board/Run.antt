-- ===== src/Board/Run.antt =====
-- A board's run in `InMemoryStore` (src/blackboard/_board.py): its deadlines and how it closed.
use blackboardx.Prelude.{ℕ, ◌+◌, String, Bool, true, false, ◌||◌, Option, none, some, List, [], leb}
use blackboardx.Board.{RunRecord, BoardState}

-- open_run
unfoldable pub open_run_on : ℕ → ℕ → ℕ → BoardState → BoardState
open_run_on now wall_clock idle b = record b {
  run = some (record {
    idle_deadline = now + idle;
    wall_deadline = now + wall_clock;
    closed_as = none;
    reason = none;
    unfinished = [];
  });
}

-- read_run
unfoldable pub read_run_of : ℕ → BoardState → Option RunRecord
read_run_of now b = elim b.run [
  | none ↦ none
  | some r ↦ some (record {
    now = now;
    idle_deadline = r.idle_deadline;
    wall_deadline = r.wall_deadline;
    closed_as = r.closed_as;
    reason = r.reason;
    unfinished = r.unfinished;
  })
]

-- touch_run
unfoldable pub touch_run_on : ℕ → ℕ → BoardState → BoardState
touch_run_on now idle b = elim b.run [
  | none ↦ b
  | some r ↦ elim r.closed_as [
    | some _ ↦ b
    | none ↦ record b { run = some (record r { idle_deadline = now + idle }) }
  ]
]

-- close_run
unfoldable pub close_run_on : String → Option String → List String → BoardState → Bool × BoardState
close_run_on closed_as reason unfinished b = elim b.run [
  | none ↦ (false, b)
  | some r ↦ elim r.closed_as [
    | some _ ↦ (false, b)
    | none ↦ (
      true,
      record b {
        run =
            some
              (record r { closed_as = some closed_as; reason = reason; unfinished = unfinished });
        agents = [];
        outbox = [];
      },
    )
  ]
]

-- The test of `runs_past_deadline`.
unfoldable pub past_deadline : ℕ → BoardState → Bool
past_deadline now b = elim b.run [
  | none ↦ false
  | some r ↦ elim r.closed_as [
    | some _ ↦ false
    | none ↦ leb r.idle_deadline now || leb r.wall_deadline now
  ]
]
