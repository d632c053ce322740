-- ===== src/Store/Tests.antt =====
-- The store's theorems at concrete calls (src/blackboard/_board.py), and runs of its operations.
use blackboardx.Prelude.{
  ◌++◌, ℕ, ◌≤◌, ◌<◌, String, ◌≡◌, refl, true, false, none, some, List, [], ◌∷◌,
}
use blackboardx.Dict.{get, put}
use blackboardx.Errors.{ok}
use blackboardx.Json.{text, as_json}
use blackboardx.Board.{level, premise, conflict, AgentProgress}
use blackboardx.Board.Write.{Carried}
use blackboardx.Board.Log.Keeps.{IsRecord}
use blackboardx.Store.{
  Store, board_of, append, set, acknowledge, close_run, read_run, read_board, unsent,
}
use blackboardx.Board.Run.{open_run_on, close_run_on, read_run_of, touch_run_on}
use blackboardx.Board.Agents.{declare_agent_on, mark_notified_on, acknowledge_on}
use blackboardx.Board.Write.{
  declare_on, append_on, set_on, level_contributions, premise_state, already_written, enqueue,
}
use blackboardx.Store
use blackboardx.Store.Calls.{
  Call, step, run, effects, calls_on, declares, appends, sets, opens_run, declares_agent,
  marks_notified, touches_run,
}
use blackboardx.Store.Isolation.{board_of-run}
use blackboardx.Store.Record.{run-IsRecord}
use blackboardx.Store.Retry.{append_again}
use blackboardx.Store.Versions.{set_stale}
use blackboardx.Store.Closing.{close_once}
use blackboardx.Store.Progress.{IsTold, run-IsTold}
use blackboardx.Store.Cursor.{acknowledge_once}

abbrev keyed : String → Carried
keyed k = record { key = some k; writer = some "ocp"; notify = "triage" ∷ [] }

abbrev plain : Carried
plain = record { key = none; writer = some "ocp"; notify = [] }

abbrev opening : List (String × Call)
opening =
    ("b", declares (level "findings" 0))
    ∷ ("b", declares (premise "window" 0))
    ∷ ("b", opens_run 0 600 10)
    ∷ (
      "b",
      declares_agent "triage" (record { subscribes_to = none; writes_to = none; address = none }),
    )
    ∷ ("b", marks_notified "triage" 4)
    ∷ []

-- The store after these calls. A proof that unfolds it computes with every operation.
opened : Store
unfolding run step effects calls_on get put Store.declare append set Store.open_run
    Store.declare_agent Store.mark_notified acknowledge close_run read_run Store.touch_run as_json
    declare_on append_on set_on level_contributions premise_state already_written enqueue
    open_run_on declare_agent_on mark_notified_on acknowledge_on close_run_on read_run_of
    touch_run_on
opened = run opening []

abbrev between : List (String × Call)
between =
    ("b", appends 5 "findings" (text "disk") plain)
    ∷ ("c", declares (level "findings" 0))
    ∷ ("b", sets 6 "window" (text "later") 1 plain)
    ∷ ("b", touches_run 7 10)
    ∷ []

append_again_example :
    (append 9 "b" "findings"
      (text "other")
      (keyed "k1")
      (run between (append 3 "b" "findings" (text "oom") (keyed "k1") opened).1)).0
    ≡ ok (record { sequence = 1; version = none; repeated = true })
unfolding opened
append_again_example =
    (append_again 3 9 "b" "findings" "k1" (text "oom") (text "other") (text "other") (keyed "k1")
      (keyed "k1") opened (record { sequence = 1; version = none; repeated = false }) between refl
      refl refl refl (refl, (refl, (refl, tt)))).0

set_stale_example :
    (current : ℕ) × ((set 9 "b" "window"
        (text "mine")
        0
        plain
        (run between (set 3 "b" "window" (text "first") 0 plain opened).1)).0
      ≡ ok (conflict current))
    × (0 < current)
    × (board_of "b"
          (set 9 "b" "window"
            (text "mine")
            0
            plain
            (run between (set 3 "b" "window" (text "first") 0 plain opened).1)).1
        ≡ board_of "b" (run between (set 3 "b" "window" (text "first") 0 plain opened).1))
unfolding opened
set_stale_example =
    set_stale 3 9 "b" "window" (text "first") (text "mine") (text "mine") 0 plain plain opened
      (record { sequence = 1; version = some 1; repeated = false }) between refl refl refl refl
      (refl, (refl, (refl, tt)))

close_once_example :
    (close_run "b" "settled" none []
      (run between (close_run "b" "aborted" (some "stop") ("triage" ∷ []) opened).1)).0
    ≡ false
unfolding opened
close_once_example =
    (close_once "b" "aborted" "settled" (some "stop") none ("triage" ∷ []) [] 9 opened between refl
      (refl, (refl, (refl, tt)))).0

run-IsRecord_example : IsRecord (board_of "b" (run between opened))
unfolding opened
run-IsRecord_example = run-IsRecord (opening ++ between) "b"

run-IsTold_example : IsTold (board_of "b" (run opening []))
run-IsTold_example = run-IsTold opening "b"

acknowledge_once_example :
    (q : AgentProgress) × ((acknowledge "b" "triage" 3
        (run between (acknowledge "b" "triage" 3 opened).1)).0
      ≡ some q)
    × (3 ≤ q.acknowledged_through)
unfolding opened
acknowledge_once_example =
    acknowledge_once "b" "triage" 3 opened
      (record {
        agent = "triage";
        notified_through = 4;
        acknowledged_through = 0;
        subscribes_to = none;
        writes_to = none;
        address = none;
      })
      between refl (refl, (refl, (refl, tt)))

board_of-run_example :
    board_of "c" (run between opened)
    ≡ effects (declares (level "findings" 0) ∷ []) (board_of "c" opened)
unfolding opened
board_of-run_example = board_of-run "c" between opened
