-- ===== src/Sweep/Tests.antt =====
-- The theorem on `close_expired` (src/blackboard/_control.py) at a concrete run.
use blackboardx.Prelude.{String, ◌≡◌, refl, true, none, List, [], ◌∷◌}
use blackboardx.Dict.{get, put}
use blackboardx.Board.Run.{open_run_on, past_deadline}
use blackboardx.Store
use blackboardx.Store.{Store, board_of}
use blackboardx.Store.Calls.{Call, run, step, opens_run}
use blackboardx.Sweep.{close_one}
use blackboardx.Sweep.Closes.{close_one_past}

abbrev opening : List (String × Call)
opening = ("b", opens_run 0 600 10) ∷ []

close_one_past_example : (close_one 20 "b" (run opening [])).0 ≡ true
unfolding run step Store.open_run open_run_on past_deadline get put
close_one_past_example =
    (close_one_past 20 "b" (run opening []) (board_of "b" (run opening []))
      (record {
        idle_deadline = 10;
        wall_deadline = 600;
        closed_as = none;
        reason = none;
        unfinished = [];
      })
      refl refl refl).0
