-- ===== src/Control/Tests.antt =====
-- The theorems of `Control` (src/blackboard/_control.py) at concrete calls.
use blackboardx.Prelude.{
  ◌≤◌, String, ◌≡◌, refl, true, false, none, some, List, [], ◌∷◌, ◌++◌, zero, suc, arith,
}
use blackboardx.Dict.{get, put}
use blackboardx.Errors.{ok}
use blackboardx.Json.{text}
use blackboardx.Board.{level, premise, AgentProgress}
use blackboardx.Board.Write.{declare_on}
use blackboardx.Board.Run.{open_run_on, close_run_on}
use blackboardx.Board.Agents.{declare_agent_on}
use blackboardx.Store
use blackboardx.Store.{Store, board_of}
use blackboardx.Store.Calls.{
  calls_on, Call, run, step, declares, appends, opens_run, declares_agent, touches_run,
}
use blackboardx.Store.Record.{run-IsRecord}
use blackboardx.Control.{
  World, App, Agent, AgentState, Delivery, callable, settled, aborted, accept, level_kind,
  premise_kind, idle_passes, ℕ,
}
use blackboardx.Control.Admit.{closed_refusal}
use blackboardx.Control.Roster.{carrier_for}
use blackboardx.Control.Closing.{close_locked}
use blackboardx.Control.Dispatch.{evaluate, dispatch}
use blackboardx.Control.Register.{open_control}
use blackboardx.Control.Tail.{tail_from}
use blackboardx.Control.Relay.{relay_one}
use blackboardx.Control.Write.{write, set_premise, refused, conflicts}
use blackboardx.Control.Ends.{IsTold}
use blackboardx.Control.Acts.{
  acts, closed_for_good, writes, sequences, aborts, relays, notifies, fires, passes, registers,
}
use blackboardx.Control.Told.{acts-IsTold}
use blackboardx.Control.Agreement.{close_locked_agree}
use blackboardx.Control.Landing.{Recorded, write-Recorded}
use blackboardx.Control.Landing.Premises.{set_premise-Recorded}
use blackboardx.Control.Notified.{evaluate_sends, evaluate_due}
use blackboardx.Control.Advance.{turn, IsTurn, turn-IsTurn}
use blackboardx.Control.Passed.{relay_one_passed}

abbrev app : App
app = record {
  admission_rule = λ p s. ok accept;
  termination_predicate = none;
  sends = λ c n. true;
}

abbrev opening : List (String × Call)
opening =
    ("b", declares (level "findings" 0))
    ∷ ("b", declares (premise "window" 0))
    ∷ ("b", opens_run 0 600 10)
    ∷ (
      "b",
      declares_agent "triage"
          (record { subscribes_to = some ("findings" ∷ []); writes_to = none; address = none }),
    )
    ∷ []

abbrev triage : Agent
triage = record {
  name = "triage";
  notify = some (1, false);
  subscribes_to = some ("findings" ∷ []);
  writes_to = none;
  address = none;
}

abbrev waiting : AgentState
waiting = record {
  declaration = triage;
  notified_through = 0;
  acknowledged_through = 1;
  pending = ("findings", 20) ∷ [];
  window_call = none;
  window_due = none;
  window_generation = 0;
}

abbrev open_world : World
open_world = record {
  store = run opening [];
  store_now = 5;
  now = 30;
  scheduled = [];
  armed = 0;
  board_id = "b";
  kinds = ("findings", level_kind) ∷ ("window", premise_kind) ∷ [];
  windows = ("findings", 0) ∷ ("window", 0) ∷ [];
  last_sequence = 3;
  agents = ("triage", waiting) ∷ [];
  closing = [];
  told = [];
  queue = [];
  reach = true;
  wall_clock = 600;
  idle = 10;
  outcome = none;
  wall_call = none;
  idle_call = none;
  idle_generation = 0;
}

abbrev ended_world : World
ended_world = record open_world { outcome = some (settled []); told = settled [] ∷ [] }

closed_for_good_example :
    write app "findings"
      (text "oom")
      none
      "ocp"
      (acts app (passes 40 41 ∷ aborts "stop" ∷ relays ∷ fires (idle_passes 0) ∷ []) ended_world)
    ≡ (
      ok (refused closed_refusal),
      acts app (passes 40 41 ∷ aborts "stop" ∷ relays ∷ fires (idle_passes 0) ∷ []) ended_world,
    )
closed_for_good_example =
    (closed_for_good app (passes 40 41 ∷ aborts "stop" ∷ relays ∷ fires (idle_passes 0) ∷ [])
      ended_world (settled []) "findings" (text "oom") 0 none "ocp" refl).1

acts-IsTold_example : IsTold (
    acts app
      (registers triage
        ∷ writes "findings" (text "oom") none "ocp"
        ∷ aborts "stop"
        ∷ sequences "findings" (text "late") none "ocp"
        ∷ notifies
        ∷ fires (idle_passes 1)
        ∷ [])
      (open_control "b" (level "findings" 0 ∷ []) 600 10 false true open_world).1)
acts-IsTold_example = acts-IsTold "b" (level "findings" 0 ∷ []) 600 10 false true open_world app (
    registers triage
    ∷ writes "findings" (text "oom") none "ocp"
    ∷ aborts "stop"
    ∷ sequences "findings" (text "late") none "ocp"
    ∷ notifies
    ∷ fires (idle_passes 1)
    ∷ [])

-- The world of another process, after this one closed the run.
abbrev second_world : World
second_world = record open_world {
  store = run (("b", touches_run 7 10) ∷ []) (close_locked (aborted "stop" []) open_world).store;
  agents = [];
}

close_locked_agree_example :
    ((close_locked (aborted "stop" []) open_world).outcome ≡ some (aborted "stop" []))
    × ((close_locked (settled ("triage" ∷ [])) second_world).outcome ≡ some (aborted "stop" []))
unfolding run step Store.declare Store.open_run Store.declare_agent Store.close_run declare_on
    open_run_on declare_agent_on close_run_on get put calls_on
close_locked_agree_example =
    close_locked_agree (aborted "stop" []) (settled ("triage" ∷ [])) open_world second_world
      (("b", touches_run 7 10) ∷ []) refl refl refl refl (refl, tt) refl

write-Recorded_example :
    Recorded "findings"
      (text "oom")
      "ocp"
      open_world
      (write app "findings" (text "oom") (some "k1") "ocp" open_world)
    × ((n : ℕ)
        → ¬ ((write app "findings" (text "oom") (some "k1") "ocp" open_world).0 ≡ ok (conflicts n)))
write-Recorded_example = write-Recorded app "findings" (text "oom") (some "k1") "ocp" open_world

set_premise-Recorded_example :
    Recorded "window"
      (text "first")
      "ocp"
      open_world
      (set_premise app "window" (text "first") 0 none "ocp" open_world)
set_premise-Recorded_example =
    set_premise-Recorded app "window" (text "first") 0 none "ocp" open_world

abbrev delivery : Delivery
delivery = record {
  carrier = callable 1 false;
  notification = record {
    notification_id = 3;
    board_id = "b";
    agent = "triage";
    from_sequence = 2;
    to_sequence = 3;
    regions = "findings" ∷ [];
  };
}

evaluate_sends_example : 2 ≤ 3
unfolding evaluate dispatch carrier_for
evaluate_sends_example = (evaluate_sends "triage" waiting open_world delivery refl).6

evaluate_due_example :
    (d : Delivery) × ((evaluate "triage" waiting open_world).0 ≡ some d)
    × (d.carrier ≡ callable 1 false)
unfolding carrier_for
evaluate_due_example =
    evaluate_due "triage" waiting open_world (callable 1 false) refl refl (omega arith)

abbrev far : AgentProgress
far = record {
  agent = "far";
  notified_through = 1200;
  acknowledged_through = 1200;
  subscribes_to = none;
  writes_to = none;
  address = some "http://far";
}

abbrev findings_for_far : ℕ → List (String × Call)
findings_for_far zero = []
findings_for_far (suc k) =
    (
      "b",
      appends 4 "findings" (text "oom") (record { key = none; writer = none; notify = "far" ∷ [] }),
    )
    ∷ findings_for_far k

-- A board of more changes than one page has.
abbrev long_opening : List (String × Call)
long_opening = opening ++ findings_for_far 1201

abbrev long_world : World
long_world = record open_world { store = run long_opening [] }

relay_one_passed_example :
    relay_one app
      ([]
        ++ record { board_id = "b"; agent = "far"; through = 1201 }
          ∷ record { board_id = "b"; agent = "triage"; through = 1201 }
          ∷ [])
      (tail_from 0 long_world)
      far
      "http://far"
      long_world
    ≡ (false, record long_world { store = Store.mark_sent "b" "far" 1201 (run long_opening []) })
relay_one_passed_example =
    relay_one_passed app [] (record { board_id = "b"; agent = "triage"; through = 1201 } ∷ [])
      (record { board_id = "b"; agent = "far"; through = 1201 }) far "http://far" long_world
      (run-IsRecord long_opening "b") (omega arith) refl (refl, tt)

-- A world with two calls armed for one instant.
abbrev armed_world : World
armed_world = record open_world {
  scheduled =
      record { when = 40; order = 2; call = idle_passes 1; cancelled = false }
      ∷ record { when = 40; order = 1; call = idle_passes 0; cancelled = false }
      ∷ [];
}

turn-IsTurn_example : IsTurn app 50 armed_world (turn app 50 armed_world)
turn-IsTurn_example = turn-IsTurn app 50 armed_world
