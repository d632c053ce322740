-- ===== src/Client/Tests.antt =====
-- The theorems of the client and the service (src/blackboard/agent.py, src/blackboard/server.py) at concrete calls,
-- over a library whose quoting changes nothing and whose numbers are texts of as many marks.
use blackboardx.Prelude.{
  ℕ, zero, suc, ◌≤◌, String, Bool, ◌≡◌, refl, ap, true, false, none, some, List, [], ◌∷◌, All,
  arith, leb, filter, take, ◌∙◌, map,
}
use blackboardx.Dict.{get, put}
use blackboardx.Errors
use blackboardx.Errors.{Result, ok, err}
use blackboardx.Board.Read.{read_level_of}
use blackboardx.Control.Admit.{refuse_region, sequencing_gate}
use blackboardx.Control.Roster.{may_write_to}
use blackboardx.Board.Agents.{read_agents_of}
use blackboardx.Json.{as_json, items_as_json, text, null, tuple, array, cons, nil}
use blackboardx.Board.{level, Contribution, premise}
use blackboardx.Board.Write.{level_contributions, declare_on, append_on, set_on}
use blackboardx.Store
use blackboardx.Store.{Store, board_of}
use blackboardx.Store.Calls.{Call, run, step, declares, appends}
use blackboardx.Store.Record.{run-IsRecord}
use blackboardx.Control.{World, App, accept, level_kind, run_closed, premise_kind}
use blackboardx.Control.Write
use blackboardx.Control.Write.{sequenced, conflicts, refused}
use blackboardx.Wire.Paths.{operations, http_get}
use blackboardx.Service.{Library, whole, Serving, Reply, responded, after_run}
use blackboardx.Service.Answers.{outcome_response, premise_body}
use blackboardx.Service.Handlers.{ok_json}
use blackboardx.Service.Routing.{handle}
use blackboardx.Service.Routed.{IsLawful, IsRouted, operations-IsRouted}
use blackboardx.Wire.{to_json}
use blackboardx.Wire.Bodies.{regions_to_json, region_body}
use blackboardx.Client
use blackboardx.Client.{
  Asked, Outcome, answered, unreached, got, failed, send, Call as Asking, Value,
}
use blackboardx.Client.Readings.{premise_outcome, write_outcome, premise_state, nothing, regions}
use blackboardx.Client.Reads.{read_level, write, set_premise, follow}
use blackboardx.Client.Answered.{
  answered_with, premise_outcome-outcome_response, write_outcome-outcome_response,
  premise_state-premise_body, regions-regions_to_json,
}
use blackboardx.Client.Followed.{follow_complete}
use blackboardx.Client.Wired.{IsCarried, request_of, content_of}
use blackboardx.Client.Served.{read_level-served}
use blackboardx.Client.Written.{write-served}
use blackboardx.Client.Premised.{set_premise-served}
use blackboardx.Client.Bounds.{counting, send-counting}
use blackboardx.Client.Refused.{read_level-refused}

abbrev marks : ℕ → String
marks zero = ""
marks (suc n) = String.◌∷◌ "x" (marks n)

abbrev measure : String → ℕ
measure String.[] = 0
measure (String.◌∷◌ c s) = suc (measure s)

measure-marks : (n : ℕ) → measure (marks n) ≡ n
measure-marks zero = refl
measure-marks (suc n) = ap suc (measure-marks n)

abbrev plain : Library
plain = record {
  quote = λ s. s;
  unquote = λ s. s;
  int_of = λ s. some (whole (measure s));
  str_of = marks;
  isoformat = marks;
  fromisoformat = λ s. some (measure s);
  upper = λ s. s;
  repr = λ s. s;
  said = λ e. "said";
}

plain-IsLawful : IsLawful plain
plain-IsLawful = record {
  unquote-quote = λ s. refl;
  int-str = λ n. ap (λ m. some (whole m)) (measure-marks n);
  from-iso = λ n. ap some (measure-marks n);
  upper_get = refl;
  upper_post = refl;
  upper_put = refl;
}

abbrev app : App
app = record {
  admission_rule = λ p s. ok accept;
  termination_predicate = none;
  sends = λ c n. true;
}

abbrev brought : Reply → Outcome
brought (responded r) = answered r.status (content_of r.body)
brought reply = unreached

abbrev direct_with : Asked → Serving → Result Value → Outcome × Serving
direct_with asked s (err e) = (unreached, s)
direct_with asked s (ok body) =
    let r = handle plain (λ id. app) "" (request_of asked body) s in (brought r.0, r.1)

-- A transport that hands each request to the service, its body as JSON carries it.
abbrev direct : Asked → Serving → Outcome × Serving
direct asked s = direct_with asked s (as_json asked.body)

direct-IsCarried : IsCarried plain (λ id. app) direct
direct-IsCarried asked body s r s' dumped e =
    ap (direct_with asked s) dumped ∙ ap (λ x. (brought x.0, x.1)) e

operations-IsRouted_example : All (IsRouted plain (λ id. app) (λ n. "one")) operations
operations-IsRouted_example =
    operations-IsRouted plain (λ id. app) (λ n. "one") plain-IsLawful (refl, refl) (refl, refl)
      (refl, refl)

premise_outcome-outcome_response_example :
    answered_with (premise_outcome plain) (outcome_response (conflicts 4)) ≡ got (conflicts 4)
premise_outcome-outcome_response_example = premise_outcome-outcome_response plain (conflicts 4)

write_outcome-outcome_response_example :
    answered_with
      (write_outcome plain)
      (outcome_response (refused (record { cause = run_closed; reason = "done" })))
    ≡ got (refused (record { cause = run_closed; reason = "done" }))
write_outcome-outcome_response_example =
    write_outcome-outcome_response plain (refused (record { cause = run_closed; reason = "done" }))
      tt

premise_state-premise_body_example :
    answered_with (premise_state plain) (
      ok_json (
        to_json (
          premise_body plain
            (record { value = text "first"; version = 2; writer = none; written_at = some 5 }))))
    ≡ got (record { value = text "first"; version = 2; writer = none; written_at = some 5 })
premise_state-premise_body_example =
    premise_state-premise_body plain plain-IsLawful
      (record { value = text "first"; version = 2; writer = none; written_at = some 5 })

abbrev opening : List (String × Call)
opening =
    ("b", declares (level "findings" 0))
    ∷ ("b", appends 3 "findings" (text "oom") (record { key = none; writer = none; notify = [] }))
    ∷ ("b", appends 4 "findings" (text "again") (record { key = none; writer = none; notify = [] }))
    ∷ []

abbrev open_world : World
open_world = record {
  store = run opening [];
  store_now = 5;
  now = 30;
  scheduled = [];
  armed = 0;
  board_id = "b";
  kinds = ("findings", level_kind) ∷ [];
  windows = ("findings", 0) ∷ [];
  last_sequence = 2;
  agents = [];
  closing = [];
  told = [];
  queue = [];
  reach = true;
  wall_clock = 600;
  idle = 10;
  outcome = none;
  wall_call = none;
  idle_call = none;
  idle_generation = 0;
}

abbrev serving : Serving
serving = record { runs = ("b", open_world) ∷ []; store = run opening []; reads_store = true }

abbrev second : Contribution
second = record { sequence = 2; content = text "again"; writer = none; written_at = some 4 }

read_level-served_example :
    (read_level plain direct "b" "triage" 2 3 "findings" 2 none serving).0
    ≡ some (got (second ∷ []))
unfolding get put run step Store.declare Store.append declare_on append_on Store.read_level
    read_level_of as_json
read_level-served_example =
    read_level-served plain plain-IsLawful (λ id. app) direct direct-IsCarried "b" "triage"
      "findings" (refl, refl) (refl, refl) 1 3 2 serving open_world (second ∷ []) refl
      (run-IsRecord opening "b") refl (omega arith)

write-served_example :
    write plain direct "b" "triage" 3 "findings" (tuple (cons (text "done") nil)) none serving ≡ (
      got (sequenced (record { sequence = 3; version = none; repeated = false })),
      after_run "b"
          (Write.write app "findings" (array (cons (text "done") nil)) none "triage" open_world).1
          serving,
    )
unfolding get Write.write refuse_region may_write_to Store.read_agents run step Store.append as_json
    items_as_json put Store.declare read_agents_of append_on declare_on Write.sequence_write
    sequencing_gate
write-served_example =
    write-served plain plain-IsLawful (λ id. app) direct direct-IsCarried "b" "triage" "findings"
      (refl, refl) (refl, refl) 2 (tuple (cons (text "done") nil)) (array (cons (text "done") nil))
      none serving open_world
      (Write.write app "findings" (array (cons (text "done") nil)) none "triage" open_world).1
      (sequenced (record { sequence = 3; version = none; repeated = false })) refl refl refl tt

-- A call that every attempt fails to send.
abbrev unsent : Asking (Unit {0})
unsent = record {
  asked = record { method = http_get; path = "/"; query = []; body = null };
  repeatable = true;
  read = nothing plain;
}

send-counting_example : (send (counting (λ asked (s : ℕ). (unreached, s))) unsent 3 (0, 0)).1.1 ≤ 3
send-counting_example = send-counting (λ asked (s : ℕ). (unreached, s)) unsent 3 0

abbrev numbers : List ℕ
numbers = 3 ∷ 5 ∷ 8 ∷ []

-- Pages of one number, each of which says that there is more.
abbrev number_page : ℕ → ℕ → Client.Got (List ℕ × Bool) × ℕ
number_page start s = (got (take 1 (filter (λ n. leb start n) numbers), true), s)

follow_complete_example : (follow number_page (λ n. n) 3 4 0).0 ≡ some (got (5 ∷ 8 ∷ []))
follow_complete_example =
    follow_complete number_page (λ n. n) (λ s. Unit {0}) 0 numbers
      (λ start s g. (true, refl, λ e. refl, tt)) 1 (omega arith, (omega arith, (omega arith, tt))) 3
      4 0 tt (omega arith)

read_level-refused_example :
    (read_level plain direct "b" "triage" 2 3 "missing" 0 none serving).0
    ≡ some (failed (Client.unknown_region "said"))
unfolding get put run step Store.declare Store.append declare_on append_on Store.read_level
    read_level_of as_json level_contributions
read_level-refused_example =
    read_level-refused plain plain-IsLawful (λ id. app) direct direct-IsCarried "b" "triage"
      "missing" (refl, refl) (refl, refl) 1 2 0 serving open_world
      (Errors.undeclared_region "missing") (Client.unknown_region "said") refl refl refl refl

abbrev premise_world : World
premise_world = record open_world {
  store = run (("b", declares (premise "window" 0)) ∷ []) [];
  kinds = ("window", premise_kind) ∷ [];
  windows = ("window", 0) ∷ [];
  last_sequence = 0;
}

abbrev premised : Serving
premised = record {
  runs = ("b", premise_world) ∷ [];
  store = run (("b", declares (premise "window" 0)) ∷ []) [];
  reads_store = false;
}

set_premise-served_example :
    set_premise plain direct "b" "triage" 3 "window" (text "late") 4 none premised ≡ (
      got (conflicts 0),
      after_run "b"
          (Write.set_premise app "window" (text "late") 4 none "triage" premise_world).1
          premised,
    )
unfolding get put run step Store.declare declare_on Write.set_premise refuse_region
    Write.sequence_set sequencing_gate Store.set as_json set_on
set_premise-served_example =
    set_premise-served plain plain-IsLawful (λ id. app) direct direct-IsCarried "b" "triage"
      "window" (refl, refl) (refl, refl) 2 (text "late") (text "late") 4 none premised premise_world
      (Write.set_premise app "window" (text "late") 4 none "triage" premise_world).1 (conflicts 0)
      refl refl refl

regions-regions_to_json_example :
    answered_with
      (regions plain)
      (ok_json (regions_to_json (map region_body (level "findings" 0 ∷ premise "window" 9 ∷ []))))
    ≡ got (level "findings" 0 ∷ premise "window" 0 ∷ [])
regions-regions_to_json_example =
    regions-regions_to_json plain (level "findings" 0 ∷ premise "window" 9 ∷ [])
