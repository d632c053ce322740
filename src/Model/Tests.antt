-- ===== src/Model/Tests.antt =====
-- The theorems on opening a run (src/blackboard/_model.py) at concrete configurations.
use blackboardx.Prelude.{◌≡◌, refl, true, none, [], ◌∷◌, contains, sort_by}
use blackboardx.Dict.{get, put}
use blackboardx.Errors.{ok}
use blackboardx.Json.{text, as_json}
use blackboardx.Board.{level, premise}
use blackboardx.Board.Read.{read_regions_of}
use blackboardx.Board.Write.{declare_on}
use blackboardx.Store
use blackboardx.Store.Calls.{run, step, declares}
use blackboardx.Control.{World, App, accept}
use blackboardx.Control.Register.{open_control, converge, record_kind}
use blackboardx.Model.{
  agree, check, check_roster, check_agents, check_values, wrong_kinds, kinds_of, keys_of,
  premises_in, attach_model, register_each, settled_opening, false,
}
use blackboardx.Model.Agrees.{attach_model_alike, check_exact}

abbrev app : App
app = record {
  admission_rule = λ p s. ok accept;
  termination_predicate = none;
  sends = λ c n. true;
}

abbrev idle_world : World
idle_world = record {
  store = [];
  store_now = 5;
  now = 30;
  scheduled = [];
  armed = 0;
  board_id = "";
  kinds = [];
  windows = [];
  last_sequence = 0;
  agents = [];
  closing = [];
  told = [];
  queue = [];
  reach = false;
  wall_clock = 0;
  idle = 0;
  outcome = none;
  wall_call = none;
  idle_call = none;
  idle_generation = 0;
}

abbrev recorded : World
recorded = record idle_world {
  store = run (("b", declares (premise "window" 0)) ∷ ("b", declares (level "findings" 0)) ∷ []) [];
}

attach_model_alike_example :
    get "findings" (kinds_of (Store.read_regions "b" recorded.store).0)
    ≡ get "findings" (kinds_of (level "findings" 0 ∷ premise "window" 9 ∷ []))
unfolding attach_model register_each settled_opening agree check_roster check_agents wrong_kinds
    open_control converge record_kind run step Store.declare declare_on Store.read_regions
    read_regions_of get put sort_by
attach_model_alike_example =
    attach_model_alike app (λ e. "") "b" (level "findings" 0 ∷ premise "window" 9 ∷ []) [] 600 10
      true recorded "findings" refl

check_exact_example :
    contains (keys_of (("window", text "first") ∷ [])) "findings"
    ≡ contains (premises_in (level "findings" 0 ∷ premise "window" 9 ∷ [])) "findings"
unfolding check check_values check_roster check_agents as_json
check_exact_example =
    check_exact (level "findings" 0 ∷ premise "window" 9 ∷ []) (("window", text "first") ∷ []) []
      "findings" refl
