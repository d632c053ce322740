-- ===== src/Control/Dispatch.antt =====
-- Dispatching an agent's pending set: `_dispatch`, `_evaluate_dispatch_locked` and `_close_window` of
-- `Control` (src/blackboard/_control.py). An agent's state is changed where the roster holds it.
use blackboardx.Prelude.{
  ℕ, ◌+◌, String, Bool, true, false, Option, none, some, List, [], ◌∷◌, ◌++◌, map, max, min, leb,
  ◌==◌, if◌then◌else◌,
}
use blackboardx.Dict.{Dict, get, put}
use blackboardx.Store
use blackboardx.Control.{World, AgentState, Delivery, Notification, window_closes}
use blackboardx.Control.Clock.{call_at, cancel}
use blackboardx.Control.Roster.{carrier_for}
use blackboardx.Control.Closing.{touch_idle}

abbrev pub set_agent : String → AgentState → World → World
set_agent name s w = record w { agents = put name s w.agents }

-- min(state.pending.values()), of a set that is not empty
abbrev pub earliest_of : ℕ → Dict ℕ → ℕ
earliest_of due [] = due
earliest_of due ((region, d) ∷ pending) = earliest_of (min due d) pending

-- The notification that covers everything since the agent's answer.
abbrev pub notification_for : String → AgentState → List String → World → Notification
notification_for name s regions w = record {
  notification_id = w.last_sequence;
  board_id = w.board_id;
  agent = name;
  from_sequence = s.acknowledged_through + 1;
  to_sequence = w.last_sequence;
  regions = regions;
}

-- The agent's state once its pending set is handed out.
abbrev pub dispatched : AgentState → World → AgentState
dispatched s w = elim s.window_call [
  | none ↦ record s { pending = []; notified_through = max s.notified_through w.last_sequence }
  | some _ ↦ record s {
    pending = [];
    notified_through = max s.notified_through w.last_sequence;
    window_call = none;
    window_due = none;
    window_generation = s.window_generation + 1;
  }
]

abbrev pub dispatched_world : String → AgentState → World → World
dispatched_world name s w =
    let w1 = touch_idle (cancel s.window_call w) in
    record w1 {
      store = Store.mark_notified w.board_id s.declaration.name w.last_sequence w1.store;
      agents = put name (dispatched s w) w.agents;
    }

-- What the carrier is handed: the regions are those of the pending set.
abbrev pub handed : AgentState → World → Option Delivery
handed s w = elim (carrier_for s.declaration w.reach) [
  | none ↦ none
  | some carrier ↦ some (record {
    carrier = carrier;
    notification = notification_for s.declaration.name s (map (λ e. e.0) s.pending) w;
  })
]

-- _dispatch: no delivery where the code asserts a carrier that is not there
unfoldable pub dispatch : String → AgentState → World → Option Delivery × World
dispatch name s w = (handed s w, dispatched_world name s w)

-- The window is armed for the earliest due instant, where none is armed for that instant or before.
abbrev pub arm_window : String → AgentState → ℕ → World → World
arm_window name s due w = call_at due (window_closes name (s.window_generation + 1)) (
    set_agent name
      (record s {
        window_due = some due;
        window_generation = s.window_generation + 1;
        window_call = some w.armed;
      })
      (cancel s.window_call w))

-- Whether a window is armed for this instant or before it.
abbrev pub armed_by : ℕ → Option ℕ → Bool
armed_by due none = false
armed_by due (some d) = leb d due

-- _evaluate_dispatch_locked, of an agent's state
unfoldable pub evaluate : String → AgentState → World → Option Delivery × World
evaluate name s w = elim s.pending [
  | [] ↦ (none, w)
  | (region, first) ∷ rest ↦ elim (carrier_for s.declaration w.reach) [
    | none ↦ (none, set_agent name (record s { pending = [] }) w)
    | some carrier ↦
        if leb w.last_sequence s.acknowledged_through
        then (none, set_agent name (record s { pending = [] }) w)
        else if leb (earliest_of first rest) w.now
        then dispatch name s w
        else if armed_by (earliest_of first rest) s.window_due
        then (none, w)
        else (none, arm_window name s (earliest_of first rest) w)
  ]
]

abbrev pub with_delivery : Option Delivery → List Delivery → List Delivery
with_delivery none ds = ds
with_delivery (some d) ds = ds ++ d ∷ []

-- Evaluates each of these agents in turn, and collects what is to be delivered.
unfoldable pub evaluate_each : List String → List Delivery → World → List Delivery × World
evaluate_each [] ds w = (ds, w)
evaluate_each (name ∷ names) ds w = elim (get name w.agents) [
  | none ↦ evaluate_each names ds w
  | some s ↦ let r = evaluate name s w in evaluate_each names (with_delivery r.0 ds) r.1
]

-- _close_window, under the lock: what is to be delivered, and whether the armed window was this one
unfoldable pub close_window : String → ℕ → World → List Delivery × Bool × World
close_window name generation w = elim (get name w.agents) [
  | none ↦ ([], false, w)
  | some s ↦ elim w.outcome [
    | some _ ↦ ([], false, w)
    | none ↦
        if generation == s.window_generation
        then (let s1 = record s {
          window_call = none;
          window_due = none;
          window_generation = s.window_generation + 1;
        } in
            elim s.pending [
              | [] ↦ ([], true, set_agent name s1 w)
              | e ∷ es ↦
                  let r = dispatch name s1 (set_agent name s1 w) in
                  (with_delivery r.0 [], true, r.1)
            ])
        else ([], false, w)
  ]
]
