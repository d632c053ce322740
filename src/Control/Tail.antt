-- ===== src/Control/Tail.antt =====
-- What a read of the board's tail gives each agent: `_take_tail_locked`, `_note_region_change` and
-- `_reach_the_rest` of `Control` (src/blackboard/_control.py).
use blackboardx.Prelude.{
  ℕ, ◌+◌, ◌-◌, String, Bool, true, false, Option, none, some, List, [], ◌∷◌, map, filter, min, max,
  ltb, leb, not, ◌&&◌, ◌||◌, contains, str_eq, get_last?, if◌then◌else◌,
}
use blackboardx.Dict.{Dict, get, get_or, put, has}
use blackboardx.Board.{BoardChange, AgentProgress, RunRecord}
use blackboardx.Board.Read.{read_board_of}
use blackboardx.Store
use blackboardx.Store.{board_of}
use blackboardx.Control.{World, AgentState, Delivery, RegionKind, transport, tail_limit}
use blackboardx.Control.Roster.{wants, subscribed}
use blackboardx.Control.Dispatch.{set_agent, evaluate, with_delivery}

-- read_board(board_id, from_sequence=..., limit=_TAIL)
abbrev pub tail_from : ℕ → World → List BoardChange
tail_from from_sequence w =
    read_board_of from_sequence (some tail_limit) (board_of w.board_id w.store)

-- The change names another writer than this.
abbrev pub by_other : String → BoardChange → Bool
by_other name c = elim c.writer [ none ↦ true | some writer ↦ not (str_eq writer name) ]

-- frozenset(...), of the regions of some changes
abbrev pub regions_of : List BoardChange → List String
regions_of [] = []
regions_of (c ∷ cs) =
    let rest = regions_of cs in if contains rest c.region then rest else c.region ∷ rest

abbrev pub wants_change : Option (List String) → Dict RegionKind → BoardChange → Bool
wants_change subscribes_to kinds c = elim (get c.region kinds) [
  | none ↦ false
  | some kind ↦ wants subscribes_to c.region kind
]

-- The regions of what an agent is owed: changes after its answer, by others, that it wants.
unfoldable pub owed_regions : AgentProgress → Dict RegionKind → List BoardChange → List String
owed_regions a kinds changes = regions_of (
    filter
      (λ c.
        ltb a.acknowledged_through c.sequence
        && by_other a.agent c
        && wants_change a.subscribes_to kinds c)
      changes)

-- existing is None ? due : min(existing, due)
abbrev pub sooner : Option ℕ → ℕ → ℕ
sooner none due = due
sooner (some existing) due = min existing due

abbrev pub add_pending : String → ℕ → AgentState → AgentState
add_pending region due s = record s {
  pending = put region (sooner (get region s.pending) due) s.pending;
}

-- What is left of a region's window: `max(stamped + window - run.now, 0)`
abbrev pub left_of : Option ℕ → ℕ → ℕ → ℕ
left_of none window now = window
left_of (some stamped) window now = stamped + window - now

-- One change of the tail folded into one agent's pending set. `resend` is a relay's: it is not bounded
-- by what this process believes it told the agent.
unfoldable pub take_change : Bool → RunRecord → World → BoardChange → AgentState → AgentState
take_change resend run w c s =
    if not resend && leb c.sequence s.notified_through
    then s
    else if by_other s.declaration.name c
    then elim (get c.region w.kinds) [
      | none ↦ s
      | some kind ↦
          if subscribed s c.region kind
          then add_pending c.region
              (w.now + left_of c.written_at (get_or c.region 0 w.windows) run.now) s
          else s
    ]
    else s

abbrev pub take_changes : Bool → RunRecord → World → List BoardChange → AgentState → AgentState
take_changes resend run w [] s = s
take_changes resend run w (c ∷ cs) s = take_changes resend run w cs (take_change resend run w c s)

-- The agents that a pass considers: all, or those named.
abbrev pub considered : Option (List String) → String → Bool
considered none name = true
considered (some only) name = contains only name

abbrev pub floor_of : Option (List String) → Option ℕ → List (String × AgentState) → Option ℕ
floor_of only least [] = least
floor_of only least ((name, s) ∷ agents) =
    floor_of only
      (if considered only name then some (sooner least s.acknowledged_through) else least) agents

abbrev pub is_some {ℓ} : {A : Type ℓ} → Option A → Bool
is_some none = false
is_some (some a) = true

-- _take_tail_locked
unfoldable pub take_tail : RunRecord → Option (List String) → World → World
take_tail run only w = elim (floor_of only none w.agents) [
  | none ↦ w
  | some floor ↦
      let tail = tail_from (floor + 1) w in
      elim (get_last? tail) [
        | none ↦ w
        | some newest ↦ record w {
          last_sequence = max w.last_sequence newest.sequence;
          agents =
              map
                (λ e.
                  if considered only e.0
                  then (e.0, take_changes (is_some only) run w tail e.1)
                  else e)
                w.agents;
        }
      ]
]

-- The declarations of `hearers` that this process reaches by address alone.
abbrev pub by_address : World → AgentProgress → Bool
by_address w p =
    not (has p.agent w.agents) && is_some p.address && ltb p.acknowledged_through w.last_sequence

abbrev pub least_answer : Option ℕ → List AgentProgress → Option ℕ
least_answer least [] = least
least_answer least (p ∷ ps) = least_answer (some (sooner least p.acknowledged_through)) ps

abbrev pub reach_each : List BoardChange → List AgentProgress → World → List Delivery × World
reach_each tail [] w = ([], w)
reach_each tail (p ∷ ps) w = elim (owed_regions p w.kinds tail) [
  | [] ↦ reach_each tail ps w
  | r ∷ rs ↦ elim p.address [
    | none ↦ reach_each tail ps w
    | some address ↦
        let rest =
          reach_each tail ps
            (record w { store = Store.mark_notified w.board_id p.agent w.last_sequence w.store }) in
        (
          record {
            carrier = transport address;
            notification = record {
              notification_id = w.last_sequence;
              board_id = w.board_id;
              agent = p.agent;
              from_sequence = p.acknowledged_through + 1;
              to_sequence = w.last_sequence;
              regions = r ∷ rs;
            };
          }
              ∷ rest.0,
          rest.1,
        )
  ]
]

-- _reach_the_rest
unfoldable pub reach_the_rest : List AgentProgress → ℕ → World → List Delivery × World
reach_the_rest hearers window w =
    if not w.reach || ltb 0 window
    then ([], w)
    else (let owed = filter (by_address w) hearers in
        elim (least_answer none owed) [
          | none ↦ ([], w)
          | some floor ↦ reach_each (tail_from (floor + 1) w) owed w
        ])

-- The loop of `_note_region_change` over the agents that this process holds.
unfoldable pub note_each :
    String → String → ℕ → List String → List Delivery → World → List Delivery × World
note_each region writer due [] ds w = (ds, w)
note_each region writer due (name ∷ names) ds w = elim (get name w.agents) [
  | none ↦ note_each region writer due names ds w
  | some s ↦ elim w.outcome [
    | some _ ↦ (ds, w)
    | none ↦ elim (get region w.kinds) [
      | none ↦ note_each region writer due names ds w
      | some kind ↦
          if str_eq s.declaration.name writer || not (subscribed s region kind)
          then note_each region writer due names ds w
          else (let s1 = add_pending region due s in
              let r = evaluate name s1 (set_agent name s1 w) in
              note_each region writer due names (with_delivery r.0 ds) r.1)
    ]
  ]
]

-- _note_region_change
unfoldable pub note_region_change :
    String → String → List AgentProgress → World → List Delivery × World
note_region_change region writer hearers w =
    let window = get_or region 0 w.windows in
    let r = reach_the_rest hearers window w in
    note_each region writer (w.now + window) (map (λ e. e.0) w.agents) r.0 r.1
