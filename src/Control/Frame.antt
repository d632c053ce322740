-- ===== src/Control/Frame.antt =====
-- What the notifying part of `Control` (src/blackboard/_control.py) leaves alone: how the run ended, which
-- board it is, which regions are declared, and the board's record.
pub mod Writes
use blackboardx.Prelude.{
  List-cases, subst, sym, ℕ, ◌+◌, String, ◌≡◌, refl, ◌∙◌, Bool, true, false, Option, none, some,
  List, [], ◌∷◌, ◌++◌, arith, leb, ◌==◌, Option-cases, Bool-cases, inl, inr, ◌⊎◌, not, ◌&&◌, str_eq,
  subst,
}
use blackboardx.Dict.{Dict, get, put}
use blackboardx.Board.{AgentProgress, BoardChange, RunRecord}
use blackboardx.Store
use blackboardx.Store.Frame.{
  SameOn, SameRecord-refl, SameRecord-trans, touch_run-SameOn, mark_notified-SameOn,
  mark_sent-SameOn,
}
use blackboardx.Control.{World, App, AgentState, Delivery, Armed, RegionKind, idle_passes}
use blackboardx.Control.Clock.{call_at, cancel}
use blackboardx.Control.Roster.{carrier_for}
use blackboardx.Control.Closing.{touch_idle, touched}
use blackboardx.Control.Dispatch.{
  dispatch, evaluate, evaluate_each, close_window, set_agent, arm_window, earliest_of, armed_by,
  with_delivery, dispatched,
}
use blackboardx.Control.Tail.{
  take_tail, reach_each, reach_the_rest, note_each, note_region_change, owed_regions, add_pending,
}
use blackboardx.Control.Deliver.{deliver_one, drain, deliver, check_completion}

pub record Frame (v w : World) : Type 0 where
  pub outcome : w.outcome ≡ v.outcome
  pub board_id : w.board_id ≡ v.board_id
  pub kinds : w.kinds ≡ v.kinds
  pub closing : w.closing ≡ v.closing
  pub told : w.told ≡ v.told
  pub same : SameOn v.board_id v.store w.store

pub Frame-refl : (w : World) → Frame w w
Frame-refl w = record {
  outcome = refl;
  board_id = refl;
  kinds = refl;
  closing = refl;
  told = refl;
  same = SameRecord-refl _;
}

pub Frame-trans : {u v w : World} → Frame u v → Frame v w → Frame u w
Frame-trans {u} {v} {w} p q = record {
  outcome = q.outcome ∙ p.outcome;
  board_id = q.board_id ∙ p.board_id;
  kinds = q.kinds ∙ p.kinds;
  closing = q.closing ∙ p.closing;
  told = q.told ∙ p.told;
  same = SameRecord-trans p.same (subst (λ i. SameOn i v.store w.store) p.board_id q.same);
}

pub cancel-Frame : (h : Option ℕ) (w : World) → Frame w (cancel h w)
unfolding cancel
cancel-Frame none w = Frame-refl w
cancel-Frame (some h) w = record {
  outcome = refl;
  board_id = refl;
  kinds = refl;
  closing = refl;
  told = refl;
  same = SameRecord-refl _;
}

pub call_at-Frame : (when : ℕ) (c : Armed) (w : World) → Frame w (call_at when c w)
unfolding call_at
call_at-Frame when c w = record {
  outcome = refl;
  board_id = refl;
  kinds = refl;
  closing = refl;
  told = refl;
  same = SameRecord-refl _;
}

touch_idle-cases : (w : World) → (touch_idle w ≡ w) ⊎ (touch_idle w ≡ touched w)
unfolding touch_idle
touch_idle-cases w = elim (Option-cases w.outcome) [
  | inr (o, e) ↦ inl (ground arith)
  | inl e ↦ inr (ground arith)
]

cancel_call-Frame :
    (h : Option ℕ) (when : ℕ) (c : Armed) (w : World) → Frame w (call_at when c (cancel h w))
cancel_call-Frame h when c w = Frame-trans (cancel-Frame h w) (call_at-Frame when c (cancel h w))

touched-Frame : (w : World) → Frame w (touched w)
unfolding call_at
touched-Frame w = record {
  outcome = inner.outcome;
  board_id = inner.board_id;
  kinds = inner.kinds;
  closing = inner.closing;
  told = inner.told;
  same = SameRecord-trans (touch_run-SameOn w.board_id w.store w.store_now w.idle) inner.same;
}
  where
    inner :
        Frame
          (record w { store = Store.touch_run w.store_now w.board_id w.idle w.store })
          (cancel w.idle_call
            (record w { store = Store.touch_run w.store_now w.board_id w.idle w.store }))
    inner = cancel-Frame w.idle_call _

pub touch_idle-Frame : (w : World) → Frame w (touch_idle w)
touch_idle-Frame w = elim (touch_idle-cases w) [
  | inl e ↦ subst (Frame w) (sym e) (Frame-refl w)
  | inr e ↦ subst (Frame w) (sym e) (touched-Frame w)
]

-- A change of the roster alone.
pub agents-Frame : (w : World) (a : Dict AgentState) → Frame w (record w { agents = a })
agents-Frame w a = record {
  outcome = refl;
  board_id = refl;
  kinds = refl;
  closing = refl;
  told = refl;
  same = SameRecord-refl _;
}

pub dispatch-Frame : (name : String) (s : AgentState) (w : World) → Frame w (dispatch name s w).1
unfolding dispatch
dispatch-Frame name s w = record {
  outcome = inner.outcome;
  board_id = inner.board_id;
  kinds = inner.kinds;
  closing = inner.closing;
  told = inner.told;
  same = SameRecord-trans inner.same (
      mark_notified-SameOn w.board_id (touch_idle (cancel s.window_call w)).store s.declaration.name
        w.last_sequence);
}
  where
    inner : Frame w (touch_idle (cancel s.window_call w))
    inner = Frame-trans (cancel-Frame s.window_call w) (touch_idle-Frame (cancel s.window_call w))

arm_window-Frame :
    (name : String) (s : AgentState) (due : ℕ) (w : World) → Frame w (arm_window name s due w)
arm_window-Frame name s due w =
    Frame-trans (cancel-Frame s.window_call w)
      (Frame-trans (agents-Frame (cancel s.window_call w) _) (call_at-Frame due _ _))

-- The five ways in which an agent's pending set is evaluated.
pub evaluate-cases :
    (name : String) (s : AgentState) (w : World)
    → (evaluate name s w ≡ (none, w))
      ⊎ ((evaluate name s w ≡ (none, set_agent name (record s { pending = [] }) w))
          ⊎ ((evaluate name s w ≡ dispatch name s w)
              ⊎ ((due : ℕ) × (evaluate name s w ≡ (none, arm_window name s due w)))))
unfolding evaluate
evaluate-cases name s w = elim (List-cases s.pending) [
  | inl e ↦ inl (ground arith)
  | inr (p, rest, e) ↦ elim (Option-cases (carrier_for s.declaration w.reach)) [
    | inl c ↦ inr (inl (ground arith))
    | inr (carrier, c) ↦ elim (Bool-cases (leb w.last_sequence s.acknowledged_through)) [
      | inl l ↦ inr (inl (ground arith))
      | inr l ↦ elim (Bool-cases (leb (earliest_of p.1 rest) w.now)) [
        | inl d ↦ inr (inr (inl (ground arith)))
        | inr d ↦ elim (Bool-cases (armed_by (earliest_of p.1 rest) s.window_due)) [
          | inl a ↦ inl (ground arith)
          | inr a ↦ inr (inr (inr (earliest_of p.1 rest, ground arith)))
        ]
      ]
    ]
  ]
]

pub evaluate-Frame : (name : String) (s : AgentState) (w : World) → Frame w (evaluate name s w).1
evaluate-Frame name s w = elim (evaluate-cases name s w) [
  | inl e ↦ rw e (Frame-refl w)
  | inr (inl e) ↦ rw e (agents-Frame w _)
  | inr (inr (inl e)) ↦ rw e (dispatch-Frame name s w)
  | inr (inr (inr (due, e))) ↦ rw e (arm_window-Frame name s due w)
]

pub evaluate_each-Frame :
    (names : List String) (ds : List Delivery) (w : World) → Frame w (evaluate_each names ds w).1
unfolding evaluate_each
evaluate_each-Frame [] ds w = Frame-refl w
evaluate_each-Frame (name ∷ names) ds w = elim (Option-cases (get name w.agents)) [
  | inl e ↦ rw (e, evaluate_each) (evaluate_each-Frame names ds w)
  | inr (s, e) ↦
      rw (e, evaluate_each)
        (Frame-trans (evaluate-Frame name s w) (
          evaluate_each-Frame names (with_delivery (evaluate name s w).0 ds) (evaluate name s w).1))
]
