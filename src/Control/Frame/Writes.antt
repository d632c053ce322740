-- ===== src/Control/Frame/Writes.antt =====
-- What follows a write that was sequenced (`_note_region_change`, `_reach_the_rest`, `_deliver` and
-- `_check_completion`, src/blackboard/_control.py) leaves the board's record and the run's outcome alone.
use blackboardx.Prelude.{
  List-cases, ℕ, ◌+◌, String, ◌≡◌, refl, none, List, [], ◌∷◌, ◌++◌, arith, Option-cases, Bool-cases,
  inl, inr, ◌⊎◌, not, ◌&&◌, ◌||◌, str_eq, filter, ltb,
}
use blackboardx.Dict.{get}
use blackboardx.Board.{AgentProgress, BoardChange}
use blackboardx.Store
use blackboardx.Store.Frame.{SameRecord-refl, mark_notified-SameOn, mark_sent-SameOn}
use blackboardx.Control.{World, App, AgentState, Delivery}
use blackboardx.Control.Frame.{
  Frame, Frame-refl, Frame-trans, agents-Frame, evaluate-Frame, touch_idle-Frame,
}
use blackboardx.Control.Dispatch.{evaluate, set_agent, with_delivery}
use blackboardx.Control.Roster.{subscribed}
use blackboardx.Control.Tail.{
  reach_each, reach_the_rest, note_each, note_region_change, owed_regions, add_pending, tail_from,
  least_answer, by_address,
}
use blackboardx.Control.Deliver.{deliver_one, drain, deliver, check_completion, marks_sent}
use blackboardx.Control.Write.{finish, landed}

notified-Frame :
    (agent : String) (through : ℕ) (w : World)
    → Frame w (record w { store = Store.mark_notified w.board_id agent through w.store })
notified-Frame agent through w = record {
  outcome = refl;
  board_id = refl;
  kinds = refl;
  closing = refl;
  told = refl;
  same = mark_notified-SameOn w.board_id w.store agent through;
}

reach_each-Frame :
    (tail : List BoardChange) (ps : List AgentProgress) (w : World)
    → Frame w (reach_each tail ps w).1
reach_each-Frame tail [] w = Frame-refl w
reach_each-Frame tail (p ∷ ps) w = elim (List-cases (owed_regions p w.kinds tail)) [
  | inl e ↦ rw (e, reach_each) (reach_each-Frame tail ps w)
  | inr (r, rs, e) ↦ elim (Option-cases p.address) [
    | inl a ↦ rw (e, a, reach_each) (reach_each-Frame tail ps w)
    | inr (address, a) ↦
        rw (e, a, reach_each)
          (Frame-trans (notified-Frame p.agent w.last_sequence w) (reach_each-Frame tail ps _))
  ]
]

reach_the_rest-Frame :
    (hearers : List AgentProgress) (window : ℕ) (w : World)
    → Frame w (reach_the_rest hearers window w).1
unfolding reach_the_rest
reach_the_rest-Frame hearers window w = elim (Bool-cases (not w.reach || ltb 0 window)) [
  | inl b ↦ rw b (Frame-refl w)
  | inr b ↦ elim (Option-cases (least_answer none (filter (by_address w) hearers))) [
    | inl e ↦ rw (b, e) (Frame-refl w)
    | inr (floor, e) ↦
        rw (b, e) (reach_each-Frame (tail_from (floor + 1) w) (filter (by_address w) hearers) w)
  ]
]

-- What the loop does at an agent: nothing more, the next agent, or the next agent after this one's
-- evaluation with the region pending.
note_each-cases :
    (region writer : String) (due : ℕ) (name : String) (names : List String) (ds : List Delivery)
    (w : World)
    → (note_each region writer due (name ∷ names) ds w ≡ (ds, w))
      ⊎ ((note_each region writer due (name ∷ names) ds w ≡ note_each region writer due names ds w)
          ⊎ ((s : AgentState) × (note_each region writer due (name ∷ names) ds w ≡ (
                let r = evaluate name s (set_agent name s w) in
                note_each region writer due names (with_delivery r.0 ds) r.1))))
unfolding note_each
note_each-cases region writer due name names ds w = elim (Option-cases (get name w.agents)) [
  | inl e ↦ inr (inl (ground arith))
  | inr (s, e) ↦ elim (Option-cases w.outcome) [
    | inr (o, oe) ↦ inl (ground arith)
    | inl oe ↦ elim (Option-cases (get region w.kinds)) [
      | inl ke ↦ inr (inl (ground arith))
      | inr (kind, ke) ↦
          elim (Bool-cases (str_eq s.declaration.name writer || not (subscribed s region kind))) [
            | inl b ↦ inr (inl (ground arith))
            | inr b ↦ inr (inr (add_pending region due s, ground arith))
          ]
    ]
  ]
]

note_none-Frame :
    (region writer : String) (due : ℕ) (ds : List Delivery) (w : World)
    → Frame w (note_each region writer due [] ds w).1
unfolding note_each
note_none-Frame region writer due ds w = Frame-refl w

note_each-Frame :
    (region writer : String) (due : ℕ) (names : List String) (ds : List Delivery) (w : World)
    → Frame w (note_each region writer due names ds w).1
note_each-Frame region writer due [] ds w = note_none-Frame region writer due ds w
note_each-Frame region writer due (name ∷ names) ds w =
    elim (note_each-cases region writer due name names ds w) [
      | inl e ↦ rw e (Frame-refl w)
      | inr (inl e) ↦ rw e (note_each-Frame region writer due names ds w)
      | inr (inr (s, e)) ↦ rw e (
          Frame-trans (agents-Frame w _) (
            Frame-trans (evaluate-Frame name s (set_agent name s w))
              (note_each-Frame region writer due names _ _)))
    ]

note_region_change-Frame :
    (region writer : String) (hearers : List AgentProgress) (w : World)
    → Frame w (note_region_change region writer hearers w).1
unfolding note_region_change
note_region_change-Frame region writer hearers w =
    Frame-trans (reach_the_rest-Frame hearers _ w) (note_each-Frame region writer _ _ _ _)

deliver_one-Frame : (app : App) (d : Delivery) (w : World) → Frame w (deliver_one app d w)
unfolding deliver_one
deliver_one-Frame app d w =
    elim (Bool-cases (app.sends d.carrier d.notification && not (marks_sent d.carrier))) [
      | inl e ↦ rw e (record {
        outcome = refl;
        board_id = refl;
        kinds = refl;
        closing = refl;
        told = refl;
        same = mark_sent-SameOn w.board_id w.store d.notification.agent d.notification.to_sequence;
      })
      | inr e ↦ rw e (Frame-refl w)
    ]

drain-Frame : (app : App) (ds : List Delivery) (w : World) → Frame w (drain app ds w)
unfolding drain
drain-Frame app [] w = Frame-refl w
drain-Frame app (d ∷ ds) w =
    Frame-trans (deliver_one-Frame app d w) (drain-Frame app ds (deliver_one app d w))

pub deliver-Frame : (app : App) (ds : List Delivery) (w : World) → Frame w (deliver app ds w)
unfolding deliver
deliver-Frame app ds w =
    Frame-trans {v = record w { queue = [] }}
      (record {
        outcome = refl;
        board_id = refl;
        kinds = refl;
        closing = refl;
        told = refl;
        same = SameRecord-refl _;
      })
      (drain-Frame app (w.queue ++ ds) (record w { queue = [] }))

pub finish-Frame : (app : App) (ds : List Delivery) (w : World) → Frame w (finish app ds w)
unfolding check_completion
finish-Frame app ds w = Frame-trans (deliver-Frame app ds w) (touch_idle-Frame (deliver app ds w))

pub landed-Frame :
    (app : App) (region writer : String) (hearers : List AgentProgress) (n : ℕ) (w : World)
    → Frame w (landed app region writer hearers n w)
landed-Frame app region writer hearers n w =
    Frame-trans {v = record w { last_sequence = n }}
      (record {
        outcome = refl;
        board_id = refl;
        kinds = refl;
        closing = refl;
        told = refl;
        same = SameRecord-refl _;
      })
      (Frame-trans (note_region_change-Frame region writer hearers (record w { last_sequence = n }))
        (finish-Frame app _ _))
