-- ===== src/Control/Ends/Passes.antt =====
-- How the passes of `Control` (src/blackboard/_control.py) and the calls of its clock move a run's end:
-- `abort`, `notify_due` and the clock's calls may close the run and tell of it.
use blackboardx.Prelude.{
  ℕ, String, ◌≡◌, refl, sym, subst, none, true, false, [], arith, Option-cases, Bool-cases,
  List-cases, ◌⊎◌, inl, inr, map, ◌==◌, ◌+◌,
}
use blackboardx.Dict.{get}
use blackboardx.Errors.{Result-cases}
use blackboardx.Board.{RunRecord}
use blackboardx.Store
use blackboardx.Control.{
  RunOutcome, World, App, AgentState, Armed, wall_clock_passes, idle_passes, window_closes, aborted,
  wall_clock_expired, settled,
}
use blackboardx.Control.Ends.{Ends, Ends-refl, Ends-trans, Frame-Ends, Moves, stays, tells, closes}
use blackboardx.Control.Ends.Relays.{take_tail-Ends}
use blackboardx.Control.Frame.{evaluate_each-Frame, dispatch-Frame, touch_idle-Frame}
use blackboardx.Control.Frame.Writes.{deliver-Frame, finish-Frame}
use blackboardx.Control.Roster.{unfinished}
use blackboardx.Control.Closing.{
  abort, wall_clock_passed, idle_passed, tell_closed, close_locked, outcome_of, touch_idle,
}
use blackboardx.Control.Dispatch.{evaluate_each, close_window, dispatch, set_agent}
use blackboardx.Control.Tail.{take_tail}
use blackboardx.Control.Deliver.{deliver, check_completion}
use blackboardx.Control.Answer.{notify_due, window_passed, fire}

pub abort-Moves : (reason : String) (w : World) → Moves w (abort reason w)
unfolding abort
abort-Moves reason w = closes (aborted reason []) Ends-refl

notify_due-cases :
    (app : App) (w : World)
    → ((notify_due app w).1 ≡ w)
      ⊎ (((o : RunOutcome) × ((notify_due app w).1 ≡ tell_closed (close_locked o w)))
          ⊎ ((run : RunRecord) × ((notify_due app w).1 ≡ (
                let d = evaluate_each (map (λ e. e.0) w.agents) [] (take_tail run none w) in
                deliver app d.0 d.1))))
unfolding notify_due
notify_due-cases app w = elim (Option-cases w.outcome) [
  | inr (o, e) ↦ inl (ground arith)
  | inl e ↦ elim (Option-cases (Store.read_run w.store_now w.board_id w.store)) [
    | inl r ↦ inl (ground arith)
    | inr (run, r) ↦ elim (Option-cases run.closed_as) [
      | inr (name, c) ↦ inr (inl (outcome_of name run, ground arith))
      | inl c ↦ elim (List-cases w.agents) [
        | inl a ↦ inl (ground arith)
        | inr (a, rest, l) ↦ inr (inr (run, ground arith))
      ]
    ]
  ]
]

pub notify_due-Moves : (app : App) (w : World) → Moves w (notify_due app w).1
notify_due-Moves app w = elim (notify_due-cases app w) [
  | inl e ↦ subst (Moves w) (sym e) (stays Ends-refl)
  | inr (inl (o, e)) ↦ subst (Moves w) (sym e) (closes o Ends-refl)
  | inr (inr (run, e)) ↦ subst (Moves w) (sym e) (
      stays (
        Ends-trans (take_tail-Ends run none w) (
          Ends-trans (Frame-Ends (evaluate_each-Frame _ [] _))
            (Frame-Ends (deliver-Frame app _ _)))))
]

-- The agent's state once its window has closed.
abbrev unarmed : AgentState → AgentState
unarmed s = record s {
  window_call = none;
  window_due = none;
  window_generation = s.window_generation + 1;
}

close_window-cases :
    (name : String) (generation : ℕ) (w : World)
    → ((close_window name generation w).2 ≡ w)
      ⊎ ((s : AgentState) × (((close_window name generation w).2 ≡ set_agent name s w)
            ⊎ ((close_window name generation w).2 ≡ (dispatch name s (set_agent name s w)).1)))
unfolding close_window
close_window-cases name generation w = elim (Option-cases (get name w.agents)) [
  | inl e ↦ inl (ground arith)
  | inr (s, e) ↦ elim (Option-cases w.outcome) [
    | inr (o, oe) ↦ inl (ground arith)
    | inl oe ↦ elim (Bool-cases (generation == s.window_generation)) [
      | inr g ↦ inl (ground arith)
      | inl g ↦ elim (List-cases s.pending) [
        | inl p ↦ inr (unarmed s, inl (ground arith))
        | inr (p, ps, l) ↦ inr (unarmed s, inr (ground arith))
      ]
    ]
  ]
]

-- A change of the roster.
roster-Ends : (name : String) (s : AgentState) (w : World) → Ends w (set_agent name s w)
roster-Ends name s w = record { outcome = refl; closing = refl; told = refl }

close_window-Ends :
    (name : String) (generation : ℕ) (w : World) → Ends w (close_window name generation w).2
close_window-Ends name generation w = elim (close_window-cases name generation w) [
  | inl e ↦ subst (Ends w) (sym e) Ends-refl
  | inr (s, inl e) ↦ subst (Ends w) (sym e) (roster-Ends name s w)
  | inr (s, inr e) ↦
      subst (Ends w) (sym e) (
        Ends-trans (roster-Ends name s w) (Frame-Ends (dispatch-Frame name s (set_agent name s w))))
]

window_passed-Ends :
    (app : App) (name : String) (generation : ℕ) (w : World)
    → Ends w (window_passed app name generation w)
unfolding window_passed check_completion
window_passed-Ends app name generation w = elim (Bool-cases (close_window name generation w).1) [
  | inl e ↦
      simp (e, window_passed)
        (Ends-trans (close_window-Ends name generation w)
          (Frame-Ends (finish-Frame app (close_window name generation w).0 _)))
  | inr e ↦ simp (e, window_passed) (close_window-Ends name generation w)
]

idle_passed-cases :
    (app : App) (generation : ℕ) (w : World)
    → (idle_passed app generation w ≡ w)
      ⊎ (((o : RunOutcome) × (idle_passed app generation w ≡ tell_closed (close_locked o w)))
          ⊎ (idle_passed app generation w ≡ tell_closed (touch_idle w)))
unfolding idle_passed
idle_passed-cases app generation w = elim (Option-cases w.outcome) [
  | inr (o, e) ↦ inl (ground arith)
  | inl e ↦ elim (Bool-cases (generation == w.idle_generation)) [
    | inr g ↦ inl (ground arith)
    | inl g ↦ elim (Option-cases app.termination_predicate) [
      | inl t ↦ inr (inl (settled (unfinished w.store w.board_id), ground arith))
      | inr (complete, t) ↦ elim (Result-cases (complete w.store)) [
        | inl (x, c) ↦ inl (ground arith)
        | inr (true, c) ↦ inr (inl (settled (unfinished w.store w.board_id), ground arith))
        | inr (false, c) ↦ inr (inr (ground arith))
      ]
    ]
  ]
]

idle_passed-Moves :
    (app : App) (generation : ℕ) (w : World) → Moves w (idle_passed app generation w)
idle_passed-Moves app generation w = elim (idle_passed-cases app generation w) [
  | inl e ↦ subst (Moves w) (sym e) (stays Ends-refl)
  | inr (inl (o, e)) ↦ subst (Moves w) (sym e) (closes o Ends-refl)
  | inr (inr e) ↦ subst (Moves w) (sym e) (tells (Frame-Ends (touch_idle-Frame w)))
]

wall_clock_passed-Moves : (w : World) → Moves w (wall_clock_passed w)
unfolding wall_clock_passed
wall_clock_passed-Moves w = elim (Option-cases w.outcome) [
  | inr (o, e) ↦ simp (e, wall_clock_passed) (stays Ends-refl)
  | inl e ↦
      simp (e, wall_clock_passed)
        (closes (wall_clock_expired (unfinished w.store w.board_id)) Ends-refl)
]

pub fire-Moves : (app : App) (c : Armed) (w : World) → Moves w (fire app c w)
unfolding fire
fire-Moves app wall_clock_passes w = wall_clock_passed-Moves w
fire-Moves app (idle_passes generation) w = idle_passed-Moves app generation w
fire-Moves app (window_closes name generation) w = stays (window_passed-Ends app name generation w)
