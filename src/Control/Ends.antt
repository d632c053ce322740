-- ===== src/Control/Ends.antt =====
-- How the calls of `Control` (src/blackboard/_control.py) move a run's end: its outcome, the outcomes still
-- to be told (`_closing`) and those that `on_closed` was told.
pub mod Calls
pub mod Joining
pub mod Relays
pub mod Passes
use blackboardx.Prelude.{
  ◌+◌, ℕ, String, ◌≡◌, refl, ◌∙◌, sym, subst, Option, none, some, List, [], ◌∷◌, ◌++◌, arith,
  Option-cases, ◌⊎◌, inl, inr, ap,
}
use blackboardx.Control.{World, RunOutcome, AgentState}
use blackboardx.Control.Frame.{Frame, cancel-Frame}
use blackboardx.Control.Closing.{
  tell_closed, close_locked, closed_world, final_outcome, cancel_windows, closing_answer,
}
use blackboardx.Control.Clock.{cancel}

pub record Ends (v w : World) : Type 0 where
  pub outcome : w.outcome ≡ v.outcome
  pub closing : w.closing ≡ v.closing
  pub told : w.told ≡ v.told

pub Ends-refl : {w : World} → Ends w w
Ends-refl = record { outcome = refl; closing = refl; told = refl }

pub Ends-trans : {u v w : World} → Ends u v → Ends v w → Ends u w
Ends-trans p q = record {
  outcome = q.outcome ∙ p.outcome;
  closing = q.closing ∙ p.closing;
  told = q.told ∙ p.told;
}

pub Frame-Ends : {v w : World} → Frame v w → Ends v w
Frame-Ends f = record { outcome = f.outcome; closing = f.closing; told = f.told }

-- A world that holds the same end, and then perhaps the closing of the run and the telling of it.
pub data Moves (v : World) : World → Type 0 where
  stays : {w : World} → Ends v w → Moves v w
  tells : {w : World} → Ends v w → Moves v (tell_closed w)
  closes : {w : World} → (o : RunOutcome) → Ends v w → Moves v (tell_closed (close_locked o w))

-- The outcomes that an application is told of a run that ended so.
abbrev pub ended : Option RunOutcome → List RunOutcome
ended none = []
ended (some o) = o ∷ []

-- `on_closed` was told of the run's end, once, if it ended, and of nothing else.
pub record IsTold (w : World) : Type 0 where
  pub nothing_left : w.closing ≡ []
  pub once : w.told ≡ ended w.outcome

pub Ends-IsTold : {v w : World} → Ends v w → IsTold v → IsTold w
Ends-IsTold e t = record {
  nothing_left = e.closing ∙ t.nothing_left;
  once = e.told ∙ t.once ∙ ap ended (sym e.outcome);
}

cancel-Ends : (h : Option ℕ) (w : World) → Ends w (cancel h w)
cancel-Ends h w = Frame-Ends (cancel-Frame h w)

cancel_windows-Ends : (ags : List (String × AgentState)) (w : World) → Ends w (cancel_windows ags w)
cancel_windows-Ends [] w = Ends-refl
cancel_windows-Ends ((name, s) ∷ ags) w =
    Ends-trans (cancel-Ends s.window_call w) (cancel_windows-Ends ags (cancel s.window_call w))

tell_closed-IsTold : (w : World) → IsTold w → IsTold (tell_closed w)
unfolding tell_closed
tell_closed-IsTold w t = record {
  nothing_left = refl;
  once = ground (arith, t.nothing_left, t.once);
}

-- The run ends for a world that closes it as `o`.
pub closed_world-Ends :
    (o : RunOutcome) (w : World)
    → let f = final_outcome o w in
      ((closed_world o w).outcome ≡ some f)
      × ((closed_world o w).closing ≡ w.closing ++ f ∷ [])
      × ((closed_world o w).told ≡ w.told)
closed_world-Ends o w = (cancelled.outcome, cancelled.closing, cancelled.told)
  where
    base : World
    base = record w {
      store = (closing_answer o w).1;
      outcome = some (final_outcome o w);
      idle_call = none;
      idle_generation = w.idle_generation + 1;
      closing = w.closing ++ final_outcome o w ∷ [];
    }

    cancelled : Ends base (cancel_windows w.agents (cancel w.idle_call (cancel w.wall_call base)))
    cancelled =
        Ends-trans (cancel-Ends w.wall_call base)
          (Ends-trans (cancel-Ends w.idle_call _) (cancel_windows-Ends w.agents _))

pub close_locked-cases :
    (o : RunOutcome) (w : World)
    → ((p : RunOutcome) × (w.outcome ≡ some p) × (close_locked o w ≡ w))
      ⊎ ((w.outcome ≡ none) × (close_locked o w ≡ closed_world o w))
unfolding close_locked
close_locked-cases o w = elim (Option-cases w.outcome) [
  | inr (p, e) ↦ inl (p, e, ground arith)
  | inl e ↦ inr (e, ground arith)
]

-- A world that has one outcome to tell.
told_of :
    (w : World) (f : RunOutcome)
    → w.outcome ≡ some f
    → w.closing ≡ f ∷ []
    → w.told ≡ []
    → IsTold (tell_closed w)
unfolding tell_closed
told_of w f o c t = record { nothing_left = refl; once = ground (arith, o, c, t) }

pub close-IsTold : (o : RunOutcome) (w : World) → IsTold w → IsTold (tell_closed (close_locked o w))
close-IsTold o w t = elim (close_locked-cases o w) [
  | inl (p, e, c) ↦ rw c (tell_closed-IsTold w t)
  | inr (e, c) ↦ rw c (
      told_of (closed_world o w) (final_outcome o w) (closed_world-Ends o w).0
        (ground (arith, closed_world-Ends o w, t.nothing_left))
        (ground (arith, closed_world-Ends o w, t.once)))
]

pub Moves-IsTold : {v w : World} → Moves v w → IsTold v → IsTold w
Moves-IsTold (stays e) t = Ends-IsTold e t
Moves-IsTold (tells {w} e) t = tell_closed-IsTold w (Ends-IsTold e t)
Moves-IsTold (closes {w} o e) t = close-IsTold o w (Ends-IsTold e t)

close-outcome :
    (o p : RunOutcome) (w : World) → w.outcome ≡ some p → (close_locked o w).outcome ≡ some p
unfolding close_locked
close-outcome o p w e = ground arith

-- An outcome that is set stays.
pub Moves-outcome :
    {v w : World} (p : RunOutcome) → Moves v w → v.outcome ≡ some p → w.outcome ≡ some p
unfolding tell_closed
Moves-outcome p (stays e) h = e.outcome ∙ h
Moves-outcome p (tells e) h = e.outcome ∙ h
Moves-outcome p (closes {w} o e) h = close-outcome o p w (e.outcome ∙ h)
