-- ===== src/Control/Clock.antt =====
-- The clock of src/blackboard/_clock.py as `Control` uses it: arming a call and cancelling it.
use blackboardx.Prelude.{
  ℕ, ◌+◌, true, false, Option, none, some, [], ◌∷◌, ◌++◌, map, ◌==◌, if◌then◌else◌,
}
use blackboardx.Control.{World, Armed}

-- ManualClock.call_at; the handle is `w.armed`
unfoldable pub call_at : ℕ → Armed → World → World
call_at when call w = record w {
  scheduled =
      w.scheduled ++ record { when = when; order = w.armed; call = call; cancelled = false } ∷ [];
  armed = w.armed + 1;
}

-- _ManualScheduledCall.cancel
unfoldable pub cancel : Option ℕ → World → World
cancel none w = w
cancel (some handle) w = record w {
  scheduled = map (λ c. if c.order == handle then record c { cancelled = true } else c) w.scheduled;
}
