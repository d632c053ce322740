-- ===== src/Control/Told.antt =====
-- What `on_closed` is told of a run that `Control.__init__` opened (src/blackboard/_control.py).
use blackboardx.Prelude.{
  ℕ, String, refl, Bool, some, List, [], ◌∷◌, Option-cases, Bool-cases, inl, inr, ◌+◌,
}
use blackboardx.Errors.{Result, Result-cases}
use blackboardx.Board.{Region, name_of}
use blackboardx.Store
use blackboardx.Store.{board_of}
use blackboardx.Control.{World, App, wall_clock_passes}
use blackboardx.Control.Clock.{call_at}
use blackboardx.Control.Frame.{call_at-Frame}
use blackboardx.Control.Register.{
  open_control, converge, find_region, same_kind, record_kind, blank, last_written,
}
use blackboardx.Control.Ends.{Ends, Ends-refl, Ends-trans, Frame-Ends, IsTold, Ends-IsTold}
use blackboardx.Control.Acts.{Act, acts, acts_keep-IsTold}

-- A region's kind recorded, after a change of the store.
recorded-Ends :
    (r : Region) (s : Store.Store) (w : World) → Ends w (record_kind r (record w { store = s }))
unfolding record_kind
recorded-Ends r s w = record { outcome = refl; closing = refl; told = refl }

kept-Ends : (r : Region) (w : World) → Ends w (record_kind r w)
unfolding record_kind
kept-Ends r w = record { outcome = refl; closing = refl; told = refl }

stored-Ends : (s : Store.Store) (w : World) → Ends w (record w { store = s })
stored-Ends s w = record { outcome = refl; closing = refl; told = refl }

converge-Ends :
    (adopt : Bool) (held regions : List Region) (w : World)
    → Ends w (converge adopt held regions w).1
unfolding converge
converge-Ends adopt held [] w = Ends-refl
converge-Ends adopt held (r ∷ rs) w = elim (Option-cases (find_region (name_of r) held)) [
  | inl f ↦ elim (Bool-cases adopt) [
    | inl a ↦ simp (f, a, converge) Ends-refl
    | inr a ↦ elim (Result-cases (Store.declare w.board_id r w.store).0) [
      | inl (x, d) ↦ simp (f, a, d, converge) (stored-Ends _ w)
      | inr (x, d) ↦
          simp (f, a, d, converge)
            (Ends-trans (recorded-Ends r (Store.declare w.board_id r w.store).1 w)
              (converge-Ends adopt held rs _))
    ]
  ]
  | inr (standing, f) ↦ elim (Bool-cases (same_kind standing r)) [
    | inl k ↦ simp (f, k, converge) (Ends-trans (kept-Ends r w) (converge-Ends adopt held rs _))
    | inr k ↦ simp (f, k, converge) Ends-refl
  ]
]

module _ (id : String) (regions : List Region) (wall_clock idle : ℕ) (adopt reach : Bool)
    (w : World) where
  opened-Ends :
      (v : World)
      → Ends (blank id wall_clock idle reach w) v
      → Ends (blank id wall_clock idle reach w) (
          call_at (w.now + wall_clock) wall_clock_passes (record v {
            last_sequence = last_written (board_of id v.store);
            store = Store.open_run w.store_now id wall_clock idle v.store;
            wall_call = some w.armed;
          }))
  opened-Ends v e = Ends-trans e (
      Ends-trans (record { outcome = refl; closing = refl; told = refl })
        (Frame-Ends (call_at-Frame (w.now + wall_clock) wall_clock_passes _)))

  read-Ends :
      {s : Store.Store}
      → Ends
          (blank id wall_clock idle reach w)
          (blank id wall_clock idle reach (record w { store = s }))
  read-Ends = record { outcome = refl; closing = refl; told = refl }

  -- The world that `__init__` leaves has no end yet.
  pub open_control-Ends :
      Ends
        (blank id wall_clock idle reach w)
        (open_control id regions wall_clock idle adopt reach w).1
  unfolding open_control
  open_control-Ends = elim (Result-cases converged.0) [
    | inl (x, e) ↦ simp (e, open_control) (Ends-trans read-Ends (converge-Ends adopt _ regions _))
    | inr (x, e) ↦
        simp (e, open_control)
          (opened-Ends _ (Ends-trans read-Ends (converge-Ends adopt _ regions _)))
  ]
    where
      converged : Result (Unit {0}) × World
      converged =
          converge adopt (Store.read_regions id w.store).0 regions (
            blank id wall_clock idle reach (record w { store = (Store.read_regions id w.store).1 }))

  -- From the world that `Control.__init__` leaves, whatever its application, its clocks and other
  -- processes do, at every moment `on_closed` was told exactly once of the outcome that the run has
  -- for this process, if it has one, and was told nothing if it has none.
  pub acts-IsTold :
      (app : App) (rest : List Act)
      → IsTold (acts app rest (open_control id regions wall_clock idle adopt reach w).1)
  acts-IsTold app rest =
      acts_keep-IsTold app rest _
        (Ends-IsTold open_control-Ends (record { nothing_left = refl; once = refl }))
