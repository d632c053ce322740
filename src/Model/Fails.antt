-- ===== src/Model/Fails.antt =====
-- A creation that fails after the run has opened (`create_model` and `attach_model` of src/blackboard/_model.py).
use Prim.Native.String
use blackboardx.Prelude.{String, ◌≡◌, some, [], ◌∷◌}
use blackboardx.Errors
use blackboardx.Store
use blackboardx.Store.{board_of}
use blackboardx.Control.{World, RunOutcome}
use blackboardx.Control.Ends.{Ends}

-- The run has closed, and its outcome was told, once.
abbrev pub IsOver : World → Type 0
IsOver w = (o : RunOutcome) × (w.outcome ≡ some o) × (w.told ≡ o ∷ []) × (w.closing ≡ [])

-- The board's run, if any, is the one that it was, and no call has been armed since.
abbrev pub IsUnopened : String → World → World → Type 0
IsUnopened id v w =
    ((board_of id w.store).run ≡ (board_of id v.store).run) × (w.scheduled ≡ v.scheduled)
