-- ===== src/Control/Admit.antt =====
-- What `Control` (src/blackboard/_control.py) asks of a write before the store is reached.
use blackboardx.Prelude.{String, Option, none, some}
use blackboardx.Dict.{get}
use blackboardx.Errors.{Result, ok, err, undeclared_region, region_kind}
use blackboardx.Control.{
  World, RegionKind, level_kind, premise_kind, Rejected, RejectionCause, run_closed,
}

-- _reject_locked
abbrev pub rejected : RejectionCause → String → Rejected
rejected cause reason = record { cause = cause; reason = reason }

abbrev pub closed_refusal : Rejected
closed_refusal = rejected run_closed "the run has closed"

-- _sequencing_gate_locked
unfoldable pub sequencing_gate : World → Option Rejected
sequencing_gate w = elim w.outcome [ some _ ↦ some closed_refusal | none ↦ none ]

abbrev pub check_kind : String → RegionKind → RegionKind → Result (Option Rejected)
check_kind region level_kind level_kind = ok none
check_kind region premise_kind premise_kind = ok none
check_kind region kind expected = err (region_kind region)

-- _refuse_region
unfoldable pub refuse_region : String → RegionKind → World → Result (Option Rejected)
refuse_region region expected w = elim w.outcome [
  | some _ ↦ ok (some closed_refusal)
  | none ↦ elim (get region w.kinds) [
    | none ↦ err (undeclared_region region)
    | some kind ↦ check_kind region kind expected
  ]
]
