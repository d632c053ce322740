-- ===== src/Service/Answers.antt =====
-- What the service answers with: `_outcome` and the exceptions that `_answer` turns into statuses
-- (src/blackboard/server.py).
use blackboardx.Prelude.{ℕ, String, Option, none, some, [], ◌∷◌, if◌then◌else◌}
use blackboardx.Dict.{Dict}
use blackboardx.Errors
use blackboardx.Errors.{Error, Result, ok, err}
use blackboardx.Json.{Value, null, text, natural, bool}
use blackboardx.Board.{Written, Contribution, BoardChange, PremiseState}
use blackboardx.Wire.{to_json}
use blackboardx.Control.{RejectionCause, admission, not_permitted, run_closed}
use blackboardx.Control.Write.{WriteAnswer, sequenced, conflicts, refused}
use blackboardx.Service.{Library, Response, Reply, responded, raised}
use blackboardx.Service.Queries.{error_response}

-- A field that may be absent.
abbrev pub optional {ℓ} : {A : Type ℓ} → (A → Value) → Option A → Value
optional f none = null
optional f (some a) = f a

abbrev pub written_body : Written → Dict Value
written_body w =
    ("sequence", natural w.sequence)
    ∷ ("version", optional natural w.version)
    ∷ ("repeated", bool w.repeated)
    ∷ []

-- RejectionCause's values
abbrev pub cause_value : RejectionCause → String
cause_value admission = "admission"
cause_value not_permitted = "not_permitted"
cause_value run_closed = "run_closed"

abbrev pub body_response : ℕ → Dict Value → Response
body_response status body = record { status = status; body = some (to_json body); headers = [] }

-- _outcome, of a rejection
abbrev pub rejection_response : RejectionCause → String → Response
rejection_response run_closed reason = error_response 410 "run_closed" reason
rejection_response cause reason =
    body_response 422 (("cause", text (cause_value cause)) ∷ ("reason", text reason) ∷ [])

-- _outcome
unfoldable pub outcome_response : WriteAnswer → Response
outcome_response (sequenced w) = body_response (if w.repeated then 200 else 201) (written_body w)
outcome_response (conflicts current) = body_response 409 (("current_version", natural current) ∷ [])
outcome_response (refused r) = rejection_response r.cause r.reason

module _ (lib : Library) where
  -- The `except` clauses of `_answer`.
  unfoldable pub caught : Error → Reply
  caught (Errors.undeclared_region n) =
      responded (error_response 404 "unknown_region" (lib.said (Errors.undeclared_region n)))
  caught (Errors.region_kind n) =
      responded (error_response 404 "wrong_region_kind" (lib.said (Errors.region_kind n)))
  caught (Errors.unset_premise n) =
      responded (error_response 404 "unset_premise" (lib.said (Errors.unset_premise n)))
  caught (Errors.unknown_notification n agent) =
      responded
        (error_response 404 "unknown_notification" (lib.said (Errors.unknown_notification n agent)))
  caught (Errors.idempotency_key k) =
      responded (error_response 409 "idempotency_key_reused" (lib.said (Errors.idempotency_key k)))
  caught Errors.run_closed =
      responded (error_response 410 "run_closed" (lib.said Errors.run_closed))
  caught e = raised e

  -- _iso
  abbrev pub instant : Option ℕ → Value
  instant = optional (λ i. text (lib.isoformat i))

  abbrev pub contribution_body : Contribution → Dict Value
  contribution_body c =
      ("sequence", natural c.sequence)
      ∷ ("content", c.content)
      ∷ ("writer", optional text c.writer)
      ∷ ("written_at", instant c.written_at)
      ∷ []

  abbrev pub change_body : BoardChange → Dict Value
  change_body c =
      ("sequence", natural c.sequence)
      ∷ ("region", text c.region)
      ∷ ("content", c.content)
      ∷ ("writer", optional text c.writer)
      ∷ ("written_at", instant c.written_at)
      ∷ []

  abbrev pub premise_body : PremiseState → Dict Value
  premise_body s =
      ("version", natural s.version)
      ∷ ("value", s.value)
      ∷ ("writer", optional text s.writer)
      ∷ ("written_at", instant s.written_at)
      ∷ []
