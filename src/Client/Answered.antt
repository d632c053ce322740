-- ===== src/Client/Answered.antt =====
-- The service's answers as a client reads them (`_outcome`, `_contribution` and the like of
-- src/blackboard/server.py, against `_write_outcome`, `_premise_outcome` and `_entries` of
-- src/blackboard/agent.py).
use blackboardx.Prelude.{
  ℕ, String, ◌≡◌, refl, ◌∙◌, Bool, true, false, Option, none, some, if◌then◌else◌, ◌==◌, List, [],
  ◌∷◌, map, All,
}
use blackboardx.Dict.{get}
use blackboardx.Json.{Value, null, text}
use blackboardx.Board.{Contribution, BoardChange, PremiseState, Region, level, premise}
use blackboardx.Control.{RejectionCause, admission, not_permitted, run_closed}
use blackboardx.Control.Write.{WriteAnswer, sequenced, conflicts, refused}
use blackboardx.Wire.{from_json, to_json, value_of, fields_of, read_rows}
use blackboardx.Wire.Bodies.{
  premise_body_kind, region_body_kind, region_body, regions_to_json, regions_from_json,
}
use blackboardx.Wire.Pages.{read_items-bodies}
use blackboardx.Wire.RoundTrip.{from_json-to_json, IsBody}
use blackboardx.Service.{Library, Response}
use blackboardx.Service.Answers
use blackboardx.Service.Answers.{
  optional, outcome_response, rejection_response, contribution_body, change_body, premise_body,
}
use blackboardx.Service.Handlers.{ok_json}
use blackboardx.Service.Routed.{IsLawful}
use blackboardx.Client.{Got, got}
use blackboardx.Client.Readings
use blackboardx.Client.Readings.{
  optional_text, each, detail, named, contribution, change, level_page, board_page, premise_state,
  rejection, write_outcome, premise_outcome, declaration, regions,
}

-- The value that a response's body has for the client: none reads as null.
abbrev pub body_value : Response → Value
body_value r = elim r.body [ none ↦ null | some v ↦ v ]

-- Read by a client that was answered with this response.
abbrev pub answered_with {ℓ} : {A : Type ℓ} → (ℕ → Value → Got A) → Response → Got A
answered_with read r = read r.status (body_value r)

sequenced-read :
    (lib : Library) (n : ℕ) (v : Option ℕ) (b : Bool)
    → answered_with
        (write_outcome lib)
        (outcome_response (sequenced (record { sequence = n; version = v; repeated = b })))
      ≡ got (sequenced (record { sequence = n; version = v; repeated = b }))
unfolding outcome_response write_outcome from_json value_of fields_of get
sequenced-read lib n none true = refl
sequenced-read lib n none false = refl
sequenced-read lib n (some v) true = refl
sequenced-read lib n (some v) false = refl

rejection-read :
    (lib : Library) (c : RejectionCause) (reason : String)
    → answered_with (write_outcome lib) (rejection_response c reason)
      ≡ got (refused (record { cause = c; reason = reason }))
unfolding write_outcome rejection from_json value_of fields_of detail get
rejection-read lib admission reason = refl
rejection-read lib not_permitted reason = refl
rejection-read lib run_closed reason = refl

sequenced-status : (b : Bool) → ((if b then 200 else 201) == 409) ≡ false
sequenced-status true = refl
sequenced-status false = refl

rejection-status :
    (c : RejectionCause) (reason : String) → ((rejection_response c reason).status == 409) ≡ false
rejection-status admission reason = refl
rejection-status not_permitted reason = refl
rejection-status run_closed reason = refl

premise_outcome-other :
    (lib : Library) (r : Response)
    → (r.status == 409) ≡ false
    → answered_with (premise_outcome lib) r ≡ answered_with (write_outcome lib) r
unfolding premise_outcome
premise_outcome-other lib r e = rw (e) refl

-- The answer to a write of a premise reaches the client as the service gave it: sequenced, in conflict with
-- the version that the premise has, or refused for its cause and reason.
pub premise_outcome-outcome_response :
    (lib : Library) (answer : WriteAnswer)
    → answered_with (premise_outcome lib) (outcome_response answer) ≡ got answer
unfolding outcome_response premise_outcome from_json value_of fields_of named get
premise_outcome-outcome_response lib (sequenced w) =
    premise_outcome-other lib (outcome_response (sequenced w)) (sequenced-status w.repeated)
    ∙ sequenced-read lib w.sequence w.version w.repeated
premise_outcome-outcome_response lib (conflicts n) = refl
premise_outcome-outcome_response lib (refused r) =
    premise_outcome-other lib (rejection_response r.cause r.reason)
      (rejection-status r.cause r.reason)
    ∙ rejection-read lib r.cause r.reason

-- An answer to a write of a level, which no version conflicts with.
abbrev pub IsSettled : WriteAnswer → Type 0
IsSettled (conflicts n) = ⊥
IsSettled _ = Unit

-- The answer to a write of a level reaches the client as the service gave it: sequenced, or refused for its cause
-- and reason.
pub write_outcome-outcome_response :
    (lib : Library) (answer : WriteAnswer)
    → IsSettled answer
    → answered_with (write_outcome lib) (outcome_response answer) ≡ got answer
unfolding outcome_response
write_outcome-outcome_response lib (sequenced w) h =
    sequenced-read lib w.sequence w.version w.repeated
write_outcome-outcome_response lib (conflicts n) h = absurd h
write_outcome-outcome_response lib (refused r) h = rejection-read lib r.cause r.reason

instant-read :
    (lib : Library)
    → IsLawful lib
    → (at : Option ℕ) → Readings.instant lib (Answers.instant lib at) ≡ got at
instant-read lib law none = refl
instant-read lib law (some i) = rw (law.from-iso i) refl

writer-read : (w : Option String) → optional_text (optional text w) ≡ got w
writer-read none = refl
writer-read (some w) = refl

pub contribution-read :
    (lib : Library)
    → IsLawful lib
    → (c : Contribution) → contribution lib (contribution_body lib c) ≡ got c
unfolding contribution get
contribution-read lib law c = rw (writer-read c.writer, instant-read lib law c.written_at) refl

pub change-read :
    (lib : Library) → IsLawful lib → (c : BoardChange) → change lib (change_body lib c) ≡ got c
unfolding change get
change-read lib law c = rw (writer-read c.writer, instant-read lib law c.written_at) refl

-- The premise that the service answers with is the premise that the client reads.
pub premise_state-premise_body :
    (lib : Library)
    → IsLawful lib
    → (s : PremiseState)
    → answered_with (premise_state lib) (ok_json (to_json (premise_body lib s))) ≡ got s
unfolding premise_state get
premise_state-premise_body lib law s =
    rw
      (
        from_json-to_json premise_body_kind (premise_body lib s) (refl, refl) refl,
        writer-read s.writer,
        instant-read lib law s.written_at,
      )
      refl

-- A region as the service lists it: without its window.
abbrev pub listed : Region → Region
listed (level n w) = level n 0
listed (premise n w) = premise n 0

declarations-read :
    (lib : Library) (rs : List Region)
    → each (declaration lib) (map region_body rs) ≡ got (map listed rs)
unfolding get
declarations-read lib [] = refl
declarations-read lib (level n w ∷ rs) = rw (declarations-read lib rs) refl
declarations-read lib (premise n w ∷ rs) = rw (declarations-read lib rs) refl

region_bodies-IsBody : (rs : List Region) → All (IsBody region_body_kind) (map region_body rs)
region_bodies-IsBody [] = tt
region_bodies-IsBody (level n w ∷ rs) = (refl, region_bodies-IsBody rs)
region_bodies-IsBody (premise n w ∷ rs) = (refl, region_bodies-IsBody rs)

-- The regions that the service lists for a board reach the client in their order, each with its name and its kind.
-- Their windows, which the service does not send, are 0 for the client.
pub regions-regions_to_json :
    (lib : Library) (rs : List Region)
    → answered_with (regions lib) (ok_json (regions_to_json (map region_body rs)))
      ≡ got (map listed rs)
unfolding regions regions_from_json read_rows value_of fields_of
regions-regions_to_json lib rs =
    rw
      (
        read_items-bodies region_body_kind (map region_body rs) (refl, refl)
            (region_bodies-IsBody rs),
        declarations-read lib rs,
      )
      refl
