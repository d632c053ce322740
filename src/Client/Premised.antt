-- ===== src/Client/Premised.antt =====
-- A premise set by a client through the service, against the run's own `set_premise`
-- (src/blackboard/agent.py, src/blackboard/server.py, src/blackboard/_control.py).
use blackboardx.Prelude.{
  ℕ, suc, ◌≡◌, refl, sym, ◌∙◌, subst, String, Option, none, some, [], ◌∷◌, str_eq, if◌then◌else◌,
}
use blackboardx.Dict.{Dict, get}
use blackboardx.Errors.{ok}
use blackboardx.Control.{World, App}
use blackboardx.Control.Write
use blackboardx.Control.Write.{WriteAnswer, sequenced, conflicts, refused}
use blackboardx.Json.{as_json, Value, text, natural}
use blackboardx.Wire.{to_json, fields_of}
use blackboardx.Wire.Paths.{set_premise_operation}
use blackboardx.Wire.Bodies.{set_premise_kind}
use blackboardx.Wire.RoundTrip.{from_json-to_json}
use blackboardx.Service.{Library, Request, responded, Serving, after_run, control_for}
use blackboardx.Service.Answers.{outcome_response}
use blackboardx.Service.Handlers
use blackboardx.Service.Handlers.{decoded, as_key}
use blackboardx.Service.Queries.{read}
use blackboardx.Service.Routing.{answer, act}
use blackboardx.Service.Routed.{IsLawful, IsSegment, operations-IsRouted}
use blackboardx.Client.{Asked, got, Outcome}
use blackboardx.Client.Readings.{premise_outcome}
use blackboardx.Client.Requests.{key_value, is_keyed}
use blackboardx.Client.Reads
use blackboardx.Client.Reads.{sent}
use blackboardx.Client.Answered.{premise_outcome-outcome_response}
use blackboardx.Client.Written.{key-read}
use blackboardx.Client.Sent.{sent-served, outcome-IsFinal}
use blackboardx.Client.Wired.{IsCarried}

module _ (lib : Library) (app : String → App) where
  -- The body that a client sets a premise with.
  abbrev set_body : String → String → Value → ℕ → Option String → Dict Value
  set_body agent premise value expected key =
      ("writer", text agent)
      ∷ ("expected_version", natural expected)
      ∷ ("value", value)
      ∷ ("premise", text premise)
      ∷ ("idempotency_key", key_value lib key)
      ∷ []

  decoded-set :
      (agent premise : String) (value : Value) (expected : ℕ) (key : Option String)
      → decoded lib app set_premise_kind (to_json (set_body agent premise value expected key))
        ≡ read (set_body agent premise value expected key)
  decoded-set agent premise value expected key =
      rw
        (
          decoded,
          from_json-to_json set_premise_kind (set_body agent premise value expected key)
              (refl, refl) refl,
        )
        refl

  set-handled :
      (id premise agent : String) (value : Value) (expected : ℕ) (key : Option String)
      (request : Request) (s : Serving) (w w' : World) (a : WriteAnswer)
      → request.body ≡ to_json (set_body agent premise value expected key)
      → Write.set_premise (app id) premise value expected key agent w ≡ (ok a, w')
      → Handlers.set_premise lib app id w premise request s
        ≡ (responded (outcome_response a), after_run id w' s)
  unfolding Handlers.set_premise get
  set-handled id premise agent value expected key request s w w' a q e =
      let d =
        subst
          (λ b.
            decoded lib app set_premise_kind b ≡ read (set_body agent premise value expected key))
          (sym q) (decoded-set agent premise value expected key) in
      rw (Handlers.set_premise, d, key-read lib app key, e) refl

  answer-set :
      (id premise : String) (request : Request) (s : Serving) (w : World)
      → control_for id s ≡ some w
      → answer lib app set_premise_operation
          (("board_id", id) ∷ ("premise", premise) ∷ [])
          request
          s
        ≡ Handlers.set_premise lib app id w premise request s
  unfolding answer act get
  answer-set id premise request s w h = rw (answer, h) refl

  set_body-as_json :
      (agent premise : String) (value carried : Value) (expected : ℕ) (key : Option String)
      → as_json value ≡ ok carried
      → as_json (to_json (set_body agent premise value expected key))
        ≡ ok (to_json (set_body agent premise carried expected key))
  unfolding as_json fields_of
  set_body-as_json agent premise value carried expected none e = rw (e) refl
  set_body-as_json agent premise value carried expected (some k) e = rw (e) refl

module _ (lib : Library) (law : IsLawful lib) (app : String → App)
    (transport : Asked → Serving → Outcome × Serving) (carried : IsCarried lib app transport)
    (id agent premise : String) (b : IsSegment lib id) (p : IsSegment lib premise) where
  abbrev segment_named : String → String
  segment_named n = if str_eq n "board_id" then id else premise

  -- A client's setting of a premise, to a value that JSON can carry, through a service that holds a run for the board
  -- is the run's own `set_premise`, where that returns: the run is asked once, with the value as JSON carries it and
  -- the same premise, expected version, key and writer, the service is left as the run leaves it, and the client is
  -- given the run's answer, a conflict included. The board's name and the premise's fill a segment of a path, and
  -- the transport writes the body as JSON and brings every response back.
  pub set_premise-served :
      (attempts : ℕ) (value arrived : Value) (expected : ℕ) (key : Option String) (s : Serving)
      (w w' : World) (a : WriteAnswer)
      → as_json value ≡ ok arrived
      → control_for id s ≡ some w
      → Write.set_premise (app id) premise arrived expected key agent w ≡ (ok a, w')
      → Reads.set_premise lib transport id agent (suc attempts) premise value expected key s
        ≡ (got a, after_run id w' s)
  unfolding Reads.set_premise
  set_premise-served attempts value arrived expected key s w w' a dumped h e =
      sent-served lib app transport carried id agent set_premise_operation segment_named []
        (to_json (set_body lib app agent premise value expected key))
        (to_json (set_body lib app agent premise arrived expected key)) (is_keyed lib key)
        (premise_outcome lib) attempts s (after_run id w' s) (outcome_response a)
        (operations-IsRouted lib app segment_named law b p p).1.1.1.1.1.0 law.upper_put
        (set_body-as_json lib app agent premise value arrived expected key dumped)
        (λ request q body.
          answer-set lib app id premise request s w h
          ∙ set-handled lib app id premise agent arrived expected key request s w w' a body e)
        (outcome-IsFinal a)
      ∙ rw (premise_outcome-outcome_response lib a) refl
