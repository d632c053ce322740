-- ===== src/Client/Written.antt =====
-- A write by a client through the service, against the run's own `write` (src/blackboard/agent.py,
-- src/blackboard/server.py, src/blackboard/_control.py).
use blackboardx.Prelude.{
  ℕ, suc, ◌≡◌, refl, sym, ◌∙◌, subst, String, Option, none, some, [], ◌∷◌, str_eq, if◌then◌else◌,
}
use blackboardx.Dict.{Dict, get}
use blackboardx.Errors.{ok}
use blackboardx.Control.{World, App}
use blackboardx.Control.Write
use blackboardx.Control.Write.{WriteAnswer, sequenced, conflicts, refused}
use blackboardx.Json.{Value, text, as_json}
use blackboardx.Wire.{to_json, fields_of}
use blackboardx.Wire.Paths.{write_operation}
use blackboardx.Wire.Bodies.{write_kind}
use blackboardx.Wire.RoundTrip.{from_json-to_json}
use blackboardx.Service.{Library, Request, responded, Serving, after_run, control_for}
use blackboardx.Service.Answers.{outcome_response}
use blackboardx.Service.Handlers
use blackboardx.Service.Handlers.{decoded, as_key}
use blackboardx.Service.Queries.{read}
use blackboardx.Service.Routing.{answer, act}
use blackboardx.Service.Routed.{IsLawful, IsSegment, operations-IsRouted}
use blackboardx.Client.{Asked, got, Outcome}
use blackboardx.Client.Readings.{write_outcome}
use blackboardx.Client.Requests.{key_value, is_keyed}
use blackboardx.Client.Reads
use blackboardx.Client.Reads.{sent}
use blackboardx.Client.Answered.{IsSettled, write_outcome-outcome_response}
use blackboardx.Client.Sent.{sent-served, outcome-IsFinal}
use blackboardx.Client.Wired.{IsCarried}

module _ (lib : Library) (app : String → App) where
  pub key-read : (key : Option String) → as_key (key_value lib key) ≡ some key
  key-read none = refl
  key-read (some k) = refl

  -- The body that a client writes with.
  abbrev write_body : String → String → Value → Option String → Dict Value
  write_body agent level content key =
      ("writer", text agent)
      ∷ ("content", content)
      ∷ ("level", text level)
      ∷ ("idempotency_key", key_value lib key)
      ∷ []

  decoded-write :
      (agent level : String) (content : Value) (key : Option String)
      → decoded lib app write_kind (to_json (write_body agent level content key))
        ≡ read (write_body agent level content key)
  decoded-write agent level content key =
      rw
        (
          decoded,
          from_json-to_json write_kind (write_body agent level content key) (refl, refl) refl,
        )
        refl

  write-handled :
      (id level agent : String) (content : Value) (key : Option String) (request : Request)
      (s : Serving) (w w' : World) (a : WriteAnswer)
      → request.body ≡ to_json (write_body agent level content key)
      → Write.write (app id) level content key agent w ≡ (ok a, w')
      → Handlers.write lib app id w level request s
        ≡ (responded (outcome_response a), after_run id w' s)
  unfolding Handlers.write get
  write-handled id level agent content key request s w w' a q e =
      let d =
        subst (λ b. decoded lib app write_kind b ≡ read (write_body agent level content key))
          (sym q) (decoded-write agent level content key) in
      rw (Handlers.write, d, key-read key, e) refl

  answer-write :
      (id level : String) (request : Request) (s : Serving) (w : World)
      → control_for id s ≡ some w
      → answer lib app write_operation (("board_id", id) ∷ ("level", level) ∷ []) request s
        ≡ Handlers.write lib app id w level request s
  unfolding answer act get
  answer-write id level request s w h = rw (answer, h) refl

  write_body-as_json :
      (agent level : String) (content carried : Value) (key : Option String)
      → as_json content ≡ ok carried
      → as_json (to_json (write_body agent level content key))
        ≡ ok (to_json (write_body agent level carried key))
  unfolding as_json fields_of
  write_body-as_json agent level content carried none e = rw (e) refl
  write_body-as_json agent level content carried (some k) e = rw (e) refl

module _ (lib : Library) (law : IsLawful lib) (app : String → App)
    (transport : Asked → Serving → Outcome × Serving) (carried : IsCarried lib app transport)
    (id agent level : String) (b : IsSegment lib id) (l : IsSegment lib level) where
  abbrev value : String → String
  value n = if str_eq n "board_id" then id else level

  -- A client's write, of content that JSON can carry, through a service that holds a run for the board is the run's own
  -- write, where that returns and answers with no conflict: the run is asked once, with the content as JSON carries
  -- it and the same level, key and writer, the service is left as the run's write leaves it, and the client is
  -- given the run's answer. The board's name and the level's fill a segment of a path, and the transport writes the
  -- body as JSON and brings every response back.
  pub write-served :
      (attempts : ℕ) (content arrived : Value) (key : Option String) (s : Serving) (w w' : World)
      (a : WriteAnswer)
      → as_json content ≡ ok arrived
      → control_for id s ≡ some w
      → Write.write (app id) level arrived key agent w ≡ (ok a, w')
      → IsSettled a
      → Reads.write lib transport id agent (suc attempts) level content key s
        ≡ (got a, after_run id w' s)
  unfolding Reads.write
  write-served attempts content arrived key s w w' a dumped h e settled =
      sent-served lib app transport carried id agent write_operation value []
        (to_json (write_body lib app agent level content key))
        (to_json (write_body lib app agent level arrived key)) (is_keyed lib key)
        (write_outcome lib) attempts s (after_run id w' s) (outcome_response a)
        (operations-IsRouted lib app value law b l l).1.1.1.1.0 law.upper_post
        (write_body-as_json lib app agent level content arrived key dumped)
        (λ request q body.
          answer-write lib app id level request s w h
          ∙ write-handled lib app id level agent arrived key request s w w' a body e)
        (outcome-IsFinal a)
      ∙ rw (write_outcome-outcome_response lib a settled) refl
