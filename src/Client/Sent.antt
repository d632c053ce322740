-- ===== src/Client/Sent.antt =====
-- A call of a client that the service answers finally (`_send` of src/blackboard/agent.py against `handle` of
-- src/blackboard/server.py).
use blackboardx.Prelude.{
  ℕ, suc, ◌≡◌, refl, sym, ◌∙◌, subst, String, Bool, true, false, Option, none, some, if◌then◌else◌,
  inl, inr, Bool-cases, inl, inr, Bool-cases,
}
use blackboardx.Dict.{Dict}
use blackboardx.Control.{App, admission, not_permitted, run_closed, RejectionCause}
use blackboardx.Control.Write.{WriteAnswer, sequenced, conflicts, refused}
use blackboardx.Errors.{ok}
use blackboardx.Json.{null, Value, as_json}
use blackboardx.Wire.Paths.{Operation}
use blackboardx.Service.{Library, Request, Response, responded, Serving}
use blackboardx.Service.Answers.{outcome_response, rejection_response}
use blackboardx.Service.Routing.{answer, method_name}
use blackboardx.Service.Routed.{IsRouted, given}
use blackboardx.Client.{
  Asked, Got, got, Call, Outcome, answered, send, send_from, again, content_value,
}
use blackboardx.Client.Requests.{call_of}
use blackboardx.Client.Reads.{sent}
use blackboardx.Client.Answered.{answered_with}
use blackboardx.Client.Reached.{handle-first}
use blackboardx.Client.Wired.{IsCarried, request_of, content_of}

content_of-value :
    (o : Option Value) → content_value (content_of o) ≡ got (elim o [ none ↦ null | some v ↦ v ])
content_of-value none = refl
content_of-value (some v) = refl

module _ {S : Type 0} {A : Type 0} (transport : Asked → S → Outcome × S) (call : Call A) where
  send_from-final :
      (left : ℕ) (s s' : S) (r : Response)
      → again r.status ≡ false
      → transport call.asked s ≡ (answered r.status (content_of r.body), s')
      → send_from transport call (suc left) s ≡ (answered_with call.read r, s')
  unfolding send_from
  send_from-final left s s' r f e = rw (send_from, e, f, content_of-value r.body) (rw (e) refl)

  -- An answer that is final is read at the first attempt, whether or not the call is repeatable.
  pub send-final :
      (attempts : ℕ) (s s' : S) (r : Response)
      → again r.status ≡ false
      → transport call.asked s ≡ (answered r.status (content_of r.body), s')
      → send transport call (suc attempts) s ≡ (answered_with call.read r, s')
  unfolding send send_from
  send-final attempts s s' r f e = elim (Bool-cases call.repeatable) [
    | inl b ↦ rw (send, b) (send_from-final attempts s s' r f e)
    | inr b ↦ rw (send, b) (send_from-final 0 s s' r f e)
  ]

sequenced-IsFinal : (b : Bool) → again (if b then 200 else 201) ≡ false
sequenced-IsFinal true = refl
sequenced-IsFinal false = refl

rejection-IsFinal :
    (c : RejectionCause) (reason : String) → again (rejection_response c reason).status ≡ false
rejection-IsFinal admission reason = refl
rejection-IsFinal not_permitted reason = refl
rejection-IsFinal run_closed reason = refl

pub outcome-IsFinal : (a : WriteAnswer) → again (outcome_response a).status ≡ false
unfolding outcome_response
outcome-IsFinal (sequenced w) = sequenced-IsFinal w.repeated
outcome-IsFinal (conflicts n) = refl
outcome-IsFinal (refused r) = rejection-IsFinal r.cause r.reason

module _ (lib : Library) (app : String → App) (transport : Asked → Serving → Outcome × Serving)
    (carried : IsCarried lib app transport) (id agent : String) where
  -- A client is given what the operation's handler answers to the body as JSON carries it, read as the call reads it.
  pub sent-served :
      {A : Type 0} (o : Operation) (value : String → String) (query : Dict String)
      (body wire : Value) (repeatable : Bool) (reads : ℕ → Value → Got A) (attempts : ℕ)
      (s s' : Serving) (r : Response)
      → IsRouted lib app value o
      → lib.upper (method_name o.method) ≡ method_name o.method
      → as_json body ≡ ok wire
      → ((request : Request)
          → request.query ≡ query
          → request.body ≡ wire
          → answer lib app o (given value o) request s ≡ (responded r, s'))
      → again r.status ≡ false
      → sent lib transport id agent
          (suc attempts)
          (call_of lib o (given value o) query body repeatable reads)
          s
        ≡ (answered_with reads r, s')
  sent-served {A} o value query body wire repeatable reads attempts s s' r (p, built, reached)
        capital dumped answers final =
      let asked : Asked = record { method = o.method; path = p; query = query; body = body } in
      let call : Call A = record { asked = asked; repeatable = repeatable; read = reads } in
      let calls : call_of lib o (given value o) query body repeatable reads ≡ got call =
        rw (call_of, built) refl in
      let handled =
        handle-first lib app (request_of asked wire) s (method_name o.method) (o, given value o)
          capital reached
        ∙ answers (request_of asked wire) refl refl in
      let brought = carried asked wire s r s' dumped handled in
      let found : Got A × Serving = (answered_with reads r, s') in
      subst (λ c. sent lib transport id agent (suc attempts) c s ≡ found) (sym calls)
        (send-final transport call attempts s s' r final brought)
