-- ===== src/Client/Faults.antt =====
-- The errors of the run and of its store, through the service's statuses to the client's exceptions (`_answer`
-- of src/blackboard/server.py, `_refuse` and `_RAISES` of src/blackboard/agent.py).
use blackboardx.Prelude.{
  ℕ, ◌≡◌, refl, String, true, false, Option, none, some, str_eq, leb, ltb, ◌&&◌, ◌==◌,
}
use blackboardx.Errors
use blackboardx.Errors.{Error}
use blackboardx.Dict.{get}
use blackboardx.Service.Queries.{error_response}
use blackboardx.Wire.{from_json, value_of, fields_of}
use blackboardx.Service.{Library, Response, responded}
use blackboardx.Service.Answers.{caught}
use blackboardx.Client
use blackboardx.Client.{Fault, again}
use blackboardx.Client.Readings.{fault_named, refuse, detail, named}
use blackboardx.Client.Answered.{body_value}

-- What a client raises for each error that the service answers for, with this message. It has an exception of the
-- same name for all but a run that has closed.
abbrev pub fault_of : Error → String → Option Fault
fault_of (Errors.undeclared_region n) said = some (Client.unknown_region said)
fault_of (Errors.region_kind n) said = some (Client.wrong_region_kind said)
fault_of (Errors.unset_premise n) said = some (Client.unset_premise said)
fault_of (Errors.unknown_notification n agent) said = some (Client.unknown_notification said)
fault_of (Errors.idempotency_key k) said = some (Client.idempotency_key_reused said)
fault_of Errors.run_closed said = some Client.protocol_error
fault_of e said = none

refuse-named :
    (lib : Library) (status : ℕ) (name said : String)
    → (leb 400 status && ltb status 500) ≡ true
    → str_eq said "" ≡ false
    → refuse lib status (body_value (error_response status name said)) ≡ fault_named lib name said
unfolding refuse detail named from_json value_of fields_of get
refuse-named lib status name said e s = rw (refuse, e, s) refl

pub refuse-caught :
    (lib : Library) (e : Error) (f : Fault)
    → str_eq (lib.said e) "" ≡ false
    → fault_of e (lib.said e) ≡ some f
    → (r : Response) × (caught lib e ≡ responded r)
      × (again r.status ≡ false)
      × ((r.status == 200) ≡ false)
      × (refuse lib r.status (body_value r) ≡ f)
unfolding caught
refuse-caught lib (Errors.undeclared_region n) f s h =
    (_, refl, refl, refl, rw (refuse-named lib 404 "unknown_region" _ refl s) (cc h))
refuse-caught lib (Errors.region_kind n) f s h =
    (_, refl, refl, refl, rw (refuse-named lib 404 "wrong_region_kind" _ refl s) (cc h))
refuse-caught lib (Errors.unset_premise n) f s h =
    (_, refl, refl, refl, rw (refuse-named lib 404 "unset_premise" _ refl s) (cc h))
refuse-caught lib (Errors.unknown_notification n agent) f s h =
    (_, refl, refl, refl, rw (refuse-named lib 404 "unknown_notification" _ refl s) (cc h))
refuse-caught lib (Errors.idempotency_key k) f s h =
    (_, refl, refl, refl, rw (refuse-named lib 409 "idempotency_key_reused" _ refl s) (cc h))
refuse-caught lib (Errors.duplicate_region n) f s h = absurd (cc h)
refuse-caught lib Errors.type_error f s h = absurd (cc h)
refuse-caught lib Errors.value_error f s h = absurd (cc h)
refuse-caught lib Errors.run_closed f s h =
    (_, refl, refl, refl, rw (refuse-named lib 410 "run_closed" _ refl s) (cc h))
refuse-caught lib (Errors.premise_value n) f s h = absurd (cc h)
refuse-caught lib (Errors.premise_error a b) f s h = absurd (cc h)
refuse-caught lib (Errors.duplicate_agent a) f s h = absurd (cc h)
refuse-caught lib Errors.assertion_failed f s h = absurd (cc h)
refuse-caught lib (Errors.wire_error ns) f s h = absurd (cc h)
refuse-caught lib Errors.not_implemented f s h = absurd (cc h)
