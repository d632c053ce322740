-- ===== src/Client/Readings.antt =====
-- How a client reads an answer's status and body (src/blackboard/agent.py).
use Prim.Native.String
use blackboardx.Prelude.{
  ℕ, String, Bool, Option, none, some, List, [], ◌∷◌, leb, ltb, ◌==◌, ◌&&◌, ◌||◌, str_eq,
  if◌then◌else◌,
}
use blackboardx.Dict.{Dict}
use blackboardx.Errors
use blackboardx.Json.{Value, object, null, text, natural, bool}
use blackboardx.Board.{Region, level, premise, Contribution, BoardChange, PremiseState}
use blackboardx.Control.{RejectionCause, admission, not_permitted, run_closed, Rejected}
use blackboardx.Control.Write.{WriteAnswer, sequenced, conflicts, refused}
use blackboardx.Wire.{from_json, value_of}
use blackboardx.Wire.Bodies.{
  written_kind, conflict_kind, rejected_kind, premise_body_kind, error_kind, Page,
  level_page_from_json, board_page_from_json, regions_from_json,
}
use blackboardx.Service.{Library}
use blackboardx.Service.Handlers.{as_text, as_natural, value_at}
use blackboardx.Client.{
  Fault, Got, got, failed, ◌>>=◌, unknown_board, unknown_region, wrong_region_kind, unset_premise,
  unknown_notification, idempotency_key_reused, protocol_error, value_error, untyped,
}

-- A field of its annotation's type.
abbrev pub typed {ℓ} : {A : Type ℓ} → Option A → Got A
typed none = failed untyped
typed (some a) = got a

abbrev pub optional_text : Value → Got (Option String)
optional_text null = got none
optional_text (text s) = got (some s)
optional_text _ = failed untyped

abbrev pub optional_natural : Value → Got (Option ℕ)
optional_natural null = got none
optional_natural (natural n) = got (some n)
optional_natural _ = failed untyped

abbrev pub as_bool : Value → Got Bool
as_bool (bool b) = got b
as_bool _ = failed untyped

abbrev pub each {ℓ κ} : {A : Type ℓ} {B : Type κ} → (A → Got B) → List A → Got (List B)
each f [] = got []
each f (a ∷ as') = do b ← f a; bs ← each f as'; got (b ∷ bs)

-- _decode
abbrev pub decode {ℓ} : {A : Type ℓ} → Errors.Result A → Got A
decode (Errors.ok a) = got a
decode (Errors.err Errors.type_error) = failed untyped
decode (Errors.err e) = failed protocol_error

-- _detail
unfoldable pub detail : Value → String
detail (object fs) = elim (value_of "detail" fs) [ some (text s) ↦ s | _ ↦ "" ]
detail _ = ""

-- _named: the name of the error that a body carries, or no name
unfoldable pub named : Value → Got String
named (object fs) = elim (from_json error_kind (object fs)) [
  | Errors.err e ↦ got ""
  | Errors.ok found ↦ typed (as_text (value_at "error" found))
]
named _ = got ""

module _ (lib : Library) where
  abbrev pub message : ℕ → Value → String
  message status body =
      if str_eq (detail body) ""
      then String.◌++◌ "the blackboard answered " (lib.str_of status)
      else detail body

  -- _RAISES
  abbrev pub fault_named : String → String → Fault
  fault_named name said =
      if str_eq name "unknown_board"
      then unknown_board said
      else if str_eq name "unknown_region"
      then unknown_region said
      else if str_eq name "wrong_region_kind"
      then wrong_region_kind said
      else if str_eq name "unset_premise"
      then unset_premise said
      else if str_eq name "unknown_notification"
      then unknown_notification said
      else if str_eq name "idempotency_key_reused"
      then idempotency_key_reused said
      else protocol_error

  -- _refuse, of a status that is not among those expected
  unfoldable pub refuse : ℕ → Value → Fault
  refuse status body =
      if leb 400 status && ltb status 500
      then (elim (named body) [ failed f ↦ f | got name ↦ fault_named name (message status body) ])
      else protocol_error

  -- A read that answers 200.
  abbrev pub at_200 {ℓ} : {A : Type ℓ} → (Value → Got A) → ℕ → Value → Got A
  at_200 read status body = if status == 200 then read body else failed (refuse status body)

  -- RegionBody.declaration
  abbrev pub declaration : Dict Value → Got Region
  declaration body = do
    n ← typed (as_text (value_at "name" body))
    k ← typed (as_text (value_at "kind" body))
    got (if str_eq k "level" then level n 0 else premise n 0)

  -- _regions
  unfoldable pub regions : ℕ → Value → Got (List Region)
  regions = at_200 (λ body. decode (regions_from_json body) >>= each declaration)

  -- _instant
  abbrev pub instant : Value → Got (Option ℕ)
  instant null = got none
  instant (text s) = elim (lib.fromisoformat s) [
    | none ↦ failed value_error
    | some i ↦ got (some i)
  ]
  instant _ = failed untyped

  -- The contribution that a client makes of a body.
  unfoldable pub contribution : Dict Value → Got Contribution
  contribution body = do
    n ← typed (as_natural (value_at "sequence" body))
    writer ← optional_text (value_at "writer" body)
    at ← instant (value_at "written_at" body)
    got (record {
      sequence = n;
      content = value_at "content" body;
      writer = writer;
      written_at = at;
    })

  unfoldable pub change : Dict Value → Got BoardChange
  change body = do
    n ← typed (as_natural (value_at "sequence" body))
    region ← typed (as_text (value_at "region" body))
    writer ← optional_text (value_at "writer" body)
    at ← instant (value_at "written_at" body)
    got (record {
      sequence = n;
      region = region;
      content = value_at "content" body;
      writer = writer;
      written_at = at;
    })

  -- _level_page
  unfoldable pub level_page : ℕ → Value → Got Page
  level_page = at_200 (λ body. decode (level_page_from_json body))

  -- _board_page
  unfoldable pub board_page : ℕ → Value → Got Page
  board_page = at_200 (λ body. decode (board_page_from_json body))

  -- _premise
  unfoldable pub premise_state : ℕ → Value → Got PremiseState
  premise_state = at_200 (λ body. do
    found ← decode (from_json premise_body_kind body)
    version ← typed (as_natural (value_at "version" found))
    writer ← optional_text (value_at "writer" found)
    at ← instant (value_at "written_at" found)
    got (record {
      value = value_at "value" found;
      version = version;
      writer = writer;
      written_at = at;
    }))

  -- RejectionCause(value)
  abbrev pub cause_of : String → Got RejectionCause
  cause_of s =
      if str_eq s "admission"
      then got admission
      else if str_eq s "not_permitted"
      then got not_permitted
      else if str_eq s "run_closed"
      then got run_closed
      else failed protocol_error

  -- _rejection
  unfoldable pub rejection : Value → Got Rejected
  rejection body = do
    found ← decode (from_json rejected_kind body)
    said ← typed (as_text (value_at "cause" found))
    reason ← typed (as_text (value_at "reason" found))
    cause ← cause_of said
    got (record { cause = cause; reason = reason })

  abbrev pub written_answer : ℕ → Value → Got WriteAnswer
  written_answer status body = do
    found ← decode (from_json written_kind body)
    n ← typed (as_natural (value_at "sequence" found))
    version ← optional_natural (value_at "version" found)
    repeated ← as_bool (value_at "repeated" found)
    got (
        sequenced
          (record { sequence = n; version = version; repeated = repeated || status == 200 }))

  -- _write_outcome: a 409 that names a reused key is refused as any 4xx with a name is
  unfoldable pub write_outcome : ℕ → Value → Got WriteAnswer
  write_outcome status body =
      if status == 200 || status == 201
      then written_answer status body
      else if status == 422
      then (do r ← rejection body; got (refused r))
      else if status == 410
      then got (refused (record { cause = run_closed; reason = detail body }))
      else failed (refuse status body)

  abbrev pub conflict_answer : Value → Got WriteAnswer
  conflict_answer body = do
    found ← decode (from_json conflict_kind body)
    current ← typed (as_natural (value_at "current_version" found))
    got (conflicts current)

  -- _premise_outcome
  unfoldable pub premise_outcome : ℕ → Value → Got WriteAnswer
  premise_outcome status body =
      if status == 409
      then (elim (named body) [
        | failed f ↦ failed f
        | got name ↦
            if str_eq name "idempotency_key_reused"
            then failed (refuse status body)
            else conflict_answer body
      ])
      else write_outcome status body

  -- _nothing
  unfoldable pub nothing : ℕ → Value → Got (Unit {0})
  nothing status body =
      if status == 200 || status == 204 then got tt else failed (refuse status body)
