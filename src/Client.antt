-- ===== src/Client.antt =====
-- An agent's client over HTTP (src/blackboard/agent.py): the requests it builds, how it reads the answers, how
-- it sends, and `BoardClient`. `AsyncBoardClient` is the same methods with `await` before each call.
--
-- The transport, `httpx`, is a parameter: what it does with a request, from a state of its own. A pause
-- between attempts changes nothing here. A field of another type than its annotation is `untyped`.
pub mod Requests
pub mod Readings
pub mod Reads
pub mod Answered
pub mod Rising
pub mod Followed
pub mod Reached
pub mod Wired
pub mod Served
pub mod Sent
pub mod Written
pub mod Premised
pub mod Bounds
pub mod Faults
pub mod Refused
mod Tests
use blackboardx.Prelude.{
  ℕ, zero, suc, ◌+◌, String, Bool, true, false, Option, none, some, List, [], ◌∷◌, leb, ◌==◌, ◌||◌,
  if◌then◌else◌,
}
use blackboardx.Dict.{Dict}
use blackboardx.Errors.{Error}
use blackboardx.Json.{Value, null}
use blackboardx.Wire.Paths.{Method}

-- What the client raises: the exception of each error name, with its message, a body or a status that it
-- cannot make sense of, and a blackboard that it did not reach.
pub data Fault : Type 0 where
  unknown_board unknown_region wrong_region_kind unset_premise : String → Fault
  unknown_notification idempotency_key_reused : String → Fault
  protocol_error unreachable value_error untyped : Fault
  refused_path : Error → Fault

pub data Got {ℓ} (A : Type ℓ) : Type ℓ where
  got : A → Got A
  failed : Fault → Got A

infixl 5 ◌>>=◌
abbrev pub ◌>>=◌ {i j} : {X : Type i} {Y : Type j} → Got X → (X → Got Y) → Got Y
g >>= next = elim g [ got x ↦ next x | failed f ↦ failed f ]

-- A body as it arrives: none, JSON, or something that is not JSON.
pub data Content : Type 0 where
  empty : Content
  json : Value → Content
  garbled : Content

-- What one attempt meets: `httpx.HTTPError`, or an answer.
pub data Outcome : Type 0 where
  unreached : Outcome
  answered : ℕ → Content → Outcome

-- What a call asks for.
pub record Asked : Type 0 where
  pub method : Method
  pub path : String
  pub query : Dict String
  pub body : Value

-- _Call
pub record Call {ℓ} (A : Type ℓ) : Type ℓ where
  pub asked : Asked
  pub repeatable : Bool
  pub read : ℕ → Value → Got A

-- _again
abbrev pub again : ℕ → Bool
again status = leb 500 status || (status == 408 || (status == 425 || status == 429))

-- _json
abbrev pub content_value : Content → Got Value
content_value empty = got null
content_value (json v) = got v
content_value garbled = failed protocol_error

module _ {ℓ κ} {S : Type ℓ} {A : Type κ} (transport : Asked → S → Outcome × S) (call : Call A) where
  -- The loop of `_send`, with this many attempts left.
  unfoldable pub send_from : ℕ → S → Got A × S
  send_from zero s = (failed unreachable, s)
  send_from (suc left) s =
      let r = transport call.asked s in
      let rest = send_from left r.1 in
      elim r.0 [
        | unreached ↦ if left == 0 then (failed unreachable, r.1) else rest
        | answered status content ↦
            if again status
            then (if left == 0 then (failed unreachable, r.1) else rest)
            else (content_value content >>= call.read status, r.1)
      ]

  -- _send, by a client of this many attempts
  unfoldable pub send : ℕ → S → Got A × S
  send attempts s = send_from (if call.repeatable then attempts else 1) s
