-- ===== src/Client/Requests.antt =====
-- The requests that a client builds (`_read_level_call` and the like, src/blackboard/agent.py).
use blackboardx.Prelude.{ℕ, String, Bool, true, false, Option, none, some, List, [], ◌∷◌}
use blackboardx.Dict.{Dict}
use blackboardx.Errors
use blackboardx.Errors.{Result}
use blackboardx.Json.{Value, null, text, natural}
use blackboardx.Board.{Region, PremiseState}
use blackboardx.Control.Write.{WriteAnswer}
use blackboardx.Wire.{to_json}
use blackboardx.Wire.Bodies.{Page}
use blackboardx.Wire.Paths.{
  Operation, path, read_regions_operation, read_level_operation, read_premise_operation,
  read_board_operation, write_operation, set_premise_operation, ack_operation,
}
use blackboardx.Service.{Library}
use blackboardx.Client.{Got, got, failed, refused_path, Call}
use blackboardx.Client.Readings

module _ (lib : Library) where
  -- _bounds
  abbrev pub bounds : ℕ → Option ℕ → Dict String
  bounds from_sequence none = ("from_sequence", lib.str_of from_sequence) ∷ []
  bounds from_sequence (some n) =
      ("from_sequence", lib.str_of from_sequence) ∷ ("limit", lib.str_of n) ∷ []

  -- A call of this operation, where its path takes these variables.
  abbrev pub call_of {ℓ} :
      {A : Type ℓ}
      → Operation
      → Dict String
      → Dict String
      → Value
      → Bool
      → (ℕ → Value → Got A)
      → Got (Call A)
  call_of operation variables query body repeatable read =
      elim (path lib.quote operation variables) [
        | Errors.err e ↦ failed (refused_path e)
        | Errors.ok p ↦ got (record {
          asked = record { method = operation.method; path = p; query = query; body = body };
          repeatable = repeatable;
          read = read;
        })
      ]

  abbrev pub on_board : String → Dict String
  on_board board_id = ("board_id", board_id) ∷ []

  -- _read_regions_call
  abbrev pub read_regions_call : String → Got (Call (List Region))
  read_regions_call board_id =
      call_of read_regions_operation (on_board board_id) [] null true (Readings.regions lib)

  -- _read_level_call
  abbrev pub read_level_call : String → String → ℕ → Option ℕ → Got (Call Page)
  read_level_call board_id level from_sequence limit =
      call_of read_level_operation (("board_id", board_id) ∷ ("level", level) ∷ [])
        (bounds from_sequence limit) null true (Readings.level_page lib)

  -- _read_premise_call
  abbrev pub read_premise_call : String → String → Got (Call PremiseState)
  read_premise_call board_id premise =
      call_of read_premise_operation (("board_id", board_id) ∷ ("premise", premise) ∷ []) [] null
        true (Readings.premise_state lib)

  -- _read_board_call
  abbrev pub read_board_call : String → ℕ → Option ℕ → Got (Call Page)
  read_board_call board_id from_sequence limit =
      call_of read_board_operation (on_board board_id) (bounds from_sequence limit) null true
        (Readings.board_page lib)

  -- An idempotency key as a body carries it, and whether there is one.
  abbrev pub key_value : Option String → Value
  key_value none = null
  key_value (some k) = text k

  abbrev pub is_keyed : Option String → Bool
  is_keyed none = false
  is_keyed (some k) = true

  -- _write_call
  abbrev pub write_call : String → String → String → Value → Option String → Got (Call WriteAnswer)
  write_call board_id agent level content key =
      call_of write_operation (("board_id", board_id) ∷ ("level", level) ∷ []) []
        (to_json (
          ("writer", text agent)
          ∷ ("content", content)
          ∷ ("level", text level)
          ∷ ("idempotency_key", key_value key)
          ∷ []))
        (is_keyed key) (Readings.write_outcome lib)

  -- _set_premise_call
  abbrev pub set_premise_call :
      String → String → String → Value → ℕ → Option String → Got (Call WriteAnswer)
  set_premise_call board_id agent premise value expected key =
      call_of set_premise_operation (("board_id", board_id) ∷ ("premise", premise) ∷ []) []
        (to_json (
          ("writer", text agent)
          ∷ ("expected_version", natural expected)
          ∷ ("value", value)
          ∷ ("premise", text premise)
          ∷ ("idempotency_key", key_value key)
          ∷ []))
        (is_keyed key) (Readings.premise_outcome lib)

  -- _ack_call
  abbrev pub ack_call : String → String → ℕ → Got (Call (Unit {0}))
  ack_call board_id agent notification_id =
      call_of ack_operation (on_board board_id) []
        (to_json (("agent", text agent) ∷ ("notification_id", natural notification_id) ∷ [])) true
        (Readings.nothing lib)
