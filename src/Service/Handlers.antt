-- ===== src/Service/Handlers.antt =====
-- The handlers of `BoardService`, one function for each operation (src/blackboard/server.py).
use blackboardx.Prelude.{ℕ, String, Option, none, some, [], map}
use blackboardx.Dict.{Dict, get_or}
use blackboardx.Errors.{Result, ok, err}
use blackboardx.Json.{Value, null, text, natural}
use blackboardx.Store
use blackboardx.Store.{Store}
use blackboardx.Control.{World, App}
use blackboardx.Control.Write
use blackboardx.Control.Write.{WriteAnswer}
use blackboardx.Control.Answer
use blackboardx.Wire.{Kind, from_json, to_json}
use blackboardx.Wire.Bodies.{
  write_kind, set_premise_kind, ack_kind, level_page_to_json, board_page_to_json, regions_to_json,
  region_body,
}
use blackboardx.Service.{Library, Request, Response, Reply, responded, untyped, Serving, after_run}
use blackboardx.Service.Queries.{error_response, Read, read, refused, read_bounds, one_more, trim}
use blackboardx.Service.Answers.{
  outcome_response, caught, contribution_body, change_body, premise_body,
}

-- The fields that a handler takes from a body, where they have the types of their annotations.
abbrev pub as_text : Value → Option String
as_text (text s) = some s
as_text _ = none

abbrev pub as_natural : Value → Option ℕ
as_natural (natural n) = some n
as_natural _ = none

abbrev pub as_key : Value → Option (Option String)
as_key null = some none
as_key (text s) = some (some s)
as_key _ = none

abbrev pub value_at : String → Dict Value → Value
value_at n body = get_or n null body

abbrev pub ok_json : Value → Response
ok_json body = record { status = 200; body = some body; headers = [] }

module _ (lib : Library) (app : String → App) where
  -- A call that a run made, or the exception that `_answer` catches.
  abbrev pub settle {ℓ} : {A : Type ℓ} → (A → Response) → Result A → Reply
  settle answer (ok a) = responded (answer a)
  settle answer (err e) = caught lib e

  -- _decode
  abbrev pub decoded : Kind → Value → Read (Dict Value)
  decoded kind body = elim (from_json kind body) [
    | ok found ↦ read found
    | err e ↦ refused (error_response 400 "bad_body" (lib.said e))
  ]

  -- _read_regions
  unfoldable pub read_regions : String → Serving → Reply × Serving
  read_regions id s =
      let r = Store.read_regions id s.store in
      (responded (ok_json (regions_to_json (map region_body r.0))), record s { store = r.1 })

  -- _read_level
  unfoldable pub read_level : String → String → Request → Serving → Reply × Serving
  read_level id level request s = elim (read_bounds lib request.query) [
    | refused response ↦ (responded response, s)
    | read (from_sequence, limit) ↦
        let r = Store.read_level id level from_sequence (one_more limit) s.store in
        (
          settle
              (λ found.
                let page = trim found limit in
                ok_json (
                  level_page_to_json
                    (record { rows = map (contribution_body lib) page.0; has_more = page.1 })))
              r.0,
          record s { store = r.1 },
        )
  ]

  -- _read_premise
  unfoldable pub read_premise : String → String → Serving → Reply × Serving
  read_premise id premise s =
      let r = Store.read_premise id premise s.store in
      (settle (λ state. ok_json (to_json (premise_body lib state))) r.0, record s { store = r.1 })

  -- _read_board
  unfoldable pub read_board : String → Request → Serving → Reply × Serving
  read_board id request s = elim (read_bounds lib request.query) [
    | refused response ↦ (responded response, s)
    | read (from_sequence, limit) ↦
        let r = Store.read_board id from_sequence (one_more limit) s.store in
        let page = trim r.0 limit in
        (
          responded (
              ok_json (
                board_page_to_json
                  (record { rows = map (change_body lib) page.0; has_more = page.1 }))),
          record s { store = r.1 },
        )
  ]

  -- _write
  unfoldable pub write : String → World → String → Request → Serving → Reply × Serving
  write id w level request s = elim (decoded write_kind request.body) [
    | refused response ↦ (responded response, s)
    | read asked ↦ elim (as_text (value_at "writer" asked)) [
      | none ↦ (untyped, s)
      | some writer ↦ elim (as_key (value_at "idempotency_key" asked)) [
        | none ↦ (untyped, s)
        | some key ↦
            let r = Write.write (app id) level (value_at "content" asked) key writer w in
            (settle outcome_response r.0, after_run id r.1 s)
      ]
    ]
  ]

  -- _set_premise
  unfoldable pub set_premise : String → World → String → Request → Serving → Reply × Serving
  set_premise id w premise request s = elim (decoded set_premise_kind request.body) [
    | refused response ↦ (responded response, s)
    | read asked ↦ elim (as_text (value_at "writer" asked)) [
      | none ↦ (untyped, s)
      | some writer ↦ elim (as_key (value_at "idempotency_key" asked)) [
        | none ↦ (untyped, s)
        | some key ↦ elim (as_natural (value_at "expected_version" asked)) [
          | none ↦ (untyped, s)
          | some expected ↦
              let r =
                Write.set_premise (app id) premise (value_at "value" asked) expected key writer w in
              (settle outcome_response r.0, after_run id r.1 s)
        ]
      ]
    ]
  ]

  -- _ack
  unfoldable pub ack : String → World → Request → Serving → Reply × Serving
  ack id w request s = elim (decoded ack_kind request.body) [
    | refused response ↦ (responded response, s)
    | read asked ↦ elim (as_text (value_at "agent" asked)) [
      | none ↦ (untyped, s)
      | some agent ↦ elim (as_natural (value_at "notification_id" asked)) [
        | none ↦ (untyped, s)
        | some through ↦
            let r = Answer.ack through agent w in
            (
              settle (λ u. record { status = 204; body = none; headers = [] }) r.0,
              after_run id r.1 s,
            )
      ]
    ]
  ]
