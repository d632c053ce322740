-- ===== src/Wire/Bodies.antt =====
-- The kinds of bodies in src/blackboard/wire.py, what builds each, and the pages.
use blackboardx.Prelude.{Bool, false, List, [], ◌∷◌, map}
use blackboardx.Dict.{Dict}
use blackboardx.Errors.{Result, ok, err, wire_error, ◌>>=◌}
use blackboardx.Json.{Value, object, null, text, natural, bool, array, nil}
use blackboardx.Board.{Region, level, premise}
use blackboardx.Wire.{
  Kind, to_json, from_json, fields_of, value_of, given_or, truthy, read_rows, items_of,
}

-- A field that has no default: `_required` names it, so this is never read.
abbrev pub no_default : Value
no_default = null

abbrev pub notification_kind : Kind
notification_kind = record {
  required = "board_id" ∷ "notification_id" ∷ "agent" ∷ "from_sequence" ∷ "to_sequence" ∷ [];
  fields =
      ("board_id", no_default)
      ∷ ("notification_id", no_default)
      ∷ ("agent", no_default)
      ∷ ("from_sequence", natural 0)
      ∷ ("to_sequence", natural 0)
      ∷ ("regions", array nil)
      ∷ [];
}

abbrev pub write_kind : Kind
write_kind = record {
  required = "writer" ∷ "content" ∷ [];
  fields =
      ("writer", no_default)
      ∷ ("content", null)
      ∷ ("level", text "")
      ∷ ("idempotency_key", null)
      ∷ [];
}

abbrev pub set_premise_kind : Kind
set_premise_kind = record {
  required = "writer" ∷ "value" ∷ "expected_version" ∷ [];
  fields =
      ("writer", no_default)
      ∷ ("expected_version", no_default)
      ∷ ("value", null)
      ∷ ("premise", text "")
      ∷ ("idempotency_key", null)
      ∷ [];
}

abbrev pub ack_kind : Kind
ack_kind = record {
  required = "agent" ∷ "notification_id" ∷ [];
  fields = ("agent", no_default) ∷ ("notification_id", no_default) ∷ [];
}

abbrev pub written_kind : Kind
written_kind = record {
  required = "sequence" ∷ [];
  fields = ("sequence", no_default) ∷ ("version", null) ∷ ("repeated", bool false) ∷ [];
}

abbrev pub conflict_kind : Kind
conflict_kind = record {
  required = "current_version" ∷ [];
  fields = ("current_version", no_default) ∷ [];
}

abbrev pub rejected_kind : Kind
rejected_kind = record {
  required = "cause" ∷ "reason" ∷ [];
  fields = ("cause", no_default) ∷ ("reason", no_default) ∷ [];
}

abbrev pub contribution_kind : Kind
contribution_kind = record {
  required = "sequence" ∷ [];
  fields =
      ("sequence", no_default) ∷ ("content", null) ∷ ("writer", null) ∷ ("written_at", null) ∷ [];
}

abbrev pub change_kind : Kind
change_kind = record {
  required = "sequence" ∷ "region" ∷ [];
  fields =
      ("sequence", no_default)
      ∷ ("region", no_default)
      ∷ ("content", null)
      ∷ ("writer", null)
      ∷ ("written_at", null)
      ∷ [];
}

abbrev pub premise_body_kind : Kind
premise_body_kind = record {
  required = "version" ∷ [];
  fields = ("version", no_default) ∷ ("value", null) ∷ ("writer", null) ∷ ("written_at", null) ∷ [];
}

abbrev pub region_body_kind : Kind
region_body_kind = record {
  required = "name" ∷ "kind" ∷ [];
  fields = ("name", no_default) ∷ ("kind", no_default) ∷ [];
}

abbrev pub error_kind : Kind
error_kind = record {
  required = "error" ∷ [];
  fields = ("error", no_default) ∷ ("detail", text "") ∷ [];
}

abbrev pub kinds : List Kind
kinds =
    notification_kind ∷ write_kind ∷ set_premise_kind ∷ ack_kind ∷ written_kind ∷ conflict_kind
    ∷ rejected_kind ∷ contribution_kind ∷ change_kind ∷ premise_body_kind ∷ region_body_kind
    ∷ error_kind ∷ []

-- A part of a level or of the board.
pub record Page : Type 0 where
  pub rows : List (Dict Value)
  pub has_more : Bool

-- LevelPage.to_json
abbrev pub level_page_to_json : Page → Value
level_page_to_json page = object (
    fields_of (
      ("contributions", array (items_of (map to_json page.rows)))
      ∷ ("has_more", bool page.has_more)
      ∷ []))

-- LevelPage.from_json
unfoldable pub level_page_from_json : Value → Result Page
level_page_from_json (object fs) = do
  rows ← read_rows (from_json contribution_kind) (given_or null (value_of "contributions" fs))
  ok (record { rows = rows; has_more = truthy (given_or (bool false) (value_of "has_more" fs)) })
level_page_from_json _ = err (wire_error [])

-- BoardPage.to_json
abbrev pub board_page_to_json : Page → Value
board_page_to_json page = object (
    fields_of (
      ("changes", array (items_of (map to_json page.rows)))
      ∷ ("has_more", bool page.has_more)
      ∷ []))

-- BoardPage.from_json
unfoldable pub board_page_from_json : Value → Result Page
board_page_from_json (object fs) = do
  rows ← read_rows (from_json change_kind) (given_or null (value_of "changes" fs))
  ok (record { rows = rows; has_more = truthy (given_or (bool false) (value_of "has_more" fs)) })
board_page_from_json _ = err (wire_error [])

-- RegionBody.of
abbrev pub region_body : Region → Dict Value
region_body (level n w) = ("name", text n) ∷ ("kind", text "level") ∷ []
region_body (premise n w) = ("name", text n) ∷ ("kind", text "premise") ∷ []

-- RegionList.to_json
abbrev pub regions_to_json : List (Dict Value) → Value
regions_to_json regions =
    object (fields_of (("regions", array (items_of (map to_json regions))) ∷ []))

-- RegionList.from_json
unfoldable pub regions_from_json : Value → Result (List (Dict Value))
regions_from_json (object fs) =
    read_rows (from_json region_body_kind) (given_or null (value_of "regions" fs))
regions_from_json _ = err (wire_error [])
