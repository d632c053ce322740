-- ===== src/Wire/Pages.antt =====
-- Pages sent and read back (`LevelPage` and `BoardPage` of src/blackboard/wire.py).
use blackboardx.Prelude.{◌≡◌, refl, List, [], ◌∷◌, map, All}
use blackboardx.Dict.{Dict}
use blackboardx.Errors.{ok}
use blackboardx.Json.{Value}
use blackboardx.Wire.{
  Kind, value_of, fields_of, to_json, from_json, read_items, read_rows, items_of, truthy,
}
use blackboardx.Wire.Bodies.{
  Page, level_page_to_json, level_page_from_json, board_page_to_json, board_page_from_json,
  contribution_kind, change_kind,
}
use blackboardx.Wire.RoundTrip.{IsKind, IsBody, from_json-to_json}

pub read_items-bodies :
    (k : Kind) (rows : List (Dict Value))
    → IsKind k
    → All (IsBody k) rows
    → read_items (from_json k) (items_of (map to_json rows)) ≡ ok rows
unfolding read_items
read_items-bodies k [] w h = refl
read_items-bodies k (b ∷ rows) w h =
    rw (from_json-to_json k b w h.0, read_items-bodies k rows w h.1) refl

-- A page of a level or of the board, of rows that are bodies of their class, that the blackboard sends is the page
-- that a client reads: its rows in order, and whether the blackboard holds more.
pub pages_from_json-to_json :
    (level board : Page)
    → All (IsBody contribution_kind) level.rows
    → All (IsBody change_kind) board.rows
    → (level_page_from_json (level_page_to_json level) ≡ ok level)
      × (board_page_from_json (board_page_to_json board) ≡ ok board)
unfolding level_page_from_json board_page_from_json read_rows truthy value_of fields_of
pages_from_json-to_json level board h g = (
  rw (read_items-bodies contribution_kind level.rows (refl, refl) h) refl,
  rw (read_items-bodies change_kind board.rows (refl, refl) g) refl,
)
