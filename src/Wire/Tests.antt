-- ===== src/Wire/Tests.antt =====
-- The theorems of the wire's bodies (src/blackboard/wire.py) at concrete bodies.
use blackboardx.Prelude.{
  ◌≡◌, refl, true, false, [], ◌∷◌, str_eq, eq_iff, subst, sym, contains, inl, inr, Bool-cases,
}
use blackboardx.Dict.{Dict}
use blackboardx.Errors.{ok}
use blackboardx.Json.{Value, null, text, natural, object, field, name}
use blackboardx.Wire.{from_json, to_json, fields_of, value_of}
use blackboardx.Wire.Bodies.{
  ack_kind, level_page_to_json, level_page_from_json, board_page_to_json, board_page_from_json,
}
use blackboardx.Wire.RoundTrip.{AgreeOn, names, from_json-to_json, from_json_tolerant}
use blackboardx.Wire.Pages.{pages_from_json-to_json}

abbrev ack_body : Dict Value
ack_body = ("agent", text "triage") ∷ ("notification_id", natural 4) ∷ []

from_json-to_json_example : from_json ack_kind (to_json ack_body) ≡ ok ack_body
from_json-to_json_example = from_json-to_json ack_kind ack_body (refl, refl) refl

abbrev contribution_row : Dict Value
contribution_row =
    ("sequence", natural 7) ∷ ("content", text "oom") ∷ ("writer", null) ∷ ("written_at", null) ∷ []

abbrev change_row : Dict Value
change_row =
    ("sequence", natural 8)
    ∷ ("region", text "window")
    ∷ ("content", null)
    ∷ ("writer", null)
    ∷ ("written_at", null)
    ∷ []

pages_from_json-to_json_example :
    (level_page_from_json
        (level_page_to_json (record { rows = contribution_row ∷ []; has_more = true }))
      ≡ ok (record { rows = contribution_row ∷ []; has_more = true }))
    × (board_page_from_json
          (board_page_to_json (record { rows = change_row ∷ []; has_more = false }))
        ≡ ok (record { rows = change_row ∷ []; has_more = false }))
pages_from_json-to_json_example =
    pages_from_json-to_json (record { rows = contribution_row ∷ []; has_more = true })
      (record { rows = change_row ∷ []; has_more = false }) (refl, tt) (refl, tt)

-- A field that is named differently from those of the class.
extra-unread :
    AgreeOn
      (names ack_kind.fields)
      (field (name "extra") null (fields_of ack_body))
      (fields_of ack_body)
unfolding value_of fields_of
extra-unread n h = elim (Bool-cases (str_eq "extra" n)) [
  | inl e ↦
      let clash : contains (names ack_kind.fields) "extra" ≡ true =
        subst (λ m. contains (names ack_kind.fields) m ≡ true) (sym ((eq_iff "extra" n).0 e)) h in
      absurd (cc clash)
  | inr e ↦ rw (e) refl
]

from_json_tolerant_example :
    from_json ack_kind (object (field (name "extra") null (fields_of ack_body)))
    ≡ from_json ack_kind (to_json ack_body)
from_json_tolerant_example =
    from_json_tolerant ack_kind (field (name "extra") null (fields_of ack_body))
      (fields_of ack_body) (refl, refl) extra-unread
