-- ===== src/Board/Outbox.antt =====
-- A board's outbox in `InMemoryStore` (src/blackboard/_board.py): for each agent the sequences at which
-- a notification that a write recorded ends, until it is sent.
use blackboardx.Prelude.{ℕ, String, none, some, List, [], ◌∷◌, ◌++◌, map, filter, leb, not, sort_by}
use blackboardx.Dict.{Dict, get, put, remove}
use blackboardx.Board.{Unsent, BoardState}

abbrev pub keep_above : ℕ → List ℕ → List ℕ
keep_above through = filter (λ n. not (leb n through))

-- mark_sent
unfoldable pub mark_sent_on : String → ℕ → BoardState → BoardState
mark_sent_on agent through b = elim (get agent b.outbox) [
  | none ↦ b
  | some pending ↦ elim (keep_above through pending) [
    | [] ↦ record b { outbox = remove agent b.outbox }
    | n ∷ ns ↦ record b { outbox = put agent (n ∷ ns) b.outbox }
  ]
]

-- The rows that one board gives `unsent`.
unfoldable pub unsent_of : String → Dict (List ℕ) → List Unsent
unfolding sort_by
unsent_of board_id [] = []
unsent_of board_id ((agent, pending) ∷ outbox) =
    map (λ n. record { board_id = board_id; agent = agent; through = n }) (sort_by leb pending)
    ++ unsent_of board_id outbox
