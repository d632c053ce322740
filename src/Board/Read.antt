-- ===== src/Board/Read.antt =====
-- The reads of `InMemoryStore` (src/blackboard/_board.py) on one board, under the store's lock.
use blackboardx.Prelude.{
  ℕ, String, Option, none, some, List, ◌++◌, map, filter, take, leb, sort_by, str_le,
}
use blackboardx.Errors.{Result, ok, err, unset_premise, ◌>>=◌}
use blackboardx.Board.{
  Region, level, premise, name_of, Contribution, PremiseState, BoardChange, BoardState,
}
use blackboardx.Board.Write.{level_contributions, premise_state}

-- found if limit is None else found[:limit]
abbrev pub limited {ℓ} : {A : Type ℓ} → Option ℕ → List A → List A
limited none found = found
limited (some n) found = take n found

-- read_level
unfoldable pub read_level_of : String → ℕ → Option ℕ → BoardState → Result (List Contribution)
unfolding level_contributions
read_level_of n from_sequence limit b = do
  contributions ← level_contributions n b
  ok (limited limit (filter (λ c. leb from_sequence c.sequence) contributions))

-- read_premise
unfoldable pub read_premise_of : String → BoardState → Result PremiseState
unfolding premise_state
read_premise_of n b = elim (premise_state n b) [
  | err e ↦ err e
  | ok none ↦ err (unset_premise n)
  | ok (some s) ↦ ok s
]

-- read_board
unfoldable pub read_board_of : ℕ → Option ℕ → BoardState → List BoardChange
read_board_of from_sequence limit b =
    limited limit (filter (λ c. leb from_sequence c.sequence) b.changes)

-- read_regions
unfoldable pub read_regions_of : BoardState → List Region
unfolding sort_by str_le
read_regions_of b =
    sort_by (λ r s. str_le (name_of r) (name_of s))
      (map (λ e. level e.0 0) b.levels ++ map (λ e. premise e.0 0) b.premises)
