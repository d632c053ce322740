-- ===== src/Store/Stays.antt =====
-- What calls of `InMemoryStore` (src/blackboard/_board.py) leave standing on a board, as a rule for
-- lists of calls.
use blackboardx.Prelude.{String, ◌≡◌, subst, sym, Bool, true, false, List, [], ◌∷◌, All}
use blackboardx.Board.{BoardState}
use blackboardx.Store.{Store, board_of}
use blackboardx.Store.Calls.{Call, run, effect, effects, calls_on, deletes, opens_run, closes_run}
use blackboardx.Store.Isolation.{board_of-run}

-- The board is not deleted.
abbrev pub keeps_board : Call → Bool
keeps_board deletes = false
keeps_board _ = true

-- The board's run is neither deleted nor opened again.
abbrev pub keeps_run : Call → Bool
keeps_run deletes = false
keeps_run (opens_run now wall idle) = false
keeps_run _ = true

-- The board's run is neither deleted nor closed.
abbrev pub keeps_agents : Call → Bool
keeps_agents deletes = false
keeps_agents (closes_run closed_as reason unfinished) = false
keeps_agents _ = true

-- Every call on the board passes the test.
abbrev pub AllOn : (Call → Bool) → String → List (String × Call) → Type 0
AllOn test id cs = All (λ c. test c ≡ true) (calls_on id cs)

module _ {P : BoardState → Type 0} (test : Call → Bool)
    (keep : (c : Call) (b : BoardState) → test c ≡ true → P b → P (effect c b)) where
  effects-stays :
      (cs : List Call) (b : BoardState) → All (λ c. test c ≡ true) cs → P b → P (effects cs b)
  unfolding effects
  effects-stays [] b h p = p
  effects-stays (c ∷ cs) b h p = effects-stays cs (effect c b) h.1 (keep c b h.0 p)

  pub run-stays :
      (id : String) (cs : List (String × Call)) (s : Store)
      → AllOn test id cs
      → P (board_of id s)
      → P (board_of id (run cs s))
  run-stays id cs s h p =
      subst P (sym (board_of-run id cs s)) (effects-stays (calls_on id cs) (board_of id s) h p)
