-- ===== src/Control/Passed.antt =====
-- What `_relay_by_address` (src/blackboard/_control.py) does for an agent that answered everything the one
-- page of the board holds that the pass reads.
use blackboardx.Prelude.{
  zero, ℕ, suc, ◌+◌, ◌≤◌, String, ◌≡◌, refl, sym, subst, false, List, [], ◌∷◌, ◌++◌, str_eq, true,
  arith, take, filter, All, leb,
}
use blackboardx.Dict.{Dict}
use blackboardx.Board.{AgentProgress, BoardChange, Unsent}
use blackboardx.Board.Read.{read_board_of}
use blackboardx.Board.Log.Views.{Numbered}
use blackboardx.Board.Log.Keeps.{IsRecord}
use blackboardx.Store
use blackboardx.Store.{board_of}
use blackboardx.Control.{World, App, RegionKind, tail_limit}
use blackboardx.Control.Tail.{owed_regions, tail_from}
use blackboardx.Control.Relay.{relay_one, row_through}

abbrev IsUpTo : ℕ → List BoardChange → Type 0
IsUpTo n = All (λ (c : BoardChange). c.sequence ≤ n)

all_kept : (cs : List BoardChange) → filter (λ c. leb 0 c.sequence) cs ≡ cs
all_kept [] = refl
all_kept (c ∷ cs) = ground (arith, all_kept cs)

take-IsUpTo : (k n : ℕ) (cs : List BoardChange) → Numbered k cs → IsUpTo (k + n) (take n cs)
take-IsUpTo k zero cs h = tt
take-IsUpTo k (suc n) [] h = tt
take-IsUpTo k (suc n) (c ∷ cs) h = (
  omega (arith, h.0),
  subst (λ i. IsUpTo i (take n cs)) (omega arith) (take-IsUpTo (suc k) n cs h.1),
)

nothing_owed :
    (p : AgentProgress) (kinds : Dict RegionKind) (cs : List BoardChange)
    → IsUpTo p.acknowledged_through cs
    → owed_regions p kinds cs ≡ []
unfolding owed_regions
nothing_owed p kinds [] h = refl
nothing_owed p kinds (c ∷ cs) h = ground (arith, h.0, nothing_owed p kinds cs h.1)

raised : (m n : ℕ) (cs : List BoardChange) → m ≤ n → IsUpTo m cs → IsUpTo n cs
raised m n [] l h = tt
raised m n (c ∷ cs) l h = (omega (arith, l, h.0), raised m n cs l h.1)

-- The page that the pass reads holds changes up to the 1,000th alone.
page-IsUpTo :
    (w : World) → IsRecord (board_of w.board_id w.store) → IsUpTo tail_limit (tail_from 0 w)
unfolding read_board_of
page-IsUpTo w v =
    subst (λ cs. IsUpTo tail_limit (take tail_limit cs))
      (sym (all_kept (board_of w.board_id w.store).changes))
      (take-IsUpTo 0 tail_limit (board_of w.board_id w.store).changes v.numbered)

-- No row of these is the agent's.
abbrev pub NoneFor : String → List Unsent → Type 0
NoneFor name = All (λ (r : Unsent). str_eq r.agent name ≡ false)

row_through-none :
    (name : String) (rows : List Unsent) (k : ℕ) → NoneFor name rows → row_through name rows k ≡ k
row_through-none name [] k h = refl
row_through-none name (r ∷ rows) k h = rw (h.0) (row_through-none name rows k h.1)

row_through-last :
    (name : String) (before rest : List Unsent) (row : Unsent) (k : ℕ)
    → str_eq row.agent name ≡ true
    → NoneFor name rest
    → row_through name (before ++ row ∷ rest) k ≡ row.through
row_through-last name [] rest row k e h =
    rw (row_through, e) (row_through-none name rest row.through h)
row_through-last name (r ∷ before) rest row k e h = row_through-last name before rest row _ e h

-- What a relay does for one agent that it reaches by address, once the agent has answered the first 1,000 changes:
-- it finds nothing that the agent is owed, whatever the board holds after them, and sends nothing to it. It marks the
-- agent's outbox row, the last of them if there are several, sent all the same, through the change that the row names.
pub relay_one_passed :
    (app : App) (before rest : List Unsent) (row : Unsent) (agent : AgentProgress)
    (address : String) (w : World)
    → IsRecord (board_of w.board_id w.store)
    → 1000 ≤ agent.acknowledged_through
    → str_eq row.agent agent.agent ≡ true
    → NoneFor agent.agent rest
    → relay_one app (before ++ row ∷ rest) (tail_from 0 w) agent address w
      ≡ (false, record w { store = Store.mark_sent w.board_id agent.agent row.through w.store })
unfolding relay_one
relay_one_passed app before rest row agent address w v l e h =
    rw
      (
        nothing_owed agent w.kinds (tail_from 0 w) (raised 1000 _ _ l (page-IsUpTo w v)),
        relay_one,
        row_through-last agent.agent before rest row 0 e h,
      )
      refl
