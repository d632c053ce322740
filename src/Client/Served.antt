-- ===== src/Client/Served.antt =====
-- A level read by a client, against the level that the store holds (src/blackboard/agent.py,
-- src/blackboard/server.py, src/blackboard/_board.py).
use blackboardx.Prelude.{
  ℕ, suc, ◌<◌, ◌≡◌, refl, sym, subst, String, none, some, List, [], ◌∷◌, arith, length, inl, inr,
}
use blackboardx.Dict.{get}
use blackboardx.Errors.{ok, Result-cases}
use blackboardx.Store
use blackboardx.Store.{Store, board_of}
use blackboardx.Control.{World, App}
use blackboardx.Board.{Contribution, BoardChange, BoardState}
use blackboardx.Board.Write.{level_contributions}
use blackboardx.Board.Read.{read_level_of}
use blackboardx.Board.Log.Keeps.{IsRecord}
use blackboardx.Board.Log.Views.{Numbered, level_view}
use blackboardx.Service.{Library, Serving}
use blackboardx.Service.Routed.{IsLawful, IsSegment}
use blackboardx.Client.{Asked, Outcome, got}
use blackboardx.Client.Reads.{read_level, level_at}
use blackboardx.Client.Rising.{IsRising, IsRising-weaken, from}
use blackboardx.Client.Followed.{follow_complete}
use blackboardx.Client.Wired.{IsCarried, IsHeld, level_at-IsPaged}

abbrev number_of : Contribution → ℕ
number_of c = c.sequence

level_view-IsRising :
    (k : ℕ) (n : String) (cs : List BoardChange)
    → Numbered k cs
    → IsRising number_of (suc k) (level_view n cs)
unfolding level_view
level_view-IsRising k n [] h = tt
level_view-IsRising k n (c ∷ cs) h =
    let rest = level_view-IsRising (suc k) n cs h.1 in
    ground (
      arith,
      h.0,
      rest,
      IsRising-weaken number_of (suc k) (suc (suc k)) (level_view n cs) (omega arith) rest,
    )

held-level :
    (n : String) (b : BoardState) (xs : List Contribution)
    → level_contributions n b ≡ ok xs
    → get n b.levels ≡ some xs
unfolding level_contributions
held-level n b xs e = ground (arith, e)

-- A level that is read holds its contributions in the order of their numbers.
held-IsRising :
    (n : String) (b : BoardState) (xs : List Contribution)
    → IsRecord b
    → level_contributions n b ≡ ok xs
    → IsRising number_of 1 xs
held-IsRising n b xs v e =
    subst (λ cs. IsRising number_of 1 cs) (sym (v.levels_view n xs (held-level n b xs e)))
      (level_view-IsRising 0 n b.changes v.numbered)

read-from :
    (level : String) (start : ℕ) (b : BoardState) (found : List Contribution)
    → read_level_of level start none b ≡ ok found
    → (xs : List Contribution) × (level_contributions level b ≡ ok xs)
      × (from number_of start xs ≡ found)
unfolding read_level_of
read-from level start b found e = elim (Result-cases (level_contributions level b)) [
  | inl (x, bad) ↦ absurd (ground (arith, e, bad))
  | inr (xs, good) ↦ (xs, good, ground (arith, e, good))
]

module _ (lib : Library) (law : IsLawful lib) (app : String → App)
    (transport : Asked → Serving → Outcome × Serving) (carried : IsCarried lib app transport)
    (id agent level : String) (b : IsSegment lib id) (l : IsSegment lib level) where
  -- A client that reads a level without a limit, through a service that holds a run for the board, is given what
  -- the store's own `read_level` gives, over pages of a hundred: every contribution from its start on, once and in
  -- order. The board is one that calls of the store can leave, its name and the level's fill a segment of a path,
  -- the transport brings every response back, and the client is let turn more often than there are contributions.
  pub read_level-served :
      (attempts fuel start : ℕ) (s : Serving) (w : World) (found : List Contribution)
      → get id s.runs ≡ some w
      → IsRecord (board_of id s.store)
      → (Store.read_level id level start none s.store).0 ≡ ok found
      → length found < fuel
      → (read_level lib transport id agent (suc attempts) fuel level start none s).0
        ≡ some (got found)
  unfolding Store.read_level read_level
  read_level-served attempts fuel start s w found r v e h =
      let (xs, held, same) = read-from level start (board_of id s.store) found e in
      let paged = level_at-IsPaged lib law app transport carried id agent level b l w xs attempts in
      let rising = held-IsRising level (board_of id s.store) xs v held in
      let whole =
        follow_complete (level_at lib transport id agent (suc attempts) level none) number_of
          (IsHeld lib law app transport carried id agent level b l w xs) 99 xs paged 1 rising fuel
          start s (r, held) (rw (same) h) in
      rw (read_level, whole, same) refl
