-- ===== src/Control/Agreement.antt =====
-- Two processes that close one run, each by its `_close_locked` (src/blackboard/_control.py).
use blackboardx.Prelude.{
  ap, All, All-append, ℕ, String, ◌≡◌, refl, ◌∙◌, sym, subst, true, false, Option, none, some, List,
  [], ◌∷◌, ◌++◌, arith, eq_iff, inl, inr,
}
use blackboardx.Board.{RunRecord}
use blackboardx.Store
use blackboardx.Store.{Store}
use blackboardx.Store.Calls.{calls_on, Call, step, run, closes_run}
use blackboardx.Store.Stays.{keeps_run, AllOn}
use blackboardx.Store.Closing.{close_once}
use blackboardx.Control.Clock.{cancel}
use blackboardx.Control.{AgentState, World, RunOutcome, settled, wall_clock_expired, aborted}
use blackboardx.Control.Closing.{
  cancel_windows, closed_as, reason_of, unfinished_of, outcome_of, adopted, closing_answer,
  final_outcome, close_locked,
}
use blackboardx.Control.Ends.{closed_world-Ends, close_locked-cases}

-- What the record says of an outcome is read back as that outcome.
pub outcome_of-record :
    (o : RunOutcome) (r : RunRecord)
    → r.closed_as ≡ some (closed_as o)
    → r.reason ≡ reason_of o
    → r.unfinished ≡ unfinished_of o
    → outcome_of (closed_as o) r ≡ o
unfolding outcome_of
outcome_of-record (settled u) r c e f = ground (arith, e, f)
outcome_of-record (wall_clock_expired u) r c e f = ground (arith, e, f)
outcome_of-record (aborted x u) r c e f = ground (arith, e, f)

run-append : (cs ds : List (String × Call)) (s : Store) → run (cs ++ ds) s ≡ run ds (run cs s)
unfolding run
run-append [] ds s = refl
run-append ((id, c) ∷ cs) ds s = run-append cs ds (step id c s)

calls_on-append :
    (id : String) (cs ds : List (String × Call))
    → calls_on id (cs ++ ds) ≡ calls_on id cs ++ calls_on id ds
unfolding calls_on
calls_on-append id [] ds = refl
calls_on-append id ((j, c) ∷ cs) ds = ground (arith, calls_on-append id cs ds)

closing_keeps :
    (id a : String) (r : Option String) (u : List String)
    → All (λ c. keeps_run c ≡ true) (calls_on id ((id, closes_run a r u) ∷ []))
unfolding calls_on
closing_keeps id a r u = rw ((eq_iff id id).1 refl, calls_on) (refl, tt)

-- A process that is not the first adopts the outcome that the first one wrote.
adopted-second :
    (o p : RunOutcome) (now : ℕ) (id : String) (s : Store) (cs : List (String × Call))
    → (Store.close_run id (closed_as o) (reason_of o) (unfinished_of o) s).0 ≡ true
    → AllOn keeps_run id cs
    → let t = run cs (Store.close_run id (closed_as o) (reason_of o) (unfinished_of o) s).1 in
      let r = Store.close_run id (closed_as p) (reason_of p) (unfinished_of p) t in
      adopted p r.0 (Store.read_run now id r.1) ≡ o
unfolding adopted step run
adopted-second o p now id s cs won keep =
    rw (lost.0, second, read.2, adopted) (outcome_of-record o read.0 read.2 read.3 read.4)
  where
    last : List (String × Call)
    last = (id, closes_run (closed_as p) (reason_of p) (unfinished_of p)) ∷ []

    t : Store
    t = (Store.close_run id (closed_as o) (reason_of o) (unfinished_of o) s).1

    kept : AllOn keeps_run id (cs ++ last)
    kept = subst (All (λ c. keeps_run c ≡ true)) (sym (calls_on-append id cs last)) (
        All-append (λ c. keeps_run c ≡ true) (calls_on id cs) (calls_on id last) keep
          (closing_keeps id _ _ _))

    lost :
        ((Store.close_run id (closed_as p) (reason_of p) (unfinished_of p) (run cs t)).0 ≡ false)
        × (rr : RunRecord) × (Store.read_run now id (run cs t) ≡ some rr)
        × (rr.closed_as ≡ some (closed_as o))
        × (rr.reason ≡ reason_of o)
        × (rr.unfinished ≡ unfinished_of o)
    lost =
        close_once id (closed_as o) (closed_as p) (reason_of o) (reason_of p) (unfinished_of o)
          (unfinished_of p) now s cs won keep

    read :
        (rr : RunRecord) × (Store.read_run now id (run (cs ++ last) t) ≡ some rr)
        × (rr.closed_as ≡ some (closed_as o))
        × (rr.reason ≡ reason_of o)
        × (rr.unfinished ≡ unfinished_of o)
    read =
        let g =
          close_once id (closed_as o) (closed_as p) (reason_of o) (reason_of p) (unfinished_of o)
            (unfinished_of p) now s (cs ++ last) won kept in
        (g.1, g.2, g.3, g.4, g.5)

    second :
        Store.read_run now id
          (Store.close_run id (closed_as p) (reason_of p) (unfinished_of p) (run cs t)).1
        ≡ some read.0
    second = ap (Store.read_run now id) (sym (run-append cs last t)) ∙ read.1

close_locked-outcome :
    (o : RunOutcome) (w : World)
    → w.outcome ≡ none
    → (close_locked o w).outcome ≡ some (final_outcome o w)
close_locked-outcome o w h = elim (close_locked-cases o w) [
  | inl (p, e, c) ↦ absurd (ground arith)
  | inr (e, c) ↦ rw c (closed_world-Ends o w).0
]

cancel-store : (h : Option ℕ) (w : World) → (cancel h w).store ≡ w.store
unfolding cancel
cancel-store none w = refl
cancel-store (some h) w = refl

cancel_windows-store :
    (ags : List (String × AgentState)) (w : World) → (cancel_windows ags w).store ≡ w.store
cancel_windows-store [] w = refl
cancel_windows-store ((name, s) ∷ ags) w =
    cancel_windows-store ags (cancel s.window_call w) ∙ cancel-store s.window_call w

close_locked-store :
    (o : RunOutcome) (w : World)
    → w.outcome ≡ none
    → (close_locked o w).store ≡ (closing_answer o w).1
close_locked-store o w h = elim (close_locked-cases o w) [
  | inl (p, e, c) ↦ absurd (ground arith)
  | inr (e, c) ↦
      rw c (
        cancel_windows-store w.agents _ ∙ (cancel-store w.idle_call _ ∙ cancel-store w.wall_call _))
]

-- What `_close_locked` would adopt, by the board and the store.
abbrev adopted_over : RunOutcome → ℕ → String → Store → RunOutcome
adopted_over p now id t =
    let r = Store.close_run id (closed_as p) (reason_of p) (unfinished_of p) t in
    adopted p r.0 (Store.read_run now id r.1)

final_outcome-first :
    (o : RunOutcome) (w : World) → (closing_answer o w).0 ≡ true → final_outcome o w ≡ o
unfolding adopted
final_outcome-first o w h = rw (h, adopted) refl

-- Of two processes whose `Control` holds one board, the one that `close_run` answers `True` keeps the
-- outcome that it closes with, and the other, closing later with any outcome of its own, ends with that
-- same outcome, whatever calls reached the store between, if none deletes the board or opens a run on it
-- again.
pub close_locked_agree :
    (o p : RunOutcome) (w v : World) (cs : List (String × Call))
    → w.outcome ≡ none
    → v.outcome ≡ none
    → v.board_id ≡ w.board_id
    → (closing_answer o w).0 ≡ true
    → AllOn keeps_run w.board_id cs
    → v.store ≡ run cs (close_locked o w).store
    → ((close_locked o w).outcome ≡ some o) × ((close_locked p v).outcome ≡ some o)
close_locked_agree o p w v cs wn vn same won keep e = (
  close_locked-outcome o w wn ∙ ap some (final_outcome-first o w won),
  close_locked-outcome p v vn
      ∙ ap some (
          ap (λ i. adopted_over p v.store_now i v.store) same
          ∙ (ap (adopted_over p v.store_now w.board_id)
                (e ∙ ap (run cs) (close_locked-store o w wn))
              ∙ adopted-second o p v.store_now w.board_id w.store cs won keep)),
)
