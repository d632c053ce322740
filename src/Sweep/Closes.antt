-- ===== src/Sweep/Closes.antt =====
-- `close_expired` of src/blackboard/_control.py on a board whose run is past a deadline.
use blackboardx.Prelude.{
  ℕ, String, ◌≡◌, ◌∙◌, ap, true, Option, none, some, List, [], arith, Option-cases, Bool-cases, inl,
  inr, leb, if◌then◌else◌,
}
use blackboardx.Dict.{get}
use blackboardx.Board.{RunRecord, RunState, BoardState, expired}
use blackboardx.Board.Run.{read_run_of, close_run_on, past_deadline}
use blackboardx.Store
use blackboardx.Store.{Store}
use blackboardx.Store.Closing.{close_once}
use blackboardx.Control.Roster.{unfinished}
use blackboardx.Sweep.{close_one}

-- RunRecord, as `read_run` makes it of the run's state.
abbrev record_at : ℕ → RunState → RunRecord
record_at now s = record {
  now = now;
  idle_deadline = s.idle_deadline;
  wall_deadline = s.wall_deadline;
  closed_as = s.closed_as;
  reason = s.reason;
  unfinished = s.unfinished;
}

-- What a run that stands past this limit is closed as: past both, the wall clock's.
abbrev pub limit_passed : RunState → ℕ → String
limit_passed s now = if leb s.wall_deadline now then "wall_clock_expired" else "settled"

past-expired :
    (now : ℕ) (b : BoardState) (s : RunState)
    → b.run ≡ some s
    → past_deadline now b ≡ true
    → (r : RunRecord) × (read_run_of now b ≡ some r)
      × (expired r ≡ some (limit_passed s now))
      × ((a : String) (x : Option String) (u : List String) → (close_run_on a x u b).0 ≡ true)
unfolding past_deadline read_run_of expired close_run_on
past-expired now b s e h = elim (Option-cases s.closed_as) [
  | inr (a, c) ↦ absurd (ground arith)
  | inl c ↦ elim (Bool-cases (leb s.wall_deadline now)) [
    | inl w ↦ (record_at now s, ground arith, ground arith, λ a x u. ground arith)
    | inr w ↦ (record_at now s, ground arith, ground arith, λ a x u. ground arith)
  ]
]

close_one-closes :
    (now : ℕ) (id : String) (s : Store) (b : BoardState) (r : RunState)
    → get id s ≡ some b
    → b.run ≡ some r
    → past_deadline now b ≡ true
    → (close_one now id s ≡ Store.close_run id (limit_passed r now) none (unfinished s id) s)
      × ((Store.close_run id (limit_passed r now) none (unfinished s id) s).0 ≡ true)
unfolding close_one Store.read_run Store.close_run
close_one-closes now id s b r g q h =
    let f = past-expired now b r q h in
    (
      ground (arith, g, f.1, f.2),
      ground (arith, g, f.3 (limit_passed r now) none (unfinished s id)),
    )

-- A pass over a board whose run is open and past a deadline closes the run. The record then holds for its
-- outcome that the wall clock expired, where that deadline has passed, and otherwise, where the idle one has, that
-- the run settled; it holds no reason, and as unfinished the agents that had not answered everything they were
-- notified of.
pub close_one_past :
    (now : ℕ) (id : String) (s : Store) (b : BoardState) (run : RunState)
    → get id s ≡ some b
    → b.run ≡ some run
    → past_deadline now b ≡ true
    → ((close_one now id s).0 ≡ true)
      × (r : RunRecord) × (Store.read_run now id (close_one now id s).1 ≡ some r)
      × (r.closed_as ≡ some (if leb run.wall_deadline now then "wall_clock_expired" else "settled"))
      × (r.reason ≡ none)
      × (r.unfinished ≡ unfinished s id)
unfolding Store.Calls.run Store.Calls.calls_on
close_one_past now id s b run g q h =
    let f = close_one-closes now id s b run g q h in
    let limit = limit_passed run now in
    let c =
      close_once id limit limit none none (unfinished s id) (unfinished s id) now s [] f.1 tt in
    (ap (λ x. x.0) f.0 ∙ f.1, c.1, ap (λ x. Store.read_run now id x.1) f.0 ∙ c.2, c.3, c.4, c.5)
