-- ===== src/Store/Closing.antt =====
-- How runs end in `InMemoryStore` (src/blackboard/_board.py): `close_run`, `touch_run`, `read_run` and
-- `runs_past_deadline`.
use blackboardx.Prelude.{
  ◌∙◌, ℕ, String, ◌≡◌, refl, true, false, Option, some, List, arith, Option-cases, inl, inr,
}
use blackboardx.Dict.{get}
use blackboardx.Errors.{Result-cases}
use blackboardx.Json.{as_json}
use blackboardx.Board.{RunRecord, RunState, BoardState}
use blackboardx.Board.Run.{read_run_of, touch_run_on, close_run_on}
use blackboardx.Board.Agents.{declare_agent_on, mark_notified_on, acknowledge_on}
use blackboardx.Board.Outbox.{mark_sent_on}
use blackboardx.Board.Aside.{declare_on-SameRun, append_on-SameRun, set_on-SameRun}
use blackboardx.Store.{Store, board_of, on_held, close_run, read_run}
use blackboardx.Store.Calls.{
  Call, run, effect, declares, appends, sets, deletes, opens_run, touches_run, closes_run,
  marks_sent, declares_agent, marks_notified, acknowledges,
}
use blackboardx.Store.Isolation.{board_of-put_self}
use blackboardx.Store.Stays.{keeps_run, AllOn, run-stays}

-- The board's run closed so.
pub record ClosedSo (closed_as : String) (reason : Option String) (unfinished : List String)
    (b : BoardState) : Type 0 where
  pub state : RunState
  pub held : b.run ≡ some state
  pub closed : state.closed_as ≡ some closed_as
  pub why : state.reason ≡ reason
  pub who : state.unfinished ≡ unfinished

module _ {a : String} {r : Option String} {u : List String} where
  ClosedSo-run : {b c : BoardState} → c.run ≡ b.run → ClosedSo a r u b → ClosedSo a r u c
  ClosedSo-run e h = record {
    state = h.state;
    held = e ∙ h.held;
    closed = h.closed;
    why = h.why;
    who = h.who;
  }

  effect-ClosedSo :
      (c : Call) (b : BoardState)
      → keeps_run c ≡ true
      → ClosedSo a r u b
      → ClosedSo a r u (effect c b)
  unfolding effect touch_run_on close_run_on mark_sent_on declare_agent_on mark_notified_on
      acknowledge_on
  effect-ClosedSo (declares g) b k h = ClosedSo-run (declare_on-SameRun g b).run h
  effect-ClosedSo (appends now n w c) b k h = elim (Result-cases (as_json w)) [
    | inl (e, q) ↦ rw (q, effect) h
    | inr (x, q) ↦ rw (q, effect) (ClosedSo-run (append_on-SameRun now n x c b).run h)
  ]
  effect-ClosedSo (sets now n w expected c) b k h = elim (Result-cases (as_json w)) [
    | inl (e, q) ↦ rw (q, effect) h
    | inr (x, q) ↦ rw (q, effect) (ClosedSo-run (set_on-SameRun now n x expected c b).run h)
  ]
  effect-ClosedSo deletes b k h = cc
  effect-ClosedSo (opens_run now wall idle) b k h = cc
  effect-ClosedSo (touches_run now idle) b k h = ClosedSo-run (ground (arith, h.held, h.closed)) h
  effect-ClosedSo (closes_run x y z) b k h = ClosedSo-run (ground (arith, h.held, h.closed)) h
  effect-ClosedSo (marks_sent agent through) b k h = ClosedSo-run (ground arith) h
  effect-ClosedSo (declares_agent agent w) b k h = ClosedSo-run refl h
  effect-ClosedSo (marks_notified agent through) b k h = ClosedSo-run refl h
  effect-ClosedSo (acknowledges agent through) b k h = ClosedSo-run (ground arith) h
  effect-ClosedSo _ b k h = h

close_run_on-ClosedSo :
    (a : String) (r : Option String) (u : List String) (b : BoardState)
    → (close_run_on a r u b).0 ≡ true
    → ClosedSo a r u (close_run_on a r u b).1
unfolding close_run_on
close_run_on-ClosedSo a r u b h = elim (Option-cases b.run) [
  | inl f ↦ absurd (ground arith)
  | inr (x, f) ↦ record {
    state = record x { closed_as = some a; reason = r; unfinished = u };
    held = ground arith;
    closed = refl;
    why = refl;
    who = refl;
  }
]

close_run-ClosedSo :
    (id a : String) (r : Option String) (u : List String) (s : Store)
    → (close_run id a r u s).0 ≡ true
    → ClosedSo a r u (board_of id (close_run id a r u s).1)
unfolding close_run
close_run-ClosedSo id a r u s h = elim (Option-cases (get id s)) [
  | inl e ↦ absurd (ground arith)
  | inr (b, e) ↦
      rw (e, close_run, on_held, board_of-put_self) (close_run_on-ClosedSo a r u b (ground arith))
]

-- How a read of the run answers, and a second attempt to close it.
module _ (id a : String) (r : Option String) (u : List String) (s : Store) where
  read_run-ClosedSo :
      (now : ℕ)
      → ClosedSo a r u (board_of id s)
      → (rr : RunRecord) × (read_run now id s ≡ some rr)
        × (rr.closed_as ≡ some a)
        × (rr.reason ≡ r)
        × (rr.unfinished ≡ u)
  unfolding read_run read_run_of
  read_run-ClosedSo now h = (
    record {
      now = now;
      idle_deadline = h.state.idle_deadline;
      wall_deadline = h.state.wall_deadline;
      closed_as = h.state.closed_as;
      reason = h.state.reason;
      unfinished = h.state.unfinished;
    },
    ground (arith, h.held),
    h.closed,
    h.why,
    h.who,
  )

  close_run_twice :
      (a' : String) (r' : Option String) (u' : List String)
      → ClosedSo a r u (board_of id s)
      → (close_run id a' r' u' s).0 ≡ false
  unfolding close_run close_run_on
  close_run_twice a' r' u' h = ground (arith, h.held, h.closed)

-- The caller that `close_run` answers `True` wrote the outcome: after any later calls that neither
-- delete the board nor open a run on it again, another `close_run` is answered `False` whatever it
-- says, and `read_run` gives the first caller's outcome, reason and unfinished agents.
pub close_once :
    (id a a' : String) (r r' : Option String) (u u' : List String) (now : ℕ) (s : Store)
    (cs : List (String × Call))
    → (close_run id a r u s).0 ≡ true
    → AllOn keeps_run id cs
    → let t = run cs (close_run id a r u s).1 in
      ((close_run id a' r' u' t).0 ≡ false)
      × (rr : RunRecord) × (read_run now id t ≡ some rr)
      × (rr.closed_as ≡ some a)
      × (rr.reason ≡ r)
      × (rr.unfinished ≡ u)
close_once id a a' r r' u u' now s cs won keep =
    let f = read_run-ClosedSo id a r u t now closed in
    (close_run_twice id a r u t a' r' u' closed, f.0, f.1, f.2, f.3, f.4)
  where
    t : Store
    t = run cs (close_run id a r u s).1

    closed : ClosedSo a r u (board_of id t)
    closed =
        run-stays {P = ClosedSo a r u} keeps_run effect-ClosedSo id cs (close_run id a r u s).1 keep
          (close_run-ClosedSo id a r u s won)
