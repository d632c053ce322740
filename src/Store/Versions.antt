-- ===== src/Store/Versions.antt =====
-- Premise versions of `InMemoryStore` (src/blackboard/_board.py): `set` under an expected version.
use blackboardx.Prelude.{
  ◌==◌, ℕ, ◌+◌, ◌≤◌, ◌<◌, String, ◌≡◌, true, false, Option, none, some, List, arith, eq_iff, str_eq,
  Option-cases, inl, inr, Bool-cases, ap, ◌∙◌,
}
use blackboardx.Dict.{get, get-put}
use blackboardx.Errors.{ok, Result-cases}
use blackboardx.Json.{Value, as_json}
use blackboardx.Board.{Region, level, premise, written, conflict, Written, PremiseState, BoardState}
use blackboardx.Board.Write.{Carried, declare_on, append_on, set_on, version_of, already_written}
use blackboardx.Board.Outcomes.{append_on-cases, set_on-cases}
use blackboardx.Board.Log.Others
use blackboardx.Board.Log.Others.{SameRecord}
use blackboardx.Store.{Store, board_of, set}
use blackboardx.Store.Calls.{
  Call, run, effect, declares, appends, sets, deletes, opens_run, touches_run, closes_run,
  marks_sent, declares_agent, marks_notified, acknowledges,
}
use blackboardx.Store.Isolation.{board_of-put_self}
use blackboardx.Store.Stays.{keeps_board, AllOn, run-stays}

-- The premise `n` is at version `v` or a later one.
pub record IsPast (n : String) (v : ℕ) (b : BoardState) : Type 0 where
  pub state : Option PremiseState
  pub held : get n b.premises ≡ some state
  pub past : v ≤ version_of state

module _ {n : String} {v : ℕ} where
  same-IsPast : {b c : BoardState} → c.premises ≡ b.premises → IsPast n v b → IsPast n v c
  same-IsPast e h = record { state = h.state; held = ap (get n) e ∙ h.held; past = h.past }

  declare_on-IsPast : (r : Region) (b : BoardState) → IsPast n v b → IsPast n v (declare_on r b).1
  unfolding declare_on
  declare_on-IsPast (level m w) b h = same-IsPast (ground arith) h
  declare_on-IsPast (premise m w) b h = record {
    state = h.state;
    held = ground (arith, h.held, get-put m n none b.premises, eq_iff m n);
    past = h.past;
  }

  append_on-IsPast :
      (now : ℕ) (m : String) (w : Value) (c : Carried) (b : BoardState)
      → IsPast n v b
      → IsPast n v (append_on now m w c b).1
  append_on-IsPast now m w c b h = same-IsPast (ground (arith, append_on-cases now m w c b)) h

  set_on-IsPast :
      (now : ℕ) (m : String) (w : Value) (expected : ℕ) (c : Carried) (b : BoardState)
      → IsPast n v b
      → IsPast n v (set_on now m w expected c b).1
  set_on-IsPast now m w expected c b h = elim (set_on-cases now m w c b expected) [
    | inl e ↦ rw e h
    | inr (s, g, r, q, e) ↦ elim (Bool-cases (str_eq m n)) [
      | inl same ↦ rw e (record {
        state = some (record {
          value = w;
          version = version_of s + 1;
          writer = c.writer;
          written_at = some now;
        });
        held = ground (
          arith,
          get-put m n
              (some (record {
                value = w;
                version = version_of s + 1;
                writer = c.writer;
                written_at = some now;
              }))
              b.premises,
        );
        past = ground (arith, h.held, h.past, eq_iff m n);
      })
      | inr other ↦ rw e (record {
        state = h.state;
        held = ground (
          arith,
          h.held,
          get-put m n
              (some (record {
                value = w;
                version = version_of s + 1;
                writer = c.writer;
                written_at = some now;
              }))
              b.premises,
        );
        past = h.past;
      })
    ]
  ]

  effect-IsPast :
      (c : Call) (b : BoardState) → keeps_board c ≡ true → IsPast n v b → IsPast n v (effect c b)
  unfolding effect
  effect-IsPast (declares r) b k h = declare_on-IsPast r b h
  effect-IsPast (appends now m w c) b k h = elim (Result-cases (as_json w)) [
    | inl (e, q) ↦ rw (q, effect) h
    | inr (x, q) ↦ rw (q, effect) (append_on-IsPast now m x c b h)
  ]
  effect-IsPast (sets now m w expected c) b k h = elim (Result-cases (as_json w)) [
    | inl (e, q) ↦ rw (q, effect) h
    | inr (x, q) ↦ rw (q, effect) (set_on-IsPast now m x expected c b h)
  ]
  effect-IsPast deletes b k h = cc
  effect-IsPast (opens_run now wall idle) b k h =
      same-IsPast (Others.open_run_on-SameRecord b now wall idle).premises h
  effect-IsPast (touches_run now idle) b k h =
      same-IsPast (Others.touch_run_on-SameRecord b now idle).premises h
  effect-IsPast (closes_run a r u) b k h =
      same-IsPast (Others.close_run_on-SameRecord b a r u).premises h
  effect-IsPast (marks_sent agent through) b k h =
      same-IsPast (Others.mark_sent_on-SameRecord b agent through).premises h
  effect-IsPast (declares_agent agent w) b k h =
      same-IsPast (Others.declare_agent_on-SameRecord b agent w).premises h
  effect-IsPast (marks_notified agent through) b k h =
      same-IsPast (Others.mark_notified_on-SameRecord b agent through).premises h
  effect-IsPast (acknowledges agent through) b k h =
      same-IsPast (Others.acknowledge_on-SameRecord b agent through).premises h
  effect-IsPast _ b k h = h

pub repeated_again :
    (key : Option String) (n : String) (b : BoardState) (w : Written)
    → already_written key n b ≡ ok (some w)
    → w.repeated ≡ true
unfolding already_written
repeated_again none n b w h = cc
repeated_again (some k) n b w h = ground arith

-- A set that was sequenced leaves the premise past the version that it expected.
set_on-fresh :
    (now : ℕ) (n : String) (v : Value) (expected : ℕ) (c : Carried) (b : BoardState) (w : Written)
    → (set_on now n v expected c b).0 ≡ ok (written w)
    → w.repeated ≡ false
    → IsPast n (expected + 1) (set_on now n v expected c b).1
unfolding set_on already_written
set_on-fresh now n v expected c b w h f = elim (Option-cases (get n b.premises)) [
  | inl e ↦ absurd (ground arith)
  | inr (s, e) ↦ elim (Result-cases (already_written c.key n b)) [
    | inl (x, r) ↦ absurd (ground arith)
    | inr (some y, r) ↦ absurd (ground (arith, repeated_again c.key n b y r))
    | inr (none, r) ↦ elim (Bool-cases (expected == version_of s)) [
      | inr q ↦ absurd (ground arith)
      | inl q ↦ record {
        state = some (record {
          value = v;
          version = version_of s + 1;
          writer = c.writer;
          written_at = some now;
        });
        held = ground (
          arith,
          eq_iff n n,
          get-put n n
              (some (record {
                value = v;
                version = version_of s + 1;
                writer = c.writer;
                written_at = some now;
              }))
              b.premises,
        );
        past = ground arith;
      }
    ]
  ]
]

set_on-stale :
    (now : ℕ) (n : String) (v : Value) (expected : ℕ) (c : Carried) (b : BoardState)
    → c.key ≡ none
    → IsPast n (expected + 1) b
    → (current : ℕ) × (set_on now n v expected c b ≡ (ok (conflict current), b))
      × (expected < current)
unfolding set_on already_written
set_on-stale now n v expected c b e h =
    (version_of h.state, ground (arith, h.held, h.past), ground (arith, h.past))

set-fresh :
    (now : ℕ) (id n : String) (v : Value) (expected : ℕ) (c : Carried) (s : Store) (w : Written)
    → (set now id n v expected c s).0 ≡ ok (written w)
    → w.repeated ≡ false
    → IsPast n (expected + 1) (board_of id (set now id n v expected c s).1)
unfolding set
set-fresh now id n v expected c s w h f = elim (Result-cases (as_json v)) [
  | inl (x, r) ↦ absurd (ground arith)
  | inr (u, r) ↦
      rw (r, set, board_of-put_self)
        (set_on-fresh now n u expected c (board_of id s) w (ground arith) f)
]

-- Of two writers that read a premise at one version, the second loses. Once `set` has sequenced a
-- write under the version `expected`, a later `set` without a key under that version, of a value that JSON
-- can carry, is answered with a conflict that names a later version, and leaves the board as it is, whatever calls came between,
-- if none deletes the board.
pub set_stale :
    (now later : ℕ) (id n : String) (v x y : Value) (expected : ℕ) (c d : Carried) (s : Store)
    (w : Written) (cs : List (String × Call))
    → (set now id n v expected c s).0 ≡ ok (written w)
    → w.repeated ≡ false
    → d.key ≡ none
    → as_json x ≡ ok y
    → AllOn keeps_board id cs
    → let t = run cs (set now id n v expected c s).1 in
      (current : ℕ) × ((set later id n x expected d t).0 ≡ ok (conflict current))
      × (expected < current)
      × (board_of id (set later id n x expected d t).1 ≡ board_of id t)
unfolding set
set_stale now later id n v x y expected c d s w cs h f dk xy keep =
    let g = set_on-stale later n y expected d (board_of id t) dk past in
    (g.0, rw (xy, set, g.1), g.2, rw (xy, set, board_of-put_self, g.1))
  where
    t : Store
    t = run cs (set now id n v expected c s).1

    past : IsPast n (expected + 1) (board_of id t)
    past =
        run-stays {P = IsPast n (expected + 1)} keeps_board effect-IsPast id cs
          (set now id n v expected c s).1 keep (set-fresh now id n v expected c s w h f)
