-- ===== src/Store/Grows.antt =====
-- Regions and idempotency keys of a board of `InMemoryStore` (src/blackboard/_board.py) are never taken
-- back but by `delete`.
use blackboardx.Prelude.{◌++◌, ℕ, ◌+◌, String, ◌≡◌, true, none, some, [], ◌∷◌, arith, inl, inr}
use blackboardx.Dict.{get, has, get-put}
use blackboardx.Errors.{Result-cases}
use blackboardx.Json.{Value, as_json}
use blackboardx.Board.{Region, level, premise, Written, BoardState}
use blackboardx.Board.Write.{Carried, declare_on, append_on, set_on, contribution_at, version_of}
use blackboardx.Board.Outcomes.{append_on-cases, set_on-cases, record_key-get, fresh}
use blackboardx.Board.Log.Others
use blackboardx.Board.Log.Others.{SameRecord}
use blackboardx.Store.Calls.{
  Call, effect, declares, appends, sets, reads_level, reads_premise, reads_board, reads_regions,
  deletes, opens_run, touches_run, closes_run, marks_sent, declares_agent, marks_notified,
  acknowledges,
}
use blackboardx.Store.Stays.{keeps_board}

-- The part of a board that a key rests on.
pub record Grows (b c : BoardState) : Type 0 where
  pub levels : (n : String) → has n b.levels ≡ true → has n c.levels ≡ true
  pub premises : (n : String) → has n b.premises ≡ true → has n c.premises ≡ true
  pub keys : (k : String) (x : String × Written) → get k b.keys ≡ some x → get k c.keys ≡ some x

pub Grows-refl : (b : BoardState) → Grows b b
Grows-refl b = record { levels = λ n h. h; premises = λ n h. h; keys = λ k x h. h }

declare_on-Grows : (r : Region) (b : BoardState) → Grows b (declare_on r b).1
unfolding declare_on
declare_on-Grows (level n w) b = record {
  levels = λ m h. ground (arith, get-put n m [] b.levels);
  premises = λ m h. ground arith;
  keys = λ k x h. ground arith;
}
declare_on-Grows (premise n w) b = record {
  levels = λ m h. ground arith;
  premises = λ m h. ground (arith, get-put n m none b.premises);
  keys = λ k x h. ground arith;
}

pub append_on-Grows :
    (now : ℕ) (n : String) (v : Value) (c : Carried) (b : BoardState)
    → Grows b (append_on now n v c b).1
append_on-Grows now n v c b = elim (append_on-cases now n v c b) [
  | inl e ↦ rw e (Grows-refl b)
  | inr (cs, h, r, e) ↦ rw e (record {
    levels = λ m g. ground (arith, get-put n m (cs ++ contribution_at now v c b ∷ []) b.levels);
    premises = λ m g. g;
    keys = λ k x g. record_key-get c.key n x.0 k (fresh none b) x.1 b r g;
  })
]

pub set_on-Grows :
    (now : ℕ) (n : String) (v : Value) (expected : ℕ) (c : Carried) (b : BoardState)
    → Grows b (set_on now n v expected c b).1
set_on-Grows now n v expected c b = elim (set_on-cases now n v c b expected) [
  | inl e ↦ rw e (Grows-refl b)
  | inr (s, h, r, q, e) ↦ rw e (record {
    levels = λ m g. g;
    premises = λ m g. ground (
      arith,
      get-put n m
          (some (record {
            value = v;
            version = version_of s + 1;
            writer = c.writer;
            written_at = some now;
          }))
          b.premises,
    );
    keys = λ k x g. record_key-get c.key n x.0 k (fresh (some (version_of s + 1)) b) x.1 b r g;
  })
]

pub SameRecord-Grows : {b c : BoardState} → SameRecord b c → Grows b c
SameRecord-Grows e = record {
  levels = λ n h. rw e.levels h;
  premises = λ n h. rw e.premises h;
  keys = λ k x h. rw e.keys h;
}

pub effect-Grows : (c : Call) (b : BoardState) → keeps_board c ≡ true → Grows b (effect c b)
unfolding effect
effect-Grows (declares r) b h = declare_on-Grows r b
effect-Grows (appends now n w c) b h = elim (Result-cases (as_json w)) [
  | inl (e, r) ↦ rw (r, effect) (Grows-refl b)
  | inr (x, r) ↦ rw (r, effect) (append_on-Grows now n x c b)
]
effect-Grows (sets now n w expected c) b h = elim (Result-cases (as_json w)) [
  | inl (e, r) ↦ rw (r, effect) (Grows-refl b)
  | inr (x, r) ↦ rw (r, effect) (set_on-Grows now n x expected c b)
]
effect-Grows (reads_level n from_sequence limit) b h = Grows-refl b
effect-Grows (reads_premise n) b h = Grows-refl b
effect-Grows (reads_board from_sequence limit) b h = Grows-refl b
effect-Grows reads_regions b h = Grows-refl b
effect-Grows deletes b h = cc
effect-Grows (opens_run now wall idle) b h =
    SameRecord-Grows (Others.open_run_on-SameRecord b now wall idle)
effect-Grows (touches_run now idle) b h =
    SameRecord-Grows (Others.touch_run_on-SameRecord b now idle)
effect-Grows (closes_run closed_as reason unfinished) b h =
    SameRecord-Grows (Others.close_run_on-SameRecord b closed_as reason unfinished)
effect-Grows (marks_sent agent through) b h =
    SameRecord-Grows (Others.mark_sent_on-SameRecord b agent through)
effect-Grows (declares_agent agent w) b h =
    SameRecord-Grows (Others.declare_agent_on-SameRecord b agent w)
effect-Grows (marks_notified agent through) b h =
    SameRecord-Grows (Others.mark_notified_on-SameRecord b agent through)
effect-Grows (acknowledges agent through) b h =
    SameRecord-Grows (Others.acknowledge_on-SameRecord b agent through)
