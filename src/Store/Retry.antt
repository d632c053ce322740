-- ===== src/Store/Retry.antt =====
-- Idempotency keys of `InMemoryStore` (src/blackboard/_board.py): a write that is sent again.
use blackboardx.Prelude.{
  ◌++◌, ℕ, String, ◌≡◌, refl, true, none, some, List, [], ◌∷◌, arith, eq_iff, Option-cases, inl,
  inr,
}
use blackboardx.Dict.{get, has, get-put}
use blackboardx.Errors.{ok, Result-cases}
use blackboardx.Json.{Value, as_json}
use blackboardx.Board.{Written, BoardState}
use blackboardx.Board.Write.{contribution_at, Carried, append_on, already_written}
use blackboardx.Board.Outcomes.{fresh}
use blackboardx.Store.{Store, board_of, append}
use blackboardx.Store.Calls.{Call, run}
use blackboardx.Store.Isolation.{board_of-put_self}
use blackboardx.Store.Grows.{Grows, effect-Grows}
use blackboardx.Store.Stays.{keeps_board, AllOn, run-stays}

-- The key `k` names a write to the level `n` that was answered with `w`, or with a repeat of it.
pub record HoldsLevel (k n : String) (w : Written) (b : BoardState) : Type 0 where
  pub region : has n b.levels ≡ true
  pub first : Written
  pub key : get k b.keys ≡ some (n, first)
  pub same : record first { repeated = true } ≡ record w { repeated = true }

HoldsLevel-Grows :
    {k n : String} {w : Written} {b c : BoardState}
    → Grows b c
    → HoldsLevel k n w b
    → HoldsLevel k n w c
HoldsLevel-Grows {k} {n} g h = record {
  region = g.levels n h.region;
  first = h.first;
  key = g.keys k (n, h.first) h.key;
  same = h.same;
}

append_on-HoldsLevel :
    (now : ℕ) (n k : String) (v : Value) (c : Carried) (b : BoardState) (w : Written)
    → c.key ≡ some k
    → (append_on now n v c b).0 ≡ ok w
    → HoldsLevel k n w (append_on now n v c b).1
unfolding append_on already_written
append_on-HoldsLevel now n k v c b w e h = elim (Option-cases (get n b.levels)) [
  | inl g ↦ absurd (ground arith)
  | inr (cs, g) ↦ elim (Option-cases (get k b.keys)) [
    | inl f ↦ record {
      region =
          ground (arith, get-put n n (cs ++ contribution_at now v c b ∷ []) b.levels, eq_iff n n);
      first = fresh none b;
      key = ground (arith, get-put k k (n, fresh none b) b.keys, eq_iff k k);
      same = ground arith;
    }
    | inr (x, f) ↦ record {
      region = ground arith;
      first = x.1;
      key = ground (arith, eq_iff x.0 n);
      same = ground arith;
    }
  ]
]

append_on-again :
    (now : ℕ) (n k : String) (v : Value) (c : Carried) (b : BoardState) (w : Written)
    → c.key ≡ some k
    → HoldsLevel k n w b
    → append_on now n v c b ≡ (ok (record w { repeated = true }), b)
unfolding append_on already_written
append_on-again now n k v c b w e h = ground (arith, h.region, h.key, h.same, eq_iff n n)

append-HoldsLevel :
    (now : ℕ) (id n k : String) (v : Value) (c : Carried) (s : Store) (w : Written)
    → c.key ≡ some k
    → (append now id n v c s).0 ≡ ok w
    → HoldsLevel k n w (board_of id (append now id n v c s).1)
unfolding append
append-HoldsLevel now id n k v c s w e h = elim (Result-cases (as_json v)) [
  | inl (x, r) ↦ absurd (ground arith)
  | inr (u, r) ↦
      rw (r, append, board_of-put_self)
        (append_on-HoldsLevel now n k u c (board_of id s) w e (ground arith))
]

-- Once `append` has answered with `w`, the same key sent again to the same level is answered with `w`
-- marked `repeated` and leaves the board as it is, whatever its content, if JSON can carry it, its writer
-- and the agents to notify, and whatever calls came between, if none deletes the board.
pub append_again :
    (now later : ℕ) (id n k : String) (v x y : Value) (c d : Carried) (s : Store) (w : Written)
    (cs : List (String × Call))
    → (append now id n v c s).0 ≡ ok w
    → c.key ≡ some k
    → d.key ≡ some k
    → as_json x ≡ ok y
    → AllOn keeps_board id cs
    → let t = run cs (append now id n v c s).1 in
      ((append later id n x d t).0 ≡ ok (record w { repeated = true }))
      × (board_of id (append later id n x d t).1 ≡ board_of id t)
unfolding append
append_again now later id n k v x y c d s w cs h ck dk xy keep =
    rw (xy, append, board_of-put_self, append_on-again later n k y d (board_of id t) w dk held)
      (refl, refl)
  where
    t : Store
    t = run cs (append now id n v c s).1

    held : HoldsLevel k n w (board_of id t)
    held =
        run-stays {P = HoldsLevel k n w} keeps_board
          (λ c b a h. HoldsLevel-Grows (effect-Grows c b a) h) id cs (append now id n v c s).1 keep
          (append-HoldsLevel now id n k v c s w ck h)
