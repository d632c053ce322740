-- ===== src/Board/Outcomes.antt =====
-- How `append` and `set` of `InMemoryStore` (src/blackboard/_board.py) can end: with a sequenced write,
-- or with the board as it was.
use blackboardx.Prelude.{
  ℕ, ◌+◌, String, ◌≡◌, ◌⊎◌, inl, inr, false, Option, none, some, List, [], ◌∷◌, ◌++◌, arith,
  Option-cases, ◌==◌, Bool-cases, eq_iff,
}
use blackboardx.Dict.{get, put, get-put}
use blackboardx.Errors.{ok, Result-cases}
use blackboardx.Json.{Value}
use blackboardx.Board.{Written, written, Contribution, PremiseState, BoardState}
use blackboardx.Board.Write.{
  Carried, append_on, set_on, sequenced, contribution_at, version_of, already_written, record_key,
}

-- The board after a write to a level that held `cs`.
abbrev pub appended : ℕ → String → Value → Carried → List Contribution → BoardState → BoardState
appended now n v c cs b = record (sequenced now n v none c b) {
  levels = put n (cs ++ contribution_at now v c b ∷ []) b.levels;
}

-- The board after a write to a premise that held `s`.
abbrev pub revised_board :
    ℕ → String → Value → Carried → Option PremiseState → BoardState → BoardState
revised_board now n v c s b = record (sequenced now n v (some (version_of s + 1)) c b) {
  premises =
      put n
        (some (record {
          value = v;
          version = version_of s + 1;
          writer = c.writer;
          written_at = some now;
        }))
        b.premises;
}

-- A fresh answer, at the next sequence.
abbrev pub fresh : Option ℕ → BoardState → Written
fresh version b = record { sequence = b.sequence + 1; version = version; repeated = false }

module _ (now : ℕ) (n : String) (v : Value) (c : Carried) (b : BoardState) where
  pub append_on-cases :
      ((append_on now n v c b).1 ≡ b)
      ⊎ ((cs : List Contribution) × (get n b.levels ≡ some cs)
          × (already_written c.key n b ≡ ok none)
          × (append_on now n v c b ≡ (ok (fresh none b), appended now n v c cs b)))
  unfolding append_on
  append_on-cases = elim (Option-cases (get n b.levels)) [
    | inl e ↦ inl (ground arith)
    | inr (cs, e) ↦ elim (Result-cases (already_written c.key n b)) [
      | inl (x, r) ↦ inl (ground arith)
      | inr (none, r) ↦ inr (cs, e, r, ground arith)
      | inr (some w, r) ↦ inl (ground arith)
    ]
  ]

  pub set_on-cases :
      (expected : ℕ)
      → ((set_on now n v expected c b).1 ≡ b)
        ⊎ ((s : Option PremiseState) × (get n b.premises ≡ some s)
            × (already_written c.key n b ≡ ok none)
            × (expected ≡ version_of s)
            × (set_on now n v expected c b
                ≡ (ok (written (fresh (some (version_of s + 1)) b)), revised_board now n v c s b)))
  unfolding set_on
  set_on-cases expected = elim (Option-cases (get n b.premises)) [
    | inl e ↦ inl (ground arith)
    | inr (s, e) ↦ elim (Result-cases (already_written c.key n b)) [
      | inl (x, r) ↦ inl (ground arith)
      | inr (some w, r) ↦ inl (ground arith)
      | inr (none, r) ↦ elim (Bool-cases (expected == version_of s)) [
        | inl q ↦ inr (s, e, r, ground arith, ground arith)
        | inr q ↦ inl (ground arith)
      ]
    ]
  ]

-- A key that a board has used is not used again.
pub record_key-get :
    (key : Option String) (n m k : String) (w u : Written) (b : BoardState)
    → already_written key n b ≡ ok none
    → get k b.keys ≡ some (m, u)
    → get k (record_key key n w b.keys) ≡ some (m, u)
unfolding already_written
record_key-get none n m k w u b r h = h
record_key-get (some j) n m k w u b r h = ground (arith, get-put j k (n, w) b.keys, eq_iff j k)
