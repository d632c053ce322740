-- ===== src/Store/Answers.antt =====
-- The two ways in which a write of `InMemoryStore` (src/blackboard/_board.py) can end: the board is as it
-- was and no fresh answer is given, or the write is sequenced and the answer is fresh.
use blackboardx.Prelude.{
  ℕ, ◌+◌, String, ◌≡◌, refl, ◌⊎◌, inl, inr, true, false, Bool-cases, ◌==◌, none, some, [], ◌∷◌,
  ◌++◌, arith, Option-cases, Option,
}
use blackboardx.Dict.{get}
use blackboardx.Errors.{ok, Result-cases}
use blackboardx.Json.{Value, as_json}
use blackboardx.Board.{Written, written, BoardState}
use blackboardx.Board.Write.{Carried, append_on, set_on, version_of, already_written}
use blackboardx.Board.Outcomes.{fresh}
use blackboardx.Store.{Store, board_of, append, set}
use blackboardx.Store.Isolation.{board_of-put_self}
use blackboardx.Store.Versions.{repeated_again}

-- The board `b` became `d` by the write that was answered with `a`: one more change, at the next
-- sequence, which holds the content as JSON carries it.
pub record Sequenced (now : ℕ) (n : String) (v : Value) (writer : Option String) (a : Written)
    (b d : BoardState) : Type 0 where
  pub carried : Value
  pub json : as_json v ≡ ok carried
  pub new : a.repeated ≡ false
  pub next : a.sequence ≡ b.sequence + 1
  pub sequence : d.sequence ≡ a.sequence
  pub changes :
      d.changes
      ≡ b.changes
        ++ record {
          sequence = a.sequence;
          region = n;
          content = carried;
          writer = writer;
          written_at = some now;
        }
          ∷ []

-- How a write of the board `b` ends: with `b` and no fresh answer, or with a sequenced write. `answers`
-- says that the caller is answered with this.
abbrev pub Answers :
    ℕ → String → Value → Option String → BoardState → (Written → Type 0) → BoardState → Type 0
Answers now n v writer b answers d =
    ((d ≡ b) × ((a : Written) → answers a → a.repeated ≡ true))
    ⊎ ((a : Written) × answers a × Sequenced now n v writer a b d)

append_on-Answers :
    (now : ℕ) (n : String) (v y : Value) (c : Carried) (b : BoardState)
    → as_json v ≡ ok y
    → Answers now n v c.writer b (λ a. (append_on now n y c b).0 ≡ ok a) (append_on now n y c b).1
unfolding append_on
append_on-Answers now n v y c b j = elim (Option-cases (get n b.levels)) [
  | inl e ↦ inl (ground arith, λ a h. absurd (ground arith))
  | inr (cs, e) ↦ elim (Result-cases (already_written c.key n b)) [
    | inl (x, r) ↦ inl (ground arith, λ a h. absurd (ground arith))
    | inr (some w, r) ↦ inl (ground arith, λ a h. ground (arith, repeated_again c.key n b w r))
    | inr (none, r) ↦ inr (
      fresh none b,
      ground arith,
      record {
        carried = y;
        json = j;
        new = refl;
        next = refl;
        sequence = ground arith;
        changes = ground arith;
      },
    )
  ]
]

set_on-Answers :
    (now : ℕ) (n : String) (v y : Value) (expected : ℕ) (c : Carried) (b : BoardState)
    → as_json v ≡ ok y
    → Answers now n v c.writer b
        (λ a. (set_on now n y expected c b).0 ≡ ok (written a))
        (set_on now n y expected c b).1
unfolding set_on
set_on-Answers now n v y expected c b j = elim (Option-cases (get n b.premises)) [
  | inl e ↦ inl (ground arith, λ a h. absurd (ground arith))
  | inr (s, e) ↦ elim (Result-cases (already_written c.key n b)) [
    | inl (x, r) ↦ inl (ground arith, λ a h. absurd (ground arith))
    | inr (some w, r) ↦ inl (ground arith, λ a h. ground (arith, repeated_again c.key n b w r))
    | inr (none, r) ↦ elim (Bool-cases (expected == version_of s)) [
      | inr q ↦ inl (ground arith, λ a h. absurd (ground arith))
      | inl q ↦ inr (
        fresh (some (version_of s + 1)) b,
        ground arith,
        record {
          carried = y;
          json = j;
          new = refl;
          next = refl;
          sequence = ground arith;
          changes = ground arith;
        },
      )
    ]
  ]
]

-- How the store's `append` ends.
pub append-Answers :
    (now : ℕ) (id n : String) (v : Value) (c : Carried) (s : Store)
    → Answers now n v c.writer
        (board_of id s)
        (λ a. (append now id n v c s).0 ≡ ok a)
        (board_of id (append now id n v c s).1)
unfolding append
append-Answers now id n v c s = elim (Result-cases (as_json v)) [
  | inl (x, r) ↦ inl (ground arith, λ a h. absurd (ground arith))
  | inr (y, r) ↦ rw (r, append, board_of-put_self) (append_on-Answers now n v y c (board_of id s) r)
]

-- How the store's `set` ends.
pub set-Answers :
    (now : ℕ) (id n : String) (v : Value) (expected : ℕ) (c : Carried) (s : Store)
    → Answers now n v c.writer
        (board_of id s)
        (λ a. (set now id n v expected c s).0 ≡ ok (written a))
        (board_of id (set now id n v expected c s).1)
unfolding set
set-Answers now id n v expected c s = elim (Result-cases (as_json v)) [
  | inl (x, r) ↦ inl (ground arith, λ a h. absurd (ground arith))
  | inr (y, r) ↦
      rw (r, set, board_of-put_self) (set_on-Answers now n v y expected c (board_of id s) r)
]
