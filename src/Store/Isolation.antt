-- ===== src/Store/Isolation.antt =====
-- One board of `InMemoryStore` (src/blackboard/_board.py) under calls on any boards.
use blackboardx.Prelude.{
  ℕ, String, ◌≡◌, refl, ap, ◌∙◌, none, some, List, [], ◌∷◌, arith, str_eq, eq_iff, Option-cases,
  Bool-cases, inl, inr, if◌then◌else◌,
}
use blackboardx.Dict.{get, put, remove, get-put, get-remove}
use blackboardx.Errors.{Result-cases}
use blackboardx.Json.{Value, as_json}
use blackboardx.Board.{BoardState, new_board}
use blackboardx.Board.Write.{Carried, declare_on, append_on, set_on}
use blackboardx.Board.Run.{open_run_on, touch_run_on, close_run_on}
use blackboardx.Board.Agents.{declare_agent_on, mark_notified_on, acknowledge_on}
use blackboardx.Board.Outbox.{mark_sent_on}
use blackboardx.Store
use blackboardx.Store.{Store, board_of, on_board, on_held}
use blackboardx.Store.Calls.{
  Call, step, run, effect, effects, calls_on, declares, appends, sets, reads_level, reads_premise,
  reads_board, reads_regions, deletes, opens_run, touches_run, closes_run, marks_sent,
  declares_agent, marks_notified, acknowledges,
}

pub board_of-put :
    (id j : String) (b : BoardState) (s : Store)
    → board_of j (put id b s) ≡ (if str_eq id j then b else board_of j s)
board_of-put id j b s = ground (arith, get-put id j b s)

pub board_of-put_self : (id : String) (b : BoardState) (s : Store) → board_of id (put id b s) ≡ b
board_of-put_self id b s = ground (arith, get-put id id b s, eq_iff id id)

board_of-remove :
    (id j : String) (s : Store)
    → board_of j (remove id s) ≡ (if str_eq id j then new_board else board_of j s)
board_of-remove id j s = ground (arith, get-remove id j s)

pub board_of-held :
    (id : String) (s : Store) (b : BoardState) → get id s ≡ some b → board_of id s ≡ b
board_of-held id s b e = ground arith

pub board_of-missing : (id : String) (s : Store) → get id s ≡ none → board_of id s ≡ new_board
board_of-missing id s e = ground arith

-- On `board_of j`, the first board's change is seen at its own name only.
abbrev pub Applies : String → String → Store → Store → (BoardState → BoardState) → Type 0
Applies id j s t f = board_of j t ≡ (if str_eq id j then f (board_of j s) else board_of j s)

put-Applies :
    (id j : String) (s : Store) (f : BoardState → BoardState)
    → Applies id j s (put id (f (board_of id s)) s) f
put-Applies id j s f = elim (Bool-cases (str_eq id j)) [
  | inl e ↦ rw (board_of-put, e) (ap (λ i. f (board_of i s)) ((eq_iff id j).0 e))
  | inr e ↦ rw (board_of-put, e) refl
]

on_held-Applies :
    {A : Type 0} (id j : String) (s : Store) (a : A) (f : BoardState → A × BoardState)
    → (f new_board).1 ≡ new_board
    → Applies id j s (on_held id s a f).1 (λ b. (f b).1)
on_held-Applies id j s a f q = elim (Option-cases (get id s)) [
  | inl e ↦ ground (arith, board_of-missing id s e, eq_iff id j, q)
  | inr (b, e) ↦ ground (arith, board_of-held id s b e, board_of-put id j (f b).1 s, eq_iff id j)
]

same-Applies : (id j : String) (s : Store) → Applies id j s (put id (board_of id s) s) (λ b. b)
same-Applies id j s = put-Applies id j s (λ b. b)

append-Applies :
    (now : ℕ) (id n : String) (v : Value) (c : Carried) (j : String) (s : Store)
    → Applies id j s (Store.append now id n v c s).1 (effect (appends now n v c))
unfolding Store.append effect
append-Applies now id n v c j s = elim (Result-cases (as_json v)) [
  | inl (e, r) ↦ ground (arith, r)
  | inr (w, r) ↦ rw (r, Store.append, effect) (put-Applies id j s (λ b. (append_on now n w c b).1))
]

set-Applies :
    (now : ℕ) (id n : String) (v : Value) (expected : ℕ) (c : Carried) (j : String) (s : Store)
    → Applies id j s (Store.set now id n v expected c s).1 (effect (sets now n v expected c))
unfolding Store.set effect
set-Applies now id n v expected c j s = elim (Result-cases (as_json v)) [
  | inl (e, r) ↦ ground (arith, r)
  | inr (w, r) ↦
      rw (r, Store.set, effect) (put-Applies id j s (λ b. (set_on now n w expected c b).1))
]

delete-Applies : (id j : String) (s : Store) → Applies id j s (Store.delete id s).1 (effect deletes)
unfolding Store.delete effect
delete-Applies id j s = elim (Option-cases (get id s)) [
  | inl e ↦ ground (arith, board_of-missing id s e, eq_iff id j)
  | inr (b, e) ↦ ground (arith, board_of-remove id j s, eq_iff id j)
]

-- A call on the board `id` has its effect on that board, and none on any other.
pub step-Applies :
    (id : String) (c : Call) (j : String) (s : Store) → Applies id j s (step id c s) (effect c)
unfolding step effect touch_run_on close_run_on mark_sent_on acknowledge_on get Store.declare
    Store.read_level Store.read_premise Store.read_board Store.read_regions Store.open_run
    Store.touch_run Store.close_run Store.mark_sent Store.declare_agent Store.mark_notified
    Store.acknowledge
step-Applies id (declares r) j s = put-Applies id j s (λ b. (declare_on r b).1)
step-Applies id (appends now n v c) j s = append-Applies now id n v c j s
step-Applies id (sets now n v expected c) j s = set-Applies now id n v expected c j s
step-Applies id (reads_level n from_sequence limit) j s = same-Applies id j s
step-Applies id (reads_premise n) j s = same-Applies id j s
step-Applies id (reads_board from_sequence limit) j s = same-Applies id j s
step-Applies id reads_regions j s = same-Applies id j s
step-Applies id deletes j s = delete-Applies id j s
step-Applies id (opens_run now wall idle) j s = put-Applies id j s (open_run_on now wall idle)
step-Applies id (touches_run now idle) j s =
    on_held-Applies {A = Unit {0}} id j s tt (λ b. (tt, touch_run_on now idle b)) refl
step-Applies id (closes_run closed_as reason unfinished) j s =
    on_held-Applies id j s _ (close_run_on closed_as reason unfinished) refl
step-Applies id (marks_sent agent through) j s =
    on_held-Applies {A = Unit {0}} id j s tt (λ b. (tt, mark_sent_on agent through b)) refl
step-Applies id (declares_agent agent w) j s = put-Applies id j s (declare_agent_on agent w)
step-Applies id (marks_notified agent through) j s =
    put-Applies id j s (mark_notified_on agent through)
step-Applies id (acknowledges agent through) j s =
    on_held-Applies id j s _ (acknowledge_on agent through) refl

-- After any calls on any boards, in whatever order, a board is what the calls that name it make of it:
-- no call on another board changes it.
pub board_of-run :
    (j : String) (cs : List (String × Call)) (s : Store)
    → board_of j (run cs s) ≡ effects (calls_on j cs) (board_of j s)
unfolding run effects calls_on
board_of-run j [] s = refl
board_of-run j ((id, c) ∷ cs) s = elim (Bool-cases (str_eq id j)) [
  | inl e ↦
      rw (e, calls_on)
        (board_of-run j cs (step id c s)
          ∙ ap (effects (calls_on j cs)) (step-Applies id c j s ∙ rw e))
  | inr e ↦
      rw (e, calls_on)
        (board_of-run j cs (step id c s)
          ∙ ap (effects (calls_on j cs)) (step-Applies id c j s ∙ rw e))
]
