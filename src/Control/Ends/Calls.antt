-- ===== src/Control/Ends/Calls.antt =====
-- The calls of an application on `Control` (src/blackboard/_control.py) leave a run's end as it is: `declare`,
-- `write`, `set_premise` and `ack`.
use blackboardx.Prelude.{
  ℕ, String, refl, Option, some, [], arith, Option-cases, Bool-cases, inl, inr, leb,
}
use blackboardx.Errors.{Result, Result-cases}
use blackboardx.Dict.{get}
use blackboardx.Json.{Value}
use blackboardx.Board.{SetAnswer, Region, Written, written, conflict}
use blackboardx.Store
use blackboardx.Store.{Store}
use blackboardx.Control.{World, App}
use blackboardx.Control.Ends.{Ends, Ends-trans, Frame-Ends}
use blackboardx.Control.Frame.{touch_idle-Frame}
use blackboardx.Control.Frame.Writes.{finish-Frame, landed-Frame}
use blackboardx.Control.Landing.{write-cases}
use blackboardx.Control.Landing.Premises.{set_premise-cases}
use blackboardx.Control.Roster.{who_hears}
use blackboardx.Control.Admit.{sequencing_gate}
use blackboardx.Control.Deliver.{check_completion}
use blackboardx.Control.Write.{write, set_premise, sequence_write, sequence_set, names_of}
use blackboardx.Control.Register.{declare, record_kind}
use blackboardx.Control.Answer.{ack, cache_answer, has_closed}

pub store-Ends : (w : World) (s : Store) → Ends w (record w { store = s })
store-Ends w s = record { outcome = refl; closing = refl; told = refl }

pub declare-Ends : (r : Region) (w : World) → Ends w (declare r w).1
unfolding declare record_kind
declare-Ends r w = elim (Option-cases w.outcome) [
  | inr (o, e) ↦ record { outcome = ground arith; closing = ground arith; told = ground arith }
  | inl e ↦ elim (Result-cases (Store.declare w.board_id r w.store).0) [
    | inl (x, d) ↦ record { outcome = ground arith; closing = ground arith; told = ground arith }
    | inr (x, d) ↦ record { outcome = ground arith; closing = ground arith; told = ground arith }
  ]
]

module _ (app : App) (region : String) (content : Value) (key : Option String) (writer : String)
    (w : World) where
  pub sequence_write-Ends : Ends w (sequence_write app region content key writer w).1
  unfolding sequence_write
  sequence_write-Ends = elim (Option-cases (sequencing_gate w)) [
    | inr (gate, g) ↦ simp (g, sequence_write) (Frame-Ends (finish-Frame app [] w))
    | inl g ↦ elim (Result-cases answer.0) [
      | inl (x, e) ↦ simp (g, e, sequence_write) (store-Ends w answer.1)
      | inr (a, e) ↦ elim (Bool-cases a.repeated) [
        | inl r ↦ simp (g, e, r, sequence_write) (store-Ends w answer.1)
        | inr r ↦
            simp (g, e, r, sequence_write)
              (Ends-trans (store-Ends w answer.1) (Frame-Ends (landed-Frame app _ _ _ _ _)))
      ]
    ]
  ]
    where
      answer : Result Written × Store
      answer =
          Store.append w.store_now w.board_id region content
            (record {
              key = key;
              writer = some writer;
              notify = names_of (who_hears region writer w);
            })
            w.store

  pub write-Ends : Ends w (write app region content key writer w).1
  write-Ends = elim (write-cases app region content key writer w) [
    | inl (r, e, f, n, c) ↦ rw e (Frame-Ends f)
    | inr e ↦ rw e sequence_write-Ends
  ]

cache_answer-Ends :
    (agent : String) (through : ℕ) (w : World) → Ends w (cache_answer agent through w)
cache_answer-Ends agent through w = elim (Option-cases (get agent w.agents)) [
  | inl e ↦ record { outcome = ground arith; closing = ground arith; told = ground arith }
  | inr (s, e) ↦ record { outcome = ground arith; closing = ground arith; told = ground arith }
]

pub ack-Ends : (through : ℕ) (agent : String) (w : World) → Ends w (ack through agent w).1
unfolding ack check_completion
ack-Ends through agent w =
    elim (Option-cases (Store.acknowledge w.board_id agent through w.store).0) [
      | inl e ↦
          elim (Bool-cases (
            has_closed (
              Store.read_run w.store_now w.board_id
                (Store.acknowledge w.board_id agent through w.store).1))) [
                  | inl h ↦ simp (e, h, ack) (store-Ends w _)
                  | inr h ↦ simp (e, h, ack) (store-Ends w _)
                ]
      | inr (p, e) ↦ elim (Bool-cases (leb through p.acknowledged_through)) [
        | inl l ↦ simp (e, l, ack) (store-Ends w _)
        | inr l ↦
            simp (e, l, ack)
              (Ends-trans (store-Ends w _)
                (Ends-trans (cache_answer-Ends agent through _) (Frame-Ends (touch_idle-Frame _))))
      ]
    ]

module _ (app : App) (region : String) (content : Value) (expected : ℕ) (key : Option String)
    (writer : String) (w : World) where
  pub sequence_set-Ends : Ends w (sequence_set app region content expected key writer w).1
  unfolding sequence_set
  sequence_set-Ends = elim (Option-cases (sequencing_gate w)) [
    | inr (gate, g) ↦ simp (g, sequence_set) (Frame-Ends (finish-Frame app [] w))
    | inl g ↦ elim (Result-cases answer.0) [
      | inl (x, e) ↦ simp (g, e, sequence_set) (store-Ends w answer.1)
      | inr (conflict current, e) ↦
          simp (g, e, sequence_set)
            (Ends-trans (store-Ends w answer.1) (Frame-Ends (finish-Frame app [] _)))
      | inr (written a, e) ↦ elim (Bool-cases a.repeated) [
        | inl r ↦ simp (g, e, r, sequence_set) (store-Ends w answer.1)
        | inr r ↦
            simp (g, e, r, sequence_set)
              (Ends-trans (store-Ends w answer.1) (Frame-Ends (landed-Frame app _ _ _ _ _)))
      ]
    ]
  ]
    where
      answer : Result SetAnswer × Store
      answer =
          Store.set w.store_now w.board_id region content expected
            (record {
              key = key;
              writer = some writer;
              notify = names_of (who_hears region writer w);
            })
            w.store

  pub set_premise-Ends : Ends w (set_premise app region content expected key writer w).1
  set_premise-Ends = elim (set_premise-cases app region content expected key writer w) [
    | inl (r, e, f, n) ↦ rw e (Frame-Ends f)
    | inr e ↦ rw e sequence_set-Ends
  ]
