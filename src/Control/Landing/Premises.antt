-- ===== src/Control/Landing/Premises.antt =====
-- The board's record after a call of `Control.set_premise` (src/blackboard/_control.py).
use blackboardx.Control.Landing.{Recorded, then_same, same_record}
use blackboardx.Prelude.{
  List, [], ℕ, String, ◌≡◌, refl, ◌⊎◌, inl, inr, true, Option, none, some, arith, Option-cases, [],
}
use blackboardx.Errors.{Result, ok, err, Result-cases}
use blackboardx.Json.{Value}
use blackboardx.Board.{Written, written, conflict, AgentProgress}
use blackboardx.Board.Write.{Carried}
use blackboardx.Store
use blackboardx.Store.{board_of}
use blackboardx.Store.Frame.{SameRecord-trans}
use blackboardx.Store.Answers.{set-Answers}
use blackboardx.Control.{World, App, premise_write, accept, reject, admission, premise_kind}
use blackboardx.Control.Roster.{who_hears}
use blackboardx.Control.Admit.{rejected, sequencing_gate, refuse_region}
use blackboardx.Control.Frame.{Frame, Frame-refl}
use blackboardx.Control.Frame.Writes.{finish-Frame, landed-Frame}
use blackboardx.Control.Write.{
  WriteAnswer, sequenced, refused, finish, names_of, sequence_set, set_premise,
}

module _ (app : App) (region : String) (content : Value) (expected : ℕ) (key : Option String)
    (writer : String) (w : World) where
  pub set_premise-cases :
      ((r : Result WriteAnswer × World) × (set_premise app region content expected key writer w ≡ r)
        × Frame w r.1
        × ((a : Written) → r.0 ≡ ok (sequenced a) → a.repeated ≡ true))
      ⊎ (set_premise app region content expected key writer w
          ≡ sequence_set app region content expected key writer w)
  unfolding set_premise
  set_premise-cases = elim (Result-cases (refuse_region region premise_kind w)) [
    | inl (e, r) ↦ inl ((err e, w), ground arith, Frame-refl w, λ a h. absurd (ground arith))
    | inr (some x, r) ↦
        inl ((ok (refused x), w), ground arith, Frame-refl w, λ a h. absurd (ground arith))
    | inr (none, r) ↦
        elim (Result-cases
          (app.admission_rule (premise_write writer region content expected) w.store)) [
            | inl (e, q) ↦
                inl ((err e, w), ground arith, Frame-refl w, λ a h. absurd (ground arith))
            | inr (reject reason, q) ↦ inl (
              (ok (refused (rejected admission reason)), finish app [] w),
              ground arith,
              finish-Frame app [] w,
              λ a h. absurd (ground arith),
            )
            | inr (accept, q) ↦ inr (ground arith)
          ]
  ]

  sequence_set-Recorded :
      Recorded region content writer w (sequence_set app region content expected key writer w)
  unfolding sequence_set
  sequence_set-Recorded = elim (Option-cases (sequencing_gate w)) [
    | inr (gate, g) ↦
        rw (g, sequence_set) (inl ((finish-Frame app [] w).same, λ a h. absurd (ground arith)))
    | inl g ↦ elim (set-Answers w.store_now w.board_id region content expected carried w.store) [
      | inr (a, e, q) ↦
          simp (g, e, q.new, sequence_set)
            (inr
              (a, refl, then_same q (landed-Frame app region writer hearers a.sequence after).same))
      | inl (same, rep) ↦
          elim (Result-cases
            (Store.set w.store_now w.board_id region content expected carried w.store).0) [
              | inl (x, e) ↦
                  rw (g, e, sequence_set) (inl (same_record same, λ a h. absurd (ground arith)))
              | inr (conflict current, e) ↦
                  rw (g, e, sequence_set)
                    (inl (
                      SameRecord-trans (same_record same) (finish-Frame app [] after).same,
                      λ a h. absurd (ground arith),
                    ))
              | inr (written a, e) ↦
                  simp (g, e, rep a e, sequence_set)
                    (inl (same_record same, λ c h. ground (arith, rep a e)))
            ]
    ]
  ]
    where
      hearers : List AgentProgress
      hearers = who_hears region writer w

      carried : Carried
      carried = record { key = key; writer = some writer; notify = names_of hearers }

      after : World
      after = record w {
        store = (Store.set w.store_now w.board_id region content expected carried w.store).1;
      }

  -- A premise write either joins the board's record, as the next change and with the value as JSON
  -- carries it, and the answer is that fresh sequence, or it leaves the board's record as it was, and the
  -- answer is an exception, a rejection, a conflict or a repeated write's.
  pub set_premise-Recorded :
      Recorded region content writer w (set_premise app region content expected key writer w)
  set_premise-Recorded = elim set_premise-cases [
    | inl (r, e, f, n) ↦ rw e (inl (f.same, n))
    | inr e ↦ rw e sequence_set-Recorded
  ]
