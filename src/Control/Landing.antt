-- ===== src/Control/Landing.antt =====
-- The board's record after a call of `Control.write` (src/blackboard/_control.py).
pub mod Premises
use blackboardx.Prelude.{
  List, [], ◌∙◌, ℕ, String, ◌≡◌, refl, ◌⊎◌, inl, inr, true, false, Option, none, some, arith,
  Option-cases, Bool-cases, sym, subst,
}
use blackboardx.Errors.{Result, ok, err, Result-cases}
use blackboardx.Json.{Value}
use blackboardx.Board.{Written, written, conflict, BoardState, AgentProgress}
use blackboardx.Board.Write.{Carried}
use blackboardx.Store
use blackboardx.Store.{board_of}
use blackboardx.Store.Frame.{SameOn, SameRecord-refl, SameRecord-trans}
use blackboardx.Store.Answers.{Sequenced, Answers, append-Answers, set-Answers}
use blackboardx.Board.Log.Others.{SameRecord}
use blackboardx.Control.{
  World, App, contribution, premise_write, accept, reject, not_permitted, admission, level_kind,
  premise_kind,
}
use blackboardx.Control.Roster.{who_hears}
use blackboardx.Control.Admit.{rejected, sequencing_gate, refuse_region}
use blackboardx.Control.Frame.{Frame, Frame-refl}
use blackboardx.Control.Frame.Writes.{finish-Frame, landed-Frame}
use blackboardx.Control.Write.{
  WriteAnswer, sequenced, conflicts, refused, permitted, finish, landed, names_of, sequence_write,
  write, sequence_set, set_premise,
}

-- A record that only differs beside the changes is still that of a sequenced write.
pub then_same :
    {now : ℕ} {n : String} {v : Value} {writer : Option String} {a : Written} {b d e : BoardState}
    → Sequenced now n v writer a b d
    → SameRecord d e
    → Sequenced now n v writer a b e
then_same {e} q s = record {
  carried = q.carried;
  json = q.json;
  new = q.new;
  next = q.next;
  sequence = s.sequence ∙ q.sequence;
  changes = s.changes ∙ q.changes;
}

pub same_record : {b d : BoardState} → d ≡ b → SameRecord b d
same_record {b} e = subst (SameRecord b) (sym e) (SameRecord-refl b)

-- The write is on the board's record, or the record is as it was and no fresh answer was given.
abbrev pub Recorded : String → Value → String → World → Result WriteAnswer × World → Type 0
Recorded region content writer w r =
    (SameOn w.board_id w.store r.1.store
      × ((a : Written) → r.0 ≡ ok (sequenced a) → a.repeated ≡ true))
    ⊎ ((a : Written) × (r.0 ≡ ok (sequenced a))
        × Sequenced w.store_now region content (some writer) a (board_of w.board_id w.store)
            (board_of w.board_id r.1.store))

module _ (app : App) (region : String) (content : Value) (key : Option String) (writer : String)
    (w : World) where
  pub write-cases :
      ((r : Result WriteAnswer × World) × (write app region content key writer w ≡ r)
        × Frame w r.1
        × ((a : Written) → r.0 ≡ ok (sequenced a) → a.repeated ≡ true)
        × ((n : ℕ) → ¬ (r.0 ≡ ok (conflicts n))))
      ⊎ (write app region content key writer w ≡ sequence_write app region content key writer w)
  unfolding write
  write-cases = elim (Result-cases (refuse_region region level_kind w)) [
    | inl (e, r) ↦ inl (
      (err e, w),
      ground arith,
      Frame-refl w,
      λ a h. absurd (ground arith),
      λ n h. absurd (ground arith),
    )
    | inr (some x, r) ↦ inl (
      (ok (refused x), w),
      ground arith,
      Frame-refl w,
      λ a h. absurd (ground arith),
      λ n h. absurd (ground arith),
    )
    | inr (none, r) ↦ elim (Bool-cases (permitted writer region w)) [
      | inr p ↦ inl (
        (ok (refused (rejected not_permitted "the writer may not write to the level")), w),
        ground arith,
        Frame-refl w,
        λ a h. absurd (ground arith),
        λ n h. absurd (ground arith),
      )
      | inl p ↦
          elim (Result-cases (app.admission_rule (contribution writer region content) w.store)) [
            | inl (e, q) ↦ inl (
              (err e, w),
              ground arith,
              Frame-refl w,
              λ a h. absurd (ground arith),
              λ n h. absurd (ground arith),
            )
            | inr (reject reason, q) ↦ inl (
              (ok (refused (rejected admission reason)), finish app [] w),
              ground arith,
              finish-Frame app [] w,
              λ a h. absurd (ground arith),
              λ n h. absurd (ground arith),
            )
            | inr (accept, q) ↦ inr (ground arith)
          ]
    ]
  ]

  sequence_write-unconflicted :
      (n : ℕ) → ¬ ((sequence_write app region content key writer w).0 ≡ ok (conflicts n))
  unfolding sequence_write
  sequence_write-unconflicted n h = elim (Option-cases (sequencing_gate w)) [
    | inr (gate, g) ↦ absurd (ground arith)
    | inl g ↦
        elim (Result-cases
          (Store.append w.store_now w.board_id region content
            (record {
              key = key;
              writer = some writer;
              notify = names_of (who_hears region writer w);
            })
            w.store).0) [
              | inl (x, e) ↦ absurd (ground arith)
              | inr (a, e) ↦ elim (Bool-cases a.repeated) [
                | inl r ↦ absurd (ground arith)
                | inr r ↦ absurd (ground arith)
              ]
            ]
  ]

  sequence_write-Recorded :
      Recorded region content writer w (sequence_write app region content key writer w)
  unfolding sequence_write
  sequence_write-Recorded = elim (Option-cases (sequencing_gate w)) [
    | inr (gate, g) ↦
        rw (g, sequence_write) (inl ((finish-Frame app [] w).same, λ a h. absurd (ground arith)))
    | inl g ↦ elim (append-Answers w.store_now w.board_id region content carried w.store) [
      | inr (a, e, q) ↦
          simp (g, e, q.new, sequence_write)
            (inr
              (a, refl, then_same q (landed-Frame app region writer hearers a.sequence after).same))
      | inl (same, rep) ↦
          elim (Result-cases
            (Store.append w.store_now w.board_id region content carried w.store).0) [
              | inl (x, e) ↦
                  rw (g, e, sequence_write) (inl (same_record same, λ a h. absurd (ground arith)))
              | inr (a, e) ↦
                  simp (g, e, rep a e, sequence_write)
                    (inl (same_record same, λ c h. ground (arith, rep a e)))
            ]
    ]
  ]
    where
      hearers : List AgentProgress
      hearers = who_hears region writer w

      carried : Carried
      carried = record { key = key; writer = some writer; notify = names_of hearers }

      after : World
      after = record w {
        store = (Store.append w.store_now w.board_id region content carried w.store).1;
      }

  -- A contribution either joins the board's record, as the next change and with the content as JSON
  -- carries it, and the answer is that fresh sequence, or it leaves the board's record as it was, and the
  -- answer is an exception, a rejection or a repeated write's. It is never answered with a conflict.
  pub write-Recorded :
      Recorded region content writer w (write app region content key writer w)
      × ((n : ℕ) → ¬ ((write app region content key writer w).0 ≡ ok (conflicts n)))
  write-Recorded = elim write-cases [
    | inl (r, e, f, n, c) ↦ rw e (inl (f.same, n), c)
    | inr e ↦ rw e (sequence_write-Recorded, sequence_write-unconflicted)
  ]
