-- ===== src/Store/Frame.antt =====
-- The store calls that `Control` makes beside its writes (`touch_run`, `mark_notified`, `mark_sent`,
-- `close_run`, `acknowledge`, `declare_agent`; src/blackboard/_board.py) leave the board's record alone.
use blackboardx.Prelude.{refl, ℕ, String, ◌≡◌, sym, subst, ◌∙◌, Option, List, arith, eq_iff}
use blackboardx.Board.{BoardState}
use blackboardx.Board.Agents.{Wants}
use blackboardx.Board.Log.Others
use blackboardx.Board.Log.Others.{SameRecord}
use blackboardx.Store
use blackboardx.Store.{Store, board_of}
use blackboardx.Store.Calls.{
  Call, step, effect, touches_run, marks_notified, marks_sent, closes_run, acknowledges,
  declares_agent,
}
use blackboardx.Store.Isolation.{step-Applies}

pub board_of-step :
    (id : String) (c : Call) (s : Store) → board_of id (step id c s) ≡ effect c (board_of id s)
board_of-step id c s = ground (arith, step-Applies id c id s, eq_iff id id)

pub SameRecord-refl : (b : BoardState) → SameRecord b b
SameRecord-refl b = record {
  sequence = refl;
  levels = refl;
  premises = refl;
  changes = refl;
  keys = refl;
}

pub SameRecord-trans : {a b c : BoardState} → SameRecord a b → SameRecord b c → SameRecord a c
SameRecord-trans p q = record {
  sequence = q.sequence ∙ p.sequence;
  levels = q.levels ∙ p.levels;
  premises = q.premises ∙ p.premises;
  changes = q.changes ∙ p.changes;
  keys = q.keys ∙ p.keys;
}

-- The two stores hold the same record of the board.
abbrev pub SameOn : String → Store → Store → Type 0
SameOn id s t = SameRecord (board_of id s) (board_of id t)

step-SameOn :
    (id : String) (c : Call) (s : Store)
    → SameRecord (board_of id s) (effect c (board_of id s))
    → SameOn id s (step id c s)
step-SameOn id c s e = subst (SameRecord (board_of id s)) (sym (board_of-step id c s)) e

module _ (id : String) (s : Store) where
  pub touch_run-SameOn : (now idle : ℕ) → SameOn id s (Store.touch_run now id idle s)
  unfolding step effect
  touch_run-SameOn now idle =
      step-SameOn id (touches_run now idle) s
        (Others.touch_run_on-SameRecord (board_of id s) now idle)

  pub mark_notified-SameOn :
      (agent : String) (through : ℕ) → SameOn id s (Store.mark_notified id agent through s)
  unfolding step effect
  mark_notified-SameOn agent through =
      step-SameOn id (marks_notified agent through) s
        (Others.mark_notified_on-SameRecord (board_of id s) agent through)

  pub mark_sent-SameOn :
      (agent : String) (through : ℕ) → SameOn id s (Store.mark_sent id agent through s)
  unfolding step effect
  mark_sent-SameOn agent through =
      step-SameOn id (marks_sent agent through) s
        (Others.mark_sent_on-SameRecord (board_of id s) agent through)

  pub close_run-SameOn :
      (a : String) (r : Option String) (u : List String)
      → SameOn id s (Store.close_run id a r u s).1
  unfolding step effect
  close_run-SameOn a r u =
      step-SameOn id (closes_run a r u) s (Others.close_run_on-SameRecord (board_of id s) a r u)

  pub acknowledge-SameOn :
      (agent : String) (through : ℕ) → SameOn id s (Store.acknowledge id agent through s).1
  unfolding step effect
  acknowledge-SameOn agent through =
      step-SameOn id (acknowledges agent through) s
        (Others.acknowledge_on-SameRecord (board_of id s) agent through)

  pub declare_agent-SameOn :
      (agent : String) (w : Wants) → SameOn id s (Store.declare_agent id agent w s)
  unfolding step effect
  declare_agent-SameOn agent w =
      step-SameOn id (declares_agent agent w) s
        (Others.declare_agent_on-SameRecord (board_of id s) agent w)
