-- ===== src/Board/Log/Others.antt =====
-- The calls of `InMemoryStore` (src/blackboard/_board.py) on a run, on agents and on the outbox: they
-- leave a board's record alone.
use blackboardx.Prelude.{ℕ, String, ◌≡◌, subst, Option, List, arith}
use blackboardx.Board.{BoardState}
use blackboardx.Board.Run.{open_run_on, touch_run_on, close_run_on}
use blackboardx.Board.Agents.{Wants, declare_agent_on, mark_notified_on, acknowledge_on}
use blackboardx.Board.Outbox.{mark_sent_on}
use blackboardx.Board.Log.Keeps.{IsRecord}

-- The two boards hold the same regions, changes and keys.
pub record SameRecord (b c : BoardState) : Type 0 where
  pub sequence : c.sequence ≡ b.sequence
  pub levels : c.levels ≡ b.levels
  pub premises : c.premises ≡ b.premises
  pub changes : c.changes ≡ b.changes
  pub keys : c.keys ≡ b.keys

pub SameRecord-IsRecord : {b c : BoardState} → SameRecord b c → IsRecord b → IsRecord c
SameRecord-IsRecord {b} {c} e v = subst IsRecord whole kept
  where
    kept : IsRecord (record b { run = c.run; agents = c.agents; outbox = c.outbox })
    kept = record {
      counted = v.counted;
      numbered = v.numbered;
      levels_view = v.levels_view;
      premises_view = v.premises_view;
      apart = v.apart;
      named = v.named;
      keyed = v.keyed;
    }

    whole : (record b { run = c.run; agents = c.agents; outbox = c.outbox }) ≡ c
    whole = cc

module _ (b : BoardState) where
  pub open_run_on-SameRecord : (now wall idle : ℕ) → SameRecord b (open_run_on now wall idle b)
  unfolding open_run_on
  open_run_on-SameRecord now wall idle = ground arith

  pub touch_run_on-SameRecord : (now idle : ℕ) → SameRecord b (touch_run_on now idle b)
  unfolding touch_run_on
  touch_run_on-SameRecord now idle = ground arith

  pub close_run_on-SameRecord :
      (closed_as : String) (reason : Option String) (unfinished : List String)
      → SameRecord b (close_run_on closed_as reason unfinished b).1
  unfolding close_run_on
  close_run_on-SameRecord closed_as reason unfinished = ground arith

  pub declare_agent_on-SameRecord :
      (agent : String) (w : Wants) → SameRecord b (declare_agent_on agent w b)
  unfolding declare_agent_on
  declare_agent_on-SameRecord agent w = ground arith

  pub mark_notified_on-SameRecord :
      (agent : String) (through : ℕ) → SameRecord b (mark_notified_on agent through b)
  unfolding mark_notified_on
  mark_notified_on-SameRecord agent through = ground arith

  pub acknowledge_on-SameRecord :
      (agent : String) (through : ℕ) → SameRecord b (acknowledge_on agent through b).1
  unfolding acknowledge_on
  acknowledge_on-SameRecord agent through = ground arith

  pub mark_sent_on-SameRecord :
      (agent : String) (through : ℕ) → SameRecord b (mark_sent_on agent through b)
  unfolding mark_sent_on
  mark_sent_on-SameRecord agent through = ground arith
