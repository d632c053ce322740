-- ===== src/Store/Record.antt =====
-- Boards of `InMemoryStore` (src/blackboard/_board.py) against the sequence of their changes.
use blackboardx.Prelude.{String, subst, sym, List, [], ◌∷◌, inl, inr}
use blackboardx.Dict.{get}
use blackboardx.Json.{as_json}
use blackboardx.Errors.{Result-cases}
use blackboardx.Board.{BoardState, new_board}
use blackboardx.Board.Log.Keeps.{IsRecord, new_board-IsRecord, declare_on-IsRecord}
use blackboardx.Board.Log.Writes.{append_on-IsRecord, set_on-IsRecord}
use blackboardx.Board.Log.Others
use blackboardx.Board.Log.Others.{SameRecord-IsRecord}
use blackboardx.Store.{board_of}
use blackboardx.Store.Calls.{
  Call, run, effect, effects, calls_on, declares, appends, sets, reads_level, reads_premise,
  reads_board, reads_regions, deletes, opens_run, touches_run, closes_run, marks_sent,
  declares_agent, marks_notified, acknowledges,
}
use blackboardx.Store.Isolation.{board_of-run}

pub effect-IsRecord : (c : Call) (b : BoardState) → IsRecord b → IsRecord (effect c b)
unfolding effect
effect-IsRecord (declares r) b v = declare_on-IsRecord r b v
effect-IsRecord (appends now n w c) b v = elim (Result-cases (as_json w)) [
  | inl (e, r) ↦ rw (r, effect) v
  | inr (x, r) ↦ rw (r, effect) (append_on-IsRecord now n x c b v)
]
effect-IsRecord (sets now n w expected c) b v = elim (Result-cases (as_json w)) [
  | inl (e, r) ↦ rw (r, effect) v
  | inr (x, r) ↦ rw (r, effect) (set_on-IsRecord now n x expected c b v)
]
effect-IsRecord (reads_level n from_sequence limit) b v = v
effect-IsRecord (reads_premise n) b v = v
effect-IsRecord (reads_board from_sequence limit) b v = v
effect-IsRecord reads_regions b v = v
effect-IsRecord deletes b v = new_board-IsRecord
effect-IsRecord (opens_run now wall idle) b v =
    SameRecord-IsRecord (Others.open_run_on-SameRecord b now wall idle) v
effect-IsRecord (touches_run now idle) b v =
    SameRecord-IsRecord (Others.touch_run_on-SameRecord b now idle) v
effect-IsRecord (closes_run closed_as reason unfinished) b v =
    SameRecord-IsRecord (Others.close_run_on-SameRecord b closed_as reason unfinished) v
effect-IsRecord (marks_sent agent through) b v =
    SameRecord-IsRecord (Others.mark_sent_on-SameRecord b agent through) v
effect-IsRecord (declares_agent agent w) b v =
    SameRecord-IsRecord (Others.declare_agent_on-SameRecord b agent w) v
effect-IsRecord (marks_notified agent through) b v =
    SameRecord-IsRecord (Others.mark_notified_on-SameRecord b agent through) v
effect-IsRecord (acknowledges agent through) b v =
    SameRecord-IsRecord (Others.acknowledge_on-SameRecord b agent through) v

pub effects-IsRecord : (cs : List Call) (b : BoardState) → IsRecord b → IsRecord (effects cs b)
unfolding effects
effects-IsRecord [] b v = v
effects-IsRecord (c ∷ cs) b v = effects-IsRecord cs (effect c b) (effect-IsRecord c b v)

-- From an empty store, whatever calls processes make on whatever boards and in whatever order, every
-- board's sequence counts its changes, the changes are numbered 1, 2, 3 and so on, each level holds
-- exactly the contributions that the changes write to it, each premise holds its last change under
-- the count of its changes, no name is both a level and a premise, every change is to a declared
-- region, and every idempotency key names a change to the region it was used for.
pub run-IsRecord : (cs : List (String × Call)) (id : String) → IsRecord (board_of id (run cs []))
unfolding get
run-IsRecord cs id =
    subst IsRecord (sym (board_of-run id cs []))
      (effects-IsRecord (calls_on id cs) new_board new_board-IsRecord)
