-- ===== src/Control/Deliver.antt =====
-- `_deliver` and `_check_completion` of `Control` (src/blackboard/_control.py): one flat drain of what is
-- to be delivered, each notification marked sent after it was sent.
use blackboardx.Prelude.{Bool, false, List, [], ◌∷◌, ◌++◌, not, ◌&&◌, if◌then◌else◌}
use blackboardx.Store
use blackboardx.Control.{World, App, Delivery, Carrier, callable, transport}
use blackboardx.Control.Closing.{touch_idle}

-- getattr(notify, "marks_sent", False)
abbrev pub marks_sent : Carrier → Bool
marks_sent (callable c marks) = marks
marks_sent (transport address) = false

-- One delivery: what raises is passed over, and what was sent is marked unless its carrier does that.
unfoldable pub deliver_one : App → Delivery → World → World
deliver_one app d w =
    if app.sends d.carrier d.notification && not (marks_sent d.carrier)
    then record w {
      store = Store.mark_sent w.board_id d.notification.agent d.notification.to_sequence w.store;
    }
    else w

unfoldable pub drain : App → List Delivery → World → World
drain app [] w = w
drain app (d ∷ ds) w = drain app ds (deliver_one app d w)

-- _deliver
unfoldable pub deliver : App → List Delivery → World → World
deliver app ds w = drain app (w.queue ++ ds) (record w { queue = [] })

-- _check_completion
unfoldable pub check_completion : World → World
check_completion w = touch_idle w
