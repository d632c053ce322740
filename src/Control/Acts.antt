-- ===== src/Control/Acts.antt =====
-- A process's `Control` over time (src/blackboard/_control.py): the calls that its application and its clock
-- make, the clocks' advance, and what other processes do to the store, in any order.
use blackboardx.Prelude.{ℕ, String, ◌≡◌, refl, Option, some, List, [], ◌∷◌, arith}
use blackboardx.Errors.{ok}
use blackboardx.Json.{Value}
use blackboardx.Board.{Region}
use blackboardx.Store.{Store}
use blackboardx.Control.{World, App, Agent, Armed, RunOutcome}
use blackboardx.Control.Closing.{abort}
use blackboardx.Control.Admit.{closed_refusal, refuse_region, sequencing_gate}
use blackboardx.Control.Register.{declare, register_agent}
use blackboardx.Control.Openings.{open_premises}
use blackboardx.Control.Answer.{ack, notify_due, fire}
use blackboardx.Control.Relay.{relay}
use blackboardx.Control.Write.{write, set_premise, refused, sequence_write, sequence_set}
use blackboardx.Control.Ends.{Moves, stays, IsTold, Moves-IsTold, Moves-outcome}
use blackboardx.Control.Ends.Calls.{
  declare-Ends, sequence_write-Ends, sequence_set-Ends, write-Ends, set_premise-Ends, ack-Ends,
  store-Ends,
}
use blackboardx.Control.Ends.Joining.{register_agent-Ends, open_premises-Ends}
use blackboardx.Control.Ends.Relays.{relay-Ends}
use blackboardx.Control.Ends.Passes.{abort-Moves, notify_due-Moves, fire-Moves}

-- What a process's threads and clocks do. A write is `writes` where no other act comes between its two critical
-- sections. Where one does, `sequences` is the second section of an admitted write, with what comes of it, in the
-- world that the other acts left: its admission has changed nothing.
pub data Act : Type 0 where
  declares : Region → Act
  registers : Agent → Act
  opens : List (String × Value) → Act
  writes : String → Value → Option String → String → Act
  sets : String → Value → ℕ → Option String → String → Act
  sequences : String → Value → Option String → String → Act
  sequences_premise : String → Value → ℕ → Option String → String → Act
  aborts : String → Act
  acks : ℕ → String → Act
  relays : Act
  notifies : Act
  fires : Armed → Act
  elsewhere : Store → Act
  passes : ℕ → ℕ → Act

unfoldable pub act : App → Act → World → World
act app (declares r) w = (declare r w).1
act app (registers a) w = (register_agent app a w).1
act app (opens vs) w = (open_premises app vs w).1
act app (writes level content key writer) w = (write app level content key writer w).1
act app (sets premise value expected key writer) w =
    (set_premise app premise value expected key writer w).1
act app (sequences level content key writer) w = (sequence_write app level content key writer w).1
act app (sequences_premise premise value expected key writer) w =
    (sequence_set app premise value expected key writer w).1
act app (aborts reason) w = abort reason w
act app (acks through agent) w = (ack through agent w).1
act app relays w = (relay app w).1
act app notifies w = (notify_due app w).1
act app (fires c) w = fire app c w
act app (elsewhere s) w = record w { store = s }
act app (passes now store_now) w = record w { now = now; store_now = store_now }

unfoldable pub acts : App → List Act → World → World
acts app [] w = w
acts app (a ∷ rest) w = acts app rest (act app a w)

act-Moves : (app : App) (a : Act) (w : World) → Moves w (act app a w)
unfolding act
act-Moves app (declares r) w = stays (declare-Ends r w)
act-Moves app (registers a) w = stays (register_agent-Ends app a w)
act-Moves app (opens vs) w = stays (open_premises-Ends app vs w)
act-Moves app (writes level content key writer) w =
    stays (write-Ends app level content key writer w)
act-Moves app (sets premise value expected key writer) w =
    stays (set_premise-Ends app premise value expected key writer w)
act-Moves app (sequences level content key writer) w =
    stays (sequence_write-Ends app level content key writer w)
act-Moves app (sequences_premise premise value expected key writer) w =
    stays (sequence_set-Ends app premise value expected key writer w)
act-Moves app (aborts reason) w = abort-Moves reason w
act-Moves app (acks through agent) w = stays (ack-Ends through agent w)
act-Moves app relays w = stays (relay-Ends app w)
act-Moves app notifies w = notify_due-Moves app w
act-Moves app (fires c) w = fire-Moves app c w
act-Moves app (elsewhere s) w = stays (store-Ends w s)
act-Moves app (passes now store_now) w =
    stays (record { outcome = refl; closing = refl; told = refl })

acts-outcome :
    (app : App) (rest : List Act) (w : World) (o : RunOutcome)
    → w.outcome ≡ some o
    → (acts app rest w).outcome ≡ some o
unfolding acts
acts-outcome app [] w o h = h
acts-outcome app (a ∷ rest) w o h =
    acts-outcome app rest (act app a w) o (Moves-outcome o (act-Moves app a w) h)

pub acts_keep-IsTold :
    (app : App) (rest : List Act) (w : World) → IsTold w → IsTold (acts app rest w)
unfolding acts
acts_keep-IsTold app [] w t = t
acts_keep-IsTold app (a ∷ rest) w t =
    acts_keep-IsTold app rest (act app a w) (Moves-IsTold (act-Moves app a w) t)

write_closed :
    (app : App) (level : String) (content : Value) (key : Option String) (writer : String)
    (w : World) (o : RunOutcome)
    → w.outcome ≡ some o
    → write app level content key writer w ≡ (ok (refused closed_refusal), w)
unfolding write refuse_region
write_closed app level content key writer w o h = ground arith

set_premise_closed :
    (app : App) (premise : String) (value : Value) (expected : ℕ) (key : Option String)
    (writer : String) (w : World) (o : RunOutcome)
    → w.outcome ≡ some o
    → set_premise app premise value expected key writer w ≡ (ok (refused closed_refusal), w)
unfolding set_premise refuse_region
set_premise_closed app premise value expected key writer w o h = ground arith

-- A write that was admitted before the run closed.
sequence_write_closed :
    (app : App) (level : String) (content : Value) (key : Option String) (writer : String)
    (w : World) (o : RunOutcome)
    → w.outcome ≡ some o
    → (sequence_write app level content key writer w).0 ≡ ok (refused closed_refusal)
unfolding sequence_write sequencing_gate
sequence_write_closed app level content key writer w o h = ground arith

sequence_set_closed :
    (app : App) (premise : String) (value : Value) (expected : ℕ) (key : Option String)
    (writer : String) (w : World) (o : RunOutcome)
    → w.outcome ≡ some o
    → (sequence_set app premise value expected key writer w).0 ≡ ok (refused closed_refusal)
unfolding sequence_set sequencing_gate
sequence_set_closed app premise value expected key writer w o h = ground arith

-- A process whose run has an outcome has that outcome for good, whatever its application, its clocks and
-- other processes do, and from then on it answers every contribution and every premise write with the
-- rejection that says that the run has closed, and changes nothing. A write that was admitted before, and is
-- sequenced only now, is answered with the same rejection.
pub closed_for_good :
    (app : App) (rest : List Act) (w : World) (o : RunOutcome) (region : String) (content : Value)
    (expected : ℕ) (key : Option String) (writer : String)
    → w.outcome ≡ some o
    → let v = acts app rest w in
      (v.outcome ≡ some o)
      × (write app region content key writer v ≡ (ok (refused closed_refusal), v))
      × (set_premise app region content expected key writer v ≡ (ok (refused closed_refusal), v))
      × ((sequence_write app region content key writer v).0 ≡ ok (refused closed_refusal))
      × ((sequence_set app region content expected key writer v).0 ≡ ok (refused closed_refusal))
closed_for_good app rest w o region content expected key writer h =
    let e = acts-outcome app rest w o h in
    (
      e,
      write_closed app region content key writer (acts app rest w) o e,
      set_premise_closed app region content expected key writer (acts app rest w) o e,
      sequence_write_closed app region content key writer (acts app rest w) o e,
      sequence_set_closed app region content expected key writer (acts app rest w) o e,
    )
