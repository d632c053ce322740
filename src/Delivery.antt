-- ===== src/Delivery.antt =====
-- The lanes of the notifier (src/blackboard/delivery.py): `_Lane`, its queue and the worker that drains it, and
-- what `HttpNotifier` does where a notification landed.
--
-- A writer's thread and the worker's take turns: a move is what one of them does before the other can be seen to do
-- anything. `enqueue` and `stop` each look at the lane under its lock and put into the queue after they have
-- released it, so they are two moves. The transport, the time that a wait takes and the two events that cut it
-- short are outside, in a state of their own; a log line changes nothing here.
pub mod Kept
pub mod Closed
pub mod Whole
pub mod Bounds
mod Tests
use blackboardx.Prelude.{
  ℕ, zero, suc, ◌+◌, String, Bool, true, false, Option, none, some, List, [], ◌∷◌, ◌++◌, ◌==◌,
  sort_by, str_le, if◌then◌else◌, map,
}
use blackboardx.Dict.{Dict}
use blackboardx.Json.{Value, text, natural, array}
use blackboardx.Store
use blackboardx.Store.{Store}
use blackboardx.Control.{Notification}
use blackboardx.Wire.{to_json, items_of}

-- How a send ends: the agent accepted it, will refuse it again (`DeliveryRefused`), or anything else was raised, with
-- the `retry_after` that it carries.
pub data Sent : Type 0 where
  accepted : Sent
  refused : Sent
  failed : Option ℕ → Sent

-- The error that is reported.
pub data Reason : Type 0 where
  notifier_closed : Reason
  closed_before_sent : Reason
  was_refused : Reason
  was_failed : Option ℕ → Reason

-- Undelivered
pub record Undelivered : Type 0 where
  pub url : String
  pub agent : String
  pub notification : Notification
  pub attempts : ℕ
  pub error : Reason

-- What the queue holds.
pub data Item : Type 0 where
  notice : Notification → Item
  last : Item

pub data Worker : Type 0 where
  absent draining abandoning ended : Worker

-- A lane, what its threads still have to put into its queue, and what came of its notifications.
pub record Lane {ℓ} (S : Type ℓ) : Type ℓ where
  pub url : String
  pub stopped : Bool
  pub worker : Worker
  pub queue : List Item
  pub pending : List Item
  pub landed : List Notification
  pub reported : List Undelivered
  pub store : Store
  pub outside : S

-- The notifier's policy, `_Sending`, and what is outside: the transport, and a wait that says whether it was cut
-- short.
pub record Sending {ℓ} (S : Type ℓ) : Type ℓ where
  pub attempts : ℕ
  pub backoff : ℕ → Option ℕ → ℕ
  pub send : String → Value → S → Sent × S
  pub wait : ℕ → S → Bool × S
  pub records_sends : Bool

-- _body_of
abbrev pub body_of : Notification → Value
body_of n = to_json (
    ("board_id", text n.board_id)
    ∷ ("notification_id", natural n.notification_id)
    ∷ ("agent", text n.agent)
    ∷ ("from_sequence", natural n.from_sequence)
    ∷ ("to_sequence", natural n.to_sequence)
    ∷ ("regions", array (items_of (map text (sort_by str_le n.regions))))
    ∷ [])

module _ {ℓ} {S : Type ℓ} (p : Sending S) where
  -- _report
  abbrev pub report : Notification → ℕ → Reason → Lane S → Lane S
  report n attempts error l = record l {
    reported =
        l.reported
        ++ (record {
          url = l.url;
          agent = n.agent;
          notification = n;
          attempts = attempts;
          error = error;
        })
          ∷ [];
  }

  -- _landed
  abbrev pub land : Notification → Lane S → Lane S
  land n l = record l {
    landed = l.landed ++ n ∷ [];
    store =
        if p.records_sends
        then Store.mark_sent n.board_id n.agent n.to_sequence l.store
        else l.store;
  }

  -- The loop of `_send`, with this many attempts left, of which this one is the next.
  unfoldable pub send_from : ℕ → ℕ → Notification → Lane S → Lane S
  send_from zero attempt n l = l
  send_from (suc left) attempt n l =
      let r = p.send l.url (body_of n) l.outside in
      let tried = record l { outside = r.1 } in
      elim r.0 [
        | accepted ↦ land n tried
        | refused ↦ report n attempt was_refused tried
        | failed retry ↦
            let w = p.wait (p.backoff attempt retry) tried.outside in
            let waited = record tried { outside = w.1 } in
            let rest = send_from left (attempt + 1) n waited in
            if left == 0
            then report n attempt (was_failed retry) tried
            else if w.0
            then report n attempt (was_failed retry) waited
            else rest
      ]

  -- _send
  abbrev pub send : Notification → Lane S → Lane S
  send n l = send_from p.attempts 1 n l

  -- One turn of the worker: of `_drain`, or of `_abandon_what_is_left`.
  unfoldable pub work_on : Worker → List Item → Lane S → Lane S
  work_on draining (last ∷ items) l = record l { worker = abandoning; queue = items }
  work_on draining (notice n ∷ items) l = send n (record l { queue = items })
  work_on abandoning [] l = record l { worker = ended }
  work_on abandoning (last ∷ items) l = record l { queue = items }
  work_on abandoning (notice n ∷ items) l =
      report n 0 closed_before_sent (record l { queue = items })
  work_on _ _ l = l

  abbrev pub work : Lane S → Lane S
  work l = work_on l.worker l.queue l

  -- The part of `enqueue` under the lock.
  unfoldable pub admit : Notification → Lane S → Lane S
  admit n l = if l.stopped then report n 0 notifier_closed l else record l {
    worker = elim l.worker [ absent ↦ draining | w ↦ w ];
    pending = l.pending ++ notice n ∷ [];
  }

  -- The part of `stop` under the lock.
  unfoldable pub stop : Lane S → Lane S
  stop l = if l.stopped then l else record l { stopped = true; pending = l.pending ++ last ∷ [] }

  -- The item at this place, and the others.
  unfoldable pub taken : ℕ → List Item → Option (Item × List Item)
  taken k [] = none
  taken zero (i ∷ items) = some (i, items)
  taken (suc k) (i ∷ items) = elim (taken k items) [
    | none ↦ none
    | some (j, rest) ↦ some (j, i ∷ rest)
  ]

  -- A thread that has left the lock puts its item into the queue: the threads do so in any order.
  unfoldable pub put_item : ℕ → Lane S → Lane S
  put_item k l = elim (taken k l.pending) [
    | none ↦ l
    | some (i, rest) ↦ record l { pending = rest; queue = l.queue ++ i ∷ [] }
  ]

-- What a thread does next.
pub data Move : Type 0 where
  admits : Notification → Move
  puts : ℕ → Move
  stops : Move
  works : Move

module _ {ℓ} {S : Type ℓ} (p : Sending S) where
  abbrev pub moved : Move → Lane S → Lane S
  moved (admits n) l = admit p n l
  moved (puts k) l = put_item p k l
  moved stops l = stop p l
  moved works l = work p l

  abbrev pub run : List Move → Lane S → Lane S
  run [] l = l
  run (m ∷ ms) l = run ms (moved m l)

-- _Lane, as it is made
abbrev pub new_lane {ℓ} : {S : Type ℓ} → String → Store → S → Lane S
new_lane url store outside = record {
  url = url;
  stopped = false;
  worker = absent;
  queue = [];
  pending = [];
  landed = [];
  reported = [];
  store = store;
  outside = outside;
}
