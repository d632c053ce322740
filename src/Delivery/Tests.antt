-- ===== src/Delivery/Tests.antt =====
-- The theorems of the lanes (src/blackboard/delivery.py) at concrete lanes, and the one order of two threads in
-- which a lane ends with a notification in its queue.
use blackboardx.Prelude.{ℕ, zero, suc, ◌+◌, ◌≤◌, ◌≡◌, refl, true, false, none, List, [], ◌∷◌, arith}
use blackboardx.Control.{Notification}
use blackboardx.Delivery.{
  Sending, Lane, admits, puts, stops, works, run, new_lane, failed, accepted, notice, last,
  draining, admit, stop, put_item, taken, work_on, send, send_from,
}
use blackboardx.Delivery.Kept.{count, count_reported}
use blackboardx.Delivery.Whole.{Whole, enqueues, closes, turns_once, moves_of, whole_answered}
use blackboardx.Delivery.Bounds.{counted, lane_send-counted}
use blackboardx.Delivery.Closed.{IsEnded, turns, closed_reported}

-- A transport that fails as often as its state says.
abbrev policy : Sending ℕ
policy = record {
  attempts = 2;
  backoff = λ n retry. 1;
  send = λ url body s. elim s [ zero ↦ (accepted, 0) | suc k ↦ (failed none, k) ];
  wait = λ seconds s. (false, s);
  records_sends = false;
}

abbrev note : Notification
note = record {
  notification_id = 1;
  board_id = "b";
  agent = "triage";
  from_sequence = 0;
  to_sequence = 2;
  regions = "findings" ∷ [];
}

abbrev calls : List Whole
calls =
    enqueues note
    ∷ turns_once
    ∷ enqueues note
    ∷ closes
    ∷ enqueues note
    ∷ turns_once
    ∷ turns_once
    ∷ turns_once
    ∷ []

whole_answered_example :
    count (λ n. true) (run policy (moves_of calls) (new_lane "http://triage" [] 2)).landed
      + count_reported
          (λ n. true)
          (run policy (moves_of calls) (new_lane "http://triage" [] 2)).reported
    ≡ 3
unfolding admit stop put_item taken work_on send_from
whole_answered_example =
    whole_answered policy (λ n. true) "http://triage" [] 2 calls (omega arith) refl

-- The writer is past the lock when the lane is stopped: what it puts then is neither sent nor reported.
left_behind :
    (run policy
      (admits note ∷ stops ∷ puts 1 ∷ works ∷ works ∷ puts 0 ∷ works ∷ [])
      (new_lane "http://triage" [] 0)).queue
    ≡ notice note ∷ []
unfolding admit stop put_item taken work_on
left_behind = refl

abbrev stopped_lane : Lane ℕ
stopped_lane = record (new_lane "http://triage" [] 5) {
  stopped = true;
  worker = draining;
  queue = notice note ∷ last ∷ notice note ∷ [];
}

closed_reported_example :
    IsEnded policy (run policy (turns 4) stopped_lane)
    × (count (λ n. true) (run policy (turns 4) stopped_lane).landed
          + count_reported (λ n. true) (run policy (turns 4) stopped_lane).reported
        ≡ 2)
closed_reported_example =
    closed_reported policy (λ n. true) stopped_lane (omega arith) refl refl refl

lane_send-counted_example :
    (send (counted policy) note (new_lane "http://triage" [] (5, 0))).outside.1 ≤ 2
lane_send-counted_example = lane_send-counted policy note (new_lane "http://triage" [] (5, 0))
