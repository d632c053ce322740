-- ===== src/Delivery/Bounds.antt =====
-- How often a lane of src/blackboard/delivery.py calls its transport for one notification.
use blackboardx.Prelude.{ℕ, zero, suc, ◌+◌, ◌≤◌, ◌==◌, arith, inl, inr, Bool-cases}
use blackboardx.Control.{Notification}
use blackboardx.Delivery.{Sending, Lane, send, send_from, body_of}
use blackboardx.Delivery.Kept.{Sent-cases}

-- The same policy, over a transport that counts its calls.
abbrev pub counted : {S : Type 0} → Sending S → Sending (S × ℕ)
counted p = record {
  attempts = p.attempts;
  backoff = p.backoff;
  send = λ url body s. let r = p.send url body s.0 in (r.0, (r.1, s.1 + 1));
  wait = λ seconds s. let r = p.wait seconds s.0 in (r.0, (r.1, s.1));
  records_sends = p.records_sends;
}

module _ {S : Type 0} (p : Sending S) where
  send_from-counted :
      (left attempt : ℕ) (n : Notification) (l : Lane (S × ℕ))
      → (send_from (counted p) left attempt n l).outside.1 ≤ l.outside.1 + left
  unfolding send_from
  send_from-counted zero attempt n l = omega arith
  send_from-counted (suc left) attempt n l =
      let r = p.send l.url (body_of n) l.outside.0 in
      elim (Sent-cases r.0) [
        | inl (inl e) ↦ rw (send_from, e) (omega arith)
        | inl (inr e) ↦ rw (send_from, e) (omega arith)
        | inr (retry, e) ↦
            let w = p.wait (p.backoff attempt retry) r.1 in
            elim (Bool-cases (left == 0)) [
              | inl z ↦ rw (send_from, e, z) (omega arith)
              | inr z ↦ elim (Bool-cases w.0) [
                | inl c ↦ rw (send_from, e, z, c) (omega arith)
                | inr c ↦
                    rw (send_from, e, z, c)
                      (omega (
                        arith,
                        send_from-counted left (attempt + 1) n
                            (record l { outside = (w.1, l.outside.1 + 1) }),
                      ))
              ]
            ]
      ]

  -- For one notification a lane calls its transport no more often than the notifier's attempts say, whatever the
  -- transport answers.
  pub lane_send-counted :
      (n : Notification) (l : Lane (S × ℕ))
      → (send (counted p) n l).outside.1 ≤ l.outside.1 + p.attempts
  lane_send-counted n l = send_from-counted p.attempts 1 n l
