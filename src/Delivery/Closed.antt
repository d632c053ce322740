-- ===== src/Delivery/Closed.antt =====
-- What closing a lane of src/blackboard/delivery.py comes to: `_drain` and `_abandon_what_is_left` to their end.
use blackboardx.Prelude.{
  ℕ, zero, suc, ◌+◌, ◌≤◌, ◌≡◌, refl, ap, ◌∙◌, Bool, true, false, List, [], ◌∷◌, arith, ◌==◌, inl,
  inr, Bool-cases, length,
}
use blackboardx.Control.{Notification}
use blackboardx.Delivery.{
  Item, notice, last, Lane, Sending, draining, report, closed_before_sent, abandoning, ended, Move,
  works, send, send_from, work_on, run, body_of,
}
use blackboardx.Delivery.Kept.{
  Sent-cases, count, count_items, count_reported, count_moves, held, run-held,
}

abbrev pub has_last : List Item → Bool
has_last [] = false
has_last (last ∷ items) = true
has_last (notice n ∷ items) = has_last items

-- This many turns of the worker.
abbrev pub turns : ℕ → List Move
turns zero = []
turns (suc k) = works ∷ turns k

count_moves-turns : (test : Notification → Bool) (k : ℕ) → count_moves test (turns k) ≡ 0
count_moves-turns test zero = refl
count_moves-turns test (suc k) = count_moves-turns test k

module _ {S : Type 0} (p : Sending S) where
  -- The two lanes have the same worker and hold the same, and both are stopped or neither.
  abbrev pub IsSame : Lane S → Lane S → Type 0
  IsSame k l =
      (k.worker ≡ l.worker)
      × (k.queue ≡ l.queue)
      × (k.pending ≡ l.pending)
      × (k.stopped ≡ l.stopped)

  pub send_from-IsSame :
      (left attempt : ℕ) (n : Notification) (l : Lane S) → IsSame (send_from p left attempt n l) l
  unfolding send_from
  send_from-IsSame zero attempt n l = (refl, refl, refl, refl)
  send_from-IsSame (suc left) attempt n l =
      let r = p.send l.url (body_of n) l.outside in
      elim (Sent-cases r.0) [
        | inl (inl e) ↦ rw (send_from, e) (refl, refl, refl, refl)
        | inl (inr e) ↦ rw (send_from, e) (refl, refl, refl, refl)
        | inr (retry, e) ↦
            let w = p.wait (p.backoff attempt retry) r.1 in
            elim (Bool-cases (left == 0)) [
              | inl z ↦ rw (send_from, e, z) (refl, refl, refl, refl)
              | inr z ↦ elim (Bool-cases w.0) [
                | inl c ↦ rw (send_from, e, z, c) (refl, refl, refl, refl)
                | inr c ↦
                    rw (send_from, e, z, c)
                      (send_from-IsSame left (attempt + 1) n (record l { outside = w.1 }))
              ]
            ]
      ]

  -- The worker has ended, and holds nothing.
  abbrev pub IsEnded : Lane S → Type 0
  IsEnded l = (l.worker ≡ ended) × (l.queue ≡ []) × (l.pending ≡ [])

  abandon-IsEnded :
      (items : List Item) (l : Lane S)
      → l.worker ≡ abandoning
      → l.queue ≡ items
      → l.pending ≡ []
      → IsEnded (run p (turns (suc (length items))) l)
  unfolding work_on
  abandon-IsEnded [] l u q e = rw (u, q) (refl, refl, e)
  abandon-IsEnded (last ∷ items) l u q e =
      rw (u, q)
        (abandon-IsEnded items (record l { worker = abandoning; queue = items }) refl refl e)
  abandon-IsEnded (notice n ∷ items) l u q e =
      rw (u, q)
        (abandon-IsEnded items
          (report p n 0 closed_before_sent (record l { worker = abandoning; queue = items })) refl
          refl e)

  -- A lane that was stopped, and that no thread has still something to put into, ends within as many turns of its
  -- worker as it holds items, and one: its queue is empty then.
  drain-IsEnded :
      (items : List Item) (l : Lane S)
      → l.worker ≡ draining
      → l.queue ≡ items
      → l.pending ≡ []
      → has_last items ≡ true
      → IsEnded (run p (turns (suc (length items))) l)
  unfolding work_on
  drain-IsEnded [] l u q e h = absurd (cc h)
  drain-IsEnded (last ∷ items) l u q e h =
      rw (u, q)
        (abandon-IsEnded items (record l { worker = abandoning; queue = items }) refl refl e)
  drain-IsEnded (notice n ∷ items) l u q e h =
      let l' = record l { worker = draining; queue = items } in
      let same = send_from-IsSame p.attempts 1 n l' in
      rw (u, q) (drain-IsEnded items (send p n l') same.0 same.1 (same.2 ∙ e) h)

  -- Closing a lane leaves nothing behind: a lane of at least one attempt, whose worker drains a queue that has the
  -- mark of its stop, and that no thread has still something to put into, ends within as many turns of its worker
  -- as its queue has items, and one, with its queue empty; every notification that it held is landed or reported
  -- by then.
  pub closed_reported :
      (test : Notification → Bool) (l : Lane S)
      → 1 ≤ p.attempts
      → l.worker ≡ draining
      → l.pending ≡ []
      → has_last l.queue ≡ true
      → IsEnded (run p (turns (suc (length l.queue))) l)
        × (count test (run p (turns (suc (length l.queue))) l).landed
              + count_reported test (run p (turns (suc (length l.queue))) l).reported
            ≡ held test l)
  closed_reported test l attempts u e h =
      let end = drain-IsEnded l.queue l u refl e h in
      let k = run p (turns (suc (length l.queue))) l in
      let kept = run-held test p attempts (turns (suc (length l.queue))) l in
      (
        end,
        omega (
          arith,
          kept,
          count_moves-turns test (suc (length l.queue)),
          ap (count_items test) end.1,
          ap (count_items test) end.2,
        ),
      )
