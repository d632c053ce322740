-- ===== src/Delivery/Kept.antt =====
-- Where the notifications that a lane of src/blackboard/delivery.py was given are.
use blackboardx.Prelude.{
  ℕ, zero, suc, ◌+◌, ◌≤◌, ◌≡◌, refl, sym, subst, Option-cases, Bool, false, Option, none, some,
  List, [], ◌∷◌, ◌++◌, arith, if◌then◌else◌, ◌==◌, inl, inr, ◌⊎◌, Bool-cases,
}
use blackboardx.Control.{Notification}
use blackboardx.Delivery.{
  Item, notice, last, Undelivered, Lane, Sending, Sent, accepted, refused, failed, Worker, absent,
  draining, abandoning, ended, Reason, notifier_closed, closed_before_sent, was_refused, was_failed,
  land, report, send, body_of, Move, admits, puts, stops, works, Reason, notifier_closed,
  closed_before_sent, was_refused, was_failed, land, report, send, body_of, send_from, work_on,
  admit, stop, taken, put_item, moved, run,
}

pub Sent-cases :
    (r : Sent) → ((r ≡ accepted) ⊎ (r ≡ refused)) ⊎ ((retry : Option ℕ) × (r ≡ failed retry))
Sent-cases accepted = inl (inl refl)
Sent-cases refused = inl (inr refl)
Sent-cases (failed retry) = inr (retry, refl)

suc-cases : (k : ℕ) → (k ≡ 0) ⊎ ((j : ℕ) × (k ≡ suc j))
suc-cases zero = inl refl
suc-cases (suc j) = inr (j, refl)

module _ (test : Notification → Bool) where
  abbrev one : Bool → ℕ
  one b = if b then 1 else 0

  -- How many of these pass the test.
  abbrev pub count : List Notification → ℕ
  count [] = 0
  count (n ∷ ns) = one (test n) + count ns

  abbrev pub count_items : List Item → ℕ
  count_items [] = 0
  count_items (notice n ∷ items) = one (test n) + count_items items
  count_items (last ∷ items) = count_items items

  abbrev pub count_reported : List Undelivered → ℕ
  count_reported [] = 0
  count_reported (u ∷ us) = one (test u.notification) + count_reported us

  abbrev pub count_moves : List Move → ℕ
  count_moves [] = 0
  count_moves (admits n ∷ ms) = one (test n) + count_moves ms
  count_moves (m ∷ ms) = count_moves ms

  -- The notifications that a lane has: to be put, queued, landed or reported.
  abbrev pub held {ℓ} : {S : Type ℓ} → Lane S → ℕ
  held l = count_items l.pending + count_items l.queue + count l.landed + count_reported l.reported

  count-append : (xs ys : List Notification) → count (xs ++ ys) ≡ count xs + count ys
  count-append [] ys = omega arith
  count-append (x ∷ xs) ys = omega (arith, count-append xs ys)

  count_items-append :
      (xs ys : List Item) → count_items (xs ++ ys) ≡ count_items xs + count_items ys
  count_items-append [] ys = omega arith
  count_items-append (notice n ∷ xs) ys = omega (arith, count_items-append xs ys)
  count_items-append (last ∷ xs) ys = count_items-append xs ys

  count_reported-append :
      (xs ys : List Undelivered) → count_reported (xs ++ ys) ≡ count_reported xs + count_reported ys
  count_reported-append [] ys = omega arith
  count_reported-append (x ∷ xs) ys = omega (arith, count_reported-append xs ys)

  module _ {S : Type 0} (p : Sending S) where
    land-held : (n : Notification) (l : Lane S) → held (land p n l) ≡ one (test n) + held l
    land-held n l = omega (arith, count-append l.landed (n ∷ []))

    report-held :
        (n : Notification) (attempts : ℕ) (error : Reason) (l : Lane S)
        → held (report p n attempts error l) ≡ one (test n) + held l
    report-held n attempts error l = omega (
      arith,
      count_reported-append l.reported (
          record {
            url = l.url;
            agent = n.agent;
            notification = n;
            attempts = attempts;
            error = error;
          }
          ∷ []),
    )

    -- One attempt, where what a further one leaves is known.
    attempt-held :
        (left attempt : ℕ) (n : Notification) (l : Lane S)
        → ((left == 0) ≡ false
            → (k : Lane S) → held (send_from p left (attempt + 1) n k) ≡ one (test n) + held k)
        → held (send_from p (suc left) attempt n l) ≡ one (test n) + held l
    unfolding send_from
    attempt-held left attempt n l further =
        let r = p.send l.url (body_of n) l.outside in
        let tried = record l { outside = r.1 } in
        elim (Sent-cases r.0) [
          | inl (inl e) ↦ rw (send_from, e) (land-held n tried)
          | inl (inr e) ↦ rw (send_from, e) (report-held n attempt was_refused tried)
          | inr (retry, e) ↦
              let w = p.wait (p.backoff attempt retry) r.1 in
              let waited = record tried { outside = w.1 } in
              elim (Bool-cases (left == 0)) [
                | inl z ↦ rw (send_from, e, z) (report-held n attempt (was_failed retry) tried)
                | inr z ↦ elim (Bool-cases w.0) [
                  | inl c ↦
                      rw (send_from, e, z, c) (report-held n attempt (was_failed retry) waited)
                  | inr c ↦ rw (send_from, e, z, c) (further z waited)
                ]
              ]
        ]

    -- A notification that is sent is landed or reported.
    send_from-held :
        (left attempt : ℕ) (n : Notification) (l : Lane S)
        → held (send_from p (suc left) attempt n l) ≡ one (test n) + held l
    send_from-held zero attempt n l = attempt-held zero attempt n l (λ z. absurd (cc z))
    send_from-held (suc left) attempt n l =
        attempt-held (suc left) attempt n l (λ z k. send_from-held left (attempt + 1) n k)

    sent-held :
        (k : ℕ) (n : Notification) (l : Lane S)
        → 1 ≤ k
        → held (send_from p k 1 n l) ≡ one (test n) + held l
    sent-held zero n l h = absurd (omega (arith, h))
    sent-held (suc k) n l h = send_from-held k 1 n l

    module _ (some_attempt : 1 ≤ p.attempts) where
      send-held : (n : Notification) (l : Lane S) → held (send p n l) ≡ one (test n) + held l
      send-held n l = sent-held p.attempts n l some_attempt

      work_on-held :
          (w : Worker) (items : List Item) (l : Lane S)
          → w ≡ l.worker
          → items ≡ l.queue
          → held (work_on p w items l) ≡ held l
      unfolding work_on
      work_on-held draining [] l u q = refl
      work_on-held draining (last ∷ items) l u q = rw (sym q) refl
      work_on-held draining (notice n ∷ items) l u q =
          rw (sym q) (omega (arith, send-held n (record l { queue = items })))
      work_on-held abandoning [] l u q = refl
      work_on-held abandoning (last ∷ items) l u q = rw (sym q) refl
      work_on-held abandoning (notice n ∷ items) l u q =
          rw (sym q)
            (omega (arith, report-held n 0 closed_before_sent (record l { queue = items })))
      work_on-held absent items l u q = refl
      work_on-held ended items l u q = refl

      admit-held : (n : Notification) (l : Lane S) → held (admit p n l) ≡ one (test n) + held l
      unfolding admit
      admit-held n l = elim (Bool-cases l.stopped) [
        | inl e ↦
            rw (admit, e)
              (omega (
                arith,
                count_reported-append l.reported (
                    record {
                      url = l.url;
                      agent = n.agent;
                      notification = n;
                      attempts = 0;
                      error = notifier_closed;
                    }
                    ∷ []),
              ))
        | inr e ↦ rw (admit, e) (omega (arith, count_items-append l.pending (notice n ∷ [])))
      ]

      stop-held : (l : Lane S) → held (stop p l) ≡ held l
      unfolding stop
      stop-held l = elim (Bool-cases l.stopped) [
        | inl e ↦ rw (stop, e) refl
        | inr e ↦ rw (stop, e) (omega (arith, count_items-append l.pending (last ∷ [])))
      ]

      -- What is taken and what is left count as much as the whole.
      counted : Option (Item × List Item) → ℕ → ℕ
      counted none c = c
      counted (some (i, rest)) c = count_items (i ∷ []) + count_items rest

      count_items-cons :
          (i : Item) (items : List Item)
          → count_items (i ∷ []) + count_items items ≡ count_items (i ∷ items)
      count_items-cons (notice n) items = omega arith
      count_items-cons last items = omega arith

      taken-count :
          (k : ℕ) (items : List Item)
          → counted (taken p k items) (count_items items) ≡ count_items items
      unfolding taken counted
      taken-count k [] = refl
      taken-count zero (x ∷ items) = count_items-cons x items
      taken-count (suc k) (x ∷ items) = elim (Option-cases (taken p k items)) [
        | inl e ↦ rw (e) refl
        | inr ((i, rest), e) ↦
            let h = taken-count k items in
            let h' : count_items (i ∷ []) + count_items rest ≡ count_items items =
              subst (λ q. counted q (count_items items) ≡ count_items items) e h in
            rw (e) (omega (arith, h', count_items-cons x rest, count_items-cons x items))
      ]

      put_item-held : (k : ℕ) (l : Lane S) → held (put_item p k l) ≡ held l
      unfolding put_item counted
      put_item-held k l = elim (Option-cases (taken p k l.pending)) [
        | inl e ↦ rw (put_item, e) refl
        | inr ((i, rest), e) ↦
            let h : count_items (i ∷ []) + count_items rest ≡ count_items l.pending =
              subst (λ q. counted q (count_items l.pending) ≡ count_items l.pending) e
                (taken-count k l.pending) in
            rw (put_item, e) (omega (arith, h, count_items-append l.queue (i ∷ [])))
      ]

      moved-held : (m : Move) (l : Lane S) → held (moved p m l) ≡ count_moves (m ∷ []) + held l
      moved-held (admits n) l = omega (arith, admit-held n l)
      moved-held (puts k) l = omega (arith, put_item-held k l)
      moved-held stops l = omega (arith, stop-held l)
      moved-held works l = omega (arith, work_on-held l.worker l.queue l refl refl)

      count_moves-cons :
          (m : Move) (ms : List Move) → count_moves (m ∷ ms) ≡ count_moves (m ∷ []) + count_moves ms
      count_moves-cons (admits n) ms = omega arith
      count_moves-cons (puts k) ms = omega arith
      count_moves-cons stops ms = omega arith
      count_moves-cons works ms = omega arith

      -- Whatever the threads of a lane do, in whatever order, it has as many more notifications to put, queued,
      -- landed or reported as were handed to it. Of those queued, a worker that has ended sends and reports none.
      pub run-held : (ms : List Move) (l : Lane S) → held (run p ms l) ≡ count_moves ms + held l
      run-held [] l = omega arith
      run-held (m ∷ ms) l =
          omega (arith, run-held ms (moved p m l), moved-held m l, count_moves-cons m ms)
