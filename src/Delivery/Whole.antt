-- ===== src/Delivery/Whole.antt =====
-- A lane of src/blackboard/delivery.py whose threads make whole calls: each puts into the queue what it admitted, or
-- the mark of the stop, before another thread moves.
use blackboardx.Prelude.{
  ℕ, ◌+◌, ◌≤◌, ◌≡◌, refl, sym, ap, subst, String, ◌∙◌, Bool, true, false, List, [], ◌∷◌, ◌++◌,
  arith, inl, inr, Bool-cases,
}
use blackboardx.Control.{Notification}
use blackboardx.Store.{Store}
use blackboardx.Delivery.{
  Item, notice, last, Lane, Sending, Worker, absent, draining, abandoning, ended, report,
  notifier_closed, Move, admits, puts, stops, works, send, work_on, admit, stop, put_item, taken,
  run, new_lane,
}
use blackboardx.Delivery.Kept.{count, count_items, count_reported, count_moves, run-held}
use blackboardx.Delivery.Closed.{has_last, IsSame, send_from-IsSame}

-- `enqueue`, `stop`, or a turn of the worker.
pub data Whole : Type 0 where
  enqueues : Notification → Whole
  closes : Whole
  turns_once : Whole

abbrev pub moves_of : List Whole → List Move
moves_of [] = []
moves_of (enqueues n ∷ cs) = admits n ∷ puts 0 ∷ moves_of cs
moves_of (closes ∷ cs) = stops ∷ puts 0 ∷ moves_of cs
moves_of (turns_once ∷ cs) = works ∷ moves_of cs

-- The notifications that were handed over.
abbrev pub count_handed : (Notification → Bool) → List Whole → ℕ
count_handed test cs = count_moves test (moves_of cs)

abbrev is_leaving : Worker → Bool
is_leaving absent = false
is_leaving draining = false
is_leaving abandoning = true
is_leaving ended = true

-- Between whole calls nothing is to be put; only a lane that was stopped has the mark or a worker that leaves; and a
-- worker that has ended left nothing.
record IsTidy {S : Type 0} (l : Lane S) : Type 0 where
  pub nothing_to_put : l.pending ≡ []
  pub marked : has_last l.queue ≡ true → l.stopped ≡ true
  pub leaving : is_leaving l.worker ≡ true → l.stopped ≡ true
  pub left_nothing : l.worker ≡ ended → l.queue ≡ []

has_last-notice :
    (n : Notification) (items : List Item)
    → has_last (items ++ notice n ∷ []) ≡ true
    → has_last items ≡ true
has_last-notice n [] h = absurd (cc h)
has_last-notice n (last ∷ items) h = refl
has_last-notice n (notice m ∷ items) h = has_last-notice n items h

module _ {S : Type 0} (p : Sending S) where
  same-IsTidy : (k l : Lane S) → IsSame p k l → IsTidy l → IsTidy k
  same-IsTidy k l same t = record {
    nothing_to_put = same.2 ∙ t.nothing_to_put;
    marked = λ h. same.3 ∙ t.marked (sym (ap has_last same.1) ∙ h);
    leaving = λ h. same.3 ∙ t.leaving (sym (ap is_leaving same.0) ∙ h);
    left_nothing = λ h. same.1 ∙ t.left_nothing (sym same.0 ∙ h);
  }

  work_on-IsTidy :
      (w : Worker) (items : List Item) (l : Lane S)
      → w ≡ l.worker
      → items ≡ l.queue
      → IsTidy l
      → IsTidy (work_on p w items l)
  unfolding work_on
  work_on-IsTidy draining [] l u q t = t
  work_on-IsTidy draining (last ∷ items) l u q t =
      let stopped = t.marked (ap has_last (sym q)) in
      record {
        nothing_to_put = t.nothing_to_put;
        marked = λ h. stopped;
        leaving = λ h. stopped;
        left_nothing = λ h. absurd (cc h);
      }
  work_on-IsTidy draining (notice n ∷ items) l u q t =
      let l' = record l { queue = items } in
      same-IsTidy (send p n l') l' (send_from-IsSame p p.attempts 1 n l') (record {
        nothing_to_put = t.nothing_to_put;
        marked = λ h. t.marked (ap has_last (sym q) ∙ h);
        leaving = t.leaving;
        left_nothing = λ h. absurd (cc (u, h));
      })
  work_on-IsTidy abandoning [] l u q t = record {
    nothing_to_put = t.nothing_to_put;
    marked = t.marked;
    leaving = λ h. t.leaving (ap is_leaving (sym u));
    left_nothing = λ h. sym q;
  }
  work_on-IsTidy abandoning (last ∷ items) l u q t =
      let stopped = t.leaving (ap is_leaving (sym u)) in
      record {
        nothing_to_put = t.nothing_to_put;
        marked = λ h. stopped;
        leaving = λ h. stopped;
        left_nothing = λ h. absurd (cc (u, h));
      }
  work_on-IsTidy abandoning (notice n ∷ items) l u q t =
      let stopped = t.leaving (ap is_leaving (sym u)) in
      record {
        nothing_to_put = t.nothing_to_put;
        marked = λ h. stopped;
        leaving = λ h. stopped;
        left_nothing = λ h. absurd (cc (u, h));
      }
  work_on-IsTidy absent items l u q t = t
  work_on-IsTidy ended items l u q t = t

  -- What is put where nothing else is to be put joins the queue.
  put-alone :
      (i : Item) (l : Lane S)
      → put_item p 0 (record l { pending = i ∷ [] })
        ≡ record l { pending = []; queue = l.queue ++ i ∷ [] }
  unfolding put_item taken
  put-alone i l = refl

  put-nothing : (l : Lane S) → l.pending ≡ [] → put_item p 0 l ≡ l
  unfolding put_item taken
  put-nothing l e = ground (arith, e)

  abbrev started : Worker → Worker
  started w = elim w [ absent ↦ draining | v ↦ v ]

  started-leaving : (w : Worker) → is_leaving (started w) ≡ true → is_leaving w ≡ true
  started-leaving absent h = absurd (cc h)
  started-leaving draining h = absurd (cc h)
  started-leaving abandoning h = refl
  started-leaving ended h = refl

  admit-stopped :
      (n : Notification) (l : Lane S)
      → l.stopped ≡ true
      → admit p n l ≡ report p n 0 notifier_closed l
  unfolding admit
  admit-stopped n l e = ground (arith, e)

  admit-open :
      (n : Notification) (l : Lane S)
      → l.stopped ≡ false
      → l.pending ≡ []
      → admit p n l ≡ record l { worker = started l.worker; pending = notice n ∷ [] }
  unfolding admit
  admit-open n l e q = ground (arith, e, q)

  stop-open :
      (l : Lane S)
      → l.stopped ≡ false
      → l.pending ≡ []
      → stop p l ≡ record l { stopped = true; pending = last ∷ [] }
  unfolding stop
  stop-open l e q = ground (arith, e, q)

  stop-stopped : (l : Lane S) → l.stopped ≡ true → stop p l ≡ l
  unfolding stop
  stop-stopped l e = ground (arith, e)

  enqueue-IsTidy : (n : Notification) (l : Lane S) → IsTidy l → IsTidy (put_item p 0 (admit p n l))
  unfolding admit
  enqueue-IsTidy n l t = elim (Bool-cases l.stopped) [
    | inl e ↦
        let l' = report p n 0 notifier_closed l in
        let q : put_item p 0 (admit p n l) ≡ l' =
          ap (put_item p 0) (admit-stopped n l e) ∙ put-nothing l' t.nothing_to_put in
        subst IsTidy (sym q) (record {
          nothing_to_put = t.nothing_to_put;
          marked = t.marked;
          leaving = t.leaving;
          left_nothing = t.left_nothing;
        })
    | inr e ↦
        let q : put_item p 0 (admit p n l) ≡ record l {
          worker = started l.worker;
          pending = [];
          queue = l.queue ++ notice n ∷ [];
        } =
          ap (put_item p 0) (admit-open n l e t.nothing_to_put)
          ∙ put-alone (notice n) (record l { worker = started l.worker }) in
        let open_still =
          λ (h : is_leaving (started l.worker) ≡ true). t.leaving (started-leaving l.worker h) in
        subst IsTidy (sym q) (record {
          nothing_to_put = refl;
          marked = λ h. t.marked (has_last-notice n l.queue h);
          leaving = open_still;
          left_nothing = λ h. absurd (cc (e, open_still (ap is_leaving h)));
        })
  ]

  stop-IsTidy : (l : Lane S) → IsTidy l → IsTidy (put_item p 0 (stop p l))
  unfolding stop
  stop-IsTidy l t = elim (Bool-cases l.stopped) [
    | inl e ↦
        let q : put_item p 0 (stop p l) ≡ l =
          ap (put_item p 0) (stop-stopped l e) ∙ put-nothing l t.nothing_to_put in
        subst IsTidy (sym q) t
    | inr e ↦
        let q : put_item p 0 (stop p l)
            ≡ record l { stopped = true; pending = []; queue = l.queue ++ last ∷ [] } =
          ap (put_item p 0) (stop-open l e t.nothing_to_put)
          ∙ put-alone last (record l { stopped = true }) in
        subst IsTidy (sym q) (record {
          nothing_to_put = refl;
          marked = λ h. refl;
          leaving = λ h. refl;
          left_nothing = λ h. absurd (cc (e, t.leaving (ap is_leaving h)));
        })
  ]

  run-IsTidy : (cs : List Whole) (l : Lane S) → IsTidy l → IsTidy (run p (moves_of cs) l)
  run-IsTidy [] l t = t
  run-IsTidy (enqueues n ∷ cs) l t = run-IsTidy cs _ (enqueue-IsTidy n l t)
  run-IsTidy (closes ∷ cs) l t = run-IsTidy cs _ (stop-IsTidy l t)
  run-IsTidy (turns_once ∷ cs) l t = run-IsTidy cs _ (work_on-IsTidy l.worker l.queue l refl refl t)

  -- A lane loses and doubles no notification where its threads make whole calls, in any order: once its worker has
  -- ended, each notification that was handed to it, before its close or after, has landed or was reported, and as
  -- often as it was handed over. Each thread puts what it admitted, or the mark of its stop, before another thread
  -- moves, and the notifier makes at least one attempt.
  pub whole_answered :
      (test : Notification → Bool) (url : String) (store : Store) (outside : S) (cs : List Whole)
      → 1 ≤ p.attempts
      → (run p (moves_of cs) (new_lane url store outside)).worker ≡ ended
      → count test (run p (moves_of cs) (new_lane url store outside)).landed
          + count_reported test (run p (moves_of cs) (new_lane url store outside)).reported
        ≡ count_handed test cs
  whole_answered test url store outside cs attempts e =
      let l = run p (moves_of cs) (new_lane url store outside) in
      let kept = run-held test p attempts (moves_of cs) (new_lane url store outside) in
      let t : IsTidy l = run-IsTidy cs (new_lane url store outside) (record {
        nothing_to_put = refl;
        marked = λ h. absurd (cc h);
        leaving = λ h. absurd (cc h);
        left_nothing = λ h. refl;
      }) in
      omega (
        arith,
        kept,
        ap (count_items test) (t.left_nothing e),
        ap (count_items test) t.nothing_to_put,
      )
