-- ===== src/Control/Notified.antt =====
-- When an agent is notified, and of what: `_evaluate_dispatch_locked` and `_dispatch` of `Control`
-- (src/blackboard/_control.py).
use blackboardx.Prelude.{
  sym, ap, ◌∙◌, ℕ, ◌+◌, ◌≤◌, ◌<◌, String, ◌≡◌, refl, Bool, true, some, [], ◌∷◌, arith, leb, any,
  ◌||◌, min, map, Option-cases, Bool-cases, List-cases, inl, inr, eq_iff,
}
use blackboardx.Dict.{Dict, get, get-put}
use blackboardx.Control.{World, AgentState, Delivery, Carrier}
use blackboardx.Control.Roster.{carrier_for}
use blackboardx.Control.Dispatch.{
  evaluate, dispatch, dispatched, earliest_of, notification_for, armed_by,
}

-- Some region's change is due.
abbrev pub has_due : ℕ → Dict ℕ → Bool
has_due now pending = any (λ e. leb e.1 now) pending

earliest_due :
    (now d : ℕ) (pending : Dict ℕ)
    → leb (earliest_of d pending) now ≡ leb d now || has_due now pending
earliest_due now d [] = ground arith
earliest_due now d ((region, e) ∷ pending) = ground (arith, earliest_due now (min d e) pending)

-- The way through `_evaluate_dispatch_locked` on which something is delivered.
evaluate-delivers :
    (name : String) (s : AgentState) (w : World) (d : Delivery)
    → (evaluate name s w).0 ≡ some d
    → (has_due w.now s.pending ≡ true)
      × (s.acknowledged_through < w.last_sequence)
      × (evaluate name s w ≡ dispatch name s w)
      × ((c : Carrier) × (carrier_for s.declaration w.reach ≡ some c))
unfolding evaluate
evaluate-delivers name s w d h = elim (List-cases s.pending) [
  | inl e ↦ absurd (ground arith)
  | inr (p, rest, e) ↦ elim (Option-cases (carrier_for s.declaration w.reach)) [
    | inl c ↦ absurd (ground arith)
    | inr (carrier, c) ↦ elim (Bool-cases (leb w.last_sequence s.acknowledged_through)) [
      | inl l ↦ absurd (ground arith)
      | inr l ↦ elim (Bool-cases (leb (earliest_of p.1 rest) w.now)) [
        | inl q ↦
            (rw (e, sym (earliest_due w.now p.1 rest)) q, ground arith, ground arith, (carrier, c))
        | inr q ↦ elim (Bool-cases (armed_by (earliest_of p.1 rest) s.window_due)) [
          | inl a ↦ absurd (ground arith)
          | inr a ↦ absurd (ground arith)
        ]
      ]
    ]
  ]
]

dispatched-pending : (s : AgentState) (w : World) → (dispatched s w).pending ≡ []
dispatched-pending s w = elim (Option-cases s.window_call) [
  | inl e ↦ ground arith
  | inr (h, e) ↦ ground arith
]

dispatch-delivers :
    (name : String) (s : AgentState) (w : World) (c : Carrier)
    → carrier_for s.declaration w.reach ≡ some c
    → (dispatch name s w).0
      ≡ some (record {
        carrier = c;
        notification = notification_for s.declaration.name s (map (λ e. e.0) s.pending) w;
      })
unfolding dispatch
dispatch-delivers name s w c h = ground arith

dispatch-roster :
    (name : String) (s : AgentState) (w : World)
    → get name (dispatch name s w).1.agents ≡ some (dispatched s w)
unfolding dispatch
dispatch-roster name s w =
    ground (arith, get-put name name (dispatched s w) w.agents, eq_iff name name)

-- An agent is notified only of a range that is not empty, from the change after its answer to the last one
-- that this process knows of, which is not the board's last where another process has written since, and only when some region of its pending set is due; it is told exactly the regions of that set,
-- and the set is empty afterwards.
pub evaluate_sends :
    (name : String) (s : AgentState) (w : World) (d : Delivery)
    → (evaluate name s w).0 ≡ some d
    → (has_due w.now s.pending ≡ true)
      × (carrier_for s.declaration w.reach ≡ some d.carrier)
      × (d.notification.agent ≡ s.declaration.name)
      × (d.notification.board_id ≡ w.board_id)
      × (d.notification.from_sequence ≡ s.acknowledged_through + 1)
      × (d.notification.to_sequence ≡ w.last_sequence)
      × (d.notification.from_sequence ≤ d.notification.to_sequence)
      × (d.notification.regions ≡ map (λ e. e.0) s.pending)
      × (t : AgentState) × (get name (evaluate name s w).1.agents ≡ some t)
      × (t.pending ≡ [])
evaluate_sends name s w d h =
    let f = evaluate-delivers name s w d h in
    let e = dispatch-delivers name s w f.3.0 f.3.1 in
    (
      f.0,
      ground (arith, h, f.2, e, f.3.1),
      ground (arith, h, f.2, e),
      ground (arith, h, f.2, e),
      ground (arith, h, f.2, e),
      ground (arith, h, f.2, e),
      ground (arith, h, f.1, f.2, e),
      ground (arith, h, f.2, e),
      dispatched s w,
      rw f.2 (dispatch-roster name s w),
      dispatched-pending s w,
    )

evaluate-dispatches :
    (name : String) (s : AgentState) (w : World) (c : Carrier)
    → has_due w.now s.pending ≡ true
    → carrier_for s.declaration w.reach ≡ some c
    → s.acknowledged_through < w.last_sequence
    → evaluate name s w ≡ dispatch name s w
unfolding evaluate
evaluate-dispatches name s w c h r l = elim (List-cases s.pending) [
  | inl e ↦ absurd (ground arith)
  | inr (p, rest, e) ↦ ground (arith, earliest_due w.now p.1 rest, h, l, r)
]

-- An agent that a carrier reaches, that has not answered the last change that this process knows of and
-- that has a change due, is notified. Of what another process has written since, this process may not know.
pub evaluate_due :
    (name : String) (s : AgentState) (w : World) (c : Carrier)
    → has_due w.now s.pending ≡ true
    → carrier_for s.declaration w.reach ≡ some c
    → s.acknowledged_through < w.last_sequence
    → (d : Delivery) × ((evaluate name s w).0 ≡ some d) × (d.carrier ≡ c)
evaluate_due name s w c h r l =
    (_, ap (λ x. x.0) (evaluate-dispatches name s w c h r l) ∙ dispatch-delivers name s w c r, refl)
