-- ===== src/Control/Advance.antt =====
-- `ManualClock.advance` of src/blackboard/_clock.py, over the calls that a process has armed. What a fired call does
-- is `fire`. A call may arm another that is due, so the loop runs on fuel; a turn of it does not.
use blackboardx.Prelude.{
  ℕ, zero, suc, ◌+◌, ◌≤◌, ◌≡◌, refl, Bool, true, false, not, ◌&&◌, ◌||◌, ◌==◌, ltb, leb, max,
  Option, none, some, List, [], ◌∷◌, filter, All, if◌then◌else◌, arith, Bool-cases, List-cases, inl,
  inr, ◌⊎◌, subst, sym,
}
use blackboardx.Control.{World, App, Scheduled}
use blackboardx.Control.Answer.{fire}

-- [s for s in self._scheduled if not s.cancelled]
abbrev pub live : World → List Scheduled
live w = filter (λ c. not c.cancelled) w.scheduled

-- [s for s in self._scheduled if s.when <= target]
abbrev pub due_by : ℕ → World → List Scheduled
due_by target w = filter (λ c. leb c.when target) (live w)

-- (d.when, d.order) < (c.when, c.order)
abbrev pub earlier : Scheduled → Scheduled → Bool
earlier d c = ltb d.when c.when || (d.when == c.when && ltb d.order c.order)

-- The head of the calls sorted by (when, order)
abbrev pub earliest : Scheduled → List Scheduled → Scheduled
earliest c [] = c
earliest c (d ∷ ds) = if earlier d c then earliest d ds else earliest c ds

-- self._scheduled.remove(head); no two calls have one order
abbrev pub removed : ℕ → List Scheduled → List Scheduled
removed order [] = []
removed order (c ∷ cs) = if c.order == order then cs else c ∷ removed order cs

-- One turn of the loop: the call that it fires, if one is due.
unfoldable pub turn : App → ℕ → World → Option Scheduled × World
turn app target w = elim (due_by target w) [
  | [] ↦ (none, record w { scheduled = live w; now = max w.now target })
  | c ∷ cs ↦
      let head = earliest c cs in
      (
        some head,
        fire app head.call
            (record w { scheduled = removed head.order (live w); now = max w.now head.when }),
      )
]

unfoldable pub advance_to : App → ℕ → ℕ → World → Option World
advance_to app zero target w = none
advance_to app (suc fuel) target w =
    let t = turn app target w in
    let rest = advance_to app fuel target t.1 in elim t.0 [ none ↦ some t.1 | some c ↦ rest ]

-- advance
abbrev pub advance : App → ℕ → ℕ → World → Option World
advance app fuel delta w = advance_to app fuel (w.now + delta) w

earlier-after : (c d k : Scheduled) → earlier d c ≡ true → earlier d k ≡ false → earlier c k ≡ false
earlier-after c d k h e = ground (arith, h, e)

earlier-before :
    (c d k : Scheduled) → earlier d c ≡ false → earlier c k ≡ false → earlier d k ≡ false
earlier-before c d k h e = ground (arith, h, e)

-- No call of the list is earlier than the earliest.
earliest-All :
    (c : Scheduled) (cs : List Scheduled) → All (λ d. earlier d (earliest c cs) ≡ false) (c ∷ cs)
earliest-All c [] = (ground arith, tt)
earliest-All c (d ∷ ds) = elim (Bool-cases (earlier d c)) [
  | inl e ↦
      let q : earliest c (d ∷ ds) ≡ earliest d ds = rw (e) refl in
      let rest = earliest-All d ds in
      subst (λ k. All (λ x. earlier x k ≡ false) (c ∷ d ∷ ds)) (sym q)
        (earlier-after c d (earliest d ds) e rest.0, rest)
  | inr e ↦
      let q : earliest c (d ∷ ds) ≡ earliest c ds = rw (e) refl in
      let rest = earliest-All c ds in
      subst (λ k. All (λ x. earlier x k ≡ false) (c ∷ d ∷ ds)) (sym q)
        (rest.0, (earlier-before c d (earliest c ds) e rest.0, rest.1))
]

-- The call is one of the list.
abbrev pub Among : Scheduled → List Scheduled → Type 0
Among c [] = ⊥
Among c (d ∷ ds) = (c ≡ d) ⊎ Among c ds

earliest-Among : (c : Scheduled) (cs : List Scheduled) → Among (earliest c cs) (c ∷ cs)
earliest-Among c [] = inl refl
earliest-Among c (d ∷ ds) = elim (Bool-cases (earlier d c)) [
  | inl e ↦
      let q : earliest c (d ∷ ds) ≡ earliest d ds = rw (e) refl in
      subst (λ k. Among k (c ∷ d ∷ ds)) (sym q) (inr (earliest-Among d ds))
  | inr e ↦
      let q : earliest c (d ∷ ds) ≡ earliest c ds = rw (e) refl in
      let past : Among (earliest c ds) (c ∷ ds) → Among (earliest c ds) (c ∷ d ∷ ds) =
        λ m. elim m [ inl same ↦ inl same | inr further ↦ inr (inr further) ] in
      subst (λ k. Among k (c ∷ d ∷ ds)) (sym q) (past (earliest-Among c ds))
]

due_by-All :
    (target : ℕ) (cs : List Scheduled)
    → All (λ c. c.when ≤ target) (filter (λ c. leb c.when target) cs)
due_by-All target [] = tt
due_by-All target (c ∷ cs) = ground (arith, due_by-All target cs)

earliest-among :
    (target : ℕ) (c : Scheduled) (cs : List Scheduled)
    → All (λ d. d.when ≤ target) (c ∷ cs)
    → (earliest c cs).when ≤ target
earliest-among target c [] h = h.0
earliest-among target c (d ∷ ds) h = elim (Bool-cases (earlier d c)) [
  | inl e ↦
      let q : earliest c (d ∷ ds) ≡ earliest d ds = rw (e) refl in
      subst (λ (k : Scheduled). k.when ≤ target) (sym q) (earliest-among target d ds h.1)
  | inr e ↦
      let q : earliest c (d ∷ ds) ≡ earliest c ds = rw (e) refl in
      subst (λ (k : Scheduled). k.when ≤ target) (sym q) (earliest-among target c ds (h.0, h.1.1))
]

-- What a turn of the clock with this target is: it stops where no call is due, with the time moved to the target or
-- left where a fired call moved it further; or it fires one of the due calls, that no other due call comes before, in the
-- order of instants and, of one instant, of arming, at the call's instant or later.
abbrev pub IsTurn : App → ℕ → World → Option Scheduled × World → Type 0
IsTurn app target w done =
    ((due_by target w ≡ [])
      × (done ≡ (none, record w { scheduled = live w; now = max w.now target })))
    ⊎ ((head : Scheduled) × Among head (due_by target w)
        × (head.when ≤ target)
        × All (λ d. earlier d head ≡ false) (due_by target w)
        × (done ≡ (
          some head,
          fire app head.call
              (record w { scheduled = removed head.order (live w); now = max w.now head.when }),
        )))

-- Every turn of `advance` stops with nothing due and the time at its target or past it, or fires the due call that
-- is earliest by its instant and, of one instant, by the order of arming, once, at that instant or later.
pub turn-IsTurn : (app : App) (target : ℕ) (w : World) → IsTurn app target w (turn app target w)
unfolding turn
turn-IsTurn app target w = elim (List-cases (due_by target w)) [
  | inl e ↦ inl (e, rw (turn, e) refl)
  | inr (c, cs, e) ↦ inr (
    earliest c cs,
    rw (e) (earliest-Among c cs),
    earliest-among target c cs
        (subst (λ l. All (λ d. d.when ≤ target) l) e (due_by-All target (live w))),
    rw (e) (earliest-All c cs),
    rw (turn, e) refl,
  )
]
