-- ===== src/Client/Refused.antt =====
-- A read that the store refuses, through the service to the client (src/blackboard/agent.py,
-- src/blackboard/server.py).
use blackboardx.Prelude.{
  ℕ, suc, String, ◌≡◌, refl, sym, ◌∙◌, subst, true, false, none, some, [], ◌∷◌, str_eq,
  if◌then◌else◌, ◌==◌, arith, inl, inr,
}
use blackboardx.Dict.{get}
use blackboardx.Errors.{Error, err, Result-cases}
use blackboardx.Json.{as_json, null}
use blackboardx.Board.{Contribution}
use blackboardx.Board.Read.{read_level_of}
use blackboardx.Board.Write.{level_contributions}
use blackboardx.Store
use blackboardx.Store.{board_of}
use blackboardx.Control.{World, App}
use blackboardx.Wire.Paths.{read_level_operation}
use blackboardx.Service.{Library, Request, Response, responded, Serving}
use blackboardx.Service.Queries.{read, read_bounds}
use blackboardx.Service.Answers.{caught}
use blackboardx.Service.Handlers
use blackboardx.Service.Routed.{IsLawful, IsSegment, operations-IsRouted}
use blackboardx.Client.{Asked, Outcome, Fault, Got, failed}
use blackboardx.Client.Readings.{level_page, refuse}
use blackboardx.Client.Reads.{read_level, level_at, follow, Found}
use blackboardx.Client.Answered.{answered_with, body_value}
use blackboardx.Client.Reached.{answer-held, bounds-from}
use blackboardx.Client.Wired.{IsCarried}
use blackboardx.Client.Sent.{sent-served}
use blackboardx.Client.Faults.{fault_of, refuse-caught}

store-refused :
    (id level : String) (start m : ℕ) (s : Store.Store) (e : Error)
    → (Store.read_level id level start none s).0 ≡ err e
    → (Store.read_level id level start (some m) s).0 ≡ err e
unfolding Store.read_level read_level_of
store-refused id level start m s e h =
    elim (Result-cases (level_contributions level (board_of id s))) [
      | inl (x, bad) ↦ ground (arith, h, bad)
      | inr (xs, good) ↦ absurd (ground (arith, h, good))
    ]

refused-handled :
    (lib : Library)
    → IsLawful lib
    → (app : String → App) (id level : String) (request : Request) (start : ℕ) (s : Serving)
      (e : Error) (r : Response)
    → request.query ≡ ("from_sequence", lib.str_of start) ∷ []
    → (Store.read_level id level start none s.store).0 ≡ err e
    → caught lib e ≡ responded r
    → Handlers.read_level lib app id level request s
      ≡ (responded r, record s { store = (Store.read_level id level start (some 101) s.store).1 })
unfolding Handlers.read_level
refused-handled lib law app id level request start s e r q h a =
    let bounds =
      subst (λ d. read_bounds lib d ≡ read (start, 100)) (sym q) (bounds-from lib app law start) in
    rw (Handlers.read_level, bounds, store-refused id level start 101 s.store e h, a) refl

page-refused :
    (lib : Library) (r : Response) (f : Fault)
    → (r.status == 200) ≡ false
    → refuse lib r.status (body_value r) ≡ f
    → answered_with (level_page lib) r ≡ failed f
unfolding level_page
page-refused lib r f e h = rw (level_page, e, h) refl

follow-failed :
    {S : Type 0} {A : Type 0} (page_at : ℕ → S → Got (Found A) × S) (sequence_of : A → ℕ)
    (fuel start : ℕ) (s s' : S) (f : Fault)
    → page_at start s ≡ (failed f, s')
    → (follow page_at sequence_of (suc fuel) start s).0 ≡ some (failed f)
unfolding follow
follow-failed page_at sequence_of fuel start s s' f e = rw (follow, e) refl

module _ (lib : Library) (law : IsLawful lib) (app : String → App)
    (transport : Asked → Serving → Outcome × Serving) (carried : IsCarried lib app transport)
    (id agent level : String) (b : IsSegment lib id) (l : IsSegment lib level) where
  abbrev value : String → String
  value n = if str_eq n "board_id" then id else level

  -- A client that reads a level without a limit, through a service that holds a run for the board, where the store's
  -- own `read_level` raises an error that the service answers for, raises the client's exception for it with the message
  -- of the error, at its first request: the message is not empty, the board's name and the level's fill a
  -- segment of a path, and the transport brings every response back.
  pub read_level-refused :
      (attempts fuel start : ℕ) (s : Serving) (w : World) (e : Error) (f : Fault)
      → get id s.runs ≡ some w
      → (Store.read_level id level start none s.store).0 ≡ err e
      → str_eq (lib.said e) "" ≡ false
      → fault_of e (lib.said e) ≡ some f
      → (read_level lib transport id agent (suc attempts) (suc fuel) level start none s).0
        ≡ some (failed f)
  unfolding read_level as_json
  read_level-refused attempts fuel start s w e f held h said shared =
      let (r, answers, final, unlike, raises) = refuse-caught lib e f said shared in
      let s' = record s { store = (Store.read_level id level start (some 101) s.store).1 } in
      let ends =
        sent-served lib app transport carried id agent read_level_operation value
          (("from_sequence", lib.str_of start) ∷ []) null null true (level_page lib) attempts s s' r
          (operations-IsRouted lib app value law b l l).1.0 law.upper_get refl
          (λ request q body.
            answer-held lib app id level request s w held
            ∙ refused-handled lib law app id level request start s e r q h answers)
          final in
      let found : Got (Found Contribution) × Serving = (failed f, s') in
      let first : level_at lib transport id agent (suc attempts) level none start s ≡ found =
        rw (ends, page-refused lib r f unlike raises) refl in
      follow-failed (level_at lib transport id agent (suc attempts) level none)
        (λ (c : Contribution). c.sequence) fuel start s s' f first
