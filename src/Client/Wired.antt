-- ===== src/Client/Wired.antt =====
-- A client over the service: `read_level` of `BoardClient` (src/blackboard/agent.py) through
-- `BoardService` (src/blackboard/server.py), down to the store.
--
-- What carries requests between them, `httpx` and the framework that the service is put behind, is a parameter:
-- it delivers each request as it was built, its body as JSON carries it, and brings each response back.
use blackboardx.Prelude.{
  ℕ, suc, ◌≡◌, refl, sym, ◌∙◌, ap, subst, String, Bool, true, Option, none, some, List, [], ◌∷◌,
  false, map, ltb, length, take, All, str_eq, if◌then◌else◌,
}
use blackboardx.Dict.{get, put}
use blackboardx.Errors.{ok}
use blackboardx.Store.{board_of}
use blackboardx.Store.Isolation.{board_of-put_self}
use blackboardx.Control.{World, App}
use blackboardx.Board.{Contribution}
use blackboardx.Board.Write.{level_contributions}
use blackboardx.Json.{null, Value, as_json}
use blackboardx.Wire.Paths.{read_level_operation, path, http_get}
use blackboardx.Wire.Bodies.{level_page_to_json, contribution_kind, Page}
use blackboardx.Wire.RoundTrip.{IsBody}
use blackboardx.Wire.Pages.{pages_from_json-to_json}
use blackboardx.Service.{Library, Request, Response, responded, Serving}
use blackboardx.Service.Answers.{contribution_body}
use blackboardx.Service.Handlers.{ok_json}
use blackboardx.Service.Routing.{handle, method_name}
use blackboardx.Service.Routed.{IsLawful, IsSegment, operations-IsRouted}
use blackboardx.Client.{
  Asked, Got, got, ◌>>=◌, Call, Outcome, answered, Content, empty, json, send, send_from,
}
use blackboardx.Client.Readings.{contribution, level_page, each}
use blackboardx.Client.Requests.{call_of, read_level_call}
use blackboardx.Client.Reads.{sent, Found, entries, level_at}
use blackboardx.Client.Answered.{contribution-read}
use blackboardx.Client.Rising.{from}
use blackboardx.Client.Followed.{IsPaged}
use blackboardx.Client.Reached.{handle-first, answer-read_level}

-- The request that reaches the service with this body.
abbrev pub request_of : Asked → Value → Request
request_of asked body = record {
  method = method_name asked.method;
  path = asked.path;
  body = body;
  query = asked.query;
}

abbrev pub content_of : Option Value → Content
content_of none = empty
content_of (some v) = json v

-- The transport writes a request's body as JSON and has the service read it, and brings each response of the service
-- back. Of a body that JSON cannot carry it says nothing: `httpx` raises there.
abbrev pub IsCarried : Library → (String → App) → (Asked → Serving → Outcome × Serving) → Type 0
IsCarried lib app transport =
    (asked : Asked) (body : Value) (s : Serving) (r : Response) (s' : Serving)
    → as_json asked.body ≡ ok body
    → handle lib app "" (request_of asked body) s ≡ (responded r, s')
    → transport asked s ≡ (answered r.status (content_of r.body), s')

bodies-IsBody :
    (lib : Library) (cs : List Contribution)
    → All (IsBody contribution_kind) (map (contribution_body lib) cs)
bodies-IsBody lib [] = tt
bodies-IsBody lib (c ∷ cs) = (refl, bodies-IsBody lib cs)

each-contribution :
    (lib : Library)
    → IsLawful lib
    → (cs : List Contribution) → each (contribution lib) (map (contribution_body lib) cs) ≡ got cs
each-contribution lib law [] = refl
each-contribution lib law (c ∷ cs) =
    rw (contribution-read lib law c, each-contribution lib law cs) refl

-- A page as the service sends it, read by the client.
page-read :
    (lib : Library)
    → IsLawful lib
    → (cs : List Contribution) (more : Bool)
    → (level_page lib 200
          (level_page_to_json (record { rows = map (contribution_body lib) cs; has_more = more }))
        >>= entries (contribution lib))
      ≡ got (cs, more)
unfolding level_page
page-read lib law cs more =
    rw
      (
        (pages_from_json-to_json (record { rows = map (contribution_body lib) cs; has_more = more })
            (record { rows = []; has_more = false }) (bodies-IsBody lib cs) tt).0,
        each-contribution lib law cs,
      )
      refl

module _ {S : Type 0} {A : Type 0} (transport : Asked → S → Outcome × S) (call : Call A) where
  -- An answer that is not asked for again is read at the first attempt.
  send-answered :
      (attempts : ℕ) (s s' : S) (v : Value)
      → call.repeatable ≡ true
      → transport call.asked s ≡ (answered 200 (json v), s')
      → send transport call (suc attempts) s ≡ (call.read 200 v, s')
  unfolding send send_from
  send-answered attempts s s' v r e = rw (r, send_from, e) (rw (e) refl)

module _ (lib : Library) (law : IsLawful lib) (app : String → App)
    (transport : Asked → Serving → Outcome × Serving) (carried : IsCarried lib app transport)
    (id agent level : String) (b : IsSegment lib id) (l : IsSegment lib level) (w : World)
    (xs : List Contribution) where
  -- The service holds a run for the board, and the board's level holds these.
  abbrev pub IsHeld : Serving → Type 0
  IsHeld s = (get id s.runs ≡ some w) × (level_contributions level (board_of id s.store) ≡ ok xs)

  abbrev value : String → String
  value n = if str_eq n "board_id" then id else level

  -- The entries of the level from this start on.
  abbrev rest_of : ℕ → List Contribution
  rest_of start = from (λ (c : Contribution). c.sequence) start xs

  abbrev asked_of : String → ℕ → Asked
  asked_of p start = record {
    method = http_get;
    path = p;
    query = ("from_sequence", lib.str_of start) ∷ [];
    body = null;
  }

  level_at-served :
      (attempts start : ℕ) (s : Serving)
      → IsHeld s
      → level_at lib transport id agent (suc attempts) level none start s ≡ (
        got (take 100 (rest_of start), ltb 100 (length (rest_of start))),
        record s { store = put id (board_of id s.store) s.store },
      )
  unfolding as_json
  level_at-served attempts start s held =
      let (p, filled, reached) = (operations-IsRouted lib app value law b l l).1.0 in
      let s' = record s { store = put id (board_of id s.store) s.store } in
      let built : path lib.quote read_level_operation (("board_id", id) ∷ ("level", level) ∷ [])
          ≡ ok p =
        filled in
      let request = request_of (asked_of p start) null in
      let page = level_page_to_json (record {
        rows = map (contribution_body lib) (take 100 (rest_of start));
        has_more = ltb 100 (length (rest_of start));
      }) in
      let handled =
        handle-first lib app request s "GET"
          (read_level_operation, ("board_id", id) ∷ ("level", level) ∷ []) law.upper_get reached
        ∙ answer-read_level lib app law id level request s w start xs refl held.0 held.1 in
      let brought = carried (asked_of p start) null s (ok_json page) s' refl handled in
      let call : Call Page = record {
        asked = asked_of p start;
        repeatable = true;
        read = level_page lib;
      } in
      let calls : read_level_call lib id level start none ≡ got call =
        rw (read_level_call, call_of, built) refl in
      let answers = send-answered transport call attempts s s' page refl brought in
      let reads = page-read lib law (take 100 (rest_of start)) (ltb 100 (length (rest_of start))) in
      let found : Got (Found Contribution) × Serving =
        (got (take 100 (rest_of start), ltb 100 (length (rest_of start))), s') in
      subst
        (λ c.
          (let r = sent lib transport id agent (suc attempts) c s in
            (r.0 >>= entries (contribution lib), r.1))
          ≡ found)
        (sym calls) (rw (answers, reads) refl)

  pub level_at-IsPaged :
      (attempts : ℕ)
      → IsPaged
          (level_at lib transport id agent (suc attempts) level none)
          (λ (c : Contribution). c.sequence)
          IsHeld
          99
          xs
  level_at-IsPaged attempts start s held =
      let served = level_at-served attempts start s held in
      (
        ltb 100 (length (rest_of start)),
        ap (λ r. r.0) served,
        λ e. e,
        subst (λ r. IsHeld r.1) (sym served)
            (held.0, rw (board_of-put_self id (board_of id s.store) s.store) held.1),
      )
