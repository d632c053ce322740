-- ===== src/Client/Reached.antt =====
-- A request that a client builds as the service's handlers meet it (src/blackboard/server.py).
use blackboardx.Prelude.{
  ℕ, ◌≡◌, refl, sym, ◌∙◌, String, some, List, [], ◌∷◌, map, ltb, length, take, subst,
}
use blackboardx.Dict.{Dict, get, put}
use blackboardx.Errors.{ok}
use blackboardx.Store
use blackboardx.Control.{World, App}
use blackboardx.Board.{Contribution}
use blackboardx.Board.Write.{level_contributions}
use blackboardx.Board.Read.{read_level_of}
use blackboardx.Store.{Store, board_of}
use blackboardx.Wire.Paths.{Operation, operations, read_level_operation}
use blackboardx.Wire.Bodies.{level_page_to_json}
use blackboardx.Service.{Library, Request, responded, Serving}
use blackboardx.Service.Queries.{read, read_bounds, read_whole}
use blackboardx.Service.Answers.{contribution_body}
use blackboardx.Service.Handlers
use blackboardx.Service.Handlers.{ok_json}
use blackboardx.Service.Routing.{matched, first_of, route, answer_first, answer, handle, act}
use blackboardx.Service.Routed.{IsLawful}
use blackboardx.Client.Rising.{from, trim-one_more}

module _ (lib : Library) (app : String → App) where
  answer_first-some :
      (request : Request) (s : Serving) (m path : String) (found : Operation × Dict String)
      (ms : List (Operation × Dict String))
      → lib.upper request.method ≡ m
      → first_of lib app m ms ≡ some found
      → answer_first lib app path request s ms (first_of lib app (lib.upper request.method) ms)
        ≡ answer lib app found.0 found.1 request s
  unfolding answer_first
  answer_first-some request s m path found [] u e = absurd (cc e)
  answer_first-some request s m path found (x ∷ xs) u e =
      subst
        (λ q.
          answer_first lib app path request s (x ∷ xs) q ≡ answer lib app found.0 found.1 request s)
        (sym (subst (λ k. first_of lib app k (x ∷ xs) ≡ some found) (sym u) e)) refl

  -- The service answers a request by the operation that its path and its method reach.
  pub handle-first :
      (request : Request) (s : Serving) (m : String) (found : Operation × Dict String)
      → lib.upper request.method ≡ m
      → first_of lib app m (matched lib app request.path operations) ≡ some found
      → handle lib app "" request s ≡ answer lib app found.0 found.1 request s
  unfolding handle route
  handle-first request s m found u e =
      answer_first-some request s m request.path found (matched lib app request.path operations) u e

  pub bounds-from :
      IsLawful lib
      → (start : ℕ) → read_bounds lib (("from_sequence", lib.str_of start) ∷ []) ≡ read (start, 100)
  unfolding read_bounds read_whole get
  bounds-from law start = rw (read_bounds, read_whole, law.int-str start) refl

  pub answer-held :
      (id level : String) (request : Request) (s : Serving) (w : World)
      → get id s.runs ≡ some w
      → answer lib app read_level_operation (("board_id", id) ∷ ("level", level) ∷ []) request s
        ≡ Handlers.read_level lib app id level request s
  unfolding answer act get
  answer-held id level request s w h = rw (answer, h) refl

  -- The page that the service cuts of a level.
  pub answer-read_level :
      (law : IsLawful lib) (id level : String) (request : Request) (s : Serving) (w : World)
      (start : ℕ) (xs : List Contribution)
      → request.query ≡ ("from_sequence", lib.str_of start) ∷ []
      → get id s.runs ≡ some w
      → level_contributions level (board_of id s.store) ≡ ok xs
      → answer lib app read_level_operation (("board_id", id) ∷ ("level", level) ∷ []) request s ≡ (
        responded (
            ok_json (
              level_page_to_json (record {
                rows =
                    map
                      (contribution_body lib)
                      (take 100 (from (λ (c : Contribution). c.sequence) start xs));
                has_more = ltb 100 (length (from (λ (c : Contribution). c.sequence) start xs));
              }))),
        record s { store = put id (board_of id s.store) s.store },
      )
  unfolding Handlers.read_level Store.read_level read_level_of
  answer-read_level law id level request s w start xs q h e =
      let b = subst (λ d. read_bounds lib d ≡ read (start, 100)) (sym q) (bounds-from law start) in
      answer-held id level request s w h
      ∙ rw
          (
            Handlers.read_level,
            b,
            e,
            trim-one_more 100 (from (λ (c : Contribution). c.sequence) start xs),
          )
          refl
