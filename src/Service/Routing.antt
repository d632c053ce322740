-- ===== src/Service/Routing.antt =====
-- The routing of `BoardService`: `handle`, `_answer`, `_reader_for` and `_act` (src/blackboard/server.py).
use blackboardx.Service.Handlers.{
  read_regions, read_level, read_premise, read_board, write, set_premise, ack,
}
use Prim.Native.String
use Prim.Native.Char.{code}
use blackboardx.Prelude.{
  String, Bool, true, false, Option, none, some, List, [], ◌∷◌, map, str_eq, str_le, sort_by,
  contains, ◌==◌, if◌then◌else◌,
}
use blackboardx.Dict.{Dict, get_or}
use blackboardx.Errors.{assertion_failed, not_implemented}
use blackboardx.Store
use blackboardx.Store.{Store}
use blackboardx.Control.{World, App}
use blackboardx.Wire.Paths.{
  Method, http_get, http_post, http_put, Operation, operations, match_path,
}
use blackboardx.Service.{Library, Request, Reply, responded, raised, Serving, control_for}
use blackboardx.Service.Queries.{error_response}

abbrev pub method_name : Method → String
method_name http_get = "GET"
method_name http_post = "POST"
method_name http_put = "PUT"

module _ (lib : Library) (app : String → App) where
  -- `serving.run()` asserts that there is a run.
  abbrev pub with_run : Option World → (World → Reply × Serving) → Serving → Reply × Serving
  with_run none call s = (raised assertion_failed, s)
  with_run (some w) call s = call w

  -- _act
  unfoldable pub act :
      Operation → Dict String → Request → String → Option World → Serving → Reply × Serving
  act operation variables request id run s =
      if str_eq operation.name "read_regions"
      then read_regions lib app id s
      else if str_eq operation.name "read_level"
      then read_level lib app id (get_or "level" "" variables) request s
      else if str_eq operation.name "read_premise"
      then read_premise lib app id (get_or "premise" "" variables) s
      else if str_eq operation.name "read_board"
      then read_board lib app id request s
      else if str_eq operation.name "write"
      then with_run run (λ w. write lib app id w (get_or "level" "" variables) request s) s
      else if str_eq operation.name "set_premise"
      then with_run run (λ w. set_premise lib app id w (get_or "premise" "" variables) request s) s
      else if str_eq operation.name "ack"
      then with_run run (λ w. ack lib app id w request s) s
      else (raised not_implemented, s)

  -- _reader_for: whether a board that no run is held for may be read, and the store after asking
  abbrev pub reader_for : String → Method → Serving → Bool × Serving
  reader_for id http_get s =
      if s.reads_store
      then (let r = Store.read_regions id s.store in
          (elim r.0 [ [] ↦ false | _ ↦ true ], record s { store = r.1 }))
      else (false, s)
  reader_for id method s = (false, s)

  -- _answer
  unfoldable pub answer : Operation → Dict String → Request → Serving → Reply × Serving
  answer operation variables request s =
      let id = get_or "board_id" "" variables in
      elim (control_for id s) [
        | some w ↦ act operation variables request id (some w) s
        | none ↦
            let r = reader_for id operation.method s in
            if r.0 then act operation variables request id none r.1 else (
              responded
                  (error_response 404 "unknown_board" (String.◌++◌ "this service holds no " id)),
              r.1,
            )
      ]

  -- The operations whose template the path fits, with the variables that it fills in.
  abbrev pub matched : String → List Operation → List (Operation × Dict String)
  matched path [] = []
  matched path (o ∷ os) = elim (match_path lib.unquote o.template path) [
    | none ↦ matched path os
    | some variables ↦ (o, variables) ∷ matched path os
  ]

  abbrev pub first_of : String → List (Operation × Dict String) → Option (Operation × Dict String)
  first_of method [] = none
  first_of method (m ∷ ms) =
      if str_eq (method_name m.0.method) method then some m else first_of method ms

  -- ", ".join(sorted({...}))
  abbrev pub once : List String → List String
  once [] = []
  once (n ∷ ns) = let rest = once ns in if contains rest n then rest else n ∷ rest

  abbrev pub join_comma : List String → String
  join_comma [] = ""
  join_comma (s ∷ []) = s
  join_comma (s ∷ t ∷ ts) = String.◌++◌ s (String.◌++◌ ", " (join_comma (t ∷ ts)))

  abbrev pub allowed : List (Operation × Dict String) → String
  allowed ms = join_comma (sort_by str_le (once (map (λ m. method_name m.0.method) ms)))

  -- What `handle` answers, of the operations whose template the path fits, and of the first of them that has
  -- the request's method
  unfoldable pub answer_first :
      String
      → Request
      → Serving
      → List (Operation × Dict String)
      → Option (Operation × Dict String)
      → Reply × Serving
  answer_first path request s [] first =
      (responded (error_response 404 "no_such_route" (String.◌++◌ "no operation takes " path)), s)
  answer_first path request s (m ∷ ms) (some (operation, variables)) =
      answer operation variables request s
  answer_first path request s (m ∷ ms) none = (
    responded
        (record (error_response 405 "wrong_method"
          (String.◌++◌ path (String.◌++◌ " takes " (allowed (m ∷ ms))))) {
            headers = ("Allow", allowed (m ∷ ms)) ∷ [];
          }),
    s,
  )

  -- `handle`, of the path with its prefix taken off
  unfoldable pub route : String → Request → Serving → Reply × Serving
  route path request s =
      let ms = matched path operations in
      answer_first path request s ms (first_of (lib.upper request.method) ms)

  -- path[len(prefix):] where the path starts with the prefix
  unfoldable pub after_prefix : String → String → Option String
  after_prefix String.[] path = some path
  after_prefix (String.◌∷◌ c prefix) String.[] = none
  after_prefix (String.◌∷◌ c prefix) (String.◌∷◌ d path) =
      let rest = after_prefix prefix path in if code c == code d then rest else none

  abbrev pub is_rooted : String → Bool
  is_rooted String.[] = false
  is_rooted (String.◌∷◌ c s) = code c == b'/'

  -- The path that is matched: `prefix` has no slash at its end, as `__init__` leaves it.
  abbrev pub inner_path : String → String → Option String
  inner_path prefix path = if str_eq prefix "" then some path else elim (after_prefix prefix path) [
    | none ↦ none
    | some rest ↦ if is_rooted rest then some rest else none
  ]

  -- handle
  unfoldable pub handle : String → Request → Serving → Reply × Serving
  handle prefix request s = elim (inner_path prefix request.path) [
    | none ↦ (
      responded (
          error_response 404 "no_such_route" (String.◌++◌ request.path " is outside this service")),
      s,
    )
    | some path ↦ route path request s
  ]
