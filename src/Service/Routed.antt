-- ===== src/Service/Routed.antt =====
-- The requests that a client builds against the routing of the service (src/blackboard/wire.py,
-- src/blackboard/server.py).
use blackboardx.Prelude.{ℕ, String, ◌≡◌, refl, false, Option, some, List, [], ◌∷◌, map, All, str_eq}
use blackboardx.Dict.{Dict, get, put}
use blackboardx.Errors.{ok}
use blackboardx.Control.{App}
use blackboardx.Wire.Paths.{
  Operation, Segment, variables, path, match_from, operations, variable, boards,
}
use blackboardx.Wire.Routes.{NoSlash, split_slash-join_slash}
use blackboardx.Service.{Library, whole}
use blackboardx.Service.Routing.{matched, first_of, method_name}
use blackboardx.Service.Matching.{
  matched-parts, match-literal, match-other, match-variable, first_of-hit, first_of-unfit,
  first_of-other,
}

-- What the code relies on of Python's library: decoding undoes `quote`, `int` reads what `str` prints,
-- `fromisoformat` what `isoformat` prints, and the names of the methods are in capitals.
pub record IsLawful (lib : Library) : Type 0 where
  pub unquote-quote : (s : String) → lib.unquote (lib.quote s) ≡ s
  pub int-str : (n : ℕ) → lib.int_of (lib.str_of n) ≡ some (whole n)
  pub from-iso : (i : ℕ) → lib.fromisoformat (lib.isoformat i) ≡ some i
  pub upper_get : lib.upper "GET" ≡ "GET"
  pub upper_post : lib.upper "POST" ≡ "POST"
  pub upper_put : lib.upper "PUT" ≡ "PUT"

-- A value that fills one segment of a path: quoted, it has no slash and is not empty.
abbrev pub IsSegment : Library → String → Type 0
IsSegment lib v = NoSlash (lib.quote v) × (str_eq (lib.quote v) "" ≡ false)

-- A value for each variable of an operation.
abbrev pub given : (String → String) → Operation → Dict String
given value o = map (λ n. (n, value n)) (variables o.template)

-- The path that the operation builds of these values is matched by that operation before any other of its
-- method, with these values.
abbrev pub IsRouted : Library → (String → App) → (String → String) → Operation → Type 0
IsRouted lib app value o =
    (p : String) × (path lib.quote o (given value o) ≡ ok p)
    × (first_of lib app (method_name o.method) (matched lib app p operations)
        ≡ some (o, given value o))

module _ (lib : Library) (app : String → App) (value : String → String) (law : IsLawful lib)
    (b : IsSegment lib (value "board_id")) (l : IsSegment lib (value "level"))
    (p : IsSegment lib (value "premise")) where
  filled :
      (n : String)
      → IsSegment lib (value n)
      → (found : Dict String) (t : List Segment) (ps : List String) {r : Option (Dict String)}
      → match_from lib.unquote (put n (value n) found) t ps ≡ r
      → match_from lib.unquote found (variable n ∷ t) (lib.quote (value n) ∷ ps) ≡ r
  filled n h found t ps next =
      match-variable lib.unquote found t ps n (lib.quote (value n)) (value n) h.1
        (law.unquote-quote (value n)) next

  -- Every template begins with the board.
  on_board :
      (t : List Segment) (ps : List String) {r : Option (Dict String)}
      → match_from lib.unquote (put "board_id" (value "board_id") []) t ps ≡ r
      → match_from lib.unquote [] (boards t) ("" ∷ "boards" ∷ lib.quote (value "board_id") ∷ ps) ≡ r
  on_board t ps h =
      match-literal lib.unquote _ _ _ "" "" refl
        (match-literal lib.unquote _ _ _ "boards" "boards" refl (filled "board_id" b _ _ _ h))

  finished : (found : Dict String) → match_from lib.unquote found [] [] ≡ some found
  unfolding match_from
  finished found = refl

  -- The path that a client builds for an operation, of values that fill a segment each, is matched by that operation
  -- before any other of its method, with the same values.
  pub operations-IsRouted : All (IsRouted lib app value) operations
  unfolding path get put
  operations-IsRouted = (
    (
      _,
      refl,
      matched-parts lib app _ _ _ _
          (split_slash-join_slash "" ("boards" ∷ lib.quote (value "board_id") ∷ "regions" ∷ []) refl
            (refl, (b.0, (refl, tt))))
          (first_of-hit lib app "GET" _ _ _ refl
            (on_board _ _ (match-literal lib.unquote _ _ _ "regions" "regions" refl (finished _)))),
    ),
    (
      (
        _,
        refl,
        matched-parts lib app _ _ _ _
            (split_slash-join_slash ""
              ("boards" ∷ lib.quote (value "board_id") ∷ "levels" ∷ lib.quote (value "level") ∷ [])
              refl (refl, (b.0, (refl, (l.0, tt)))))
            (first_of-unfit lib app "GET" _ _ _
              (on_board _ _ (match-other lib.unquote _ _ _ "regions" "levels" refl))
              (first_of-hit lib app "GET" _ _ _ refl (
                on_board _ _ (
                  match-literal lib.unquote _ _ _ "levels" "levels" refl
                    (filled "level" l _ _ _ (finished _)))))),
      ),
      (
        (
          _,
          refl,
          matched-parts lib app _ _ _ _
              (split_slash-join_slash ""
                ("boards"
                  ∷ lib.quote (value "board_id")
                  ∷ "premises"
                  ∷ lib.quote (value "premise")
                  ∷ [])
                refl (refl, (b.0, (refl, (p.0, tt)))))
              (first_of-unfit lib app "GET" _ _ _
                (on_board _ _ (match-other lib.unquote _ _ _ "regions" "premises" refl))
                (first_of-unfit lib app "GET" _ _ _
                  (on_board _ _ (match-other lib.unquote _ _ _ "levels" "premises" refl))
                  (first_of-hit lib app "GET" _ _ _ refl (
                    on_board _ _ (
                      match-literal lib.unquote _ _ _ "premises" "premises" refl
                        (filled "premise" p _ _ _ (finished _))))))),
        ),
        (
          (
            _,
            refl,
            matched-parts lib app _ _ _ _
                (split_slash-join_slash ""
                  ("boards" ∷ lib.quote (value "board_id") ∷ "changes" ∷ []) refl
                  (refl, (b.0, (refl, tt))))
                (first_of-unfit lib app "GET" _ _ _
                  (on_board _ _ (match-other lib.unquote _ _ _ "regions" "changes" refl))
                  (first_of-unfit lib app "GET" _ _ _
                    (on_board _ _ (match-other lib.unquote _ _ _ "levels" "changes" refl))
                    (first_of-unfit lib app "GET" _ _ _
                      (on_board _ _ (match-other lib.unquote _ _ _ "premises" "changes" refl))
                      (first_of-hit lib app "GET" _ _ _ refl (
                        on_board _ _ (
                          match-literal lib.unquote _ _ _ "changes" "changes" refl
                            (finished _))))))),
          ),
          (
            (
              _,
              refl,
              matched-parts lib app _ _ _ _
                  (split_slash-join_slash ""
                    ("boards"
                      ∷ lib.quote (value "board_id")
                      ∷ "levels"
                      ∷ lib.quote (value "level")
                      ∷ [])
                    refl (refl, (b.0, (refl, (l.0, tt)))))
                  (first_of-other lib app "POST" _ _ _ refl (
                    first_of-other lib app "POST" _ _ _ refl (
                      first_of-other lib app "POST" _ _ _ refl (
                        first_of-other lib app "POST" _ _ _ refl (
                          first_of-hit lib app "POST" _ _ _ refl (
                            on_board _ _ (
                              match-literal lib.unquote _ _ _ "levels" "levels" refl
                                (filled "level" l _ _ _ (finished _))))))))),
            ),
            (
              (
                _,
                refl,
                matched-parts lib app _ _ _ _
                    (split_slash-join_slash ""
                      ("boards"
                        ∷ lib.quote (value "board_id")
                        ∷ "premises"
                        ∷ lib.quote (value "premise")
                        ∷ [])
                      refl (refl, (b.0, (refl, (p.0, tt)))))
                    (first_of-other lib app "PUT" _ _ _ refl (
                      first_of-other lib app "PUT" _ _ _ refl (
                        first_of-other lib app "PUT" _ _ _ refl (
                          first_of-other lib app "PUT" _ _ _ refl (
                            first_of-other lib app "PUT" _ _ _ refl (
                              first_of-hit lib app "PUT" _ _ _ refl (
                                on_board _ _ (
                                  match-literal lib.unquote _ _ _ "premises" "premises" refl
                                    (filled "premise" p _ _ _ (finished _)))))))))),
              ),
              (
                (
                  _,
                  refl,
                  matched-parts lib app _ _ _ _
                      (split_slash-join_slash ""
                        ("boards" ∷ lib.quote (value "board_id") ∷ "acknowledgements" ∷ []) refl
                        (refl, (b.0, (refl, tt))))
                      (first_of-other lib app "POST" _ _ _ refl (
                        first_of-other lib app "POST" _ _ _ refl (
                          first_of-other lib app "POST" _ _ _ refl (
                            first_of-other lib app "POST" _ _ _ refl (
                              first_of-unfit lib app "POST" _ _ _
                                (on_board _ _
                                  (match-other lib.unquote _ _ _ "levels" "acknowledgements" refl))
                                (first_of-other lib app "POST" _ _ _ refl (
                                  first_of-hit lib app "POST" _ _ _ refl (
                                    on_board _ _ (
                                      match-literal lib.unquote _ _ _ "acknowledgements"
                                        "acknowledgements" refl (finished _)))))))))),
                ),
                tt,
              ),
            ),
          ),
        ),
      ),
    ),
  )
