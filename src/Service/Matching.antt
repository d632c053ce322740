-- ===== src/Service/Matching.antt =====
-- How a path meets the templates of the operations, one segment and one operation at a time (`_match` and
-- `handle` of src/blackboard/server.py).
use blackboardx.Prelude.{
  String, ◌≡◌, refl, sym, subst, true, false, Option, none, some, List, [], ◌∷◌, str_eq,
}
use blackboardx.Dict.{Dict, put}
use blackboardx.Control.{App}
use blackboardx.Wire.Paths.{
  Operation, Segment, variables, split_slash, match_path, match_from, operations, variable, literal,
}
use blackboardx.Service.{Library}
use blackboardx.Service.Routing.{matched, first_of, method_name}

-- The operations that a path's segments fit.
unfoldable pub matched_in : Library → List String → List Operation → List (Operation × Dict String)
matched_in lib parts [] = []
matched_in lib parts (o ∷ os) = elim (match_from lib.unquote [] o.template parts) [
  | none ↦ matched_in lib parts os
  | some variables ↦ (o, variables) ∷ matched_in lib parts os
]

pub matched-parts :
    (lib : Library) (app : String → App) (m p : String) (parts : List String)
    (found : Option (Operation × Dict String))
    → split_slash p ≡ parts
    → first_of lib app m (matched_in lib parts operations) ≡ found
    → first_of lib app m (matched lib app p operations) ≡ found
unfolding match_path matched_in
matched-parts lib app m p parts found e h =
    subst (λ q. first_of lib app m (matched_in lib q operations) ≡ found) (sym e) h

-- How a template's segments meet a path's.
module _ (unquote : String → String) (found : Dict String) (t : List Segment)
    (ps : List String) where
  pub match-literal :
      (s p : String) {r : Option (Dict String)}
      → str_eq s p ≡ true
      → match_from unquote found t ps ≡ r
      → match_from unquote found (literal s ∷ t) (p ∷ ps) ≡ r
  unfolding match_from
  match-literal s p e h = rw (e) h

  pub match-other :
      (s p : String) → str_eq s p ≡ false → match_from unquote found (literal s ∷ t) (p ∷ ps) ≡ none
  unfolding match_from
  match-other s p e = rw (e) refl

  pub match-variable :
      (n p v : String) {r : Option (Dict String)}
      → str_eq p "" ≡ false
      → unquote p ≡ v
      → match_from unquote (put n v found) t ps ≡ r
      → match_from unquote found (variable n ∷ t) (p ∷ ps) ≡ r
  unfolding match_from
  match-variable n p v e u h = rw (e, u) h

module _ (lib : Library) (app : String → App) (m : String) (parts : List String) (o : Operation)
    (os : List Operation) where
  pub first_of-hit :
      {found : Dict String}
      → str_eq (method_name o.method) m ≡ true
      → match_from lib.unquote [] o.template parts ≡ some found
      → first_of lib app m (matched_in lib parts (o ∷ os)) ≡ some (o, found)
  unfolding matched_in
  first_of-hit e h = rw (first_of, h, e) refl

  pub first_of-unfit :
      {r : Option (Operation × Dict String)}
      → match_from lib.unquote [] o.template parts ≡ none
      → first_of lib app m (matched_in lib parts os) ≡ r
      → first_of lib app m (matched_in lib parts (o ∷ os)) ≡ r
  unfolding matched_in
  first_of-unfit e h = rw (first_of, e) h

  -- An operation of another method is passed over, whether or not its template fits.
  first_of-skipped :
      {r : Option (Operation × Dict String)} (q : Option (Dict String))
      → str_eq (method_name o.method) m ≡ false
      → first_of lib app m (matched_in lib parts os) ≡ r
      → first_of lib app m
          (elim q [ none ↦ matched_in lib parts os | some v ↦ (o, v) ∷ matched_in lib parts os ])
        ≡ r
  first_of-skipped none e h = h
  first_of-skipped (some v) e h = rw (e) h

  pub first_of-other :
      {r : Option (Operation × Dict String)}
      → str_eq (method_name o.method) m ≡ false
      → first_of lib app m (matched_in lib parts os) ≡ r
      → first_of lib app m (matched_in lib parts (o ∷ os)) ≡ r
  unfolding matched_in
  first_of-other e h = first_of-skipped (match_from lib.unquote [] o.template parts) e h
