-- ===== src/Wire/Paths.antt =====
-- The operations of src/blackboard/wire.py and the paths they take, and `_match` of src/blackboard/server.py.
--
-- A template is kept as its segments, `template.split("/")`, a variable's with its braces taken off. `quote`
-- and `unquote` are the functions of `urllib.parse`.
use Prim.Native.Char.{code, Char}
use Prim.Native.String
use blackboardx.Prelude.{
  String, Option, none, some, List, [], ◌∷◌, str_eq, contains, ◌==◌, if◌then◌else◌,
}
use blackboardx.Dict.{Dict, get, put}
use blackboardx.Errors.{Result, ok, err, wire_error, ◌>>=◌}

pub data Segment : Type 0 where
  literal : String → Segment
  variable : String → Segment

pub data Method : Type 0 where
  http_get http_post http_put : Method

pub record Operation : Type 0 where
  pub name : String
  pub method : Method
  pub template : List Segment

-- Operation.variables
abbrev pub variables : List Segment → List String
variables [] = []
variables (literal s ∷ t) = variables t
variables (variable n ∷ t) = n ∷ variables t

-- "/".join(segments)
abbrev pub join_slash : List String → String
join_slash [] = ""
join_slash (s ∷ []) = s
join_slash (s ∷ t ∷ ts) = String.◌++◌ s (String.◌++◌ "/" (join_slash (t ∷ ts)))

-- The first part grows by one character.
abbrev pub grown : Char → List String → List String
grown c [] = (String.◌∷◌ c "") ∷ []
grown c (s ∷ ss) = (String.◌∷◌ c s) ∷ ss

-- path.split("/")
unfoldable pub split_slash : String → List String
split_slash String.[] = "" ∷ []
split_slash (String.◌∷◌ c s) =
    let rest = split_slash s in if code c == b'/' then "" ∷ rest else grown c rest

module _ (quote : String → String) where
  -- Each marker of the template replaced by its value, quoted.
  abbrev pub fill : Dict String → List Segment → Result (List String)
  fill given [] = ok []
  fill given (literal s ∷ t) = do parts ← fill given t; ok (s ∷ parts)
  fill given (variable n ∷ t) = elim (get n given) [
    | none ↦ err (wire_error (n ∷ []))
    | some v ↦ do parts ← fill given t; ok (quote v ∷ parts)
  ]

  -- The names given that the template does not take.
  abbrev pub unknown : List String → Dict String → List String
  unknown names [] = []
  unknown names ((n, v) ∷ given) =
      if contains names n then unknown names given else n ∷ unknown names given

  -- Operation.path
  unfoldable pub path : Operation → Dict String → Result String
  path o given = elim (unknown (variables o.template) given) [
    | n ∷ ns ↦ err (wire_error (n ∷ []))
    | [] ↦ do parts ← fill given o.template; ok (join_slash parts)
  ]

module _ (unquote : String → String) where
  -- The loop of `_match` over the pairs of segments; of lists of two lengths none fits.
  unfoldable pub match_from : Dict String → List Segment → List String → Option (Dict String)
  match_from found [] [] = some found
  match_from found [] (p ∷ ps) = none
  match_from found (s ∷ t) [] = none
  match_from found (literal s ∷ t) (p ∷ ps) = if str_eq s p then match_from found t ps else none
  match_from found (variable n ∷ t) (p ∷ ps) =
      if str_eq p "" then none else match_from (put n (unquote p) found) t ps

  -- _match
  unfoldable pub match_path : List Segment → String → Option (Dict String)
  match_path template p = match_from [] template (split_slash p)

abbrev pub boards : List Segment → List Segment
boards rest = literal "" ∷ literal "boards" ∷ variable "board_id" ∷ rest

abbrev pub read_regions_operation : Operation
read_regions_operation = record {
  name = "read_regions";
  method = http_get;
  template = boards (literal "regions" ∷ []);
}

abbrev pub read_level_operation : Operation
read_level_operation = record {
  name = "read_level";
  method = http_get;
  template = boards (literal "levels" ∷ variable "level" ∷ []);
}

abbrev pub read_premise_operation : Operation
read_premise_operation = record {
  name = "read_premise";
  method = http_get;
  template = boards (literal "premises" ∷ variable "premise" ∷ []);
}

abbrev pub read_board_operation : Operation
read_board_operation = record {
  name = "read_board";
  method = http_get;
  template = boards (literal "changes" ∷ []);
}

abbrev pub write_operation : Operation
write_operation = record {
  name = "write";
  method = http_post;
  template = boards (literal "levels" ∷ variable "level" ∷ []);
}

abbrev pub set_premise_operation : Operation
set_premise_operation = record {
  name = "set_premise";
  method = http_put;
  template = boards (literal "premises" ∷ variable "premise" ∷ []);
}

abbrev pub ack_operation : Operation
ack_operation = record {
  name = "ack";
  method = http_post;
  template = boards (literal "acknowledgements" ∷ []);
}

-- OPERATIONS
abbrev pub operations : List Operation
operations =
    read_regions_operation ∷ read_level_operation ∷ read_premise_operation ∷ read_board_operation
    ∷ write_operation ∷ set_premise_operation ∷ ack_operation ∷ []
