-- ===== src/Service.antt =====
-- Answering requests over HTTP (src/blackboard/server.py): `BoardService`, over the runs that this process
-- holds and the store that they share.
--
-- `Library` has the functions of Python's library that the code calls, and the texts of messages and of
-- `repr`. A body's field may hold JSON of another type than its annotation says; the source passes it on
-- unlooked at, and what follows is not modelled (`untyped`).
pub mod Queries
pub mod Answers
pub mod Handlers
pub mod Routing
pub mod Matching
pub mod Routed
use blackboardx.Prelude.{ℕ, String, Option, none, some, List, [], ◌∷◌, Bool}
use blackboardx.Dict.{Dict, get, put}
use blackboardx.Errors.{Error}
use blackboardx.Json.{Value}
use blackboardx.Store.{Store}
use blackboardx.Control.{World, App}

-- What `int` reads.
pub data Whole : Type 0 where
  whole : ℕ → Whole
  negative : ℕ → Whole

pub record Library : Type 0 where
  pub quote : String → String
  pub unquote : String → String
  pub int_of : String → Option Whole
  pub str_of : ℕ → String
  pub isoformat : ℕ → String
  pub fromisoformat : String → Option ℕ
  pub upper : String → String
  pub repr : String → String
  pub said : Error → String

-- Request
pub record Request : Type 0 where
  pub method : String
  pub path : String
  pub body : Value
  pub query : Dict String

-- Response
pub record Response : Type 0 where
  pub status : ℕ
  pub body : Option Value
  pub headers : Dict String

-- How answering one request ends: with a response, with an exception that the service does not catch, or
-- with a field of another type than its annotation.
pub data Reply : Type 0 where
  responded : Response → Reply
  raised : Error → Reply
  untyped : Reply

-- The service: the runs it holds, which share the store, and whether it was given the store to read from.
pub record Serving : Type 0 where
  pub runs : Dict World
  pub store : Store
  pub reads_store : Bool

-- The run of this board, over the store as it is.
abbrev pub control_for : String → Serving → Option World
control_for id s = elim (get id s.runs) [
  | none ↦ none
  | some w ↦ some (record w { store = s.store })
]

-- What a run's call leaves.
abbrev pub after_run : String → World → Serving → Serving
after_run id w s = record s { runs = put id w s.runs; store = w.store }
