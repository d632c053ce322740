-- ===== src/Sweep.antt =====
-- The jobs that need a schedule, of src/blackboard/_control.py: `close_expired` and `relay_unsent`.
-- `fails` says of which boards the store or the relay raises: such a board is passed over.
pub mod Closes
mod Tests
use blackboardx.Prelude.{
  ℕ, String, Bool, false, none, some, List, [], ◌∷◌, ◌++◌, contains, if◌then◌else◌,
}
use blackboardx.Dict.{Dict, get, put}
use blackboardx.Board.{expired, Unsent}
use blackboardx.Control.{World, App}
use blackboardx.Control.Relay.{relay}
use blackboardx.Store
use blackboardx.Store.{Store}
use blackboardx.Control.Roster.{unfinished}

-- One board of the pass: whether this caller closed its run.
unfoldable pub close_one : ℕ → String → Store → Bool × Store
close_one now id s = elim (Store.read_run now id s) [
  | none ↦ (false, s)
  | some run ↦ elim (expired run) [
    | none ↦ (false, s)
    | some limit ↦ Store.close_run id limit none (unfinished s id) s
  ]
]

abbrev pub close_each : ℕ → (String → Bool) → List String → Store → List String × Store
close_each now fails [] s = ([], s)
close_each now fails (id ∷ ids) s =
    let r = if fails id then (false, s) else close_one now id s in
    let rest = close_each now fails ids r.1 in ((if r.0 then id ∷ rest.0 else rest.0), rest.1)

-- close_expired
unfoldable pub close_expired : ℕ → ℕ → (String → Bool) → Store → List String × Store
close_expired now limit fails s = close_each now fails (Store.runs_past_deadline now limit s) s

-- The boards of these rows, each once, in the order in which they first come.
abbrev pub boards_of : List String → List Unsent → List String
boards_of found [] = found
boards_of found (row ∷ rows) =
    boards_of (if contains found row.board_id then found else found ++ row.board_id ∷ []) rows

-- The runs that this process holds, and the store that they share.
abbrev pub Held : Type 0
Held = Dict World × Store

-- One board of the pass: the agents that its run's relay sent to.
unfoldable pub relay_board : (String → App) → String → Held → List String × Held
relay_board app id (runs, s) = elim (get id runs) [
  | none ↦ ([], (runs, s))
  | some w ↦ let r = relay (app id) (record w { store = s }) in (r.0, (put id r.1 runs, r.1.store))
]

abbrev pub relay_boards : (String → App) → (String → Bool) → List String → Held → List String × Held
relay_boards app fails [] h = ([], h)
relay_boards app fails (id ∷ ids) h =
    let r = if fails id then ([], h) else relay_board app id h in
    let rest = relay_boards app fails ids r.1 in (r.0 ++ rest.0, rest.1)

-- relay_unsent
unfoldable pub relay_unsent : (String → App) → ℕ → (String → Bool) → Held → List String × Held
relay_unsent app limit fails (runs, s) =
    relay_boards app fails (boards_of [] (Store.unsent limit s)) (runs, s)
