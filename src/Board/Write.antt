-- ===== src/Board/Write.antt =====
-- The writes of `InMemoryStore` (src/blackboard/_board.py) on one board, under the store's lock:
-- `declare`, `append`, `set` and the helpers they call. A write that raises leaves the board as it is.
use blackboardx.Prelude.{
  ℕ, ◌+◌, String, Bool, true, false, ◌||◌, Option, none, some, List, [], ◌∷◌, ◌++◌, ◌==◌, str_eq,
  if◌then◌else◌,
}
use blackboardx.Dict.{Dict, get, has, get_or, put}
use blackboardx.Errors.{
  Result, ok, err, undeclared_region, duplicate_region, region_kind, idempotency_key,
}
use blackboardx.Json.{Value}
use blackboardx.Board.{
  Region, level, premise, Written, SetAnswer, written, conflict, Contribution, PremiseState,
  BoardState,
}

-- A region of either kind has this name.
abbrev pub declared : String → BoardState → Bool
declared n b = has n b.levels || has n b.premises

-- declare
unfoldable pub declare_on : Region → BoardState → Result (Unit {0}) × BoardState
declare_on (level n w) b =
    if declared n b
    then (err (duplicate_region n), b)
    else (ok tt, record b { levels = put n [] b.levels })
declare_on (premise n w) b =
    if declared n b
    then (err (duplicate_region n), b)
    else (ok tt, record b { premises = put n none b.premises })

-- _level_contributions
unfoldable pub level_contributions : String → BoardState → Result (List Contribution)
level_contributions n b = elim (get n b.levels) [
  | some cs ↦ ok cs
  | none ↦ if has n b.premises then err (region_kind n) else err (undeclared_region n)
]

-- _premise_state
unfoldable pub premise_state : String → BoardState → Result (Option PremiseState)
premise_state n b = elim (get n b.premises) [
  | some s ↦ ok s
  | none ↦ if has n b.levels then err (region_kind n) else err (undeclared_region n)
]

-- _already_written
unfoldable pub already_written : Option String → String → BoardState → Result (Option Written)
already_written none region b = ok none
already_written (some k) region b = elim (get k b.keys) [
  | none ↦ ok none
  | some (named, w) ↦
      if str_eq named region
      then ok (some (record w { repeated = true }))
      else err (idempotency_key k)
]

-- `set.add`
abbrev pub add_through : ℕ → List ℕ → List ℕ
add_through n [] = n ∷ []
add_through n (m ∷ ms) = if m == n then m ∷ ms else m ∷ add_through n ms

-- _enqueue
unfoldable pub enqueue : List String → ℕ → Dict (List ℕ) → Dict (List ℕ)
enqueue [] through outbox = outbox
enqueue (agent ∷ notify) through outbox =
    enqueue notify through (put agent (add_through through (get_or agent [] outbox)) outbox)

-- board.keys[idempotency_key] = (region, written), where a key was given
abbrev pub record_key :
    Option String → String → Written → Dict (String × Written) → Dict (String × Written)
record_key none region w keys = keys
record_key (some k) region w keys = put k (region, w) keys

-- What a write carries beside its region and its content.
pub record Carried : Type 0 where
  pub key : Option String
  pub writer : Option String
  pub notify : List String

-- The part of `append` and `set` that sequences a write: the change, the key and the outbox.
abbrev pub sequenced : ℕ → String → Value → Option ℕ → Carried → BoardState → BoardState
sequenced now region content version c b = record b {
  sequence = b.sequence + 1;
  changes =
      b.changes
      ++ record {
        sequence = b.sequence + 1;
        region = region;
        content = content;
        writer = c.writer;
        written_at = some now;
      }
        ∷ [];
  keys =
      record_key c.key region
        (record { sequence = b.sequence + 1; version = version; repeated = false }) b.keys;
  outbox = enqueue c.notify (b.sequence + 1) b.outbox;
}

abbrev pub contribution_at : ℕ → Value → Carried → BoardState → Contribution
contribution_at now content c b = record {
  sequence = b.sequence + 1;
  content = content;
  writer = c.writer;
  written_at = some now;
}

-- append
unfoldable pub append_on : ℕ → String → Value → Carried → BoardState → Result Written × BoardState
unfolding level_contributions already_written
append_on now n content c b = elim (level_contributions n b) [
  | err e ↦ (err e, b)
  | ok contributions ↦ elim (already_written c.key n b) [
    | err e ↦ (err e, b)
    | ok (some done) ↦ (ok done, b)
    | ok none ↦ (
      ok (record { sequence = b.sequence + 1; version = none; repeated = false }),
      record (sequenced now n content none c b) {
        levels = put n (contributions ++ contribution_at now content c b ∷ []) b.levels;
      },
    )
  ]
]

abbrev pub version_of : Option PremiseState → ℕ
version_of none = 0
version_of (some s) = s.version

-- set
unfoldable pub set_on :
    ℕ → String → Value → ℕ → Carried → BoardState → Result SetAnswer × BoardState
unfolding premise_state already_written
set_on now n value expected c b = elim (premise_state n b) [
  | err e ↦ (err e, b)
  | ok state ↦ elim (already_written c.key n b) [
    | err e ↦ (err e, b)
    | ok (some done) ↦ (ok (written done), b)
    | ok none ↦
        if expected == version_of state
        then (
          ok (
              written (record {
                sequence = b.sequence + 1;
                version = some (version_of state + 1);
                repeated = false;
              })),
          record (sequenced now n value (some (version_of state + 1)) c b) {
            premises =
                put n
                  (some (record {
                    value = value;
                    version = version_of state + 1;
                    writer = c.writer;
                    written_at = some now;
                  }))
                  b.premises;
          },
        )
        else (ok (conflict (version_of state)), b)
  ]
]
