-- ===== src/Client/Reads.antt =====
-- The methods of `BoardClient` (src/blackboard/agent.py). A read without a limit follows the blackboard's pages,
-- on fuel: a blackboard that always says that there is more is followed for ever.
use blackboardx.Prelude.{
  ℕ, zero, suc, ◌+◌, String, Bool, Option, none, some, List, [], ◌∷◌, ◌++◌, map, max, if◌then◌else◌,
}
use blackboardx.Json.{Value}
use blackboardx.Dict.{Dict}
use blackboardx.Board.{Region, Contribution, BoardChange, PremiseState}
use blackboardx.Control.Write.{WriteAnswer}
use blackboardx.Wire.Bodies.{Page}
use blackboardx.Service.{Library}
use blackboardx.Client.{Asked, Got, got, failed, Call, Outcome, send, ◌>>=◌, Dict}
use blackboardx.Client.Readings.{each, contribution, change}
use blackboardx.Client.Requests.{
  read_regions_call, read_level_call, read_premise_call, read_board_call, write_call,
  set_premise_call, ack_call,
}

abbrev pub greatest : ℕ → List ℕ → ℕ
greatest m [] = m
greatest m (n ∷ ns) = greatest (max m n) ns

-- _next_page
unfoldable pub next_page : List ℕ → Bool → Option ℕ
next_page [] has_more = none
next_page (n ∷ ns) has_more = if has_more then some (greatest n ns + 1) else none

-- What one page's read gives: what it found, and whether there is more.
abbrev pub Found {ℓ} : Type ℓ → Type ℓ
Found A = List A × Bool

-- The entries of a page.
abbrev pub entries {ℓ} : {A : Type ℓ} → (Dict Value → Got A) → Page → Got (Found A)
entries read page = do found ← each read page.rows; got (found, page.has_more)

module _ {ℓ κ} {S : Type ℓ} {A : Type κ} (page_at : ℕ → S → Got (Found A) × S)
    (sequence_of : A → ℕ) where
  -- The loop of `read_level` and `read_board` without a limit, from this start.
  unfoldable pub follow : ℕ → ℕ → S → Option (Got (List A)) × S
  follow zero start s = (none, s)
  follow (suc fuel) start s =
      let r = page_at start s in
      elim r.0 [
        | failed f ↦ (some (failed f), r.1)
        | got (found, has_more) ↦ elim (next_page (map sequence_of found) has_more) [
          | none ↦ (some (got found), r.1)
          | some next ↦
              let rest = follow fuel next r.1 in
              elim rest.0 [
                | none ↦ (none, rest.1)
                | some (failed f) ↦ (some (failed f), rest.1)
                | some (got more) ↦ (some (got (found ++ more)), rest.1)
              ]
        ]
      ]

module _ {ℓ} {S : Type ℓ} (lib : Library) (transport : Asked → S → Outcome × S)
    (board_id agent : String) (attempts : ℕ) where
  -- `self._send(call)`
  abbrev pub sent {κ} : {A : Type κ} → Got (Call A) → S → Got A × S
  sent (failed f) s = (failed f, s)
  sent (got call) s = send transport call attempts s

  -- read_regions
  unfoldable pub read_regions : S → Got (List Region) × S
  read_regions s = sent (read_regions_call lib board_id) s

  abbrev pub level_at : String → Option ℕ → ℕ → S → Got (Found Contribution) × S
  level_at level limit start s =
      let r = sent (read_level_call lib board_id level start limit) s in
      (r.0 >>= entries (contribution lib), r.1)

  abbrev pub board_at : Option ℕ → ℕ → S → Got (Found BoardChange) × S
  board_at limit start s =
      let r = sent (read_board_call lib board_id start limit) s in
      (r.0 >>= entries (change lib), r.1)

  abbrev pub one_page {κ} : {A : Type κ} → Got (Found A) × S → Option (Got (List A)) × S
  one_page (got (found, has_more), s) = (some (got found), s)
  one_page (failed f, s) = (some (failed f), s)

  -- read_level
  unfoldable pub read_level : ℕ → String → ℕ → Option ℕ → S → Option (Got (List Contribution)) × S
  read_level fuel level from_sequence (some n) s =
      one_page (level_at level (some n) from_sequence s)
  read_level fuel level from_sequence none s =
      follow (level_at level none) (λ (c : Contribution). c.sequence) fuel from_sequence s

  -- read_board
  unfoldable pub read_board : ℕ → ℕ → Option ℕ → S → Option (Got (List BoardChange)) × S
  read_board fuel from_sequence (some n) s = one_page (board_at (some n) from_sequence s)
  read_board fuel from_sequence none s =
      follow (board_at none) (λ (c : BoardChange). c.sequence) fuel from_sequence s

  -- read_premise
  unfoldable pub read_premise : String → S → Got PremiseState × S
  read_premise premise s = sent (read_premise_call lib board_id premise) s

  -- write
  unfoldable pub write : String → Value → Option String → S → Got WriteAnswer × S
  write level content key s = sent (write_call lib board_id agent level content key) s

  -- set_premise
  unfoldable pub set_premise : String → Value → ℕ → Option String → S → Got WriteAnswer × S
  set_premise premise value expected key s =
      sent (set_premise_call lib board_id agent premise value expected key) s

  -- ack
  unfoldable pub ack : ℕ → S → Got (Unit {0}) × S
  ack notification_id s = sent (ack_call lib board_id agent notification_id) s
