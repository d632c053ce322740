-- ===== src/Board/Log/Views.antt =====
-- What a list of changes says of a level, of a premise and of a sequence number.
use blackboardx.Prelude.{
  ℕ, suc, ◌+◌, String, ◌≡◌, refl, Bool, true, false, Option, none, some, List, [], ◌∷◌, ◌++◌,
  length, All, arith, ◌==◌, str_eq, eq_iff, if◌then◌else◌,
}
use blackboardx.Board.{Contribution, PremiseState, BoardChange}
use blackboardx.Board.Write.{version_of}

abbrev pub contribution_of : BoardChange → Contribution
contribution_of c = record {
  sequence = c.sequence;
  content = c.content;
  writer = c.writer;
  written_at = c.written_at;
}

-- A level is the contributions written to it, in order.
unfoldable pub level_view : String → List BoardChange → List Contribution
level_view n [] = []
level_view n (c ∷ cs) =
    let rest = level_view n cs in if str_eq c.region n then contribution_of c ∷ rest else rest

abbrev pub revised : Option PremiseState → BoardChange → Option PremiseState
revised s c = some (record {
  value = c.content;
  version = version_of s + 1;
  writer = c.writer;
  written_at = c.written_at;
})

-- A premise is its last write, under the count of its writes.
pub premise_after : String → Option PremiseState → List BoardChange → Option PremiseState
premise_after n s [] = s
premise_after n s (c ∷ cs) = premise_after n (if str_eq c.region n then revised s c else s) cs

abbrev pub premise_view : String → List BoardChange → Option PremiseState
premise_view n cs = premise_after n none cs

-- The changes are numbered one by one from `n`.
abbrev pub Numbered : ℕ → List BoardChange → Type 0
Numbered n [] = Unit
Numbered n (c ∷ cs) = (c.sequence ≡ suc n) × Numbered (suc n) cs

-- The change numbered `i` is a write to the region `n`.
pub wrote : String → ℕ → List BoardChange → Bool
wrote n i [] = false
wrote n i (c ∷ cs) = if c.sequence == i then str_eq c.region n else wrote n i cs

pub level_view-append :
    (n : String) (cs : List BoardChange) (c : BoardChange)
    → level_view n (cs ++ c ∷ [])
      ≡ (if str_eq c.region n then level_view n cs ++ contribution_of c ∷ [] else level_view n cs)
unfolding level_view
level_view-append n [] c = ground arith
level_view-append n (d ∷ cs) c = ground (arith, level_view-append n cs c)

pub premise_after-append :
    (n : String) (s : Option PremiseState) (cs : List BoardChange) (c : BoardChange)
    → premise_after n s (cs ++ c ∷ [])
      ≡ (if str_eq c.region n then revised (premise_after n s cs) c else premise_after n s cs)
unfolding premise_after
premise_after-append n s [] c = refl
premise_after-append n s (d ∷ cs) c =
    premise_after-append n (if str_eq d.region n then revised s d else s) cs c

pub Numbered-append :
    (n : ℕ) (cs : List BoardChange) (c : BoardChange)
    → Numbered n cs
    → c.sequence ≡ suc (n + length cs)
    → Numbered n (cs ++ c ∷ [])
Numbered-append n [] c h e = (omega arith, tt)
Numbered-append n (d ∷ cs) c h e = (h.0, Numbered-append (suc n) cs c h.1 (omega arith))

-- An appended change says no more of the numbers before it, and answers for its own.
pub wrote-append :
    (n : String) (i : ℕ) (cs : List BoardChange) (c : BoardChange)
    → wrote n i cs ≡ true
    → wrote n i (cs ++ c ∷ []) ≡ true
unfolding wrote
wrote-append n i [] c h = ground arith
wrote-append n i (d ∷ cs) c h = ground (arith, wrote-append n i cs c)

pub wrote-last :
    (n : String) (k : ℕ) (cs : List BoardChange) (c : BoardChange)
    → Numbered k cs
    → c.sequence ≡ suc (k + length cs)
    → c.region ≡ n
    → wrote n c.sequence (cs ++ c ∷ []) ≡ true
unfolding wrote
wrote-last n k [] c h e r = ground (arith, eq_iff c.region n)
wrote-last n k (d ∷ cs) c h e r = ground (arith, wrote-last n (suc k) cs c h.1)

-- A region that no change names is empty, or unset.
abbrev pub Named : (String → Bool) → List BoardChange → Type 0
Named p cs = All (λ c. p c.region ≡ true) cs

pub level_view-fresh :
    (n : String) (p : String → Bool) (cs : List BoardChange)
    → Named p cs
    → p n ≡ false
    → level_view n cs ≡ []
unfolding level_view
level_view-fresh n p [] h e = refl
level_view-fresh n p (c ∷ cs) h e = ground (arith, level_view-fresh n p cs h.1 e, eq_iff c.region n)

pub premise_view-fresh :
    (n : String) (p : String → Bool) (cs : List BoardChange)
    → Named p cs
    → p n ≡ false
    → premise_view n cs ≡ none
unfolding premise_after
premise_view-fresh n p [] h e = refl
premise_view-fresh n p (c ∷ cs) h e =
    ground (arith, premise_view-fresh n p cs h.1 e, eq_iff c.region n)
