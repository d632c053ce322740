-- ===== src/Board/Log/Writes.antt =====
-- `append` and `set` of `InMemoryStore` (src/blackboard/_board.py) keep a board's record.
use blackboardx.Prelude.{
  Option-cases, inl, inr, ℕ, ◌+◌, String, ◌≡◌, refl, true, false, Option, none, some, List, [], ◌∷◌,
  ◌++◌, length, length-append, All-map, All-append, arith, eq_iff,
}
use blackboardx.Dict.{get, put, get-put}
use blackboardx.Json.{Value}
use blackboardx.Board.{Written, Contribution, PremiseState, BoardChange, BoardState}
use blackboardx.Board.Write.{
  append_on, set_on, Carried, record_key, version_of, sequenced, contribution_at,
}
use blackboardx.Board.Log.Views.{
  revised, Numbered, wrote, level_view-append, premise_after-append, Numbered-append, wrote-append,
  wrote-last,
}
use blackboardx.Board.Log.Keeps.{IsRecord}

-- The change that `sequenced` appends.
abbrev change_at : ℕ → String → Value → Carried → BoardState → BoardChange
change_at now n content c b = record {
  sequence = b.sequence + 1;
  region = n;
  content = content;
  writer = c.writer;
  written_at = some now;
}

module _ (now : ℕ) (n : String) (content : Value) (c : Carried) (b : BoardState)
    (v : IsRecord b) where
  next-Numbered : Numbered 0 (b.changes ++ change_at now n content c b ∷ [])
  next-Numbered =
      Numbered-append 0 b.changes (change_at now n content c b) v.numbered
        (omega (arith, v.counted))

  next_counted : b.sequence + 1 ≡ length (b.changes ++ change_at now n content c b ∷ [])
  next_counted =
      omega (arith, v.counted, length-append b.changes (change_at now n content c b ∷ []))

  next_wrote : wrote n (b.sequence + 1) (b.changes ++ change_at now n content c b ∷ []) ≡ true
  next_wrote =
      wrote-last n 0 b.changes (change_at now n content c b) v.numbered (omega (arith, v.counted))
        refl

  next_keyed :
      (key : Option String) (version : Option ℕ) (k m : String) (w : Written)
      → get k (
          record_key key n
            (record { sequence = b.sequence + 1; version = version; repeated = false })
            b.keys)
        ≡ some (m, w)
      → (wrote m w.sequence (b.changes ++ change_at now n content c b ∷ []) ≡ true)
        × (w.repeated ≡ false)
  next_keyed none version k m w h =
      ground
        (arith, v.keyed k m w, wrote-append m w.sequence b.changes (change_at now n content c b))
  next_keyed (some key) version k m w h = ground (
    arith,
    get-put key k (n, record { sequence = b.sequence + 1; version = version; repeated = false })
        b.keys,
    next_wrote,
    v.keyed k m w,
    wrote-append m w.sequence b.changes (change_at now n content c b),
  )

  -- A write to a level that holds `cs`.
  append-IsRecord :
      (cs : List Contribution)
      → get n b.levels ≡ some cs
      → IsRecord (record (sequenced now n content none c b) {
        levels = put n (cs ++ contribution_at now content c b ∷ []) b.levels;
      })
  append-IsRecord cs h = record {
    counted = next_counted;
    numbered = next-Numbered;
    levels_view = λ m ds e. ground (
      arith,
      get-put n m (cs ++ contribution_at now content c b ∷ []) b.levels,
      eq_iff n m,
      level_view-append m b.changes (change_at now n content c b),
      v.levels_view m ds,
      v.levels_view n cs h,
    );
    premises_view = λ m s e. ground (
      arith,
      premise_after-append m none b.changes (change_at now n content c b),
      v.premises_view m s,
      eq_iff n m,
      v.apart n,
    );
    apart = λ m e. ground (
      arith,
      get-put n m (cs ++ contribution_at now content c b ∷ []) b.levels,
      eq_iff n m,
      v.apart m,
    );
    named =
        All-append _ b.changes _
          (All-map _ _ b.changes
            (λ d e.
              ground
                (arith, get-put n d.region (cs ++ contribution_at now content c b ∷ []) b.levels))
            v.named)
          (
            ground (
              arith,
              get-put n n (cs ++ contribution_at now content c b ∷ []) b.levels,
              eq_iff n n,
            ),
            tt,
          );
    keyed = next_keyed c.key none;
  }

  -- A write to a premise.
  set-IsRecord :
      (s : Option PremiseState) (version : Option ℕ)
      → get n b.premises ≡ some s
      → IsRecord (record (sequenced now n content version c b) {
        premises = put n (revised s (change_at now n content c b)) b.premises;
      })
  set-IsRecord s version h = record {
    counted = next_counted;
    numbered = next-Numbered;
    levels_view = λ m ds e. ground (
      arith,
      level_view-append m b.changes (change_at now n content c b),
      v.levels_view m ds,
      eq_iff n m,
      v.apart m,
    );
    premises_view = λ m t e. ground (
      arith,
      get-put n m (revised s (change_at now n content c b)) b.premises,
      eq_iff n m,
      premise_after-append m none b.changes (change_at now n content c b),
      v.premises_view m t,
      v.premises_view n s h,
    );
    apart = λ m e. ground (
      arith,
      get-put n m (revised s (change_at now n content c b)) b.premises,
      eq_iff n m,
      v.apart m,
    );
    named =
        All-append _ b.changes _
          (All-map _ _ b.changes
            (λ d e.
              ground
                (arith, get-put n d.region (revised s (change_at now n content c b)) b.premises))
            v.named)
          (
            ground (
              arith,
              get-put n n (revised s (change_at now n content c b)) b.premises,
              eq_iff n n,
            ),
            tt,
          );
    keyed = next_keyed c.key version;
  }

pub append_on-IsRecord :
    (now : ℕ) (n : String) (content : Value) (c : Carried) (b : BoardState)
    → IsRecord b
    → IsRecord (append_on now n content c b).1
unfolding append_on
append_on-IsRecord now n content c b v = elim (Option-cases (get n b.levels)) [
  | inl e ↦ ground (arith)
  | inr (cs, e) ↦ ground (arith, append-IsRecord now n content c b v cs e)
]

pub set_on-IsRecord :
    (now : ℕ) (n : String) (value : Value) (expected : ℕ) (c : Carried) (b : BoardState)
    → IsRecord b
    → IsRecord (set_on now n value expected c b).1
unfolding set_on
set_on-IsRecord now n value expected c b v = elim (Option-cases (get n b.premises)) [
  | inl e ↦ ground arith
  | inr (s, e) ↦ ground (arith, set-IsRecord now n value c b v s (some (version_of s + 1)) e)
]
