-- ===== src/Board/Log/Keeps.antt =====
-- The invariant that ties a board of `InMemoryStore` (src/blackboard/_board.py) to its changes, and the
-- writes that keep it.
use blackboardx.Prelude.{
  inl, inr, Bool-cases, String, ◌≡◌, refl, true, false, Option, none, some, List, [], length,
  All-map, arith, eq_iff,
}
use blackboardx.Dict.{get, has, put, get-put}
use blackboardx.Board.{
  Region, level, premise, Written, Contribution, PremiseState, BoardState, new_board,
}
use blackboardx.Board.Write.{declared, declare_on}
use blackboardx.Board.Log.Views.{
  level_view, premise_view, Numbered, wrote, Named, level_view-fresh, premise_view-fresh,
}

pub record IsRecord (b : BoardState) : Type 0 where
  pub counted : b.sequence ≡ length b.changes
  pub numbered : Numbered 0 b.changes
  pub levels_view :
      (n : String) (cs : List Contribution) → get n b.levels ≡ some cs → cs ≡ level_view n b.changes
  pub premises_view :
      (n : String) (s : Option PremiseState)
      → get n b.premises ≡ some s
      → s ≡ premise_view n b.changes
  pub apart : (n : String) → has n b.levels ≡ true → has n b.premises ≡ false
  pub named : Named (λ n. declared n b) b.changes
  pub keyed :
      (k n : String) (w : Written)
      → get k b.keys ≡ some (n, w)
      → (wrote n w.sequence b.changes ≡ true) × (w.repeated ≡ false)

pub new_board-IsRecord : IsRecord new_board
unfolding get
new_board-IsRecord = record {
  counted = refl;
  numbered = tt;
  levels_view = λ n cs h. ground arith;
  premises_view = λ n s h. ground arith;
  apart = λ n h. ground arith;
  named = tt;
  keyed = λ k n w h. ground arith;
}

module _ (n : String) (b : BoardState) (v : IsRecord b) where
  fresh_levels :
      declared n b ≡ false
      → (m : String) (cs : List Contribution) → get m (put n [] b.levels) ≡ some cs
      → cs ≡ level_view m b.changes
  fresh_levels e m cs h = ground (
    arith,
    get-put n m [] b.levels,
    v.levels_view m cs,
    eq_iff n m,
    level_view-fresh n (λ k. declared k b) b.changes v.named e,
  )

  fresh_premises :
      declared n b ≡ false
      → (m : String) (s : Option PremiseState) → get m (put n none b.premises) ≡ some s
      → s ≡ premise_view m b.changes
  fresh_premises e m s h = ground (
    arith,
    get-put n m none b.premises,
    v.premises_view m s,
    eq_iff n m,
    premise_view-fresh n (λ k. declared k b) b.changes v.named e,
  )

  add_level : declared n b ≡ false → IsRecord (record b { levels = put n [] b.levels })
  add_level e = record {
    counted = v.counted;
    numbered = v.numbered;
    levels_view = fresh_levels e;
    premises_view = v.premises_view;
    apart = λ m h. ground (arith, get-put n m [] b.levels, eq_iff n m, v.apart m);
    named = All-map _ _ b.changes (λ c h. ground (arith, get-put n c.region [] b.levels)) v.named;
    keyed = v.keyed;
  }

  add_premise : declared n b ≡ false → IsRecord (record b { premises = put n none b.premises })
  add_premise e = record {
    counted = v.counted;
    numbered = v.numbered;
    levels_view = v.levels_view;
    premises_view = fresh_premises e;
    apart = λ m h. ground (arith, get-put n m none b.premises, eq_iff n m, v.apart m);
    named =
        All-map _ _ b.changes (λ c h. ground (arith, get-put n c.region none b.premises)) v.named;
    keyed = v.keyed;
  }

pub declare_on-IsRecord : (r : Region) (b : BoardState) → IsRecord b → IsRecord (declare_on r b).1
unfolding declare_on
declare_on-IsRecord (level n w) b v = elim (Bool-cases (declared n b)) [
  | inl e ↦ rw e v
  | inr e ↦ rw e (add_level n b v e)
]
declare_on-IsRecord (premise n w) b v = elim (Bool-cases (declared n b)) [
  | inl e ↦ rw e v
  | inr e ↦ rw e (add_premise n b v e)
]
