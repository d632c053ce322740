-- ===== src/Client/Followed.antt =====
-- The pages of a level or a board followed to their end (the loop of `read_level` and of `read_board` in
-- src/blackboard/agent.py).
use blackboardx.Prelude.{
  ℕ, zero, suc, ◌<◌, ◌≡◌, refl, sym, ◌∙◌, true, some, Bool, List, arith, ltb, length, take,
  take-append-drop, inl, inr, max,
}
use blackboardx.Client.{Got, got}
use blackboardx.Client.Reads.{Found, follow}
use blackboardx.Client.Rising.{
  IsRising, from, from-from, from-IsRising, IsRising-weaken, next_page-cases,
}

module _ {κ} {S : Type 0} {A : Type 0} (page_at : ℕ → S → Got (Found A) × S) (sequence_of : A → ℕ)
    (Good : S → Type κ) (limit : ℕ) (xs : List A) where
  -- In a good state each page is the part of `xs` from its start on, up to the limit and at least one, it says that
  -- there is more where there is, and the state after it is good. It may say so where there is none.
  abbrev pub IsPaged : Type κ
  IsPaged =
      (start : ℕ) (s : S)
      → Good s
      → (more : Bool) × ((page_at start s).0
          ≡ got (take (suc limit) (from sequence_of start xs), more))
        × (ltb (suc limit) (length (from sequence_of start xs)) ≡ true → more ≡ true)
        × Good (page_at start s).1

  module _ (paged : IsPaged) (k : ℕ) (rising : IsRising sequence_of k xs) where
    -- A client that follows the pages of a list with more turns than there are entries from its start on ends, with
    -- each of these, once and in order. The list's sequence numbers rise; every page is cut from the list at the
    -- start that was asked for, up to one limit, and says that there is more where there is; where a page says so
    -- and there is none, the client reads an empty page and ends all the same.
    pub follow_complete :
        (fuel start : ℕ) (s : S)
        → Good s
        → length (from sequence_of start xs) < fuel
        → (follow page_at sequence_of fuel start s).0 ≡ some (got (from sequence_of start xs))
    unfolding follow
    follow_complete zero start s g h = absurd (omega (arith, h))
    follow_complete (suc fuel) start s g h =
        let p = paged start s g in
        let up =
          IsRising-weaken sequence_of start (max start k) (from sequence_of start xs) (omega arith)
            (from-IsRising sequence_of start k xs rising) in
        elim (next_page-cases sequence_of limit start (from sequence_of start xs) p.0 up p.2) [
          | inl (e, all) ↦ rw (follow, p.1, e, all) refl
          | inr (next, e, past, rest, less) ↦
              let same = sym (from-from sequence_of start next xs past) ∙ rest in
              let more =
                follow_complete fuel next (page_at start s).1 p.3
                  (rw (same) (omega (arith, less, h))) in
              rw
                (
                  follow,
                  p.1,
                  e,
                  more,
                  same,
                  take-append-drop (suc limit) (from sequence_of start xs),
                )
                refl
        ]
