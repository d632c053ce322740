-- ===== src/Client/Rising.antt =====
-- Lists in the order of their sequence numbers, and the pages that the service cuts from them: what
-- `next_page` of src/blackboard/agent.py and `_trim` of src/blackboard/server.py rest on.
use blackboardx.Prelude.{
  ℕ, zero, suc, ◌+◌, ◌≤◌, ◌<◌, ◌≡◌, refl, sym, subst, Bool, true, none, some, List, [], ◌∷◌, map,
  arith, leb, ltb, length, take, drop, max, filter, Bool-cases, take-all, take-take, length-take,
  length-drop, inl, inr, ◌⊎◌,
}
use blackboardx.Service.Queries.{trim}
use blackboardx.Client.Reads.{greatest, next_page}

module _ {A : Type 0} where
  -- The service reads one more than the limit, and keeps the limit's worth: the page is the first part, and says
  -- whether there is more.
  pub trim-one_more :
      (n : ℕ) (xs : List A) → trim (take (n + 1) xs) n ≡ (take n xs, ltb n (length xs))
  unfolding trim
  trim-one_more n xs = elim (Bool-cases (ltb n (length xs))) [
    | inl e ↦ ground (arith, e, length-take (n + 1) xs, take-take n (n + 1) xs (omega arith))
    | inr e ↦ ground (arith, e, length-take (n + 1) xs, take-all n xs, take-all (n + 1) xs)
  ]

  module _ (sequence_of : A → ℕ) where
    -- The numbers rise, from `k` on.
    abbrev pub IsRising : ℕ → List A → Type 0
    IsRising k [] = Unit
    IsRising k (x ∷ xs) = (k ≤ sequence_of x) × IsRising (suc (sequence_of x)) xs

    abbrev pub from : ℕ → List A → List A
    from n xs = filter (λ x. leb n (sequence_of x)) xs

    pub IsRising-weaken : (j k : ℕ) (xs : List A) → j ≤ k → IsRising k xs → IsRising j xs
    IsRising-weaken j k [] e h = tt
    IsRising-weaken j k (x ∷ xs) e h = (omega (arith, e, h.0), h.1)

    from-all : (k : ℕ) (xs : List A) → IsRising k xs → from k xs ≡ xs
    from-all k [] h = refl
    from-all k (x ∷ xs) h = ground (
      arith,
      h.0,
      from-all k xs (IsRising-weaken k (suc (sequence_of x)) xs (omega (arith, h.0)) h.1),
    )

    pub from-from : (j k : ℕ) (xs : List A) → j ≤ k → from k (from j xs) ≡ from k xs
    from-from j k [] e = refl
    from-from j k (x ∷ xs) e = ground (arith, e, from-from j k xs e)

    pub from-IsRising : (m k : ℕ) (xs : List A) → IsRising k xs → IsRising (max m k) (from m xs)
    from-IsRising m k [] h = tt
    from-IsRising m k (x ∷ xs) h =
        let rest = from-IsRising m (suc (sequence_of x)) xs h.1 in
        ground (
          arith,
          h.0,
          IsRising-weaken (suc (sequence_of x)) (max m (suc (sequence_of x))) (from m xs)
              (omega arith) rest,
          IsRising-weaken (max m k) (max m (suc (sequence_of x))) (from m xs) (omega (arith, h.0))
              rest,
        )

    pub greatest-le : (m : ℕ) (ns : List ℕ) → m ≤ greatest m ns
    greatest-le m [] = omega arith
    greatest-le m (n ∷ ns) = omega (arith, greatest-le (max m n) ns)

    -- After the first `n` of the list that follows `x`, what is past the greatest number so far is the rest.
    from-greatest :
        (n : ℕ) (x : A) (xs : List A)
        → IsRising (suc (sequence_of x)) xs
        → from (greatest (sequence_of x) (map sequence_of (take n xs)) + 1) xs ≡ drop n xs
    from-greatest zero x xs h =
        from-all (sequence_of x + 1) xs
          (IsRising-weaken (sequence_of x + 1) (suc (sequence_of x)) xs (omega arith) h)
    from-greatest (suc n) x [] h = refl
    from-greatest (suc n) x (y ∷ ys) h =
        let e : max (sequence_of x) (sequence_of y) ≡ sequence_of y = omega (arith, h.0) in
        let g = greatest-le (sequence_of y) (map sequence_of (take n ys)) in
        subst (λ m. from (greatest m (map sequence_of (take n ys)) + 1) (y ∷ ys) ≡ drop n ys)
          (sym e) (ground (arith, g, from-greatest n y ys h.1))

    -- One turn of the loop, on a page that says that there is more where there is: it ends with all that there is, or
    -- goes on behind what it has.
    pub next_page-cases :
        (n k : ℕ) (xs : List A) (more : Bool)
        → IsRising k xs
        → (ltb (suc n) (length xs) ≡ true → more ≡ true)
        → ((next_page (map sequence_of (take (suc n) xs)) more ≡ none) × (take (suc n) xs ≡ xs))
          ⊎ ((next : ℕ) × (next_page (map sequence_of (take (suc n) xs)) more ≡ some next)
              × (k ≤ next)
              × (from next xs ≡ drop (suc n) xs)
              × (length (drop (suc n) xs) < length xs))
    unfolding next_page
    next_page-cases n k [] more h f = inl (refl, refl)
    next_page-cases n k (x ∷ xs) more h f =
        let g = greatest-le (sequence_of x) (map sequence_of (take n xs)) in
        elim (Bool-cases more) [
          | inl e ↦ inr (
            greatest (sequence_of x) (map sequence_of (take n xs)) + 1,
            rw (e) refl,
            omega (arith, g, h.0),
            ground (arith, g, from-greatest n x xs h.1),
            omega (arith, length-drop n xs),
          )
          | inr e ↦ elim (Bool-cases (ltb (suc n) (length (x ∷ xs)))) [
            | inl l ↦ absurd (cc (e, f l))
            | inr l ↦ inl (rw (e) refl, take-all (suc n) (x ∷ xs) (ground (arith, l)))
          ]
        ]
