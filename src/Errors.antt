-- ===== src/Errors.antt =====
-- The exceptions of `_board.py` and `_control.py`, with the names that their messages carry, and the
-- outcome of a call that may raise. A message's fixed words are not modelled.
use blackboardx.Prelude.{◌⊎◌, inl, inr, ◌≡◌, refl, ℕ, String, Bool, true, false, List}

pub data Error : Type 0 where
  undeclared_region : String → Error
  duplicate_region : String → Error
  region_kind : String → Error
  idempotency_key : String → Error
  unset_premise : String → Error
  type_error : Error
  value_error : Error
  run_closed : Error
  unknown_notification : ℕ → String → Error
  premise_value : String → Error
  premise_error : List String → List String → Error
  duplicate_agent : List String → Error
  assertion_failed : Error
  wire_error : List String → Error
  not_implemented : Error

pub data Result {ℓ} (A : Type ℓ) : Type ℓ where
  ok : A → Result A
  err : Error → Result A

-- if not test: raise e
abbrev pub guard : Bool → Error → Result (Unit {0})
guard test e = elim test [ true ↦ ok tt | false ↦ err e ]

infixl 5 ◌>>=◌
infixl 5 ◌>>◌
-- What follows a call is done where the call returned.
abbrev pub ◌>>=◌ {i j} : {X : Type i} {Y : Type j} → Result X → (X → Result Y) → Result Y
call >>= next = elim call [ ok x ↦ next x | err raised ↦ err raised ]

abbrev pub ◌>>◌ {i} : {Y : Type i} → Result (Unit {0}) → Result Y → Result Y
call >> next = elim call [ ok x ↦ next | err raised ↦ err raised ]

pub Result-cases {ℓ} :
    {A : Type ℓ} (r : Result A) → ((e : Error) × (r ≡ err e)) ⊎ ((a : A) × (r ≡ ok a))
Result-cases (ok a) = inr (a, refl)
Result-cases (err e) = inl (e, refl)
