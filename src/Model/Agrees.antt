-- ===== src/Model/Agrees.antt =====
-- What `_agree` of src/blackboard/_model.py holds a record to.
use blackboardx.Prelude.{
  ℕ, Bool, String, true, false, ◌≡◌, refl, sym, ◌∙◌, Option, none, some, List, [], ◌∷◌, contains,
  str_eq, eq_iff, arith, inl, inr, Option-cases, Bool-cases, List-cases,
}
use blackboardx.Dict.{Dict, get}
use blackboardx.Errors.{
  Error, Result, ok, err, Result-cases, ◌>>◌, undeclared_region, region_kind, premise_error,
}
use blackboardx.Board.{Region}
use blackboardx.Json.{Value}
use blackboardx.Store
use blackboardx.Control.{World, App, Agent, RegionKind, level_kind, premise_kind}
use blackboardx.Control.Openings.{without}
use blackboardx.Model.{
  attach_model, check_roster, check, premises_in, sorted_set, agree, kinds_of, keys_of, refuse_any,
  wrong_kinds, same,
}

refuse_any-ok : (ns : List String) (e : String → Error) → refuse_any ns e ≡ ok tt → ns ≡ []
refuse_any-ok [] e h = refl
refuse_any-ok (n ∷ ns) e h = absurd (cc h)

same-kind : (k : Option RegionKind) (kind : RegionKind) → same k kind ≡ true → k ≡ some kind
same-kind none level_kind h = absurd (cc h)
same-kind none premise_kind h = absurd (cc h)
same-kind (some level_kind) level_kind h = refl
same-kind (some level_kind) premise_kind h = absurd (cc h)
same-kind (some premise_kind) level_kind h = absurd (cc h)
same-kind (some premise_kind) premise_kind h = refl

-- Where no kind is wrong, each wanted region is on record with its kind.
wrong_kinds-none :
    (on_record wanted : Dict RegionKind) (n : String) (kind : RegionKind)
    → wrong_kinds on_record wanted ≡ []
    → get n wanted ≡ some kind
    → get n on_record ≡ some kind
unfolding wrong_kinds get
wrong_kinds-none on_record [] n kind h g = absurd (cc g)
wrong_kinds-none on_record ((m, k) ∷ wanted) n kind h g =
    elim (Bool-cases (same (get m on_record) k)) [
      | inr e ↦ absurd (ground (arith, h, e))
      | inl e ↦ elim (Bool-cases (str_eq m n)) [
        | inl i ↦ ground (arith, g, i, eq_iff m n, same-kind (get m on_record) k e)
        | inr i ↦
            wrong_kinds-none on_record wanted n kind (ground (arith, h, e)) (ground (arith, g, i))
      ]
    ]

-- A key that a dictionary does not have.
missing-key : (d : Dict RegionKind) (n : String) → contains (keys_of d) n ≡ false → get n d ≡ none
unfolding get
missing-key [] n h = refl
missing-key ((m, k) ∷ d) n h = ground (arith, h, missing-key d n)

held-key : (d : Dict RegionKind) (n : String) → get n d ≡ none → contains (keys_of d) n ≡ false
unfolding get
held-key [] n h = refl
held-key ((m, k) ∷ d) n h = ground (arith, h, held-key d n)

without-none :
    (ns ms : List String) (n : String)
    → without ns ms ≡ []
    → contains ms n ≡ false
    → contains ns n ≡ false
without-none [] ms n h c = refl
without-none (m ∷ ns) ms n h c = ground (arith, h, c, eq_iff m n, without-none ns ms n)

both-ok : (a b : Result (Unit {0})) → (a >> b) ≡ ok tt → (a ≡ ok tt) × (b ≡ ok tt)
both-ok (ok u) b h = (refl, h)
both-ok (err e) b h = absurd (cc h)

-- Where `_agree` refuses nothing, each name is a level, a premise or no region alike on the record and in the
-- declaration.
agree_alike :
    (held declared : List Region) (id n : String)
    → agree held declared id ≡ ok tt
    → get n (kinds_of held) ≡ get n (kinds_of declared)
unfolding agree
agree_alike [] declared id n h = absurd (cc h)
agree_alike (r ∷ rs) declared id n h =
    let first = both-ok _ _ h in
    let second = both-ok _ _ first.1 in
    let on_record = kinds_of (r ∷ rs) in
    let wanted = kinds_of declared in
    elim (Option-cases (get n wanted)) [
      | inl absent ↦
          missing-key on_record n (
            without-none (keys_of on_record) (keys_of wanted) n
              (refuse_any-ok _ undeclared_region second.0) (held-key wanted n absent))
          ∙ sym absent
      | inr (kind, wants) ↦
          wrong_kinds-none on_record wanted n kind (refuse_any-ok _ region_kind second.1) wants
          ∙ sym wants
    ]

-- A run attaches only to a record that holds what it declares: where `attach_model` returns, each name was a level, a
-- premise or no region alike on the board's record and in the declaration.
pub attach_model_alike :
    (app : App) (said : Error → String) (id : String) (regions : List Region) (roster : List Agent)
    (wall_clock idle : ℕ) (reach : Bool) (w : World) (n : String)
    → (attach_model app said id regions roster wall_clock idle reach w).0 ≡ ok tt
    → get n (kinds_of (Store.read_regions id w.store).0) ≡ get n (kinds_of regions)
unfolding attach_model
attach_model_alike app said id regions roster wall_clock idle reach w n h =
    let held = (Store.read_regions id w.store).0 in
    elim (Result-cases (check_roster regions roster)) [
      | inl (x, refusal) ↦ absurd (ground (arith, h, refusal))
      | inr (u, passed) ↦ elim (Result-cases (agree held regions id)) [
        | inl (x, refusal) ↦ absurd (ground (arith, h, passed, refusal))
        | inr (v, agreed) ↦ agree_alike held regions id n agreed
      ]
    ]

-- The middle of `_check`: neither list has a name that the other lacks.
matched-names :
    (declared given : List String) (next : Result (Unit {0}))
    → (elim (without declared given) [
      | n ∷ ns ↦ err (premise_error (sorted_set (n ∷ ns)) [])
      | [] ↦ elim (without given declared) [
        | n ∷ ns ↦ err (premise_error [] (sorted_set (n ∷ ns)))
        | [] ↦ next
      ]
    ])
      ≡ ok tt
    → (without declared given ≡ []) × (without given declared ≡ [])
matched-names declared given next h = elim (List-cases (without declared given)) [
  | inr (x, xs, e) ↦ absurd (ground (arith, h, e))
  | inl e ↦ elim (List-cases (without given declared)) [
    | inr (x, xs, f) ↦ absurd (ground (arith, h, e, f))
    | inl f ↦ (e, f)
  ]
]

-- A configuration that `_check` lets pass gives an opening value to each declared premise, and to no other name.
pub check_exact :
    (regions : List Region) (premises : List (String × Value)) (roster : List Agent) (n : String)
    → check regions premises roster ≡ ok tt
    → contains (keys_of premises) n ≡ contains (premises_in regions) n
unfolding check
check_exact regions premises roster n h =
    let rest = both-ok _ _ h in
    let same = matched-names (premises_in regions) (keys_of premises) _ rest.1 in
    elim (Bool-cases (contains (keys_of premises) n)) [
      | inr e ↦ e ∙ sym (without-none (premises_in regions) (keys_of premises) n same.0 e)
      | inl e ↦ elim (Bool-cases (contains (premises_in regions) n)) [
        | inl f ↦ e ∙ sym f
        | inr f ↦
            absurd
              (ground (arith, e, without-none (keys_of premises) (premises_in regions) n same.1 f))
      ]
    ]
