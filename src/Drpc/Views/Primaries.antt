-- ===== src/Drpc/Views/Primaries.antt =====
-- The primary that a relocation starts from.
use ramen.Prelude.{
  String, Bool, true, false, ◌&&◌, List, [], ◌∷◌, ◌++◌, ◌≡◌, ◌≢◌, refl, sym, ap, ◌∙◌, subst, inl,
  inr, ◌⊎◌, if◌then◌else◌, ◌==◌, eq_iff, eq_of_==, arith, of_false_is_true, Bool-cases, ltb, ◌≤◌,
}
use ramen.Api.{Vrg, is_vrg_primary, is_vrg_secondary}
use ramen.Drpc.{Env, Result, ok, err, Error, errorf}
use ramen.Drpc.Views.{
  num_of_primaries, are_multiple_vrgs_primary, select_current,
  select_current_primary_and_secondaries, select_among, validate_and_select_current_primary,
}

-- The cluster's VRG is in the list, and primary.
abbrev pub PrimaryIn : String → List (String × Vrg) → Type 0
PrimaryIn c [] = false ≡ true
PrimaryIn c ((k, v) ∷ vrgs) = ((k ≡ c) × (is_vrg_primary v ≡ true)) ⊎ PrimaryIn c vrgs

chosen : (k c : String) (b : Bool) → b ≡ true → (if b then k else c) ≡ k
chosen k c b p = ground arith

kept : (k c : String) (b : Bool) → b ≡ false → (if b then k else c) ≡ c
kept k c b p = ground arith

select_current-PrimaryIn :
    (vrgs : List (String × Vrg)) (c : String) (cs : List String)
    → (select_current vrgs c cs).0 ≢ ""
    → ((select_current vrgs c cs).0 ≡ c) ⊎ PrimaryIn (select_current vrgs c cs).0 vrgs
unfolding select_current
select_current-PrimaryIn [] c cs n = inl refl
select_current-PrimaryIn ((k, v) ∷ vrgs) c cs n =
    let cs' = if is_vrg_secondary v then cs ++ k ∷ [] else cs in
    let c' = if is_vrg_primary v && c == "" then k else c in
    elim (select_current-PrimaryIn vrgs c' cs' n) [
      | inl q ↦ elim (Bool-cases (is_vrg_primary v && c == "")) [
        | inl r ↦ inr (inl (sym (q ∙ chosen k c (is_vrg_primary v && c == "") r), ground arith))
        | inr r ↦ inl (q ∙ kept k c (is_vrg_primary v && c == "") r)
      ]
      | inr q ↦ inr (inr q)
    ]

rejected :
    (b : Bool) (e : Env)
    → b ≡ true
    → (if b then err (errorf "preferred cluster not valid") else select_among e.vrgs)
      ≡ err (errorf "preferred cluster not valid")
rejected b e q = rw (q) refl

accepted :
    (b : Bool) (e : Env)
    → b ≡ false
    → (if b then err (errorf "preferred cluster not valid") else select_among e.vrgs)
      ≡ select_among e.vrgs
accepted b e q = rw (q) refl

abbrev text_of : Result String → String
text_of (ok s) = s
text_of (err x) = ""

abbrev is_ok : Result String → Bool
is_ok (ok s) = true
is_ok (err x) = false

primary_or_none :
    (c : String) (vrgs : List (String × Vrg))
    → (select_current vrgs "" []).0 ≡ c
    → (c ≡ "") ⊎ PrimaryIn c vrgs
primary_or_none c vrgs at = elim (Bool-cases (c == "")) [
  | inl q ↦ inl (eq_of_== c "" q)
  | inr q ↦
      let n : (select_current vrgs "" []).0 ≢ "" =
        λ r. of_false_is_true (ground (arith, eq_iff c "")) in
      elim (select_current-PrimaryIn vrgs "" [] n) [
        | inl r ↦ absurd (n r)
        | inr r ↦ inr (subst (λ k. PrimaryIn k vrgs) at r)
      ]
]

chosen_among :
    (many : Bool) (c : String) (vrgs : List (String × Vrg)) (x : Error)
    → (if many then err x else ok (select_current vrgs "" []).0) ≡ ok c
    → (many ≡ false) × ((c ≡ "") ⊎ PrimaryIn c vrgs)
chosen_among true c vrgs x p = of_false_is_true (ap is_ok p)
chosen_among false c vrgs x p = (refl, primary_or_none c vrgs (ap text_of p))

select_among-PrimaryIn :
    (vrgs : List (String × Vrg)) (c : String)
    → select_among vrgs ≡ ok c
    → (num_of_primaries vrgs ≤ 1) × ((c ≡ "") ⊎ PrimaryIn c vrgs)
unfolding select_among are_multiple_vrgs_primary select_current_primary_and_secondaries
select_among-PrimaryIn [] c p = of_false_is_true (ap is_ok p)
select_among-PrimaryIn (v ∷ vrgs) c p =
    let (single, found) =
      chosen_among (ltb 1 (num_of_primaries (v ∷ vrgs))) c (v ∷ vrgs)
        (errorf "multiple primaries in transition detected") p in
    (ground arith, found)

-- If validateAndSelectCurrentPrimary returns without an error, then the preferred cluster has a
-- name, at most one VRG that is seen is primary and not of a dry run, and the cluster returned
-- is the empty name or one whose VRG is seen as primary.
pub validate_and_select_current_primary-PrimaryIn :
    (e : Env) (preferred_cluster c : String)
    → validate_and_select_current_primary e preferred_cluster ≡ ok c
    → (preferred_cluster ≢ "") × (num_of_primaries e.vrgs ≤ 1) × ((c ≡ "") ⊎ PrimaryIn c e.vrgs)
unfolding validate_and_select_current_primary
validate_and_select_current_primary-PrimaryIn e to c p = elim (Bool-cases (to == "")) [
  | inl q ↦ of_false_is_true (ap is_ok (sym (rejected (to == "") e q) ∙ p))
  | inr q ↦
      let (single, found) = select_among-PrimaryIn e.vrgs c (sym (accepted (to == "") e q) ∙ p) in
      (λ r. of_false_is_true (ground (arith, eq_iff to "")), single, found)
]
