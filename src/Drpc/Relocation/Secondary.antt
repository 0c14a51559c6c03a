-- ===== src/Drpc/Relocation/Secondary.antt =====
-- What the loops over the policy's clusters establish before a relocation goes on.
use ramen.Prelude.{
  String, Bool, true, false, not, List, [], ◌∷◌, ◌≡◌, ◌≢◌, refl, ◌⊎◌, inl, inr, arith, ◌==◌,
  if◌then◌else◌, of_false_is_true, eq_of_==, ap,
}
use ramen.Api.{secondary_state, Vrg}
use ramen.Drpc.{Env, Hub, M, Result, ok, err, is_not_found, pure, ◌>>=◌}
use ramen.Drpc.Views.{is_condition_current, vrg_condition_type_data_protected}
use ramen.Drpc.Views.Current.{Current, is_condition_current-Current}
use ramen.Drpc.Relocation.{
  secondary_answer, protected_answer, check_on_cluster, ensure_vrg_is_secondary_on_cluster,
  ensure_data_protected_on_cluster, ensure_on_clusters, ensure_vrg_is_secondary_everywhere,
  ensure_data_protected,
}
use ramen.Drpc.Effects.{Answers}

-- Every cluster of the list but the one to skip has the property.
abbrev pub OnOthers : (String → Type 0) → String → List String → Type 0
OnOthers P skip [] = Unit
OnOthers P skip (c ∷ cs) = (skip ≢ c → P c) × OnOthers P skip cs

pub OnOthers-map :
    (P Q : String → Type 0) (skip : String) (cs : List String)
    → ((c : String) → P c → Q c)
    → OnOthers P skip cs
    → OnOthers Q skip cs
OnOthers-map P Q skip [] f h = tt
OnOthers-map P Q skip (c ∷ cs) f h = (λ n. f c (h.0 n), OnOthers-map P Q skip cs f h.1)

-- The VRG is not on the cluster, or has settled there as secondary at its current generation.
abbrev pub Settled : Result Vrg → Type 0
Settled (err x) = is_not_found x.kind ≡ true
Settled (ok v) = (v.state ≡ secondary_state) × (v.observed_generation ≡ v.generation)

-- The VRG is on the cluster, and its DataProtected condition is true at its current generation.
abbrev pub Protected : Result Vrg → Type 0
Protected r =
    (v : Vrg) × (r ≡ ok v) × Current v.conditions vrg_condition_type_data_protected v.generation

pub secondary_answer-Settled : (r : Result Vrg) → (secondary_answer r).0 ≡ true → Settled r
unfolding secondary_answer
secondary_answer-Settled (err x) p = ground arith
secondary_answer-Settled (ok v) p = ground arith

protected_answer-Protected : (r : Result Vrg) → (protected_answer r).0 ≡ true → Protected r
unfolding protected_answer is_condition_current
protected_answer-Protected (err x) p = of_false_is_true (ground arith)
protected_answer-Protected (ok v) p = (
  v,
  refl,
  is_condition_current-Current v.conditions vrg_condition_type_data_protected v.generation p,
)

abbrev answer_of : Result Bool → Bool
answer_of (ok b) = b
answer_of (err x) = false

if_answer :
    (a : Bool) (rest : M Bool) (h : Hub)
    → ((if not a then pure false else rest) h).0 ≡ ok true
    → (a ≡ true) × ((rest h).0 ≡ ok true)
if_answer true rest h p = (refl, p)
if_answer false rest h p = of_false_is_true (ap answer_of p)

if_skipped :
    (s : Bool) (m n : M Bool) (h : Hub)
    → ((if s then m else n) h).0 ≡ ok true
    → ((s ≡ true) × ((m h).0 ≡ ok true)) ⊎ ((s ≡ false) × ((n h).0 ≡ ok true))
if_skipped true m n h p = inl (refl, p)
if_skipped false m n h p = inr (refl, p)

ensure_on_clusters-OnOthers :
    (answers : String → Bool × Bool) (skip : String) (cs : List String) (h : Hub)
    → (ensure_on_clusters (check_on_cluster answers) skip cs h).0 ≡ ok true
    → OnOthers (λ c. (answers c).0 ≡ true) skip cs
unfolding ensure_on_clusters
ensure_on_clusters-OnOthers answers skip [] h p = tt
ensure_on_clusters-OnOthers answers skip (c ∷ cs) h p =
    let rest = ensure_on_clusters (check_on_cluster answers) skip cs in
    let checked : M Bool = check_on_cluster answers c >>= λ a. if not a then pure false else rest in
    elim (if_skipped (skip == c) rest checked h p) [
      | inl (q, r) ↦
          (λ n. absurd (n (eq_of_== skip c q)), ensure_on_clusters-OnOthers answers skip cs h r)
      | inr (q, r) ↦
          let h' = record h { mcv_request_in_progress = (answers c).1 } in
          let (a, r') = if_answer (answers c).0 rest h' r in
          (λ n. a, ensure_on_clusters-OnOthers answers skip cs h' r')
    ]

pub ensure_vrg_is_secondary_everywhere-Settled :
    (e : Env) (skip : String)
    → Answers (ensure_vrg_is_secondary_everywhere e skip) true
    → OnOthers (λ c. Settled (e.view c)) skip e.policy_clusters
unfolding ensure_vrg_is_secondary_everywhere ensure_vrg_is_secondary_on_cluster
ensure_vrg_is_secondary_everywhere-Settled e skip (h, p) =
    OnOthers-map (λ c. (secondary_answer (e.view c)).0 ≡ true) (λ c. Settled (e.view c)) skip
      e.policy_clusters (λ c. secondary_answer-Settled (e.view c))
      (ensure_on_clusters-OnOthers (λ c. secondary_answer (e.view c)) skip e.policy_clusters h p)

pub ensure_data_protected-Protected :
    (e : Env) (target : String)
    → Answers (ensure_data_protected e target) true
    → OnOthers (λ c. Protected (e.view c)) target e.policy_clusters
unfolding ensure_data_protected ensure_data_protected_on_cluster
ensure_data_protected-Protected e target (h, p) =
    OnOthers-map (λ c. (protected_answer (e.view c)).0 ≡ true) (λ c. Protected (e.view c)) target
      e.policy_clusters (λ c. protected_answer-Protected (e.view c))
      (ensure_on_clusters-OnOthers (λ c. protected_answer (e.view c)) target e.policy_clusters h p)
