-- ===== src/Drpc/Prerequisites/Fencing.antt =====
-- The fencing that a failover under a sync policy waits for.
use ramen.Prelude.{
  String, Bool, true, false, not, List, [], ◌∷◌, ◌≡◌, ◌≢◌, refl, sym, ap, ◌∙◌, subst, inl, inr, ◌⊎◌,
  if◌then◌else◌, ◌==◌, eq_of_==, eq_iff, arith, of_false_is_true,
}
use ramen.Api.{DrCluster, wait_for_fencing}
use ramen.Drpc.{
  Env, Hub, DrType, dr_type_sync, dr_type_async, M, Result, ok, err, pure, throw, ◌>>◌, modify_drpc,
}
use ramen.Drpc.Status.{set_progression, set_available}
use ramen.Drpc.Views.{check_cluster_fenced, is_condition_current, dr_cluster_condition_type_fenced}
use ramen.Drpc.Views.Current.{Current, is_condition_current-Current}
use ramen.Drpc.Prerequisites.{
  fenced_or_error, check_metro_failover_prerequisites, prerequisites_of,
  check_failover_prerequisites,
}
use ramen.Drpc.Effects.{Answers, bind-Answers, try-Answers}

-- The first DRCluster of the name has a true Fenced condition of its current generation.
abbrev pub Fenced : String → List DrCluster → Type 0
Fenced cluster [] = false ≡ true
Fenced cluster (c ∷ cs) =
    ((c.name ≡ cluster) × Current c.conditions dr_cluster_condition_type_fenced c.generation)
    ⊎ ((c.name ≢ cluster) × Fenced cluster cs)

abbrev bool_of : Result Bool → Bool
bool_of (ok b) = b
bool_of (err x) = false

first_cluster_lem :
    (b : Bool) (cluster : String) (c : DrCluster) (cs : List DrCluster)
    → (c.name == cluster) ≡ b
    → (if not b
        then check_cluster_fenced cluster cs
        else ok (is_condition_current c.conditions dr_cluster_condition_type_fenced c.generation))
      ≡ ok true
    → (check_cluster_fenced cluster cs ≡ ok true → Fenced cluster cs)
    → Fenced cluster (c ∷ cs)
first_cluster_lem true cluster c cs q p ih = inl (
  eq_of_== c.name cluster q,
  is_condition_current-Current c.conditions dr_cluster_condition_type_fenced c.generation
      (ap bool_of p),
)
first_cluster_lem false cluster c cs q p ih =
    inr (λ r. of_false_is_true (ground (arith, eq_iff c.name cluster)), ih p)

check_cluster_fenced-Fenced :
    (cluster : String) (cs : List DrCluster)
    → check_cluster_fenced cluster cs ≡ ok true
    → Fenced cluster cs
unfolding check_cluster_fenced
check_cluster_fenced-Fenced cluster [] p = ap bool_of p
check_cluster_fenced-Fenced cluster (c ∷ cs) p =
    first_cluster_lem (c.name == cluster) cluster c cs refl p
      (check_cluster_fenced-Fenced cluster cs)

fenced_or_error-ok :
    (home : String) (r : Result Bool) → Answers (fenced_or_error home r) true → r ≡ ok true
unfolding fenced_or_error
fenced_or_error-ok home (ok true) p = refl
fenced_or_error-ok home (ok false) (h, p) = of_false_is_true (ap bool_of p)
fenced_or_error-ok home (err x) (h, p) = of_false_is_true (ap bool_of p)

metro-Fenced :
    (e : Env) (home : String)
    → Answers (check_metro_failover_prerequisites e home) true
    → Fenced home e.dr_clusters
unfolding check_metro_failover_prerequisites
metro-Fenced e home p =
    let (_, _, q) =
      bind-Answers (modify_drpc (set_progression wait_for_fencing))
        (λ _. fenced_or_error home (check_cluster_fenced home e.dr_clusters)) true p in
    check_cluster_fenced-Fenced home e.dr_clusters
      (fenced_or_error-ok home (check_cluster_fenced home e.dr_clusters) q)

abbrev is_sync : DrType → Bool
is_sync dr_type_sync = true
is_sync dr_type_async = false

prerequisites-Fenced :
    (t : DrType) (e : Env) (home : String)
    → t ≡ dr_type_sync
    → Answers (prerequisites_of t e home) true
    → Fenced home e.dr_clusters
unfolding prerequisites_of
prerequisites-Fenced dr_type_sync e home q p = metro-Fenced e home p
prerequisites-Fenced dr_type_async e home q p = of_false_is_true (ap is_sync q)

if_Answers :
    (met : Bool) (m : M Bool)
    → ((h : Hub) → (m h).0 ≡ ok false)
    → Answers (if met then pure true else m) true
    → met ≡ true
if_Answers true m f p = refl
if_Answers false m f (h, p) = of_false_is_true (ap bool_of (sym (f h) ∙ p))

pub check_failover_prerequisites-Fenced :
    (e : Env) (home : String)
    → e.dr_type ≡ dr_type_sync
    → Answers (check_failover_prerequisites e home) true
    → Fenced home e.dr_clusters
unfolding check_failover_prerequisites
check_failover_prerequisites-Fenced e home q p =
    let waiting : M Bool =
      modify_drpc
        (set_available e.now "Waiting for spec.failoverCluster to meet failover prerequisites")
      >> pure false in
    let (met, a, b) =
      try-Answers (prerequisites_of e.dr_type e home) (λ m. if m then pure true else waiting)
        (λ x. modify_drpc (set_available e.now x.text) >> throw x) true (λ x (h, r). ap bool_of r)
        p in
    prerequisites-Fenced e.dr_type e home q
      (subst (Answers (prerequisites_of e.dr_type e home)) (if_Answers met waiting (λ h. refl) b) a)
