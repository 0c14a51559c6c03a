-- ===== src/DrCluster/Status.antt =====
-- The statuses that the setters of internal/controller/drcluster_controller.go leave, and what is
-- kept between the setters.
use ramen.Prelude.{String, Bool, true, false, not, ◌&&◌, ◌≡◌, refl, ◌∙◌}
use ramen.Condition.{ConditionStatus, condition_true, status_eqb}
use ramen.Condition.Statuses.{status_of, status_of-set_status_condition}
use ramen.DrCluster.{FenceEnv, Cluster, condition_type_fenced, condition_type_clean, set_conditions}

-- Fenced and Clean are not both true.
unfoldable pub is_coherent : Cluster → Bool
unfolding status_of
is_coherent c = not (
    status_eqb (status_of c.conditions condition_type_fenced) condition_true
    && status_eqb (status_of c.conditions condition_type_clean) condition_true)

module _ (e : FenceEnv) (fenced clean : ConditionStatus × String) (msg : String) (c : Cluster) where
  pub set_conditions-status_of :
      (status_of (set_conditions e fenced clean msg c).conditions condition_type_fenced ≡ fenced.0)
      × (status_of (set_conditions e fenced clean msg c).conditions condition_type_clean ≡ clean.0)
  unfolding set_conditions
  set_conditions-status_of = (
    status_of-set_status_condition e.now _ _ condition_type_fenced
        ∙ status_of-set_status_condition e.now _ _ condition_type_fenced,
    status_of-set_status_condition e.now _ _ condition_type_clean,
  )

pub is_coherent_of :
    (c : Cluster) (s t : ConditionStatus)
    → (status_of c.conditions condition_type_fenced ≡ s)
      × (status_of c.conditions condition_type_clean ≡ t)
    → (status_eqb s condition_true && status_eqb t condition_true) ≡ false
    → is_coherent c ≡ true
unfolding is_coherent
is_coherent_of c s t (p, q) h = rw (p, q, h) refl

-- A routine leaves the name, the region and the specification, keeps the phase, and keeps the
-- two conditions coherent.
abbrev pub Steady : Cluster → Cluster → Type 0
Steady c d =
    (d.phase ≡ c.phase)
    × (d.name ≡ c.name)
    × (d.region ≡ c.region)
    × (d.cluster_fence ≡ c.cluster_fence)
    × (is_coherent c ≡ true → is_coherent d ≡ true)

pub Steady-trans : (c d f : Cluster) → Steady c d → Steady d f → Steady c f
Steady-trans c d f (p, n, r, s, h) (q, m, t, u, k) = (q ∙ p, m ∙ n, t ∙ r, u ∙ s, λ x. k (h x))

pub Steady-refl : (c : Cluster) → Steady c c
Steady-refl c = (refl, refl, refl, refl, λ h. h)

pub set_conditions-Steady :
    (e : FenceEnv) (a b : ConditionStatus × String) (msg : String) (c : Cluster)
    → (status_eqb a.0 condition_true && status_eqb b.0 condition_true) ≡ false
    → Steady c (set_conditions e a b msg c)
unfolding set_conditions
set_conditions-Steady e a b msg c h = (
  refl,
  refl,
  refl,
  refl,
  λ _. is_coherent_of (set_conditions e a b msg c) a.0 b.0 (set_conditions-status_of e a b msg c) h,
)
