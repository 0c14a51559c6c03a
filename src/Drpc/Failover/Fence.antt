-- ===== src/Drpc/Failover/Fence.antt =====
-- Failover under a sync policy: no VRG becomes primary while the home cluster is not fenced.
use ramen.Prelude.{
  String, Bool, true, false, not, ◌≡◌, refl, sym, subst, inl, ◌⊎◌, if◌then◌else◌, ◌==◌,
}
use ramen.Api.{failed_over, failing_over_to_cluster, wait_for_fencing}
use ramen.Drpc.{
  Env, Hub, DrType, dr_type_sync, dr_type_async, M, Result, ok, err, Error, errorf, pure, throw,
  ◌>>=◌, ◌>>◌, try, modify_drpc, get_drpc,
}
use ramen.Drpc.Status.{set_dr_state, set_progression, set_available, update_preferred_decision}
use ramen.Drpc.Views.{check_cluster_fenced}
use ramen.Drpc.Placement.{get_cluster_decision, retain_cluster_decision_as_failover}
use ramen.Drpc.Prerequisites.{
  fenced_or_error, check_metro_failover_prerequisites, check_regional_failover_prerequisites,
  prerequisites_of, check_failover_prerequisites,
}
use ramen.Drpc.Prerequisites.Fencing.{Fenced, check_failover_prerequisites-Fenced}
use ramen.Drpc.Relocation.{switch_to_cluster}
use ramen.Drpc.Relocation.Switch.{switch_to_cluster-Promotes}
use ramen.Drpc.Failover.{
  start_failover, get_current_home_cluster_name, home_cluster_name, fail_over_to,
  switch_to_failover_cluster,
}
use ramen.Drpc.Effects.{Within, Answers, bind_at}
use ramen.Drpc.Effects.Promotion.{
  Promotes-trans, is_primary_at, Promotes, SameWorks, SameWorks-refl, SameWorks-Promotes,
  bind-Promotes, try-Promotes, if_Promotes,
}
use ramen.Drpc.Effects.Reads.{
  bind_same, try_same, if_same, get_cluster_decision-SameWorks, retain_cluster_decision-SameWorks,
}

not-false : (b : Bool) → not b ≡ false → b ≡ true
not-false true p = refl
not-false false p = sym p

home_cluster_name-SameWorks :
    (e : Env) (to : String) → Within SameWorks (get_current_home_cluster_name e to)
unfolding get_current_home_cluster_name
home_cluster_name-SameWorks e to =
    bind_same (get_cluster_decision e)
      (λ decision. get_drpc >>= λ d. pure (home_cluster_name e d to decision))
      (get_cluster_decision-SameWorks e) (λ _ h. refl)

fenced_or_error-SameWorks :
    (home : String) (r : Result Bool) → Within SameWorks (fenced_or_error home r)
unfolding fenced_or_error
fenced_or_error-SameWorks home (ok true) = SameWorks-refl
fenced_or_error-SameWorks home (ok false) = SameWorks-refl
fenced_or_error-SameWorks home (err x) = SameWorks-refl

prerequisites_of-SameWorks :
    (t : DrType) (e : Env) (home : String) → Within SameWorks (prerequisites_of t e home)
unfolding prerequisites_of check_metro_failover_prerequisites check_regional_failover_prerequisites
prerequisites_of-SameWorks dr_type_sync e home =
    bind_same (modify_drpc (set_progression wait_for_fencing))
      (λ _. fenced_or_error home (check_cluster_fenced home e.dr_clusters)) (λ h. refl)
      (λ _. fenced_or_error-SameWorks home (check_cluster_fenced home e.dr_clusters))
prerequisites_of-SameWorks dr_type_async e home = λ h. refl

check_failover_prerequisites-SameWorks :
    (e : Env) (home : String) → Within SameWorks (check_failover_prerequisites e home)
unfolding check_failover_prerequisites
check_failover_prerequisites-SameWorks e home =
    let waiting : M Bool =
      modify_drpc
        (set_available e.now "Waiting for spec.failoverCluster to meet failover prerequisites")
      >> pure false in
    try_same (prerequisites_of e.dr_type e home) (λ met. if met then pure true else waiting) _
      (prerequisites_of-SameWorks e.dr_type e home)
      (λ met. if_same met (pure true) waiting SameWorks-refl (λ h. refl)) (λ x h. refl)

fail_over_to-Promotes :
    (c : String) (S : Type 0) (e : Env) (home target : String)
    → (target ≡ c → S)
    → Within (Promotes c S) (fail_over_to e home target)
unfolding fail_over_to
fail_over_to-Promotes c S e home target reason =
    let switch : M (Unit {0}) =
      retain_cluster_decision_as_failover e home >> switch_to_cluster e target "" in
    let finish : Unit {0} → M Bool = λ _.
      modify_drpc (λ d.
        set_available e.now "Completed" (set_dr_state failed_over (update_preferred_decision d)))
      >> pure false in
    let fail : Error → M Bool = λ x. modify_drpc (set_available e.now x.text) >> throw x in
    bind-Promotes c S (modify_drpc (set_progression failing_over_to_cluster))
      (λ _. try switch finish fail) (λ h p. inl p)
      (λ _ _.
        try-Promotes c S switch finish fail
          (bind-Promotes c S (retain_cluster_decision_as_failover e home)
            (λ _. switch_to_cluster e target "")
            (SameWorks-Promotes c S (retain_cluster_decision_as_failover e home)
              (retain_cluster_decision-SameWorks e home))
            (λ _ _. switch_to_cluster-Promotes c S e target "" reason))
          (λ _ _ h p. inl p) (λ x h p. inl p))

-- The hub when switchToFailoverCluster looks for the current home cluster.
abbrev pub started : Env → Hub → Hub
started e h = record h { drpc = start_failover e h.drpc }

-- A VRG that the step makes primary is that of the failover cluster, and the prerequisites for
-- leaving the current home cluster are met.
pub switch_to_failover_cluster-Promotes :
    (c : String) (S : Type 0) (e : Env) (h : Hub)
    → (h.drpc.failover_cluster ≡ c
        → (home : String)
        → (get_current_home_cluster_name e h.drpc.failover_cluster (started e h)).0 ≡ ok home
        → Answers (check_failover_prerequisites e home) true
        → S)
    → Promotes c S h (switch_to_failover_cluster e h).1
unfolding switch_to_failover_cluster
switch_to_failover_cluster-Promotes c S e h reason =
    let target = h.drpc.failover_cluster in
    let home_of : M String = get_current_home_cluster_name e target in
    let invalid : M Bool =
      modify_drpc
        (set_available e.now "Invalid Failover request. Current home cluster does not exists")
      >> throw (errorf "failover requested on invalid state") in
    let guarded : String → M Bool = λ home. check_failover_prerequisites e home >>= λ met.
    if not met then pure false else fail_over_to e home target in
    bind_at (Promotes c S) (Promotes-trans c S) home_of
      (λ home. if home == "" then invalid else guarded home) (started e h)
      (SameWorks-Promotes c S home_of (home_cluster_name-SameWorks e target) (started e h))
      (λ home at.
        if_Promotes c S (home == "") invalid (guarded home) (λ _ j p. inl p)
          (λ _.
            bind-Promotes c S (check_failover_prerequisites e home) _
              (SameWorks-Promotes c S (check_failover_prerequisites e home)
                (check_failover_prerequisites-SameWorks e home))
              (λ met b.
                if_Promotes c S (not met) (pure false) (fail_over_to e home target) (λ _ j p. inl p)
                  (λ q. fail_over_to-Promotes c S e home target (λ r.
                    reason r home at (
                      subst (Answers (check_failover_prerequisites e home)) (not-false met q) b)))))
          (home_of (started e h)).1)

-- Under a sync policy, switchToFailoverCluster makes the VRG of a ManifestWork primary that was
-- not primary before only on the DRPC's failover cluster, and only if the cluster that
-- getCurrentHomeClusterName answers in this run has a DRCluster whose Fenced condition is true
-- at its current generation.
pub switch_to_failover_cluster-Fenced :
    (e : Env)
    → e.dr_type ≡ dr_type_sync
    → (c : String) (h : Hub) → is_primary_at c (switch_to_failover_cluster e h).1 ≡ true
    → (is_primary_at c h ≡ true)
      ⊎ ((h.drpc.failover_cluster ≡ c)
          × (home : String) × ((get_current_home_cluster_name e h.drpc.failover_cluster
                (started e h)).0
              ≡ ok home)
          × Fenced home e.dr_clusters)
switch_to_failover_cluster-Fenced e sync c h =
    switch_to_failover_cluster-Promotes c _ e h
      (λ q home at met. (q, home, at, check_failover_prerequisites-Fenced e home sync met))
