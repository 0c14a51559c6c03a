-- ===== src/Drpc/Actions/FailingOver.antt =====
-- When RunFailover makes a VRG primary.
use ramen.Prelude.{
  String, Bool, true, false, not, ◌≡◌, sym, subst, ◌∙◌, ap, inl, ◌⊎◌, ◌==◌, if◌then◌else◌,
}
use ramen.Drpc.{
  Env, Hub, Drpc, dr_type_sync, M, ok, Error, pure, throw, from_result, ◌>>=◌, ◌>>◌, try,
  modify_drpc,
}
use ramen.Drpc.Status.{set_available, set_status_initiating}
use ramen.Drpc.Views.{vrg_exists_and_primary, is_valid_failover_target}
use ramen.Drpc.Works.Demotion.{handle_post}
use ramen.Drpc.Prerequisites.Fencing.{Fenced, check_failover_prerequisites-Fenced}
use ramen.Drpc.Prerequisites.DryRunLag.{HasProtected, InTime}
use ramen.Drpc.Failover.{switch_to_failover_cluster, get_current_home_cluster_name}
use ramen.Drpc.Actions.Target.{
  ValidTarget, Home, is_valid_failover_target-ValidTarget, start_failover-preferred_decision,
}
use ramen.Drpc.Failover.Fence.{started, switch_to_failover_cluster-Promotes}
use ramen.Drpc.Actions.{
  mw_exists_and_placement_updated, check_dry_run, check_consensus, finish_failover,
  initiate_failover, fail_over_valid, missing_failover_cluster, invalid_target, nil_error,
  run_failover,
}
use ramen.Drpc.Actions.Spec.{
  spec_of, set_status_initiating-spec_of, Agreed, Agreed-spec, check_consensus-Agreed,
  check_dry_run-InTime, check_consensus-spec_of, check_dry_run-spec_of,
  check_consensus-user_placement, check_dry_run-user_placement,
}
use ramen.Drpc.Actions.Completion.{
  mw_exists-SameWorks, check_dry_run-SameWorks, check_consensus-SameWorks, finish_failover-Promotes,
}
use ramen.Drpc.Actions.Reading.{SameReads, mw_exists-SameReads}
use ramen.Drpc.Actions.Relocating.{if_at_Promotes, not-false, initiated}
use ramen.Drpc.Effects.{bind_at}
use ramen.Drpc.Effects.Promotion.{is_primary_at, Promotes, Promotes-trans, SameWorks-Promotes}

-- Why a failover may make the VRG of the cluster primary: the cluster is the failover cluster and a
-- valid target, a dry run is protected and not known to be late, the DRPCs with the global label
-- agree, and under a sync policy the home cluster that getCurrentHomeClusterName answers is fenced.
abbrev pub MayFailOver : Env → Hub → String → Type 0
MayFailOver e h c =
    (h.drpc.failover_cluster ≡ c)
    × ValidTarget e c
    × (h.drpc.dry_run ≡ true
        → HasProtected h.drpc.conditions
          × InTime e.now h.drpc.last_group_sync_time e.interval_seconds)
    × Agreed e h.drpc
    × (e.dr_type ≡ dr_type_sync → (home : String) × Home e h c home × Fenced home e.dr_clusters)

-- The end of a failover, from a DRPC and a placement that say the same as those of the start.
switch_at-Promotes :
    (c : String) (S : Type 0) (e : Env) (start h : Hub)
    → spec_of h.drpc ≡ spec_of start.drpc
    → h.user_placement ≡ start.user_placement
    → (start.drpc.failover_cluster ≡ c
        → (e.dr_type ≡ dr_type_sync
            → (home : String) × Home e start c home × Fenced home e.dr_clusters)
        → S)
    → Promotes c S h (switch_to_failover_cluster e h).1
switch_at-Promotes c S e start h same place reason =
    switch_to_failover_cluster-Promotes c S e h (λ q home at met.
      reason (sym (ap (λ s. s.1) same) ∙ q) (λ sync. (
        home,
        (
          started e h,
          place,
          start_failover-preferred_decision e h.drpc ∙ ap (λ s. (s.6, s.7)) same,
          subst (λ k. (get_current_home_cluster_name e k (started e h)).0 ≡ ok home) q at,
        ),
        check_failover_prerequisites-Fenced e home sync met,
      )))

initiate_failover-Promotes :
    (c : String) (S : Type 0) (e : Env) (start h : Hub)
    → SameReads start h
    → (start.drpc.failover_cluster ≡ c
        → (start.drpc.dry_run ≡ true
            → HasProtected start.drpc.conditions
              × InTime e.now start.drpc.last_group_sync_time e.interval_seconds)
        → Agreed e start.drpc
        → (e.dr_type ≡ dr_type_sync
            → (home : String) × Home e start c home × Fenced home e.dr_clusters)
        → S)
    → Promotes c S h (initiate_failover e h).1
unfolding initiate_failover
initiate_failover-Promotes c S e start h (same, place) reason =
    let d = start.drpc in
    let ask : M Bool = modify_drpc (set_status_initiating e.now) >> check_consensus e in
    let last : Bool → M Bool =
      λ agreed. if not agreed then pure false else switch_to_failover_cluster e in
    let rest : Bool → M Bool = λ ready. if not ready then pure false else ask >>= last in
    let checked = (check_dry_run e h).1 in
    let spec_checked = check_dry_run-spec_of e h ∙ ap spec_of same in
    let spec_initiated = set_status_initiating-spec_of e.now checked.drpc ∙ spec_checked in
    bind_at (Promotes c S) (Promotes-trans c S) (check_dry_run e) rest h
      (SameWorks-Promotes c S (check_dry_run e) (check_dry_run-SameWorks e) h)
      (λ ready dry.
        if_at_Promotes c S (not ready) (pure false) (ask >>= last) checked (λ _ p. inl p)
          (λ r.
            bind_at (Promotes c S) (Promotes-trans c S) ask last checked
              (SameWorks-Promotes c S (check_consensus e) (check_consensus-SameWorks e)
                (initiated e checked))
              (λ agreed at.
                if_at_Promotes c S (not agreed) (pure false) (switch_to_failover_cluster e)
                  (ask checked).1 (λ _ p. inl p)
                  (λ s.
                    switch_at-Promotes c S e start (ask checked).1
                      (check_consensus-spec_of e (initiated e checked) ∙ spec_initiated)
                      (check_consensus-user_placement e (initiated e checked)
                        ∙ check_dry_run-user_placement e h
                        ∙ place)
                      (λ q fenced.
                        reason q
                          (λ is_dry.
                            let D : Drpc → Type 0 = λ x.
                              x.dry_run ≡ true
                              → HasProtected x.conditions
                                × InTime e.now x.last_group_sync_time e.interval_seconds in
                            subst D same
                              (check_dry_run-InTime e h (dry ∙ ap ok (not-false ready r))) is_dry)
                          (Agreed-spec e d (set_status_initiating e.now checked.drpc) spec_initiated
                            (check_consensus-Agreed e (initiated e checked)
                              (at ∙ ap ok (not-false agreed s))))
                          fenced)))))

fail_over_valid-Promotes :
    (c : String) (S : Type 0) (e : Env) (h : Hub)
    → (h.drpc.failover_cluster ≡ c
        → (h.drpc.dry_run ≡ true
            → HasProtected h.drpc.conditions
              × InTime e.now h.drpc.last_group_sync_time e.interval_seconds)
        → Agreed e h.drpc
        → (e.dr_type ≡ dr_type_sync → (home : String) × Home e h c home × Fenced home e.dr_clusters)
        → S)
    → Promotes c S h (fail_over_valid e h.drpc.failover_cluster h).1
unfolding fail_over_valid
fail_over_valid-Promotes c S e h reason =
    let to = h.drpc.failover_cluster in
    let exists = mw_exists_and_placement_updated e to in
    let go : Bool → M Bool = λ yes. if yes then pure false else initiate_failover e in
    if_at_Promotes c S (vrg_exists_and_primary e to) (finish_failover e to) (exists >>= go) h
      (λ _. finish_failover-Promotes c S e to h)
      (λ _.
        bind_at (Promotes c S) (Promotes-trans c S) exists go h
          (SameWorks-Promotes c S exists (mw_exists-SameWorks e to) h)
          (λ yes _.
            if_at_Promotes c S yes (pure false) (initiate_failover e) (exists h).1 (λ _ p. inl p)
              (λ _.
                initiate_failover-Promotes c S e h (exists h).1 (mw_exists-SameReads e to h)
                  reason)))

-- RunFailover makes the VRG of a ManifestWork primary that was not primary before only if
-- MayFailOver holds of its cluster.
pub run_failover-Promotes :
    (e : Env) (c : String) (h : Hub)
    → is_primary_at c (run_failover e h).1 ≡ true
    → (is_primary_at c h ≡ true) ⊎ MayFailOver e h c
unfolding run_failover
run_failover-Promotes e c h =
    let S = MayFailOver e h c in
    let to = h.drpc.failover_cluster in
    let missing : M Bool =
      modify_drpc (set_available e.now missing_failover_cluster.text)
      >> throw missing_failover_cluster in
    let fail : Error → M Bool = λ x.
      modify_drpc (set_available e.now (invalid_target to x).text) >> throw (invalid_target to x) in
    let go : Bool → M Bool = λ valid. if not valid then fail nil_error else fail_over_valid e to in
    let target = is_valid_failover_target e to in
    if_at_Promotes c S (to == "") missing (try (from_result target) go fail) h (λ _ p. inl p)
      (λ _.
        handle_post (λ _ j. Promotes c S h j) target h go fail
          (λ b at.
            if_at_Promotes c S (not b) (fail nil_error) (fail_over_valid e to) h (λ _ p. inl p)
              (λ _. fail_over_valid-Promotes c S e h (λ q dry agreed fenced. (
                q,
                subst (ValidTarget e) q (is_valid_failover_target-ValidTarget e to b at),
                dry,
                agreed,
                fenced,
              ))))
          (λ x _ p. inl p))
