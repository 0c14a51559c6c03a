-- ===== src/Drpc/Relocation.antt =====
-- Relocation: quiesceAndRunFinalSync, setupRelocation, switchToCluster and relocate of
-- internal/controller/drplacementcontrol.go.
pub mod Secondary
pub mod Setup
pub mod Switch
use ramen.Prelude.{
  ℕ, String, Bool, true, false, not, ◌&&◌, ◌||◌, Option, none, some, List, [], ◌∷◌, ◌==◌, eqb,
  if◌then◌else◌, assoc, ◌+++◌,
}
use ramen.Condition.{condition_false}
use ramen.Api.{
  DrState, relocating, relocated, primary, Vrg, is_secondary_state, preparing_final_sync,
  clearing_placement, running_final_sync, final_sync_complete, ensuring_volumes_are_secondary,
  waiting_for_resource_restore, updated_placement,
}
use ramen.Drpc.{
  Drpc, Env, Hub, M, Result, ok, err, Error, errorf, is_not_found, pure, throw, ◌>>=◌, ◌>>◌, try,
  get_drpc, modify_drpc,
}
use ramen.Drpc.Fields.{is_discovered_app}
use ramen.Drpc.Status.{
  set_dr_state, set_progression, set_available, set_condition, condition_peer_ready,
  update_preferred_decision,
}
use ramen.Drpc.Views.{check_readiness, is_condition_current, vrg_condition_type_data_protected}
use ramen.Drpc.Works.{
  move_vrg_to_secondary_everywhere, update_vrg_to_prepare_for_final_sync,
  update_vrg_to_run_final_sync,
}
use ramen.Drpc.NewWorks.{create_vrg_manifest_work_as_primary}
use ramen.Drpc.Placement.{
  get_cluster_decision, update_user_placement_rule, clear_user_placement_rule_status,
}
use ramen.Drpc.Progress.{set_discovered_app_gc_progression}

abbrev pub set_mcv_request_in_progress : Bool → M (Unit {0})
set_mcv_request_in_progress b h = (ok tt, record h { mcv_request_in_progress = b })

-- What GetVRGFromManagedCluster tells ensureVRGIsSecondaryOnCluster: the answer, and
-- mcvRequestInProgress after it.
unfoldable pub secondary_answer : Result Vrg → Bool × Bool
secondary_answer (err x) = if is_not_found x.kind then (true, false) else (false, true)
secondary_answer (ok v) =
    if not (is_secondary_state v.state) || not (eqb v.observed_generation v.generation)
    then (false, false)
    else (true, false)

-- A check that answers and sets mcvRequestInProgress.
abbrev pub check_on_cluster : (String → Bool × Bool) → String → M Bool
check_on_cluster answers cluster =
    let (answer, in_progress) = answers cluster in
    set_mcv_request_in_progress in_progress >> pure answer

unfoldable pub ensure_vrg_is_secondary_on_cluster : Env → String → M Bool
unfolding secondary_answer
ensure_vrg_is_secondary_on_cluster e = check_on_cluster (λ c. secondary_answer (e.view c))

-- ensureDataProtectedOnCluster, likewise.
unfoldable pub protected_answer : Result Vrg → Bool × Bool
unfolding is_condition_current
protected_answer (err x) = if is_not_found x.kind then (false, false) else (false, true)
protected_answer (ok v) =
    (is_condition_current v.conditions vrg_condition_type_data_protected v.generation, false)

unfoldable pub ensure_data_protected_on_cluster : Env → String → M Bool
unfolding protected_answer
ensure_data_protected_on_cluster e = check_on_cluster (λ c. protected_answer (e.view c))

-- The loops of ensureVRGIsSecondaryEverywhere and ensureDataProtected.
unfoldable pub ensure_on_clusters : (String → M Bool) → String → List String → M Bool
ensure_on_clusters check cluster_to_skip [] = pure true
ensure_on_clusters check cluster_to_skip (c ∷ cs) =
    let rest = ensure_on_clusters check cluster_to_skip cs in
    if cluster_to_skip == c
    then rest
    else check c >>= λ answer. if not answer then pure false else rest

unfoldable pub ensure_vrg_is_secondary_everywhere : Env → String → M Bool
unfolding ensure_on_clusters ensure_vrg_is_secondary_on_cluster
ensure_vrg_is_secondary_everywhere e cluster_to_skip =
    ensure_on_clusters (ensure_vrg_is_secondary_on_cluster e) cluster_to_skip e.policy_clusters

unfoldable pub ensure_data_protected : Env → String → M Bool
unfolding ensure_on_clusters ensure_data_protected_on_cluster
ensure_data_protected e target_cluster =
    ensure_on_clusters (ensure_data_protected_on_cluster e) target_cluster e.policy_clusters

-- The branch of setupRelocation that moves the VRGs.
unfoldable pub move_to_secondary : Env → String → M (Unit {0})
unfolding set_discovered_app_gc_progression move_vrg_to_secondary_everywhere
    ensure_vrg_is_secondary_everywhere
move_to_secondary e cluster_to_skip =
    modify_drpc (λ d.
      if is_discovered_app d
      then set_discovered_app_gc_progression e cluster_to_skip d
      else set_progression ensuring_volumes_are_secondary d)
    >> move_vrg_to_secondary_everywhere e
    >>= λ moved.
        if not moved
        then throw (errorf "failed to move VRG to secondary everywhere")
        else ensure_vrg_is_secondary_everywhere e "" >>= λ everywhere.
            if not everywhere
            then throw (errorf "waiting for VRGs to move to secondaries everywhere")
            else pure tt

-- setupRelocation.
unfoldable pub setup_relocation : Env → String → M (Unit {0})
unfolding move_to_secondary ensure_vrg_is_secondary_everywhere ensure_data_protected
setup_relocation e preferred_cluster =
    ensure_vrg_is_secondary_everywhere e preferred_cluster >>= λ everywhere.
    (if not everywhere then move_to_secondary e preferred_cluster else pure tt)
    >> ensure_data_protected e preferred_cluster
    >>= λ is_protected.
        if not is_protected then throw (errorf "waiting for data protection") else pure tt

-- ErrWaitForAppResourceRestoreToComplete.
abbrev pub wait_for_app_resource_restore_to_complete : Error
wait_for_app_resource_restore_to_complete = errorf "waiting for App resources to be restored)"

-- switchToCluster.
unfoldable pub switch_to_cluster : Env → String → String → M (Unit {0})
unfolding create_vrg_manifest_work_as_primary set_progression check_readiness
    update_user_placement_rule
switch_to_cluster e target_cluster target_cluster_namespace =
    create_vrg_manifest_work_as_primary e target_cluster >>= λ created_or_updated.
    if created_or_updated || not (check_readiness e target_cluster)
    then modify_drpc (set_progression waiting_for_resource_restore)
      >> throw wait_for_app_resource_restore_to_complete
    else update_user_placement_rule e target_cluster target_cluster_namespace
      >> modify_drpc (set_progression updated_placement)

-- relocate: false where it answers with no error.
unfoldable pub relocate : Env → String → String → DrState → M Bool
unfolding set_dr_state set_available set_condition setup_relocation switch_to_cluster
    update_preferred_decision
relocate e preferred_cluster preferred_cluster_namespace dr_state =
    modify_drpc (λ d.
      set_condition e.now condition_peer_ready condition_false "NotStarted"
        ("Relocation in progress to cluster \"" +++ preferred_cluster +++ "\"")
        (set_available e.now "Starting relocation" (set_dr_state dr_state d)))
    >> try
        (setup_relocation e preferred_cluster
          >> switch_to_cluster e preferred_cluster preferred_cluster_namespace)
        (λ _.
          modify_drpc (λ d.
            set_available e.now "Completed" (set_dr_state relocated (update_preferred_decision d)))
          >> pure false)
        (λ x. modify_drpc (set_available e.now x.text) >> throw x)
