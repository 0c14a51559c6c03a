-- ===== src/Drpc/Actions.antt =====
-- The actions of a reconcile: RunFailover, RunRelocate, executeAction and processPlacement of
-- internal/controller/drplacementcontrol.go.
pub mod Spec
pub mod Target
pub mod Reading
pub mod Completion
pub mod Relocating
pub mod FailingOver
pub mod Promotion
use ramen.Prelude.{
  ℕ, String, Bool, true, false, not, ◌&&◌, ◌||◌, Option, none, some, ◌==◌, eqb, length,
  if◌then◌else◌, ◌+++◌,
}
use ramen.Condition.{condition_true, condition_false}
use ramen.Api.{
  Action, action_failover, action_relocate, no_action, action_eqb, phase_eqb, phase_text,
  failed_over, relocating, relocated, wait_for_readiness, testing_failover, Vrg,
}
use ramen.Drpc.{
  Drpc, Env, Hub, M, Result, ok, err, Error, errorf, wrap, is_not_found, pure, throw, from_result,
  ◌>>=◌, ◌>>◌, try, get_drpc, modify_drpc, api_call, ClusterDecision,
}
use ramen.Drpc.Fields.{has_global_vgr_label, drpc_test_failover_dry_run_annotation}
use ramen.Drpc.Status.{
  set_dr_state, set_progression, set_available, set_condition, condition_available,
  set_status_initiating, update_preferred_decision, validate_peer_ready,
}
use ramen.Drpc.Views.{
  check_readiness, vrg_exists_and_primary, validate_and_select_current_primary,
  ready_to_switch_over, is_valid_failover_target,
}
use ramen.Drpc.Works.{find_manifest_work, ensure_vrg_manifest_work}
use ramen.Drpc.Placement.{get_cluster_decision}
use ramen.Drpc.Prerequisites.{dry_run_ready_to_failover}
use ramen.Drpc.Consensus.{is_global_action_in_consensus}
use ramen.Drpc.Relocation.{relocate}
use ramen.Drpc.Failover.{switch_to_failover_cluster}
use ramen.Drpc.Cleanup.{has_annotation, add_annotation, ensure_placement, ensure_action_transition}
use ramen.Drpc.Quiesce.{quiesce_and_run_final_sync}
use ramen.Drpc.Deployment.{run_initial_deployment}

abbrev pub set_requeue_after : ℕ → M (Unit {0})
set_requeue_after seconds h = (ok tt, record h { requeue_after = seconds })

-- mwExistsAndPlacementUpdated.
unfoldable pub mw_exists_and_placement_updated : Env → String → M Bool
unfolding find_manifest_work get_cluster_decision
mw_exists_and_placement_updated e target_cluster =
    try (find_manifest_work e target_cluster)
      (λ _. get_cluster_decision e >>= λ decision.
        if decision.cluster_name == "" || not (decision.cluster_name == target_cluster)
        then pure false
        else pure true)
      (λ x. if is_not_found x.kind then pure false else throw x)

-- The tests that also write the DRPC.
unfoldable pub check_dry_run : Env → M Bool
unfolding dry_run_ready_to_failover
check_dry_run e = get_drpc >>= λ d.
    if d.dry_run
    then modify_drpc (λ _. (dry_run_ready_to_failover e d).1)
      >> pure (dry_run_ready_to_failover e d).0
    else pure true

unfoldable pub check_consensus : Env → M Bool
unfolding is_global_action_in_consensus has_global_vgr_label
check_consensus e = get_drpc >>= λ d.
    if has_global_vgr_label d
    then modify_drpc (λ _. (is_global_action_in_consensus e d).1)
      >> pure (is_global_action_in_consensus e d).0
    else pure true

-- What completes a failover or a relocation, the VRG being primary where it should be.
unfoldable pub set_completed : Env → Drpc → Drpc
unfolding set_condition
set_completed e d =
    set_condition e.now condition_available condition_true (phase_text d.phase) "Completed" d

unfoldable pub wait_for_readiness_of : M (Unit {0})
unfolding set_progression
wait_for_readiness_of = modify_drpc (set_progression wait_for_readiness)

unfoldable pub ensure_work_or_wait : Env → String → M (Unit {0})
unfolding ensure_vrg_manifest_work wait_for_readiness_of
ensure_work_or_wait e cluster =
    try (ensure_vrg_manifest_work e cluster) (λ u. pure u) (λ x. wait_for_readiness_of >> throw x)

unfoldable pub test_failover : Env → String → M Bool
unfolding set_progression ensure_placement
test_failover e failover_cluster =
    modify_drpc (set_progression testing_failover)
    >> ensure_placement e failover_cluster
    >> set_requeue_after 60
    >> pure false

unfoldable pub finish_failover : Env → String → M Bool
unfolding set_dr_state update_preferred_decision ensure_work_or_wait check_readiness set_completed
    test_failover ensure_action_transition wait_for_readiness_of
finish_failover e failover_cluster =
    modify_drpc (λ d. set_dr_state failed_over (update_preferred_decision d))
    >> ensure_work_or_wait e failover_cluster
    >> (if not (check_readiness e failover_cluster)
        then wait_for_readiness_of >> pure false
        else modify_drpc (set_completed e) >> get_drpc >>= λ d.
            if d.dry_run
            then test_failover e failover_cluster
            else ensure_action_transition e failover_cluster)

-- The end of RunFailover.
unfoldable pub initiate_failover : Env → M Bool
unfolding check_dry_run set_status_initiating check_consensus switch_to_failover_cluster
initiate_failover e = check_dry_run e >>= λ ready.
    if not ready
    then pure false
    else modify_drpc (set_status_initiating e.now) >> check_consensus e >>= λ agreed.
        if not agreed then pure false else switch_to_failover_cluster e

unfoldable pub fail_over_valid : Env → String → M Bool
unfolding vrg_exists_and_primary finish_failover mw_exists_and_placement_updated initiate_failover
fail_over_valid e failover_cluster =
    if vrg_exists_and_primary e failover_cluster
    then finish_failover e failover_cluster
    else mw_exists_and_placement_updated e failover_cluster >>= λ yes.
        if yes then pure false else initiate_failover e

abbrev pub missing_failover_cluster : Error
missing_failover_cluster = errorf "missing value for spec.FailoverCluster"

abbrev pub invalid_target : String → Error → Error
invalid_target failover_cluster x =
    wrap
      ("unable to start failover, spec.FailoverCluster (" +++ failover_cluster
        +++ ") is not a valid Secondary target: ")
      x ""

-- RunFailover. An answer of isValidFailoverTarget that is neither true nor an error, which it never
-- gives, is reported with the missing error.
abbrev pub nil_error : Error
nil_error = errorf "%!w(<nil>)"

unfoldable pub run_failover : Env → M Bool
unfolding set_available is_valid_failover_target fail_over_valid
run_failover e = get_drpc >>= λ d.
    if d.failover_cluster == ""
    then modify_drpc (set_available e.now missing_failover_cluster.text)
      >> throw missing_failover_cluster
    else (let invalid : Error → M Bool = λ x.
          modify_drpc (set_available e.now (invalid_target d.failover_cluster x).text)
          >> throw (invalid_target d.failover_cluster x) in
        try (from_result (is_valid_failover_target e d.failover_cluster))
          (λ valid. if not valid then invalid nil_error else fail_over_valid e d.failover_cluster)
          invalid)

-- The branch of RunRelocate whose preferred cluster is primary.
unfoldable pub finish_relocate : Env → String → M Bool
unfolding set_dr_state update_preferred_decision ensure_work_or_wait check_readiness set_completed
    ensure_action_transition wait_for_readiness_of
finish_relocate e preferred_cluster =
    modify_drpc (λ d. update_preferred_decision (set_dr_state relocating d))
    >> ensure_work_or_wait e preferred_cluster
    >> (if not (check_readiness e preferred_cluster)
        then wait_for_readiness_of >> pure false
        else modify_drpc (λ d. set_completed e (set_dr_state relocated d))
          >> ensure_action_transition e preferred_cluster)

-- The current home cluster is another one than the preferred cluster.
unfoldable pub is_moving : String → String → Bool
is_moving cur_home_cluster preferred_cluster =
    not (cur_home_cluster == "") && not (cur_home_cluster == preferred_cluster)

-- The final sync, where there is a cluster to leave.
unfoldable pub quiesce_if_moving : Env → String → String → M Bool
unfolding quiesce_and_run_final_sync is_moving
quiesce_if_moving e cur_home_cluster preferred_cluster =
    if is_moving cur_home_cluster preferred_cluster
    then quiesce_and_run_final_sync e cur_home_cluster
    else pure true

abbrev pub not_protected_yet : String → Error
not_protected_yet cluster =
    errorf ("current cluster (" +++ cluster +++ ") has not completed protection actions")

abbrev pub peer_not_ready : Error
peer_not_ready = errorf "clean up secondaries is pending, peer is not ready"

-- The end of RunRelocate: the checks on the cluster to leave, its final sync, and relocate.
unfoldable pub relocate_from : Env → String → String → M Bool
unfolding ready_to_switch_over validate_peer_ready quiesce_if_moving relocate set_available
    is_moving
relocate_from e cur_home_cluster preferred_cluster =
    if is_moving cur_home_cluster preferred_cluster
      && not (ready_to_switch_over e cur_home_cluster preferred_cluster)
    then modify_drpc (set_available e.now (not_protected_yet cur_home_cluster).text)
      >> throw (not_protected_yet cur_home_cluster)
    else get_drpc >>= λ d.
        if not (phase_eqb d.phase relocating) && not (validate_peer_ready d)
        then throw peer_not_ready
        else quiesce_if_moving e cur_home_cluster preferred_cluster >>= λ result.
            if not result
            then pure false
            else relocate e preferred_cluster preferred_cluster relocating

unfoldable pub relocate_valid : Env → String → String → M Bool
unfolding vrg_exists_and_primary finish_relocate set_status_initiating check_consensus relocate_from
relocate_valid e preferred_cluster cur_home_cluster =
    if not (cur_home_cluster == "") && vrg_exists_and_primary e preferred_cluster
    then finish_relocate e preferred_cluster
    else modify_drpc (set_status_initiating e.now) >> check_consensus e >>= λ agreed.
        if not agreed then pure false else relocate_from e cur_home_cluster preferred_cluster

-- RunRelocate.
unfoldable pub run_relocate : Env → M Bool
unfolding validate_and_select_current_primary relocate_valid set_available
run_relocate e =
    if not (eqb e.num_clusters_queried_successfully (length e.policy_clusters))
    then pure false
    else get_drpc >>= λ d.
        try (from_result (validate_and_select_current_primary e d.preferred_cluster))
          (relocate_valid e d.preferred_cluster)
          (λ x. modify_drpc (set_available e.now x.text) >> throw x)

-- executeAction.
unfoldable pub execute : Env → Action → M Bool
unfolding run_failover run_relocate run_initial_deployment
execute e action_failover = run_failover e
execute e action_relocate = run_relocate e
execute e no_action = run_initial_deployment e

unfoldable pub execute_action : Env → M Bool
unfolding execute
execute_action e = get_drpc >>= λ d. execute e d.action

-- processTestFailoverFlowIfEnabled. Of recordFailure it has the condition, and leaves out the
-- write of the status, whose error is only logged.
abbrev pub dry_run_without_failover : Error
dry_run_without_failover = errorf "dryRun is enabled but action is not failover"

unfoldable pub process_test_failover_flow_if_enabled : Env → M Bool
unfolding has_annotation add_annotation set_condition
process_test_failover_flow_if_enabled e = get_drpc >>= λ d.
    if d.dry_run && not (action_eqb d.action action_failover)
    then modify_drpc (
        set_condition e.now condition_available condition_false "ValidationFailed"
          dry_run_without_failover.text)
      >> throw dry_run_without_failover
    else if d.dry_run
        && action_eqb d.action action_failover
        && not (d.failover_cluster == "")
        && not (has_annotation drpc_test_failover_dry_run_annotation d)
    then modify_drpc (add_annotation drpc_test_failover_dry_run_annotation "true")
      >> try (api_call e) (λ _. pure false)
          (λ x. throw (wrap "failed to add test failover annotation: " x ""))
    else pure true

-- processPlacement.
unfoldable pub process_placement : Env → M Bool
unfolding process_test_failover_flow_if_enabled execute_action
process_placement e = process_test_failover_flow_if_enabled e >>= λ should_continue.
    if not should_continue then pure false else execute_action e
