-- ===== src/Drpc/Deployment.antt =====
-- The initial deployment: RunInitialDeployment of internal/controller/drplacementcontrol.go.
pub mod Promotion
use ramen.Prelude.{
  String, Bool, true, false, not, ◌||◌, Option, none, some, List, [], ◌∷◌, ◌==◌, if◌then◌else◌,
  assoc,
}
use ramen.Condition.{condition_true, condition_false}
use ramen.Api.{primary, deploying, deployed, creating_mw, updating_pl_rule, completed, Vrg}
use ramen.Drpc.{
  Drpc, Env, M, Error, errorf, is_already_exists, pure, throw, ◌>>=◌, ◌>>◌, try, get, get_drpc,
  modify_drpc, UserPlacement, placement_rule, placement, RuleDecision, ClusterDecision,
}
use ramen.Drpc.Fields.{is_discovered_app, drpc_test_failover_dry_run_annotation}
use ramen.Drpc.Status.{
  set_dr_state, set_progression, set_available, set_condition, condition_peer_ready,
  set_status_initiating, set_action_duration, update_preferred_decision,
}
use ramen.Drpc.Views.{is_vrg_already_deployed_elsewhere, is_secondary_vrg_ready_on_initial_deploy}
use ramen.Drpc.NewWorks.{create_vrg_manifest_work}
use ramen.Drpc.Placement.{
  get_cluster_decision, update_user_placement_rule, switch_cluster_decision_retain_failover,
}
use ramen.Drpc.Cleanup.{has_annotation, ensure_action_transition}

-- isDeployed: the cluster where the VRG is, `none` where it answers false.
unfoldable pub deployed_elsewhere : Option String → M (Option String)
unfolding update_preferred_decision
deployed_elsewhere none = pure none
deployed_elsewhere (some c) = modify_drpc update_preferred_decision >> pure (some c)

unfoldable pub deployed_at : Env → String → Option Vrg → M (Option String)
unfolding deployed_elsewhere is_vrg_already_deployed_elsewhere
deployed_at e home_cluster (some v) = pure (some home_cluster)
deployed_at e home_cluster none =
    deployed_elsewhere (is_vrg_already_deployed_elsewhere home_cluster e.vrgs)

unfoldable pub is_deployed : Env → String → M (Option String)
unfolding deployed_at
is_deployed e home_cluster = deployed_at e home_cluster (assoc home_cluster e.vrgs)

-- isUserPlRuleUpdated.
unfoldable pub is_placement_updated : Env → String → UserPlacement → M Bool
unfolding get_cluster_decision
is_placement_updated e home_cluster (placement_rule []) = pure false
is_placement_updated e home_cluster (placement_rule (r ∷ rs)) =
    pure (r.cluster_name == home_cluster)
is_placement_updated e home_cluster (placement ps) =
    get_cluster_decision e >>= λ decision. pure (decision.cluster_name == home_cluster)

unfoldable pub is_user_pl_rule_updated : Env → String → M Bool
unfolding is_placement_updated
is_user_pl_rule_updated e home_cluster =
    get >>= λ h. is_placement_updated e home_cluster h.user_placement

-- startDeploying.
unfoldable pub create_primary : Env → String → M (Unit {0})
unfolding create_vrg_manifest_work
create_primary e home_cluster =
    try (create_vrg_manifest_work e home_cluster primary) (λ u. pure u)
      (λ x. if not (is_already_exists x.kind) then throw x else pure tt)

unfoldable pub start_deploying : Env → String → String → M Bool
unfolding create_primary set_dr_state set_progression update_user_placement_rule
start_deploying e home_cluster home_cluster_namespace =
    modify_drpc (λ d. set_progression creating_mw (set_dr_state deploying d))
    >> create_primary e home_cluster
    >> modify_drpc (set_progression updating_pl_rule)
    >> update_user_placement_rule e home_cluster home_cluster_namespace
    >> modify_drpc (λ d.
      set_dr_state deployed
        (record d { preferred_decision = (d.preferred_cluster, d.preferred_cluster) }))
    >> pure true

-- setConditionOnInitialDeploymentCompletion.
unfoldable pub set_condition_on_initial_deployment_completion : Env → Drpc → Drpc
unfolding set_available set_condition is_secondary_vrg_ready_on_initial_deploy
set_condition_on_initial_deployment_completion e d =
    let available = set_available e.now "Initial deployment completed" d in
    if is_secondary_vrg_ready_on_initial_deploy e d
    then set_condition e.now condition_peer_ready condition_true "Success" "Ready" available
    else set_condition e.now condition_peer_ready condition_false "Progressing"
        "Waiting for VRG on peer cluster to transition to Secondary" available

-- The branches of RunInitialDeployment: the deployment that is not complete, and its end.
unfoldable pub complete_initial_deployment : Env → String → M Bool
unfolding start_deploying set_status_initiating set_condition_on_initial_deployment_completion
    set_available
complete_initial_deployment e home_cluster =
    modify_drpc (set_status_initiating e.now)
    >> try (start_deploying e home_cluster home_cluster)
        (λ _. modify_drpc (set_condition_on_initial_deployment_completion e) >> pure false)
        (λ x. modify_drpc (set_available e.now x.text) >> throw x)

unfoldable pub place_discovered_app : Env → String → M (Unit {0})
unfolding update_user_placement_rule
place_discovered_app e home_cluster = get_drpc >>= λ d.
    if is_discovered_app d then update_user_placement_rule e home_cluster home_cluster else pure tt

unfoldable pub finish_deployment : Env → Drpc → Drpc
unfolding set_condition_on_initial_deployment_completion update_preferred_decision set_progression
    set_action_duration
finish_deployment e d = set_action_duration e.now (
    set_progression completed
      (set_condition_on_initial_deployment_completion e (update_preferred_decision d)))

unfoldable pub ensure_deployed : Env → String → M Bool
unfolding finish_deployment place_discovered_app ensure_action_transition set_dr_state
ensure_deployed e home_cluster =
    modify_drpc (set_dr_state deployed)
    >> ensure_action_transition e home_cluster
    >> place_discovered_app e home_cluster
    >> modify_drpc (finish_deployment e)
    >> pure true

unfoldable pub revert_test_failover : Env → String → M Bool
unfolding ensure_deployed switch_cluster_decision_retain_failover set_condition
revert_test_failover e home_cluster =
    switch_cluster_decision_retain_failover e home_cluster
    >> modify_drpc (set_condition e.now condition_peer_ready condition_false "Cleaning" "Not Ready")
    >> ensure_deployed e home_cluster

unfoldable pub ensure_deployed_here : Env → String → Drpc → M Bool
unfolding revert_test_failover ensure_deployed is_user_pl_rule_updated complete_initial_deployment
    has_annotation
ensure_deployed_here e home_cluster d =
    if has_annotation drpc_test_failover_dry_run_annotation d
    then revert_test_failover e home_cluster
    else is_user_pl_rule_updated e home_cluster >>= λ updated.
        if not updated
        then complete_initial_deployment e home_cluster
        else ensure_deployed e home_cluster

unfoldable pub deploy_from : Env → String → Option String → M Bool
unfolding ensure_deployed_here complete_initial_deployment ensure_action_transition
deploy_from e home_cluster none = complete_initial_deployment e home_cluster
deploy_from e home_cluster (some cluster) =
    if not (cluster == home_cluster)
    then ensure_action_transition e home_cluster
    else get_drpc >>= λ d. ensure_deployed_here e home_cluster d

abbrev pub preferred_cluster_not_set : Error
preferred_cluster_not_set = errorf "PreferredCluster not set. Placement"

-- RunInitialDeployment.
unfoldable pub run_initial_deployment : Env → M Bool
unfolding is_deployed deploy_from set_available
run_initial_deployment e = get_drpc >>= λ d.
    if d.preferred_cluster == ""
    then modify_drpc (set_available e.now preferred_cluster_not_set.text)
      >> throw preferred_cluster_not_set
    else is_deployed e d.preferred_cluster >>= λ found. deploy_from e d.preferred_cluster found
