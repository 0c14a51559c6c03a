-- ===== src/Drpc/Failover.antt =====
-- The start of a failover: switchToFailoverCluster of
-- internal/controller/drplacementcontrol.go.
pub mod Fence
use ramen.Prelude.{
  String, Bool, true, false, not, ◌&&◌, ◌||◌, Option, none, some, List, [], ◌∷◌, ◌==◌,
  if◌then◌else◌, ◌+++◌,
}
use ramen.Condition.{condition_false}
use ramen.Api.{
  DrCluster, failing_over, failed_over, checking_failover_prerequisites, failing_over_to_cluster,
}
use ramen.Drpc.{
  Drpc, Env, M, errorf, pure, throw, ◌>>=◌, ◌>>◌, try, get_drpc, modify_drpc, ClusterDecision,
}
use ramen.Drpc.Status.{
  set_dr_state, set_progression, set_available, set_condition, condition_peer_ready,
  update_preferred_decision,
}
use ramen.Drpc.Placement.{get_cluster_decision, retain_cluster_decision_as_failover}
use ramen.Drpc.Prerequisites.{check_failover_prerequisites}
use ramen.Drpc.Relocation.{switch_to_cluster}

-- The last loop of getCurrentHomeClusterName.
unfoldable pub peer_cluster : String → List DrCluster → String
peer_cluster to_cluster [] = ""
peer_cluster to_cluster (c ∷ cs) =
    let rest = peer_cluster to_cluster cs in if c.name == to_cluster then rest else c.name

unfoldable pub home_cluster_name : Env → Drpc → String → ClusterDecision → String
unfolding peer_cluster
home_cluster_name e d to_cluster decision =
    if not (decision.cluster_name == "")
    then decision.cluster_name
    else if not (d.preferred_decision.0 == "")
    then d.preferred_decision.0
    else peer_cluster to_cluster e.dr_clusters

-- getCurrentHomeClusterName.
unfoldable pub get_current_home_cluster_name : Env → String → M String
unfolding get_cluster_decision home_cluster_name
get_current_home_cluster_name e to_cluster = get_cluster_decision e >>= λ decision.
    get_drpc >>= λ d. pure (home_cluster_name e d to_cluster decision)

-- What switchToFailoverCluster does once the prerequisites are met: false with no error.
unfoldable pub fail_over_to : Env → String → String → M Bool
unfolding set_dr_state set_progression set_available update_preferred_decision
fail_over_to e cur_home_cluster new_home_cluster =
    modify_drpc (set_progression failing_over_to_cluster)
    >> try
        (retain_cluster_decision_as_failover e cur_home_cluster
          >> switch_to_cluster e new_home_cluster "")
        (λ _.
          modify_drpc (λ d.
            set_available e.now "Completed"
              (set_dr_state failed_over (update_preferred_decision d)))
          >> pure false)
        (λ x. modify_drpc (set_available e.now x.text) >> throw x)

-- What switchToFailoverCluster records before it looks for the home cluster.
unfoldable pub start_failover : Env → Drpc → Drpc
unfolding set_dr_state set_available set_condition set_progression
start_failover e d = set_progression checking_failover_prerequisites (
    set_condition e.now condition_peer_ready condition_false "NotStarted"
      ("Started failover to cluster \"" +++ d.failover_cluster +++ "\"")
      (set_available e.now "Starting failover" (set_dr_state failing_over d)))

-- switchToFailoverCluster.
unfoldable pub switch_to_failover_cluster : Env → M Bool
unfolding start_failover get_current_home_cluster_name fail_over_to
switch_to_failover_cluster e = get_drpc >>= λ d.
    modify_drpc (start_failover e)
    >> get_current_home_cluster_name e d.failover_cluster
    >>= λ cur_home_cluster.
        if cur_home_cluster == ""
        then modify_drpc
            (set_available e.now "Invalid Failover request. Current home cluster does not exists")
          >> throw (errorf "failover requested on invalid state")
        else check_failover_prerequisites e cur_home_cluster >>= λ met.
            if not met then pure false else fail_over_to e cur_home_cluster d.failover_cluster
