-- ===== src/Drpc/Quiesce.antt =====
-- The final sync of a relocation, on the cluster that it leaves: quiesceAndRunFinalSync of
-- internal/controller/drplacementcontrol.go.
pub mod FinalSync
pub mod Promotion
use ramen.Prelude.{
  String, Bool, true, false, not, Option, none, some, ◌==◌, if◌then◌else◌, assoc, ◌+++◌,
}
use ramen.Api.{
  relocating, preparing_final_sync, clearing_placement, running_final_sync, final_sync_complete,
  Progression,
}
use ramen.Drpc.{Drpc, Env, M, errorf, pure, throw, ◌>>=◌, ◌>>◌, maybe, modify_drpc, ClusterDecision}
use ramen.Drpc.Fields.{is_discovered_app}
use ramen.Drpc.Status.{set_dr_state, set_progression, set_available}
use ramen.Drpc.Works.{update_vrg_to_prepare_for_final_sync, update_vrg_to_run_final_sync}
use ramen.Drpc.Placement.{get_cluster_decision, clear_user_placement_rule_status}
use ramen.Drpc.Progress.{set_discovered_app_gc_progression}

-- prepareForFinalSync.
unfoldable pub prepare_for_final_sync : Env → String → M Bool
unfolding update_vrg_to_prepare_for_final_sync
prepare_for_final_sync e home_cluster =
    maybe (throw (errorf ("VRG not found on Cluster " +++ home_cluster)))
      (λ v.
        if not v.prepare_for_final_sync_complete
        then update_vrg_to_prepare_for_final_sync e home_cluster >> pure false
        else pure true)
      (assoc home_cluster e.vrgs)

-- runFinalSync.
unfoldable pub run_final_sync : Env → String → M Bool
unfolding update_vrg_to_run_final_sync
run_final_sync e home_cluster =
    maybe (throw (errorf ("VRG not found on Cluster " +++ home_cluster)))
      (λ v.
        if not v.final_sync_complete
        then update_vrg_to_run_final_sync e home_cluster >> pure false
        else pure true)
      (assoc home_cluster e.vrgs)

-- The progression of a discovered application, or the one given.
unfoldable pub gc_or_progression : Env → String → Progression → Drpc → Drpc
unfolding set_discovered_app_gc_progression set_progression
gc_or_progression e home_cluster p d =
    if is_discovered_app d
    then set_discovered_app_gc_progression e home_cluster d
    else set_progression p d

unfoldable pub start_quiescing : Env → String → Drpc → Drpc
unfolding set_dr_state set_available gc_or_progression
start_quiescing e home_cluster d =
    gc_or_progression e home_cluster clearing_placement
      (set_available e.now "Starting quiescing for relocation" (set_dr_state relocating d))

-- The middle of quiesceAndRunFinalSync: the placement is cleared where it has a cluster.
unfoldable pub clear_placement : Env → String → ClusterDecision → M (Unit {0})
unfolding start_quiescing clear_user_placement_rule_status
clear_placement e home_cluster decision =
    if not (decision.cluster_name == "")
    then modify_drpc (start_quiescing e home_cluster) >> clear_user_placement_rule_status e
    else pure tt

-- quiesceAndRunFinalSync.
unfoldable pub finish_final_sync : Env → String → M Bool
unfolding run_final_sync gc_or_progression
finish_final_sync e home_cluster = run_final_sync e home_cluster >>= λ result.
    if not result
    then modify_drpc (gc_or_progression e home_cluster running_final_sync) >> pure false
    else modify_drpc (set_progression final_sync_complete) >> pure true

unfoldable pub quiesce_and_run_final_sync : Env → String → M Bool
unfolding prepare_for_final_sync clear_placement finish_final_sync
quiesce_and_run_final_sync e home_cluster = prepare_for_final_sync e home_cluster >>= λ result.
    if not result
    then modify_drpc (set_progression preparing_final_sync) >> pure false
    else get_cluster_decision e >>= λ decision.
        clear_placement e home_cluster decision >> finish_final_sync e home_cluster
