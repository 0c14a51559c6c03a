-- ===== src/Drpc/Progress.antt =====
-- The progression that waits for a discovered application to be cleaned up:
-- setDiscoveredAppGCProgression of internal/controller/drplacementcontrol.go and what it asks of
-- the VRG on the secondary.
use ramen.Prelude.{
  String, Bool, true, false, not, ◌&&◌, ◌||◌, Option, none, some, List, [], ◌∷◌, ◌==◌,
  if◌then◌else◌, assoc,
}
use ramen.Condition.{find_condition}
use ramen.Api.{
  Vrg, action_eqb, action_failover, action_relocate, no_action, Progression, preparing_final_sync,
  cleanup_readiness, cleaning_up, wait_on_user_to_clean_up,
}
use ramen.Drpc.{Drpc, Env}
use ramen.Drpc.Status.{set_progression}

abbrev pub last_app_deployment_cluster : String
last_app_deployment_cluster = "drplacementcontrol.ramendr.openshift.io/last-app-deployment-cluster"

abbrev pub vrg_condition_type_auto_cleanup : String
vrg_condition_type_auto_cleanup = "AutoCleanup"

-- isSourceVRGForAction.
unfoldable pub is_source_vrg_for_action : Drpc → String → Bool
is_source_vrg_for_action d cluster =
    if d.preferred_cluster == cluster && action_eqb d.action action_relocate
      || d.failover_cluster == cluster && action_eqb d.action action_failover
    then true
    else if action_eqb d.action no_action
    then elim (assoc last_app_deployment_cluster d.annotations) [
      | none ↦ false
      | some last ↦ not (last == cluster)
    ]
    else false

-- The loop of getCleanupSecondaryVRG.
unfoldable pub alternate_vrg : String → List (String × Vrg) → List String → Option Vrg
alternate_vrg cluster vrgs [] = none
alternate_vrg cluster vrgs (c ∷ cs) =
    let rest = alternate_vrg cluster vrgs cs in
    if cluster == c then rest else elim (assoc c vrgs) [ none ↦ rest | some v ↦ some v ]

-- getCleanupSecondaryVRG.
unfoldable pub cleanup_secondary_vrg : Env → Drpc → String → Option Vrg
unfolding is_source_vrg_for_action alternate_vrg
cleanup_secondary_vrg e d cluster =
    let v = assoc cluster e.vrgs in
    if is_source_vrg_for_action d cluster
    then elim (alternate_vrg cluster e.vrgs e.policy_clusters) [ none ↦ v | some a ↦ some a ]
    else v

-- isPreparingForFinalSync.
unfoldable pub is_preparing_for_final_sync : Option Vrg → Bool
is_preparing_for_final_sync none = false
is_preparing_for_final_sync (some v) =
    v.prepare_for_final_sync || v.final_sync_complete || v.prepare_for_final_sync_complete

-- isVMAutoCleanupFeasible and isVMAutoCleanupCompleted: the reason of the AutoCleanup condition.
unfoldable pub has_auto_cleanup_reason : String → Option Vrg → Bool
has_auto_cleanup_reason reason none = false
has_auto_cleanup_reason reason (some v) =
    elim (find_condition v.conditions vrg_condition_type_auto_cleanup) [
      | none ↦ false
      | some c ↦ c.reason == reason
    ]

unfoldable pub discovered_app_gc_progression : Env → Drpc → String → Progression
unfolding cleanup_secondary_vrg is_preparing_for_final_sync has_auto_cleanup_reason
discovered_app_gc_progression e d cluster =
    let v = cleanup_secondary_vrg e d cluster in
    if e.is_vm_recipe
    then if is_preparing_for_final_sync v
      then preparing_final_sync
      else if has_auto_cleanup_reason "Progressing" v
      then cleanup_readiness
      else if has_auto_cleanup_reason "Completed" v
      then cleaning_up
      else wait_on_user_to_clean_up
    else wait_on_user_to_clean_up

-- setDiscoveredAppGCProgression.
unfoldable pub set_discovered_app_gc_progression : Env → String → Drpc → Drpc
unfolding discovered_app_gc_progression set_progression
set_discovered_app_gc_progression e cluster d =
    set_progression (discovered_app_gc_progression e d cluster) d
