-- ===== src/Drpc/Prerequisites.antt =====
-- What must hold before a failover starts: checkFailoverPrerequisites, isProtected,
-- isGroupSyncLagging and the maintenance modes of
-- internal/controller/drplacementcontrol.go. Times are in seconds.
pub mod Fencing
pub mod DryRunLag
use ramen.Prelude.{
  ℕ, String, Bool, true, false, not, ◌&&◌, ◌||◌, Option, none, some, List, [], ◌∷◌, ◌==◌, ◌-◌, ◌*◌,
  ltb, leb, if◌then◌else◌, assoc, put, contains, ◌+++◌,
}
use ramen.Condition.{Condition, condition_true, condition_false, status_eqb}
use ramen.Api.{
  ClusterMaintenanceMode, DrCluster, ProtectedPvc, Vrg, is_vrg_primary, Progression,
  wait_for_fencing, wait_for_storage_maintenance_activation, phase_text,
}
use ramen.Drpc.{
  Drpc, Env, DrType, dr_type_sync, dr_type_async, M, Result, ok, err, Error, errorf, pure, throw,
  ◌>>=◌, ◌>>◌, try, get_drpc, modify_drpc,
}
use ramen.Drpc.Status.{
  set_progression, set_available, set_condition, condition_available, condition_protected,
}
use ramen.Drpc.Views.{check_cluster_fenced}

-- The loop of isProtected.
unfoldable pub has_protected_condition : List Condition → Bool
has_protected_condition [] = false
has_protected_condition (c ∷ cs) =
    c.type == condition_protected && status_eqb c.status condition_true
    || has_protected_condition cs

-- isProtected: the answer, and the DRPC after it.
unfoldable pub is_protected : Env → Drpc → Bool × Drpc
unfolding has_protected_condition set_condition
is_protected e d = if has_protected_condition d.conditions then (true, d) else (
  false,
  set_condition e.now condition_available condition_false (phase_text d.phase)
      "cannot start failover because workload is not protected" d,
)

abbrev lagging_message : String
lagging_message =
    "cannot start dry-run failover: lastGroupSyncTime is lagging behind, check workload and cluster replication state"

-- The test of isGroupSyncLagging, at a last sync time and an interval that may be missing.
unfoldable pub is_too_old : ℕ → Option ℕ → Option ℕ → Bool
is_too_old now none interval = false
is_too_old now (some synced) none = false
is_too_old now (some synced) (some interval) = not (leb (now - synced) (3 * interval))

-- isGroupSyncLagging.
unfoldable pub is_group_sync_lagging : Env → Drpc → Bool × Drpc
unfolding set_condition is_too_old
is_group_sync_lagging e d =
    if not (is_too_old e.now d.last_group_sync_time e.interval_seconds) then (false, d) else (
      true,
      set_condition e.now condition_available condition_false (phase_text d.phase) lagging_message
          d,
    )

-- dryRunReadyToFailover.
unfoldable pub dry_run_ready_to_failover : Env → Drpc → Bool × Drpc
unfolding is_protected is_group_sync_lagging
dry_run_ready_to_failover e d =
    let (p, d1) = is_protected e d in
    let (lagging, d2) = is_group_sync_lagging e d1 in if p then (not lagging, d2) else (false, d1)

-- getLastKnownPrimaryVRG.
unfoldable pub last_known_primary_vrg : List (String × Vrg) → String → Option Vrg
unfolding is_vrg_primary
last_known_primary_vrg [] target = none
last_known_primary_vrg ((c, v) ∷ vrgs) target =
    let rest = last_known_primary_vrg vrgs target in
    if c == target then rest else if is_vrg_primary v then some v else rest

-- The loop of GetLastKnownVRGPrimaryFromS3, with the latest VRG so far.
unfoldable pub latest_primary_from_s3 :
    (String → Option Vrg) → List String → Option Vrg → Option Vrg
unfolding is_vrg_primary
latest_primary_from_s3 s3 [] latest = latest
latest_primary_from_s3 s3 (p ∷ ps) latest = latest_primary_from_s3 s3 ps (elim (s3 p) [
  | none ↦ latest
  | some v ↦ if not (is_vrg_primary v) then latest else elim latest [
    | none ↦ some v
    | some l ↦ if ltb l.last_update_time v.last_update_time then some v else some l
  ]
])

-- A StorageIdentifiers: the provisioner, and the ID of its replication.
abbrev pub StorageIdentifiers : Type 0
StorageIdentifiers = String × String

-- The loop of requiresRegionalFailoverPrerequisites: the activations, by key.
unfoldable pub activations_of :
    List ProtectedPvc → List (String × StorageIdentifiers) → List (String × StorageIdentifiers)
activations_of [] required = required
activations_of (p ∷ ps) required = activations_of ps (
    if not (contains p.modes "Failover")
    then required
    else let key = p.storage_provisioner +++ p.replication_id in
      elim (assoc key required) [
        | none ↦ put key (p.storage_provisioner, p.replication_id) required
        | some _ ↦ required
      ])

-- requiresRegionalFailoverPrerequisites: the activations, none of which are required where the
-- list is empty.
unfoldable pub required_activations :
    Env → List String → String → List (String × StorageIdentifiers)
unfolding last_known_primary_vrg latest_primary_from_s3 activations_of
required_activations e profiles failover_cluster =
    elim (last_known_primary_vrg e.vrgs failover_cluster) [
      | some v ↦ activations_of v.protected_pvcs []
      | none ↦ elim (latest_primary_from_s3 e.s3 profiles none) [
        | none ↦ []
        | some v ↦ activations_of v.protected_pvcs []
      ]
    ]

-- The inner loop of checkActivationForStorageIdentifier: the first condition of the type.
unfoldable pub is_activated : List Condition → Bool
is_activated [] = false
is_activated (c ∷ cs) =
    let rest = is_activated cs in
    if not (c.type == "FailoverActivated") then rest else status_eqb c.status condition_true

-- checkActivationForStorageIdentifier: the first mode of the identifier.
unfoldable pub check_activation : List ClusterMaintenanceMode → StorageIdentifiers → Bool
unfolding is_activated
check_activation [] i = false
check_activation (m ∷ ms) i =
    let rest = check_activation ms i in
    if not (m.storage_provisioner == i.0) || not (m.target_id == i.1)
    then rest
    else is_activated m.conditions

-- checkFailoverMaintenanceActivations.
unfoldable pub check_failover_maintenance_activations :
    List ClusterMaintenanceMode → List (String × StorageIdentifiers) → Bool
unfolding check_activation
check_failover_maintenance_activations modes [] = true
check_failover_maintenance_activations modes ((k, i) ∷ is) =
    let rest = check_failover_maintenance_activations modes is in
    if not (check_activation modes i) then false else rest

-- The loop of checkRegionalFailoverPrerequisites: the first DRCluster of the name decides.
unfoldable pub are_activations_met : Env → String → List DrCluster → Bool
unfolding required_activations check_failover_maintenance_activations
are_activations_met e failover_cluster [] = true
are_activations_met e failover_cluster (c ∷ cs) =
    let rest = are_activations_met e failover_cluster cs in
    if not (c.name == failover_cluster)
    then rest
    else elim (required_activations e (c.s3_profile_name ∷ []) failover_cluster) [
      | [] ↦ true
      | a ∷ as' ↦ check_failover_maintenance_activations c.maintenance_modes (a ∷ as')
    ]

unfoldable pub check_regional_failover_prerequisites : Env → M Bool
unfolding set_progression are_activations_met
check_regional_failover_prerequisites e =
    modify_drpc (set_progression wait_for_storage_maintenance_activation) >> get_drpc >>= λ d.
    pure (are_activations_met e d.failover_cluster e.dr_clusters)

-- checkMetroFailoverPrerequisites.
unfoldable pub fenced_or_error : String → Result Bool → M Bool
fenced_or_error cur_home_cluster (err x) = throw x
fenced_or_error cur_home_cluster (ok true) = pure true
fenced_or_error cur_home_cluster (ok false) =
    throw (errorf ("current home cluster " +++ cur_home_cluster +++ " is not fenced"))

unfoldable pub check_metro_failover_prerequisites : Env → String → M Bool
unfolding set_progression check_cluster_fenced fenced_or_error
check_metro_failover_prerequisites e cur_home_cluster =
    modify_drpc (set_progression wait_for_fencing)
    >> fenced_or_error cur_home_cluster (check_cluster_fenced cur_home_cluster e.dr_clusters)

unfoldable pub prerequisites_of : DrType → Env → String → M Bool
unfolding check_metro_failover_prerequisites check_regional_failover_prerequisites
prerequisites_of dr_type_sync e cur_home_cluster =
    check_metro_failover_prerequisites e cur_home_cluster
prerequisites_of dr_type_async e cur_home_cluster = check_regional_failover_prerequisites e

-- checkFailoverPrerequisites.
unfoldable pub check_failover_prerequisites : Env → String → M Bool
unfolding prerequisites_of set_available
check_failover_prerequisites e cur_home_cluster =
    try (prerequisites_of e.dr_type e cur_home_cluster)
      (λ met.
        if met
        then pure true
        else modify_drpc
            (set_available e.now "Waiting for spec.failoverCluster to meet failover prerequisites")
          >> pure false)
      (λ x. modify_drpc (set_available e.now x.text) >> throw x)
