-- ===== src/Drpc/Recovery.antt =====
-- The state of a DRPC that has none, when it is new or after the hub was recovered:
-- ensureDRPCStatusConsistency, determineDRPCState, getVRGsFromManagedClusters and the adoption of
-- VRGs, of internal/controller/drplacementcontrol_controller.go. The namespace of the VRG is
-- known. The values in the texts of messages are left out.
pub mod Seen
pub mod Grounds
use ramen.Prelude.{
  ℕ, zero, suc, String, Bool, true, false, not, ◌&&◌, ◌||◌, Option, none, some, List, [], ◌∷◌, ◌==◌,
  eqb, leb, if◌then◌else◌, assoc, put, assoc_or_empty, length, select, contains, ◌+++◌, map,
}
use ramen.Condition.{condition_true, condition_false}
use ramen.Api.{
  Action, action_failover, action_eqb, wait_for_user, no_phase, phase_eqb, action_paused, Vrg,
  is_primary, is_secondary, DrCluster, unset_state,
}
use ramen.Drpc.{
  Drpc, Env, M, Result, ok, err, Error, errorf, wrap, is_not_found, pure, throw, from_result, ◌>>=◌,
  ◌>>◌, try, get_drpc, modify_drpc, api_call,
}
use ramen.Drpc.Fields.{
  drpc_uid_annotation, destination_cluster_annotation_key, is_cg_enabled_annotation,
  is_submariner_enabled_annotation, use_vol_sync_annotation, enable_diff_annotation,
}
use ramen.Drpc.Status.{set_progression, set_condition, condition_available, condition_peer_ready}
use ramen.Drpc.Works.{find_manifest_work, create_or_update_manifest_work}
use ramen.Drpc.NewWorks.{write_namespace_work, put_namespace_work}
use ramen.Drpc.Prerequisites.{latest_primary_from_s3}

-- What getVRGsFromManagedClusters has found: the VRGs, the number of clusters that answered, and
-- the last one that did not.
pub record Queried : Type 0 where
  pub vrgs : List (String × Vrg)
  pub num_clusters_queried_successfully : ℕ
  pub failed_cluster : String

unfoldable pub query_one : DrCluster → Result Vrg → Queried → Queried
query_one c (err x) q =
    if is_not_found x.kind
    then record q { num_clusters_queried_successfully = suc q.num_clusters_queried_successfully }
    else record q { failed_cluster = c.name }
query_one c (ok v) q =
    let counted = record q {
      num_clusters_queried_successfully = suc q.num_clusters_queried_successfully;
    } in
    if c.deleted then counted else record counted { vrgs = put c.name v q.vrgs }

-- The loop over the DRClusters.
unfoldable pub query_each : (String → Result Vrg) → List DrCluster → Queried → Queried
unfolding query_one
query_each view [] q = q
query_each view (c ∷ cs) q = query_each view cs (query_one c (view c.name) q)

abbrev pub nothing_queried : Queried
nothing_queried = record { vrgs = []; num_clusters_queried_successfully = 0; failed_cluster = "" }

-- getVRGsFromManagedClusters.
unfoldable pub get_vrgs_from_managed_clusters :
    (String → Result Vrg) → List DrCluster → Result Queried
unfolding query_each
get_vrgs_from_managed_clusters view clusters =
    let q = query_each view clusters nothing_queried in
    if eqb q.num_clusters_queried_successfully (length clusters)
    then ok (record q { failed_cluster = "" })
    else if eqb q.num_clusters_queried_successfully 0
    then err (errorf "failed to retrieve VRGs from clusters")
    else ok q

-- constructVRGFromView: the spec, and the annotations that the hub sets.
abbrev pub hub_annotations : List String
hub_annotations =
    destination_cluster_annotation_key ∷ is_cg_enabled_annotation ∷ is_submariner_enabled_annotation
    ∷ use_vol_sync_annotation ∷ enable_diff_annotation ∷ drpc_uid_annotation ∷ []

unfoldable pub construct_vrg_from_view : Vrg → Vrg
construct_vrg_from_view v = record v {
  generation = 0;
  deleted = false;
  annotations = select (λ a. contains hub_annotations a.0) v.annotations;
  labels = [];
  state = unset_state;
  observed_generation = 0;
  conditions = [];
  protected_pvcs = [];
  rd_info = [];
  prepare_for_final_sync_complete = false;
  final_sync_complete = false;
  last_update_time = 0;
}

unfoldable pub has_uid : String → Vrg → Bool
has_uid uid v = elim (assoc drpc_uid_annotation v.annotations) [ none ↦ false | some u ↦ u == uid ]

unfoldable pub with_uid : String → Vrg → Vrg
with_uid uid v = record v { annotations = put drpc_uid_annotation uid v.annotations }

-- adoptExistingVRGManifestWork and adoptOrphanVRG, whose errors are logged.
unfoldable pub adopt_existing_vrg_manifest_work : Env → String → Vrg → M (Unit {0})
unfolding has_uid with_uid create_or_update_manifest_work
adopt_existing_vrg_manifest_work e cluster v = get_drpc >>= λ d.
    if has_uid d.uid v
    then pure tt
    else try (create_or_update_manifest_work e cluster (with_uid d.uid v)) (λ _. pure tt)
        (λ _. pure tt)

unfoldable pub adopt_orphan_vrg : Env → String → Vrg → M (Unit {0})
unfolding construct_vrg_from_view with_uid write_namespace_work put_namespace_work
    create_or_update_manifest_work
adopt_orphan_vrg e cluster view = get_drpc >>= λ d.
    try (write_namespace_work e >> put_namespace_work cluster)
      (λ _.
        try
          (create_or_update_manifest_work e cluster (with_uid d.uid (construct_vrg_from_view view)))
          (λ _. pure tt) (λ _. pure tt))
      (λ _. pure tt)

-- adoptVRG.
unfoldable pub adopt_vrg : Env → String → Vrg → M Bool
unfolding find_manifest_work adopt_existing_vrg_manifest_work adopt_orphan_vrg
adopt_vrg e cluster view =
    try (find_manifest_work e cluster)
      (λ v.
        if e.is_work_deleted cluster
        then pure true
        else adopt_existing_vrg_manifest_work e cluster v >> pure false)
      (λ x.
        if not (is_not_found x.kind)
        then pure false
        else adopt_orphan_vrg e cluster view >> pure false)

-- ensureVRGsManagedByDRPC.
unfoldable pub ensure_vrgs_managed_by_drpc : Env → List (String × Vrg) → Bool → M Bool
unfolding adopt_vrg has_uid
ensure_vrgs_managed_by_drpc e [] ensured = pure ensured
ensure_vrgs_managed_by_drpc e ((c, v) ∷ vrgs) ensured = get_drpc >>= λ d.
    if v.deleted || has_uid d.uid v
    then ensure_vrgs_managed_by_drpc e vrgs ensured
    else adopt_vrg e c v >>= λ adopted. ensure_vrgs_managed_by_drpc e vrgs (ensured && adopted)

-- Progress.
pub data Progress : Type 0 where
  continue allow_failover stop : Progress

-- The clusters of a switch: the last VRG, or the first primary one. `none` for no VRGs.
unfoldable pub first_primary_or_last : List (String × Vrg) → Option (String × Vrg)
first_primary_or_last [] = none
first_primary_or_last ((c, v) ∷ []) = some (c, v)
first_primary_or_last ((c, v) ∷ w ∷ vrgs) =
    let rest = first_primary_or_last (w ∷ vrgs) in
    if is_primary v.replication_state then some (c, v) else rest

-- The branches of determineDRPCState, in their order: one cluster answered and there is no VRG,
-- by the VRG in the S3 stores.
unfoldable pub progress_by_s3 : Drpc → String → String → Option Vrg → Progress × String
progress_by_s3 d dst_cluster failed_cluster none =
    if not (failed_cluster == dst_cluster)
    then (continue, "")
    else (stop, "Unable to query all clusters and failed to get VRG from s3 store. Failed to query")
progress_by_s3 d dst_cluster failed_cluster (some v) =
    if not (action_eqb d.action v.action)
    then (
      allow_failover,
      "Failover is allowed - Two different actions - drpcAction and vrgAction from s3",
    )
    else if dst_cluster == assoc_or_empty destination_cluster_annotation_key v.annotations
        && not (dst_cluster == failed_cluster)
    then (continue, "")
    else (allow_failover, "Failover is allowed - vrgDstClstr")

-- One cluster answered, with a VRG.
unfoldable pub progress_by_single : Drpc → String → String → Vrg → Progress × String
progress_by_single d dst_cluster cluster v =
    if is_primary v.replication_state && dst_cluster == cluster
    then if not (action_eqb d.action v.action)
      then (stop, "Stop - Two different actions for the same cluster")
      else (continue, "")
    else if not (dst_cluster == cluster) && is_secondary v.replication_state
    then (allow_failover, "Failover is allowed - Primary is assumed to be on the failed cluster")
    else (allow_failover, "Failover is allowed - ReplicationState")

-- Both clusters answered, and there are VRGs.
unfoldable pub progress_by_both : Drpc → String → ℕ → String → Vrg → Progress × String
progress_by_both d dst_cluster count cluster v =
    if is_secondary v.replication_state && eqb count 2
    then (stop, "Stop - Both VRGs have the same secondary state")
    else if action_eqb d.action v.action && dst_cluster == cluster
    then (continue, "")
    else (allow_failover, "Failover is allowed - VRGs count")

abbrev pub user_intervention : Progress × String
user_intervention = (allow_failover, "Failover is allowed - User intervention is required")

unfoldable pub progress_by_first : Drpc → String → ℕ → Option (String × Vrg) → Progress × String
unfolding progress_by_both
progress_by_first d dst_cluster count none = user_intervention
progress_by_first d dst_cluster count (some (c, v)) = progress_by_both d dst_cluster count c v

unfoldable pub progress_by_vrgs :
    Drpc → String → Queried → Option Vrg → List (String × Vrg) → Progress × String
unfolding progress_by_s3 progress_by_single progress_by_first first_primary_or_last
progress_by_vrgs d dst_cluster q s3_vrg [] =
    if eqb q.num_clusters_queried_successfully 1
    then progress_by_s3 d dst_cluster q.failed_cluster s3_vrg
    else user_intervention
progress_by_vrgs d dst_cluster q s3_vrg ((c, v) ∷ vrgs) =
    if eqb q.num_clusters_queried_successfully 1 && eqb (length vrgs) 0
    then progress_by_single d dst_cluster c v
    else if eqb q.num_clusters_queried_successfully 2
    then progress_by_first d dst_cluster (suc (length vrgs)) (first_primary_or_last ((c, v) ∷ vrgs))
    else user_intervention

-- determineDRPCState, once the VRGs are queried and managed by the DRPC.
unfoldable pub decide_progress : Drpc → String → Queried → Option Vrg → Progress × String
unfolding progress_by_vrgs
decide_progress d dst_cluster q s3_vrg =
    if eqb q.num_clusters_queried_successfully 0
    then (stop, "Stop - Number of clusters queried is 0")
    else if eqb q.num_clusters_queried_successfully 2 && eqb (length q.vrgs) 0
    then (continue, "")
    else if phase_eqb d.phase wait_for_user
        && action_eqb d.action action_failover
        && not (d.failover_cluster == q.failed_cluster)
    then (continue, "")
    else progress_by_vrgs d dst_cluster q s3_vrg q.vrgs

-- GetDRClusters, one call for each cluster.
unfoldable pub get_dr_clusters : Env → List String → M (Unit {0})
get_dr_clusters e [] = pure tt
get_dr_clusters e (c ∷ cs) =
    try (api_call e) (λ _. get_dr_clusters e cs)
      (λ x. throw (wrap ("failed to get DRCluster (" +++ c +++ ") ") x ""))

-- AvailableS3Profiles.
unfoldable pub available_s3_profiles : Env → List String
available_s3_profiles e =
    e.sets_list (map (λ c. c.s3_profile_name) (select (λ c. not c.deleted) e.dr_clusters))

-- determineDRPCState.
unfoldable pub determine_drpc_state : Env → String → M (Progress × String)
unfolding get_dr_clusters get_vrgs_from_managed_clusters ensure_vrgs_managed_by_drpc decide_progress
    latest_primary_from_s3 available_s3_profiles
determine_drpc_state e dst_cluster =
    get_dr_clusters e e.policy_clusters
    >> from_result (get_vrgs_from_managed_clusters e.view e.dr_clusters)
    >>= λ q. ensure_vrgs_managed_by_drpc e q.vrgs true >>= λ managed.
        if not managed
        then pure (stop, "VRG adoption in progress")
        else get_drpc >>= λ d. pure (
            decide_progress d dst_cluster q
              (latest_primary_from_s3 e.s3 (available_s3_profiles e) none))

-- What ensureDRPCStatusConsistency writes, by the progress, and whether it asks for a requeue.
unfoldable pub record_progress : Env → Progress × String → Drpc → Drpc
unfolding set_progression set_condition
record_progress e (continue, msg) d = d
record_progress e (allow_failover, msg) d =
    set_condition e.now condition_peer_ready condition_true "Success" "Failover allowed" (
      set_condition e.now condition_available condition_true "Success" msg (
        set_progression action_paused
          (record d { phase = wait_for_user; observed_generation = d.generation })))
record_progress e (stop, msg) d =
    set_condition e.now condition_peer_ready condition_false "Paused" "User Intervention Required" (
      set_condition e.now condition_available condition_false "Paused"
        ("Operation Paused - User Intervention Required. " +++ msg)
        (set_progression action_paused d))

abbrev pub is_paused : Progress → Bool
is_paused continue = false
is_paused allow_failover = true
is_paused stop = true

unfoldable pub destination_cluster : Drpc → String
destination_cluster d =
    if action_eqb d.action action_failover then d.failover_cluster else d.preferred_cluster

-- ensureDRPCStatusConsistency: whether to requeue.
unfoldable pub ensure_drpc_status_consistency : Env → M Bool
unfolding determine_drpc_state record_progress destination_cluster
ensure_drpc_status_consistency e = get_drpc >>= λ d.
    if not (phase_eqb d.phase no_phase) && not (phase_eqb d.phase wait_for_user)
    then pure false
    else determine_drpc_state e (destination_cluster d) >>= λ p.
        modify_drpc (record_progress e p) >> pure (is_paused p.0)
