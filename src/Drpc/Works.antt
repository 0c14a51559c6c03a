-- ===== src/Drpc/Works.antt =====
-- The VRG ManifestWorks: what internal/controller/drplacementcontrol.go reads and writes through
-- MWUtil (internal/controller/util/mw_util.go). A manifest that can be read decodes, so decoding
-- has no error here; a conflict that the client retries is the answer of its last attempt.
pub mod Update
pub mod Demotion
pub mod Kept
use ramen.Prelude.{
  ℕ, String, Bool, true, false, not, ◌&&◌, ◌||◌, Option, none, some, List, [], ◌∷◌, ◌==◌, suc, eqb,
  if◌then◌else◌, assoc, put, ◌+++◌,
}
use ramen.Api.{
  ReplicationState, primary, secondary, is_primary, is_secondary, replication_state_text, Vrg,
  action_failover, action_eqb,
}
use ramen.Drpc.{
  Drpc, Env, Hub, M, Result, ok, err, Error, errorf, wrap, not_found, already_exists, is_not_found,
  pure, throw, ◌>>=◌, ◌>>◌, try, maybe, get, get_drpc, api_call,
}
use ramen.Drpc.Fields.{is_discovered_app, set_vrg_action, update_vrg_optional_fields, new_vrg}

abbrev pub replication_state_eqb : ReplicationState → ReplicationState → Bool
replication_state_eqb primary s = is_primary s
replication_state_eqb secondary s = is_secondary s

-- The VRG that the API server has in the ManifestWork of a cluster.
unfoldable pub get_work : String → M Vrg
get_work cluster h = elim (assoc cluster h.works) [
  | none ↦ (err (record { kind = not_found; text = "not found" }), h)
  | some v ↦ (ok v, h)
]

unfoldable pub put_work : String → Vrg → M (Unit {0})
put_work cluster v h = (ok tt, record h { works = put cluster v h.works })

-- FindManifestWork, with the VRG in place of the ManifestWork.
unfoldable pub find_manifest_work : Env → String → M Vrg
unfolding get_work
find_manifest_work e cluster =
    if cluster == ""
    then throw (errorf "invalid cluster for MW")
    else try (api_call e >> get_work cluster) (λ v. pure v)
        (λ x.
          if is_not_found x.kind
          then throw x
          else throw (wrap "failed to retrieve manifestwork (" x ")"))

-- getVRGFromManifestWork.
abbrev pub get_vrg_from_manifest_work : Env → String → M Vrg
get_vrg_from_manifest_work e cluster = find_manifest_work e cluster

-- updateManifestWork.
unfoldable pub update_manifest_work : Env → String → Vrg → M (Unit {0})
unfolding put_work
update_manifest_work e cluster v =
    find_manifest_work e cluster >>= λ _. api_call e >> put_work cluster v

-- UpdateVRGManifestWork.
unfoldable pub update_vrg_manifest_work : Env → String → Vrg → M (Unit {0})
unfolding put_work
update_vrg_manifest_work e cluster v =
    try (api_call e) (λ _. put_work cluster v) (λ x. throw (wrap "failed to update MW (" x ")"))

-- OperationResult of the controller runtime, with the three results that the code gives.
pub data OperationResult : Type 0 where
  operation_result_none operation_result_created operation_result_updated : OperationResult

-- createOrUpdateManifestWork, on a VRG.
unfoldable pub create_or_update_manifest_work : Env → String → Vrg → M OperationResult
unfolding get_work put_work
create_or_update_manifest_work e cluster v =
    try (api_call e >> get_work cluster)
      (λ found.
        if e.deep_equal found v
        then pure operation_result_none
        else try (api_call e >> get_work cluster >> api_call e)
            (λ _. put_work cluster v >> pure operation_result_updated)
            (λ x. throw (wrap "failed to update ManifestWork: " x "")))
      (λ x.
        if not (is_not_found x.kind)
        then throw (wrap "failed to fetch ManifestWork: " x "")
        else api_call e >> put_work cluster v >> pure operation_result_created)

-- isFailoverPromotion.
unfoldable pub is_failover_promotion : Drpc → String → Bool
is_failover_promotion d cluster =
    cluster == d.failover_cluster && action_eqb d.action action_failover && not d.dry_run

-- What updateVRGState writes into a VRG whose state it changes.
unfoldable pub switched_vrg : Env → Drpc → String → ReplicationState → Vrg → Vrg
unfolding set_vrg_action update_vrg_optional_fields is_failover_promotion
switched_vrg e d cluster state v =
    let a = set_vrg_action d (record v { replication_state = state }) in
    let b = update_vrg_optional_fields e d cluster (assoc cluster e.vrgs) a in
    if is_secondary state || is_failover_promotion d cluster
    then record b { prepare_for_final_sync = false; run_final_sync = false }
    else b

-- updateVRGState: whether it updated.
unfoldable pub update_vrg_state : Env → String → ReplicationState → M Bool
unfolding switched_vrg
update_vrg_state e cluster state =
    try (get_vrg_from_manifest_work e cluster)
      (λ v.
        if replication_state_eqb v.replication_state state
        then pure false
        else get_drpc >>= λ d.
            update_manifest_work e cluster (switched_vrg e d cluster state v) >> pure true)
      (λ x. throw (wrap ("failed to update VRG state. ClusterName " +++ cluster +++ " (") x ")"))

-- updateVRGToPrepareForFinalSync.
unfoldable pub update_vrg_to_prepare_for_final_sync : Env → String → M (Unit {0})
unfolding update_vrg_optional_fields
update_vrg_to_prepare_for_final_sync e cluster =
    try (get_vrg_from_manifest_work e cluster)
      (λ v.
        if v.prepare_for_final_sync
        then pure tt
        else get_drpc >>= λ d. update_manifest_work e cluster (
            update_vrg_optional_fields e d cluster (assoc cluster e.vrgs)
              (record v { prepare_for_final_sync = true; run_final_sync = false })))
      (λ x. throw (wrap ("failed to update VRG state. ClusterName " +++ cluster +++ " (") x ")"))

-- updateVRGToRunFinalSync.
unfoldable pub update_vrg_to_run_final_sync : Env → String → M (Unit {0})
unfolding update_vrg_optional_fields
update_vrg_to_run_final_sync e cluster =
    try (get_vrg_from_manifest_work e cluster)
      (λ v.
        if v.run_final_sync
        then pure tt
        else get_drpc >>= λ d. update_manifest_work e cluster (
            update_vrg_optional_fields e d cluster (assoc cluster e.vrgs)
              (record v { run_final_sync = true; prepare_for_final_sync = false })))
      (λ x. throw (wrap ("failed to update VRG state. ClusterName " +++ cluster +++ " (") x ")"))

-- ensureVRGManifestWork.
unfoldable pub ensure_vrg_manifest_work : Env → String → M (Unit {0})
unfolding update_vrg_optional_fields
ensure_vrg_manifest_work e cluster =
    try (find_manifest_work e cluster)
      (λ v.
        if not (is_primary v.replication_state)
        then throw (
            errorf (
              "invalid update for VolumeReplicationGroup in "
              +++ replication_state_text v.replication_state
              +++ " spec.replicationState on cluster "
              +++ cluster))
        else maybe
            (throw (
              errorf (
                "missing VolumeReplicationGroup view for cluster " +++ cluster
                +++ ", while attempting to update an instance")))
            (λ view. get_drpc >>= λ d.
              update_vrg_manifest_work e cluster
                (update_vrg_optional_fields e d cluster (some view) v))
            (assoc cluster e.vrgs))
      (λ x.
        if is_not_found x.kind
        then throw (
            errorf
              ("failed to find ManifestWork for VolumeReplicationGroup from cluster " +++ cluster))
        else throw (
            wrap "error (" x
              (") in finding ManifestWork for VolumeReplicationGroup from cluster " +++ cluster)))

-- The loop of moveVRGToSecondaryEverywhere, with its count of failures.
unfoldable pub move_vrg_to_secondary : Env → List String → ℕ → M ℕ
unfolding update_vrg_state
move_vrg_to_secondary e [] failed_count = pure failed_count
move_vrg_to_secondary e (c ∷ cs) failed_count =
    try (update_vrg_state e c secondary) (λ _. move_vrg_to_secondary e cs failed_count)
      (λ x.
        move_vrg_to_secondary e cs (if is_not_found x.kind then failed_count else suc failed_count))

-- moveVRGToSecondaryEverywhere.
unfoldable pub move_vrg_to_secondary_everywhere : Env → M Bool
unfolding move_vrg_to_secondary
move_vrg_to_secondary_everywhere e =
    move_vrg_to_secondary e e.policy_clusters 0 >>= λ n. pure (eqb n 0)
