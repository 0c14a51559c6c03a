-- ===== src/Drpc/Cleanup.antt =====
-- The end of an action: ensureActionTransition, ensurePlacement, EnsureCleanup and what they call,
-- of internal/controller/drplacementcontrol.go. An update of the DRPC writes what is in memory,
-- and what the API answers is taken to be what was sent. ResetVMStaticIPSpecOnPrimary, whose
-- error is only logged and whose fields the model does not have, is left out.
pub mod Frames
pub mod Steps
pub mod Ready
pub mod Promotion
use ramen.Prelude.{
  String, Bool, true, false, not, ◌&&◌, ◌||◌, Option, none, some, List, [], ◌∷◌, ◌==◌, eqb, length,
  if◌then◌else◌, assoc, put, select, ◌+++◌,
}
use ramen.Condition.{
  Condition, ConditionStatus, condition_true, condition_false, status_eqb, find_condition,
}
use ramen.Api.{
  secondary, is_secondary, Vrg, no_action, action_eqb, action_text, cleaning_up, completed,
}
use ramen.Drpc.{
  Drpc, Env, M, Error, errorf, wrap, is_not_found, pure, throw, ◌>>=◌, ◌>>◌, try, maybe, get_drpc,
  modify_drpc, api_call,
}
use ramen.Drpc.Fields.{is_discovered_app, drpc_test_failover_dry_run_annotation}
use ramen.Drpc.Status.{
  set_progression, set_condition, condition_peer_ready, update_preferred_decision,
  set_action_duration,
}
use ramen.Drpc.Works.{update_vrg_state, ensure_vrg_manifest_work}
use ramen.Drpc.Placement.{
  get_cluster_decision, update_user_placement_rule, remove_cluster_decision_for_failover,
}
use ramen.Drpc.Progress.{last_app_deployment_cluster, set_discovered_app_gc_progression}
use ramen.Drpc.Relocation.{ensure_vrg_is_secondary_on_cluster}
use ramen.Drpc.Replication.{ensure_secondary_replication_setup, reset_vol_sync_rd_on_primary}

abbrev pub drpc_last_action : String
drpc_last_action = "drplacementcontrol.ramendr.openshift.io/last-action"

-- HasAnnotation.
unfoldable pub has_annotation : String → Drpc → Bool
has_annotation key d = elim (assoc key d.annotations) [ none ↦ false | some v ↦ true ]

-- AddAnnotation: whether it adds, and the DRPC after it.
unfoldable pub is_annotation_added : String → String → Drpc → Bool
is_annotation_added key value d = elim (assoc key d.annotations) [
  | none ↦ true
  | some v ↦ not (v == value)
]

unfoldable pub add_annotation : String → String → Drpc → Drpc
unfolding is_annotation_added
add_annotation key value d =
    if is_annotation_added key value d
    then record d { annotations = put key value d.annotations }
    else d

-- The annotations of ensurePlacement: whether any is added, and the DRPC after it.
unfoldable pub annotate_placement : String → Drpc → Bool × Drpc
unfolding add_annotation is_annotation_added
annotate_placement home_cluster d =
    let a = add_annotation last_app_deployment_cluster home_cluster d in
    let added = is_annotation_added last_app_deployment_cluster home_cluster d in
    if not d.dry_run
    then (
      is_annotation_added drpc_last_action (action_text d.action) a || added,
      add_annotation drpc_last_action (action_text d.action) a,
    )
    else (added, a)

unfoldable pub save_if : Env → Bool → M (Unit {0})
save_if e added = if added then api_call e else pure tt

-- ensurePlacement.
unfoldable pub ensure_placement : Env → String → M (Unit {0})
unfolding annotate_placement save_if get_cluster_decision update_user_placement_rule
    update_preferred_decision
ensure_placement e home_cluster = get_drpc >>= λ d.
    modify_drpc (λ c. (annotate_placement home_cluster c).1)
    >> save_if e (annotate_placement home_cluster d).0
    >> get_cluster_decision e
    >>= λ decision.
        if decision.cluster_name == "" || not (home_cluster == decision.cluster_name)
        then modify_drpc update_preferred_decision
          >> update_user_placement_rule e home_cluster home_cluster
        else pure tt

-- The checks of cleanupSecondary on the VRG seen on the cluster, once it is secondary in its
-- ManifestWork.
unfoldable pub note_gc : Env → String → Drpc → Drpc
unfolding set_discovered_app_gc_progression
note_gc e cluster d =
    if is_discovered_app d then set_discovered_app_gc_progression e cluster d else d

unfoldable pub cleanup_seen : Env → String → String → Option Vrg → M Bool
unfolding note_gc remove_cluster_decision_for_failover ensure_vrg_is_secondary_on_cluster
cleanup_seen e cluster cluster_to_skip none = get_drpc >>= λ d. pure (action_eqb d.action no_action)
cleanup_seen e cluster cluster_to_skip (some v) =
    if not (is_secondary v.replication_state) || not (eqb v.observed_generation v.generation)
    then pure false
    else remove_cluster_decision_for_failover e cluster
      >> modify_drpc (note_gc e cluster_to_skip)
      >> ensure_vrg_is_secondary_on_cluster e cluster

-- cleanupSecondary.
unfoldable pub recreate_secondary : Env → String → Error → M (Unit {0})
recreate_secondary e cluster_to_skip x =
    if is_not_found x.kind then ensure_secondary_replication_setup e cluster_to_skip else pure tt

unfoldable pub cleanup_secondary : Env → String → String → M Bool
unfolding update_vrg_state cleanup_seen recreate_secondary
cleanup_secondary e cluster cluster_to_skip =
    try (update_vrg_state e cluster secondary)
      (λ just_updated.
        if just_updated
        then pure false
        else cleanup_seen e cluster cluster_to_skip (assoc cluster e.vrgs))
      (λ x. recreate_secondary e cluster_to_skip x >> pure false)

-- The loop of cleanupSecondaries.
unfoldable pub cleanup_each : Env → String → List String → M (Unit {0})
unfolding cleanup_secondary
cleanup_each e cluster_to_skip [] = pure tt
cleanup_each e cluster_to_skip (c ∷ cs) =
    let rest = cleanup_each e cluster_to_skip cs in
    if cluster_to_skip == c
    then rest
    else cleanup_secondary e c cluster_to_skip >>= λ peers_ready.
        if not peers_ready then throw (errorf "still waiting for peer to be ready") else rest

-- `delete(d.instance.Annotations, key)`.
unfoldable pub delete_annotation : String → Drpc → Drpc
delete_annotation key d = record d { annotations = select (λ a. not (a.0 == key)) d.annotations }

unfoldable pub remove_test_failover_annotation : Env → M (Unit {0})
unfolding has_annotation delete_annotation
remove_test_failover_annotation e = get_drpc >>= λ d.
    if has_annotation drpc_test_failover_dry_run_annotation d
    then modify_drpc (delete_annotation drpc_test_failover_dry_run_annotation)
      >> try (api_call e) (λ u. pure u)
          (λ x. throw (wrap "failed to remove test failover annotation: " x ""))
    else pure tt

-- cleanupSecondaries.
unfoldable pub set_peer_ready : Env → Drpc → Drpc
unfolding set_condition
set_peer_ready e = set_condition e.now condition_peer_ready condition_true "Success" "Ready"

unfoldable pub cleanup_secondaries : Env → String → M (Unit {0})
unfolding cleanup_each set_peer_ready remove_test_failover_annotation
cleanup_secondaries e cluster_to_skip =
    cleanup_each e cluster_to_skip e.policy_clusters
    >> modify_drpc (set_peer_ready e)
    >> remove_test_failover_annotation e

-- The condition of EnsureCleanup: added where it is missing, and read.
unfoldable pub start_cleanup_check : Env → Drpc → Drpc
unfolding set_condition
start_cleanup_check e d = elim (find_condition d.conditions condition_peer_ready) [
  | some c ↦ d
  | none ↦
      set_condition e.now condition_peer_ready condition_false "Progressing"
        "Starting cleanup check" d
]

unfoldable pub is_peer_ready : Drpc → Bool
is_peer_ready d = elim (find_condition d.conditions condition_peer_ready) [
  | none ↦ false
  | some c ↦
      c.reason == "Success"
      && status_eqb c.status condition_true
      && eqb c.observed_generation d.generation
]

-- EnsureCleanup.
unfoldable pub ensure_cleanup : Env → String → M (Unit {0})
unfolding start_cleanup_check is_peer_ready cleanup_secondaries
ensure_cleanup e cluster_to_skip = modify_drpc (start_cleanup_check e) >> get_drpc >>= λ d.
    if is_peer_ready d then pure tt else cleanup_secondaries e cluster_to_skip

-- ensureCleanupAndSecondaryReplicationSetup.
unfoldable pub has_rd_spec : Vrg → Bool
has_rd_spec v = not (eqb (length v.rd_spec) 0)

abbrev pub waiting_for_rd_spec : String → Error
waiting_for_rd_spec cluster =
    errorf ("waiting for RDSpec count on cluster " +++ cluster +++ " to go to zero")

unfoldable pub ensure_cleanup_and_secondary_replication_setup : Env → String → M (Unit {0})
unfolding reset_vol_sync_rd_on_primary ensure_cleanup ensure_secondary_replication_setup
ensure_cleanup_and_secondary_replication_setup e src_cluster =
    reset_vol_sync_rd_on_primary e src_cluster
    >> maybe (throw (waiting_for_rd_spec src_cluster))
        (λ v.
          if has_rd_spec v
          then throw (waiting_for_rd_spec src_cluster)
          else ensure_cleanup e src_cluster >> ensure_secondary_replication_setup e src_cluster)
        (assoc src_cluster e.vrgs)

-- ensureActionTransition.
unfoldable pub complete_action : Env → Drpc → Drpc
unfolding set_progression set_action_duration
complete_action e d = set_action_duration e.now (set_progression completed d)

unfoldable pub ensure_action_transition : Env → String → M Bool
unfolding ensure_vrg_manifest_work ensure_placement ensure_cleanup_and_secondary_replication_setup
    complete_action
ensure_action_transition e src_cluster =
    modify_drpc (set_progression cleaning_up)
    >> ensure_vrg_manifest_work e src_cluster
    >> ensure_placement e src_cluster
    >> ensure_cleanup_and_secondary_replication_setup e src_cluster
    >> modify_drpc (complete_action e)
    >> pure true
