-- ===== src/Drpc/Tests.antt =====
-- Runs of the DRPC's operations on a policy of two clusters, east and west.
pub mod Actions
pub mod Recovery
pub mod Protection
use ramen.Prelude.{
  Bool, ap, Option, ℕ, String, true, false, none, some, List, [], ◌∷◌, ◌≡◌, ◌≢◌, refl, ◌⊎◌,
  of_false_is_true, ◌≤◌, if◌then◌else◌, All, ◌==◌, eq_iff,
}
use ramen.Condition.{Condition, find_condition, condition_true}
use ramen.Api.{
  Vrg, ReplicationState, primary, secondary, State, primary_state, secondary_state, action_failover,
  action_relocate, no_action, Action, relocating, deployed, no_progression, DrCluster,
}
use ramen.Drpc.{
  Error, Drpc, Env, Hub, DrType, dr_type_sync, dr_type_async, Result, ok, err, errorf,
  ClusterDecision, placement, api_call,
}
use ramen.Drpc.Fields.{set_vrg_action, has_global_vgr_label, drpc_global_vgr_label}
use ramen.Drpc.Works.Demotion.{Coherent, move_vrg_to_secondary_everywhere-AllDemoted}
use ramen.Drpc.Works.{
  move_vrg_to_secondary_everywhere, find_manifest_work, update_manifest_work, update_vrg_state,
}
use ramen.Drpc.Fields.DryRun.{set_vrg_action_twice}
use ramen.Drpc.Views.{num_of_primaries, validate_and_select_current_primary}
use ramen.Drpc.Views.Primaries.{PrimaryIn, validate_and_select_current_primary-PrimaryIn}
use ramen.Drpc.Placement.{
  retain_cluster_decision_as_failover, update_user_placement_status_decision,
}
use ramen.Drpc.Placement.Decisions.{active_cluster, update_user_placement_status_decision-active}
use ramen.Drpc.Prerequisites.{check_failover_prerequisites, dry_run_ready_to_failover}
use ramen.Drpc.Prerequisites.DryRunLag.{HasProtected, InTime, dry_run_ready_to_failover-InTime}
use ramen.Drpc.Prerequisites.Fencing.{Fenced}
use ramen.Drpc.Consensus.{is_global_action_in_consensus, is_same_drpc}
use ramen.Drpc.Consensus.Agreement.{Agrees, is_global_action_in_consensus-Agrees}
use ramen.Drpc.Relocation.{switch_to_cluster, setup_relocation, relocate}
use ramen.Drpc.Relocation.Secondary.{OnOthers, Settled, Protected}
use ramen.Drpc.Relocation.Setup.{Named, setup_relocation-Settled}
use ramen.Drpc.Relocation.Switch.{relocate-Promotes}
use ramen.Drpc.Failover.{get_current_home_cluster_name, switch_to_failover_cluster}
use ramen.Drpc.Failover.Fence.{started, switch_to_failover_cluster-Fenced}
use ramen.Drpc.Effects.Promotion.{is_primary_at}

abbrev east : String
east = "east"

abbrev west : String
west = "west"

abbrev pub condition_of : String → ℕ → Condition
condition_of t generation = record {
  type = t;
  status = condition_true;
  observed_generation = generation;
  last_transition_time = 5;
  reason = "Ready";
  message = "Ready";
}

abbrev pub vrg_of : ReplicationState → State → Vrg
vrg_of spec status = record {
  generation = 3;
  deleted = false;
  annotations = [];
  labels = [];
  replication_state = spec;
  action = action_relocate;
  dry_run = false;
  prepare_for_final_sync = false;
  run_final_sync = true;
  protected_namespaces = none;
  vol_sync_disabled = false;
  rd_spec = [];
  rs_spec = [];
  sync = none;
  async = some [];
  state = status;
  observed_generation = 3;
  conditions = condition_of "DataProtected" 3 ∷ [];
  protected_pvcs = [];
  rd_info = [];
  prepare_for_final_sync_complete = true;
  final_sync_complete = true;
  last_update_time = 7;
}

abbrev pub drpc_of : String → Action → Drpc
drpc_of name action = record {
  name = name;
  namespace = "busybox";
  uid = "7f0c";
  generation = 2;
  annotations = [];
  labels = [];
  dr_action_count = none;
  preferred_cluster = "west";
  failover_cluster = "west";
  action = action;
  dry_run = false;
  protected_namespaces = none;
  phase = deployed;
  observed_generation = 1;
  progression = no_progression;
  preferred_decision = ("east", "east");
  conditions = condition_of "Protected" 2 ∷ [];
  action_start_time = none;
  action_duration = none;
  last_group_sync_time = some 400;
}

abbrev pub east_cluster : DrCluster
east_cluster = record {
  name = "east";
  deleted = false;
  generation = 4;
  s3_profile_name = "s3-east";
  conditions = condition_of "Fenced" 4 ∷ [];
  maintenance_modes = [];
}

abbrev view_of : String → Result Vrg
view_of c = if c == "east" then ok (vrg_of secondary secondary_state) else err (errorf "timeout")

abbrev env_of : DrType → Env
env_of t = record {
  now = 1000;
  dr_type = t;
  policy_clusters = "east" ∷ "west" ∷ [];
  policy_sync = [];
  policy_async = [];
  interval_seconds = some 300;
  dr_clusters = east_cluster ∷ [];
  vrgs = ("east", vrg_of primary primary_state) ∷ [];
  num_clusters_queried_successfully = 2;
  view = view_of;
  s3 = λ _. none;
  drpcs = ok (drpc_of "busybox" action_relocate ∷ drpc_of "mysql" action_relocate ∷ []);
  vol_sync_disabled = false;
  is_vm_recipe = false;
  sets_list = λ names. names;
  is_work_deleted = λ _. false;
  has_recipe = true;
  recipe_needs_update = λ _. ok true;
  is_recipe_work_equal = λ _. false;
  deep_equal = λ _ _. false;
  api = λ _. none;
}

abbrev hub_of : Action → Hub
hub_of action = record {
  drpc = drpc_of "busybox" action;
  works =
      ("east", vrg_of secondary secondary_state) ∷ ("west", vrg_of secondary secondary_state) ∷ [];
  user_placement = placement (
      record {
        is_excluded_from_backup = true;
        decisions = record { cluster_name = "east"; reason = "east" } ∷ [];
      }
      ∷ []);
  namespace_works = [];
  calls = 0;
  mcv_request_in_progress = false;
  requeue_after = 0;
}

abbrev async_env : Env
async_env = env_of dr_type_async

abbrev sync_env : Env
sync_env = env_of dr_type_sync

abbrev named : Named async_env.policy_clusters
named = (
  (λ p. of_false_is_true ((eq_iff "" east).1 p)),
  ((λ p. of_false_is_true ((eq_iff "" west).1 p)), tt),
)

setup_relocation-Settled_example :
    OnOthers (λ c. Settled (async_env.view c)) west async_env.policy_clusters
    × OnOthers (λ c. Protected (async_env.view c)) west async_env.policy_clusters
unfolding setup_relocation api_call find_condition
setup_relocation-Settled_example =
    setup_relocation-Settled async_env west named (hub_of action_relocate) refl

-- The hub before the relocation has no primary, and the one after it has.
relocate-Promotes_example :
    (is_primary_at west (hub_of action_relocate) ≡ true)
    ⊎ ((west ≡ west)
        × OnOthers (λ k. Settled (async_env.view k)) west async_env.policy_clusters
        × OnOthers (λ k. Protected (async_env.view k)) west async_env.policy_clusters)
unfolding relocate api_call find_condition find_manifest_work update_manifest_work
    has_global_vgr_label drpc_global_vgr_label
relocate-Promotes_example =
    relocate-Promotes async_env west west relocating named west (hub_of action_relocate) refl

switch_to_failover_cluster-Fenced_example :
    (is_primary_at west (hub_of action_failover) ≡ true)
    ⊎ ((west ≡ west)
        × (home : String) × ((get_current_home_cluster_name sync_env west
              (started sync_env (hub_of action_failover))).0
            ≡ ok home)
        × Fenced home sync_env.dr_clusters)
unfolding switch_to_failover_cluster api_call check_failover_prerequisites find_condition
    retain_cluster_decision_as_failover switch_to_cluster find_manifest_work update_vrg_state
    update_manifest_work has_global_vgr_label drpc_global_vgr_label
switch_to_failover_cluster-Fenced_example =
    switch_to_failover_cluster-Fenced sync_env refl west (hub_of action_failover) refl

is_global_action_in_consensus-Agrees_example :
    (action_relocate ≢ no_action)
    × (ds : List Drpc) × (async_env.drpcs ≡ ok ds)
    × All
        (λ o.
          is_same_drpc o (drpc_of "busybox" action_relocate) ≡ false
          → Agrees (drpc_of "busybox" action_relocate) o)
        ds
unfolding is_global_action_in_consensus
is_global_action_in_consensus-Agrees_example =
    is_global_action_in_consensus-Agrees async_env (drpc_of "busybox" action_relocate) refl

dry_run_ready_to_failover-InTime_example :
    HasProtected (condition_of "Protected" 2 ∷ []) × InTime 1000 (some 400) (some 300)
unfolding dry_run_ready_to_failover
dry_run_ready_to_failover-InTime_example =
    dry_run_ready_to_failover-InTime async_env (drpc_of "busybox" action_failover) refl

validate_and_select_current_primary-PrimaryIn_example :
    (west ≢ "")
    × (num_of_primaries async_env.vrgs ≤ 1)
    × ((east ≡ "") ⊎ PrimaryIn east async_env.vrgs)
unfolding validate_and_select_current_primary
validate_and_select_current_primary-PrimaryIn_example =
    validate_and_select_current_primary-PrimaryIn async_env west east refl

abbrev to_west : ClusterDecision
to_west = record { cluster_name = west; reason = west }

update_user_placement_status_decision-active_example :
    let (_, h) =
      update_user_placement_status_decision async_env (some to_west) (hub_of action_relocate) in
    active_cluster h.user_placement ≡ west
unfolding update_user_placement_status_decision api_call
update_user_placement_status_decision-active_example =
    update_user_placement_status_decision-active async_env (some to_west) (hub_of action_relocate)
      refl refl

set_vrg_action_twice_example :
    set_vrg_action
      (drpc_of "busybox" action_failover)
      (set_vrg_action (drpc_of "busybox" action_failover) (vrg_of primary primary_state))
    ≡ set_vrg_action (drpc_of "busybox" action_failover) (vrg_of primary primary_state)
set_vrg_action_twice_example =
    set_vrg_action_twice (drpc_of "busybox" action_failover) (vrg_of primary primary_state)

abbrev is_there : Option Error → Bool
is_there none = false
is_there (some x) = true

-- The application runs on east, and west has no ManifestWork.
abbrev deployed_hub : Hub
deployed_hub = record (hub_of action_relocate) {
  works = ("east", vrg_of primary primary_state) ∷ [];
}

abbrev coherent : Coherent async_env
coherent n x p = of_false_is_true (ap is_there p)

move_vrg_to_secondary_everywhere-AllDemoted_example :
    All
      (λ c. is_primary_at c (move_vrg_to_secondary_everywhere async_env deployed_hub).1 ≡ false)
      (east ∷ west ∷ [])
unfolding move_vrg_to_secondary_everywhere api_call find_manifest_work update_manifest_work
    has_global_vgr_label drpc_global_vgr_label
move_vrg_to_secondary_everywhere-AllDemoted_example =
    move_vrg_to_secondary_everywhere-AllDemoted async_env deployed_hub coherent refl
