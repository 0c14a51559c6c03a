-- ===== src/Drpc/Protected.antt =====
-- The condition Protected of a DRPC: internal/controller/protected_condition.go. Each check answers
-- the DRPC with its condition updated, or `none` where the code answers that it has not updated
-- it. meta.FindStatusCondition is the parameter `find`. Of the VRG, its namespace and name and the
-- time of its last group sync, which nothing else reads, are parameters beside it.
pub mod Findings
pub mod Reports
pub mod Checks
use ramen.Prelude.{
  ℕ, String, Bool, true, false, not, ◌&&◌, ◌||◌, Option, none, some, List, ◌==◌, eqb, if◌then◌else◌,
  assoc_or_empty, ◌+++◌,
}
use ramen.Condition.{
  Condition, ConditionStatus, condition_true, condition_false, condition_unknown, status_eqb,
}
use ramen.Api.{
  ReplicationState, primary, secondary, is_primary, replication_state_text, State, primary_state,
  secondary_state, state_text, Vrg, action_failover, action_eqb, PeerClass,
}
use ramen.Drpc.{Drpc}
use ramen.Drpc.Fields.{global_vgr_label}
use ramen.Drpc.Status.{set_condition, condition_protected}

-- getStatusStateFromSpecState.
abbrev pub status_state : ReplicationState → State
status_state primary = primary_state
status_state secondary = secondary_state

-- isVRGReasonError.
unfoldable pub is_vrg_reason_error : Condition → Bool
is_vrg_reason_error c =
    c.reason == "Error"
    || c.reason == "UnknownError"
    || c.reason == "UploadError"
    || c.reason == "AnnotationFailed"
    || c.reason == "ClusterDataConflictPrimary"
    || c.reason == "ClusterDataConflictSecondary"

-- The order of the checks: the first that updates the condition ends them.
abbrev pub or_check : Option Drpc → Option Drpc → Option Drpc
or_check none o = o
or_check (some d) o = some d

abbrev pub is_async : Option (List PeerClass) → Bool
is_async none = false
is_async (some classes) = true

abbrev pub is_unset : Option ℕ → Bool
is_unset none = true
is_unset (some t) = false

module _ (find : List Condition → String → Option Condition) (now : ℕ) (vrg_name : String)
    (last_group_sync_time : Option ℕ) (v : Vrg) (cluster_name : String) where
  abbrev pub vrg_text : String
  vrg_text = "VolumeReplicationGroup (" +++ vrg_name +++ ") on cluster " +++ cluster_name

  unfoldable pub updated : ConditionStatus → String → String → Drpc → Option Drpc
  unfolding set_condition
  updated status reason msg d =
      some (set_condition now condition_protected status reason (vrg_text +++ msg) d)

  -- genericUpdateProtectedForCondition.
  unfoldable pub generic_of :
      String → String → String → String → Drpc → Option Condition → Option Drpc
  unfolding updated is_vrg_reason_error
  generic_of name msg_unknown msg_progressing msg_error d none =
      updated condition_unknown "Unknown"
        (" is not reporting any status about " +++ msg_unknown +++ ", retrying till " +++ name
          +++ " condition is met")
        d
  generic_of name msg_unknown msg_progressing msg_error d (some c) =
      if status_eqb c.status condition_true && eqb c.observed_generation v.generation
      then none
      else if not (eqb c.observed_generation v.generation) || status_eqb c.status condition_unknown
      then updated condition_unknown "Unknown"
          (" is not reporting any status about " +++ msg_unknown +++ ", retrying till " +++ name
            +++ " condition is met")
          d
      else if is_vrg_reason_error c
      then updated condition_false "Error"
          (" is reporting errors (" +++ c.message +++ ") " +++ msg_error +++ ", retrying till "
            +++ name +++ " condition is met")
          d
      else updated condition_false "Progressing"
          (" is progressing on " +++ msg_progressing +++ " (" +++ c.message +++ "), retrying till "
            +++ name +++ " condition is met")
          d

  unfoldable pub generic_update_protected_for_condition :
      String → String → String → String → Drpc → Option Drpc
  unfolding generic_of
  generic_update_protected_for_condition name msg_unknown msg_progressing msg_error d =
      generic_of name msg_unknown msg_progressing msg_error d (find v.conditions name)

  -- updateVRGHooksReady.
  unfoldable pub hooks_ready_of : Drpc → Option Condition → Option Drpc
  unfolding updated
  hooks_ready_of d none = none
  hooks_ready_of d (some c) =
      if not (eqb c.observed_generation v.generation)
      then none
      else if status_eqb c.status condition_true
      then none
      else if status_eqb c.status condition_false && c.reason == "HookFailed"
      then updated condition_false "Error" (" hook execution failed: " +++ c.message) d
      else none

  unfoldable pub update_vrg_hooks_ready : Drpc → Option Drpc
  unfolding hooks_ready_of
  update_vrg_hooks_ready d = hooks_ready_of d (find v.conditions "HooksReady")

  -- updateVRGClusterDataReady and updateVRGClusterDataProtected.
  unfoldable pub update_vrg_cluster_data_ready : Drpc → Option Drpc
  unfolding generic_update_protected_for_condition
  update_vrg_cluster_data_ready d =
      if not (is_primary v.replication_state)
      then none
      else generic_update_protected_for_condition "ClusterDataReady" "workload resources readiness"
          "restoring workload resources" "restoring workload resources" d

  unfoldable pub update_vrg_cluster_data_protected : Drpc → Option Drpc
  unfolding generic_update_protected_for_condition
  update_vrg_cluster_data_protected d =
      if not (is_primary v.replication_state)
      then none
      else generic_update_protected_for_condition "ClusterDataProtected"
          "workload resource protection" "protecting workload resources"
          "protecting workload resources" d

  -- updateVRGDestinationInfoAvailable.
  unfoldable pub destination_info_of : Drpc → Option Condition → Option Drpc
  unfolding generic_update_protected_for_condition
  destination_info_of d none = none
  destination_info_of d (some c) =
      if status_eqb c.status condition_true && eqb c.observed_generation v.generation
      then none
      else generic_update_protected_for_condition "DestinationInfoAvailable"
          "destination info availability" "waiting for destination info" "destination info" d

  unfoldable pub update_vrg_destination_info_available : Drpc → Option Drpc
  unfolding destination_info_of
  update_vrg_destination_info_available d =
      destination_info_of d (find v.conditions "DestinationInfoAvailable")

  -- updateVRGDataReadyAsPrimary and updateVRGDataReadyAsSecondary.
  unfoldable pub update_vrg_data_ready_as_primary : Drpc → Option Drpc
  unfolding generic_update_protected_for_condition
  update_vrg_data_ready_as_primary =
      generic_update_protected_for_condition "DataReady" "workload data readiness"
        "readying workload data" "readying workload data"

  unfoldable pub data_ready_of : Drpc → Option Condition → Option Drpc
  unfolding generic_update_protected_for_condition
  data_ready_of d none = none
  data_ready_of d (some c) =
      if eqb c.observed_generation v.generation
        && status_eqb c.status condition_false
        && c.reason == "Replicating"
        && is_async v.async
        && action_eqb v.action action_failover
      then none
      else generic_update_protected_for_condition "DataReady" "workload data readiness"
          "readying workload data" "readying workload data" d

  unfoldable pub update_vrg_data_ready_as_secondary : Drpc → Option Drpc
  unfolding data_ready_of
  update_vrg_data_ready_as_secondary d = data_ready_of d (find v.conditions "DataReady")

  -- updateVRGDataProtectedAsPrimary and updateVRGDataProtectedAsSecondary.
  unfoldable pub data_protected_generic : Drpc → Option Drpc
  unfolding generic_update_protected_for_condition
  data_protected_generic =
      generic_update_protected_for_condition "DataProtected" "workload data protection"
        "protecting workload data" "protecting workload data"

  unfoldable pub data_protected_primary_of : Drpc → Option Condition → Option Drpc
  unfolding data_protected_generic
  data_protected_primary_of d none = data_protected_generic d
  data_protected_primary_of d (some c) =
      if eqb c.observed_generation v.generation
        && (c.reason == "Replicating" && status_eqb c.status condition_false
            || status_eqb c.status condition_true)
      then none
      else data_protected_generic d

  unfoldable pub update_vrg_data_protected_as_primary : Drpc → Option Drpc
  unfolding data_protected_primary_of
  update_vrg_data_protected_as_primary d =
      data_protected_primary_of d (find v.conditions "DataProtected")

  unfoldable pub data_protected_secondary_of : Drpc → Option Condition → Option Drpc
  unfolding data_protected_generic
  data_protected_secondary_of d none = none
  data_protected_secondary_of d (some c) = data_protected_generic d

  unfoldable pub update_vrg_data_protected_as_secondary : Drpc → Option Drpc
  unfolding data_protected_secondary_of
  update_vrg_data_protected_as_secondary d =
      data_protected_secondary_of d (find v.conditions "DataProtected")

  -- updateDRPCProtectedForReplicationState.
  unfoldable pub for_replication_state : Drpc → ReplicationState → Option Drpc
  unfolding update_vrg_data_ready_as_primary update_vrg_data_protected_as_primary
      update_vrg_data_ready_as_secondary update_vrg_data_protected_as_secondary
  for_replication_state d primary =
      or_check (update_vrg_data_ready_as_primary d) (update_vrg_data_protected_as_primary d)
  for_replication_state d secondary =
      or_check (update_vrg_data_ready_as_secondary d) (update_vrg_data_protected_as_secondary d)

  -- updateVRGNoClusterDataConflict.
  unfoldable pub update_vrg_no_cluster_data_conflict : Drpc → Option Drpc
  unfolding generic_update_protected_for_condition
  update_vrg_no_cluster_data_conflict =
      generic_update_protected_for_condition "NoClusterDataConflict" "workload data protection"
        "checking for workload data conflict" "conflicting workload data"

  -- updateMiscVRGStatus.
  unfoldable pub update_misc_vrg_status : Drpc → Option Drpc
  unfolding updated
  update_misc_vrg_status d =
      let as_state = replication_state_text v.replication_state in
      if not (eqb v.observed_generation v.generation)
      then updated condition_false "Unknown"
          (" is not reporting status for current generation as " +++ as_state
            +++ ", retrying till status is met")
          d
      else if not (state_text v.state == state_text (status_state v.replication_state))
      then updated condition_false "Progressing"
          (" is not reporting status as " +++ as_state +++ ", retrying till status is met") d
      else if is_async v.async
          && assoc_or_empty global_vgr_label v.labels == ""
          && is_unset last_group_sync_time
      then updated condition_false "Progressing"
          (" is not reporting any lastGroupSyncTime as " +++ as_state
            +++ ", retrying till status is met")
          d
      else none

  -- updateDRPCProtectedCondition.
  unfoldable pub checks : Drpc → Option Drpc
  unfolding update_vrg_hooks_ready update_vrg_cluster_data_ready for_replication_state
      update_vrg_destination_info_available update_vrg_no_cluster_data_conflict
      update_misc_vrg_status update_vrg_cluster_data_protected
  checks d = or_check (update_vrg_hooks_ready d) (
      or_check (update_vrg_cluster_data_ready d) (
        or_check (for_replication_state d v.replication_state) (
          or_check (update_vrg_destination_info_available d) (
            or_check (update_vrg_no_cluster_data_conflict d)
              (or_check (update_misc_vrg_status d) (update_vrg_cluster_data_protected d))))))

  unfoldable pub protected_or : Drpc → Option Drpc → Drpc
  unfolding set_condition
  protected_or d none =
      set_condition now condition_protected condition_true "Protected"
        (vrg_text +++ " is protecting required resources and data") d
  protected_or d (some updated_drpc) = updated_drpc

  unfoldable pub update_drpc_protected_condition : Drpc → Drpc
  unfolding checks protected_or
  update_drpc_protected_condition d = protected_or d (checks d)

-- updateProtectedConditionUnknown.
unfoldable pub update_protected_condition_unknown : ℕ → String → Drpc → Drpc
unfolding set_condition
update_protected_condition_unknown now cluster_name =
    set_condition now condition_protected condition_unknown "Unknown"
      ("Missing VolumeReplicationGroup status from cluster " +++ cluster_name)

-- updateDRPCReplicationHealthyCondition; meta.RemoveStatusCondition is the parameter `remove`.
abbrev pub condition_replication_healthy : String
condition_replication_healthy = "ReplicationHealthy"

unfoldable pub replication_healthy_of :
    (List Condition → String → List Condition) → ℕ → Drpc → Option Condition → Drpc
unfolding set_condition
replication_healthy_of remove now d none = record d {
  conditions = remove d.conditions condition_replication_healthy;
}
replication_healthy_of remove now d (some c) =
    set_condition now condition_replication_healthy c.status c.reason c.message d

unfoldable pub update_drpc_replication_healthy_condition :
    (List Condition → String → Option Condition)
    → (List Condition → String → List Condition)
    → ℕ
    → Vrg
    → Drpc
    → Drpc
unfolding replication_healthy_of
update_drpc_replication_healthy_condition find remove now v d =
    replication_healthy_of remove now d (find v.conditions "ReplicationHealthy")
