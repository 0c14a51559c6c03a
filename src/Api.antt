-- ===== src/Api.antt =====
-- The data of the API group: api/v1alpha1/drplacementcontrol_types.go,
-- volumereplicationgroup_types.go and drpolicy_types.go, with the fields that the modelled
-- controllers read or write. An enumeration has the source's constants; the empty string of an
-- optional one is the constructor that its comment names.
use ramen.Prelude.{ℕ, String, Bool, true, false, Option, List}
use ramen.Condition.{Condition}

-- ReplicationState.
pub data ReplicationState : Type 0 where
  primary secondary : ReplicationState

abbrev pub is_primary : ReplicationState → Bool
is_primary primary = true
is_primary secondary = false

abbrev pub is_secondary : ReplicationState → Bool
is_secondary primary = false
is_secondary secondary = true

abbrev pub replication_state_text : ReplicationState → String
replication_state_text primary = "primary"
replication_state_text secondary = "secondary"

-- State, the empty string as `unset_state`.
pub data State : Type 0 where
  primary_state secondary_state unknown_state unset_state : State

abbrev pub is_primary_state : State → Bool
is_primary_state primary_state = true
is_primary_state _ = false

abbrev pub is_secondary_state : State → Bool
is_secondary_state secondary_state = true
is_secondary_state _ = false

abbrev pub state_text : State → String
state_text primary_state = "Primary"
state_text secondary_state = "Secondary"
state_text unknown_state = "Unknown"
state_text unset_state = ""

-- DRAction and VRGAction: the same strings in two types, which the code converts into each
-- other. The empty string is `no_action`.
pub data Action : Type 0 where
  action_failover action_relocate no_action : Action

abbrev pub action_eqb : Action → Action → Bool
action_eqb action_failover action_failover = true
action_eqb action_relocate action_relocate = true
action_eqb no_action no_action = true
action_eqb _ _ = false

abbrev pub action_text : Action → String
action_text action_failover = "Failover"
action_text action_relocate = "Relocate"
action_text no_action = ""

-- DRState, the empty string as `no_phase`.
pub data DrState : Type 0 where
  wait_for_user initiating deploying deployed failing_over failed_over relocating relocated deleting
        no_phase :
      DrState

-- `string(phase)`.
abbrev pub phase_text : DrState → String
phase_text wait_for_user = "WaitForUser"
phase_text initiating = "Initiating"
phase_text deploying = "Deploying"
phase_text deployed = "Deployed"
phase_text failing_over = "FailingOver"
phase_text failed_over = "FailedOver"
phase_text relocating = "Relocating"
phase_text relocated = "Relocated"
phase_text deleting = "Deleting"
phase_text no_phase = ""

abbrev pub phase_eqb : DrState → DrState → Bool
phase_eqb wait_for_user wait_for_user = true
phase_eqb initiating initiating = true
phase_eqb deploying deploying = true
phase_eqb deployed deployed = true
phase_eqb failing_over failing_over = true
phase_eqb failed_over failed_over = true
phase_eqb relocating relocating = true
phase_eqb relocated relocated = true
phase_eqb deleting deleting = true
phase_eqb no_phase no_phase = true
phase_eqb _ _ = false

-- ProgressionStatus, the empty string as `no_progression`.
pub data Progression : Type 0 where
  completed creating_mw updating_pl_rule wait_for_readiness cleanup_readiness cleaning_up
        wait_on_user_to_clean_up checking_failover_prerequisites failing_over_to_cluster
        wait_for_fencing wait_for_storage_maintenance_activation preparing_final_sync
        clearing_placement running_final_sync final_sync_complete ensuring_volumes_are_secondary
        wait_on_global_action waiting_for_resource_restore updated_placement
        ensuring_secondary_setup settingup_volsync_dest deletion_progression deleted action_paused
        testing_failover no_progression :
      Progression

-- PeerClass.
pub record PeerClass : Type 0 where
  pub replication_id : String
  pub group_replication_id : String
  pub storage_id : List String
  pub storage_class_name : String
  pub cluster_ids : List String
  pub grouping : Bool
  pub offloaded : Bool
  pub global : Bool

-- ProtectedPVC.
pub record ProtectedPvc : Type 0 where
  pub namespace : String
  pub name : String
  pub storage_class_name : Option String
  pub protected_by_vol_sync : Bool
  pub storage_provisioner : String
  pub replication_id : String
  pub modes : List String

-- VolSyncReplicationDestinationInfo, with the address of its RsyncTLS, which the VRG controller
-- always sets.
pub record RdInfo : Type 0 where
  pub protected_pvc : ProtectedPvc
  pub address : String

-- VolSyncReplicationSourceSpec, with the two fields of its RsyncTLS.
pub record RsSpec : Type 0 where
  pub protected_pvc : ProtectedPvc
  pub address : String
  pub secret_name : String

-- The two fields of StorageIdentifiers and of ClusterMaintenanceMode that are compared, and the
-- conditions of the mode.
pub record ClusterMaintenanceMode : Type 0 where
  pub storage_provisioner : String
  pub target_id : String
  pub conditions : List Condition

-- DRCluster.
pub record DrCluster : Type 0 where
  pub name : String
  pub deleted : Bool
  pub generation : ℕ
  pub s3_profile_name : String
  pub conditions : List Condition
  pub maintenance_modes : List ClusterMaintenanceMode

-- VolumeReplicationGroup: spec, metadata and status.
pub record Vrg : Type 0 where
  pub generation : ℕ
  pub deleted : Bool
  pub annotations : List (String × String)
  pub labels : List (String × String)
  pub replication_state : ReplicationState
  pub action : Action
  pub dry_run : Bool
  pub prepare_for_final_sync : Bool
  pub run_final_sync : Bool
  pub protected_namespaces : Option (List String)
  pub vol_sync_disabled : Bool
  pub rd_spec : List ProtectedPvc
  pub rs_spec : List RsSpec
  pub sync : Option (List PeerClass)
  pub async : Option (List PeerClass)
  pub state : State
  pub observed_generation : ℕ
  pub conditions : List Condition
  pub protected_pvcs : List ProtectedPvc
  pub rd_info : List RdInfo
  pub prepare_for_final_sync_complete : Bool
  pub final_sync_complete : Bool
  pub last_update_time : ℕ

-- isVRGPrimary and isVRGSecondary.
unfoldable pub is_vrg_primary : Vrg → Bool
is_vrg_primary v = is_primary v.replication_state

unfoldable pub is_vrg_secondary : Vrg → Bool
is_vrg_secondary v = is_secondary v.replication_state
