-- ===== src/Drpc/Fields.antt =====
-- What a DRPC writes into a VRG: setVRGAnnotations, setVRGSpecFields, setVRGAction and the DR type
-- spec of internal/controller/drplacementcontrol.go, with newVRG. The label, selector, S3 profile,
-- kube object, mover and static IP fields that no other function here reads are left out.
pub mod DryRun
use ramen.Prelude.{
  String, Bool, true, false, not, ◌&&◌, ◌||◌, Option, none, some, List, [], ◌∷◌, ◌==◌,
  if◌then◌else◌, put, assoc_or_empty,
}
use ramen.Api.{
  Action, action_failover, no_action, action_eqb, ReplicationState, PeerClass, Vrg, unset_state,
}
use ramen.PeerClass.{update_peers}
use ramen.Drpc.{Drpc, Env, DrType, dr_type_sync, dr_type_async}

abbrev pub is_cg_enabled_annotation : String
is_cg_enabled_annotation = "drplacementcontrol.ramendr.openshift.io/is-cg-enabled"

abbrev pub is_submariner_enabled_annotation : String
is_submariner_enabled_annotation = "drplacementcontrol.ramendr.openshift.io/is-submariner-enabled"

abbrev pub use_vol_sync_annotation : String
use_vol_sync_annotation = "drplacementcontrol.ramendr.openshift.io/use-volsync-for-pvc-protection"

abbrev pub enable_diff_annotation : String
enable_diff_annotation = "drplacementcontrol.ramendr.openshift.io/enable-diff"

abbrev pub destination_cluster_annotation_key : String
destination_cluster_annotation_key = "drplacementcontrol.ramendr.openshift.io/destination-cluster"

abbrev pub drpc_uid_annotation : String
drpc_uid_annotation = "drplacementcontrol.ramendr.openshift.io/drpc-uid"

abbrev pub drpc_test_failover_dry_run_annotation : String
drpc_test_failover_dry_run_annotation =
    "drplacementcontrol.ramendr.openshift.io/test-failover-dryrun"

abbrev pub created_by_ramen_label : String
created_by_ramen_label = "ramendr.openshift.io/created-by-ramen"

abbrev pub global_vgr_label : String
global_vgr_label = "ramendr.openshift.io/global-vgr"

-- (*DRPCInstance).globalVGRLabel and hasGlobalVGRLabel.
unfoldable pub drpc_global_vgr_label : Drpc → String
drpc_global_vgr_label d = assoc_or_empty global_vgr_label d.labels

unfoldable pub has_global_vgr_label : Drpc → Bool
has_global_vgr_label d = not (drpc_global_vgr_label d == "")

-- isDiscoveredApp.
unfoldable pub is_discovered_app : Drpc → Bool
is_discovered_app d = elim d.protected_namespaces [
  | none ↦ false
  | some ns ↦ elim ns [ [] ↦ false | _ ∷ _ ↦ true ]
]

unfoldable pub set_vrg_annotations : Drpc → String → Vrg → Vrg
set_vrg_annotations d home_cluster v =
    let base : List (String × String) =
      (destination_cluster_annotation_key, home_cluster)
      ∷ (drpc_uid_annotation, d.uid)
      ∷ (is_cg_enabled_annotation, assoc_or_empty is_cg_enabled_annotation d.annotations)
      ∷ (
        is_submariner_enabled_annotation,
        assoc_or_empty is_submariner_enabled_annotation d.annotations,
      )
      ∷ (use_vol_sync_annotation, assoc_or_empty use_vol_sync_annotation d.annotations)
      ∷ (enable_diff_annotation, assoc_or_empty enable_diff_annotation d.annotations)
      ∷ [] in
    let dry_run_value =
      if d.dry_run && home_cluster == d.failover_cluster
      then assoc_or_empty drpc_test_failover_dry_run_annotation d.annotations
      else "false" in
    let a = record v {
      annotations = put drpc_test_failover_dry_run_annotation dry_run_value base;
    } in
    if has_global_vgr_label d
    then record a { labels = put global_vgr_label (drpc_global_vgr_label d) a.labels }
    else a

-- setVRGAction; vrgAction maps each action to the same string.
unfoldable pub set_vrg_action : Drpc → Vrg → Vrg
set_vrg_action d v =
    let a =
      if action_eqb v.action action_failover || v.dry_run
      then record v { dry_run = d.dry_run }
      else v in
    if action_eqb d.action no_action
    then a
    else let b = record a { action = d.action } in
      if action_eqb d.action action_failover then record b { dry_run = d.dry_run } else b

unfoldable pub set_vrg_spec_fields : Env → Drpc → Vrg → Vrg
unfolding set_vrg_action
set_vrg_spec_fields e d v = set_vrg_action d (record v {
  protected_namespaces = d.protected_namespaces;
  vol_sync_disabled = e.vol_sync_disabled;
})

-- The peer classes that updateVRGAsyncSpec and updateVRGSyncSpec leave in the VRG.
unfoldable pub updated_peer_classes :
    List PeerClass → Bool → Vrg → Option (List PeerClass) → List PeerClass
updated_peer_classes [] cg view none = []
updated_peer_classes [] cg view (some old) = old
updated_peer_classes (p ∷ ps) cg view none = p ∷ ps
updated_peer_classes (p ∷ ps) cg view (some old) = update_peers view old (p ∷ ps) cg

unfoldable pub update_vrg_async_spec : Env → Drpc → Vrg → Vrg → Vrg
unfolding updated_peer_classes
update_vrg_async_spec e d view v =
    let cg = assoc_or_empty is_cg_enabled_annotation d.annotations == "true" in
    record v { async = some (updated_peer_classes e.policy_async cg view v.async) }

unfoldable pub update_vrg_sync_spec : Env → Vrg → Vrg → Vrg
unfolding updated_peer_classes
update_vrg_sync_spec e view v = record v {
  sync = some (updated_peer_classes e.policy_sync false view v.sync);
}

unfoldable pub update_vrg_dr_type_spec : DrType → Env → Drpc → Vrg → Vrg → Vrg
unfolding update_vrg_sync_spec update_vrg_async_spec
update_vrg_dr_type_spec dr_type_sync e d view v = update_vrg_sync_spec e view v
update_vrg_dr_type_spec dr_type_async e d view v = update_vrg_async_spec e d view v

unfoldable pub new_vrg_dr_type_spec : DrType → Env → Vrg → Vrg
new_vrg_dr_type_spec dr_type_sync e v = record v { sync = some e.policy_sync }
new_vrg_dr_type_spec dr_type_async e v = record v { async = some e.policy_async }

unfoldable pub update_vrg_dr_type_spec_if_needed : Env → Drpc → Option Vrg → Vrg → Vrg
unfolding update_vrg_dr_type_spec new_vrg_dr_type_spec
update_vrg_dr_type_spec_if_needed e d none v = new_vrg_dr_type_spec e.dr_type e v
update_vrg_dr_type_spec_if_needed e d (some view) v = update_vrg_dr_type_spec e.dr_type e d view v

unfoldable pub update_vrg_optional_fields : Env → Drpc → String → Option Vrg → Vrg → Vrg
unfolding set_vrg_annotations set_vrg_spec_fields update_vrg_dr_type_spec_if_needed
update_vrg_optional_fields e d home_cluster view v =
    update_vrg_dr_type_spec_if_needed e d view
      (set_vrg_spec_fields e d (set_vrg_annotations d home_cluster v))

-- The VRG of newVRG before its fields are filled.
abbrev pub empty_vrg : ReplicationState → Vrg
empty_vrg rep_state = record {
  generation = 0;
  deleted = false;
  annotations = [];
  labels = (created_by_ramen_label, "true") ∷ [];
  replication_state = rep_state;
  action = no_action;
  dry_run = false;
  prepare_for_final_sync = false;
  run_final_sync = false;
  protected_namespaces = none;
  vol_sync_disabled = false;
  rd_spec = [];
  rs_spec = [];
  sync = none;
  async = none;
  state = unset_state;
  observed_generation = 0;
  conditions = [];
  protected_pvcs = [];
  rd_info = [];
  prepare_for_final_sync_complete = false;
  final_sync_complete = false;
  last_update_time = 0;
}

unfoldable pub new_vrg : Env → Drpc → String → ReplicationState → Option Vrg → Vrg
unfolding update_vrg_optional_fields
new_vrg e d dst_cluster rep_state view =
    update_vrg_optional_fields e d dst_cluster view (empty_vrg rep_state)
