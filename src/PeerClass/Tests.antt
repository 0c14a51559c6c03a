-- ===== src/PeerClass/Tests.antt =====
-- Runs of the peer class functions on a policy with two storage classes.
use ramen.Prelude.{
  String, true, false, none, some, List, [], ◌∷◌, ◌++◌, ◌≡◌, ◌↔◌, refl, eq_iff, of_false_is_true,
  length,
}
use ramen.Api.{PeerClass, ProtectedPvc, Vrg, primary, no_action, unset_state}
use ramen.PeerClass.{equal_cluster_id_slices, has_peer_class, update_peers}
use ramen.PeerClass.Clusters.{Within, equal_cluster_id_slices_iff}
use ramen.PeerClass.Merge.{KeepsSchemes, update_peers-KeepsSchemes}
use ramen.PeerClass.Coverage.{update_peers-covers}

abbrev east_west : List String
east_west = "east" ∷ "west" ∷ []

abbrev west_east : List String
west_east = "west" ∷ "east" ∷ []

abbrev rbd : String
rbd = "rbd"

abbrev cephfs : String
cephfs = "cephfs"

abbrev peer_class_of : String → String → PeerClass
peer_class_of class id = record {
  replication_id = id;
  group_replication_id = "";
  storage_id = "s1" ∷ "s2" ∷ [];
  storage_class_name = class;
  cluster_ids = east_west;
  grouping = false;
  offloaded = false;
  global = false;
}

abbrev pvc : ProtectedPvc
pvc = record {
  namespace = "busybox";
  name = "data";
  storage_class_name = some rbd;
  protected_by_vol_sync = false;
  storage_provisioner = "rbd.csi.ceph.com";
  replication_id = "r1";
  modes = [];
}

abbrev view : Vrg
view = record {
  generation = 1;
  deleted = false;
  annotations = [];
  labels = [];
  replication_state = primary;
  action = no_action;
  dry_run = false;
  prepare_for_final_sync = false;
  run_final_sync = false;
  protected_namespaces = none;
  vol_sync_disabled = false;
  rd_spec = [];
  rs_spec = [];
  sync = none;
  async = none;
  state = unset_state;
  observed_generation = 1;
  conditions = [];
  rd_info = [];
  protected_pvcs = pvc ∷ [];
  prepare_for_final_sync_complete = false;
  final_sync_complete = false;
  last_update_time = 0;
}

equal_cluster_id_slices_iff_example : (equal_cluster_id_slices east_west west_east ≡ true) ↔ (
    (length east_west ≡ length west_east) × Within east_west west_east × Within west_east east_west)
equal_cluster_id_slices_iff_example = equal_cluster_id_slices_iff east_west west_east

update_peers-KeepsSchemes_example : KeepsSchemes (peer_class_of cephfs "" ∷ []) (
    update_peers view
      (peer_class_of cephfs "" ∷ [])
      (peer_class_of cephfs "r2" ∷ peer_class_of rbd "r1" ∷ [])
      false)
update_peers-KeepsSchemes_example =
    update_peers-KeepsSchemes view (peer_class_of cephfs "" ∷ [])
      (peer_class_of cephfs "r2" ∷ peer_class_of rbd "r1" ∷ []) false

abbrev policy : List PeerClass
policy = (peer_class_of cephfs "r2" ∷ []) ++ peer_class_of rbd "r1" ∷ []

update_peers-covers_example :
    has_peer_class (update_peers view (peer_class_of cephfs "" ∷ []) policy false) rbd east_west
    ≡ true
update_peers-covers_example =
    update_peers-covers view (peer_class_of cephfs "" ∷ []) (peer_class_of cephfs "r2" ∷ [])
      (peer_class_of rbd "r1") [] false [] pvc [] {sc_name = rbd} refl refl
      (λ p. of_false_is_true ((eq_iff rbd "").1 p))
      ((λ p. of_false_is_true ((eq_iff cephfs rbd).1 p)), tt) refl
