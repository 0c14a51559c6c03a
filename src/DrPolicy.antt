-- ===== src/DrPolicy.antt =====
-- The peer classes of a DRPolicy: internal/controller/drpolicy_peerclass.go, from the classes of the
-- clusters to the peer classes in the policy's status. The classes of each cluster, which the code
-- reads through ManagedClusterViews, are arguments.
pub mod Search
pub mod Pairs
pub mod Pruned
pub mod Tests
use ramen.Prelude.{
  ℕ, String, Bool, true, false, not, ◌&&◌, ◌||◌, Option, none, some, List, [], ◌∷◌, ◌++◌, ◌==◌,
  if◌then◌else◌, assoc, assoc_or_empty, contains,
}
use ramen.Api.{PeerClass}
use ramen.PeerClass.{equal_cluster_id_slices}

abbrev pub storage_id_label : String
storage_id_label = "ramendr.openshift.io/storageid"

abbrev pub replication_id_label : String
replication_id_label = "ramendr.openshift.io/replicationid"

abbrev pub group_replication_id_label : String
group_replication_id_label = "ramendr.openshift.io/groupreplicationid"

abbrev pub storage_offloaded_label : String
storage_offloaded_label = "ramendr.openshift.io/offloaded"

abbrev pub global_replication_label : String
global_replication_label = "ramendr.openshift.io/global"

-- StorageClass.
pub record Storage : Type 0 where
  pub name : String
  pub provisioner : String
  pub labels : List (String × String)

-- VolumeSnapshotClass and VolumeGroupSnapshotClass.
pub record Snapshot : Type 0 where
  pub driver : String
  pub labels : List (String × String)

-- VolumeReplicationClass and VolumeGroupReplicationClass, with the schedule among its parameters.
pub record Replication : Type 0 where
  pub provisioner : String
  pub schedule : String
  pub labels : List (String × String)

pub record ClassLists : Type 0 where
  pub cluster_id : String
  pub s_classes : List Storage
  pub vs_classes : List Snapshot
  pub vr_classes : List Replication
  pub vgr_classes : List Replication
  pub vgs_classes : List Snapshot

pub record PeerInfo : Type 0 where
  pub replication_id : String
  pub group_replication_id : String
  pub storage_ids : List String
  pub storage_class_name : String
  pub cluster_ids : List String
  pub grouping : Bool
  pub offloaded : Bool
  pub global : Bool

abbrev pub has_label : List (String × String) → String → Bool
has_label labels k = elim (assoc k labels) [ none ↦ false | some v ↦ true ]

-- peerClassMatchesPeer.
unfoldable pub peer_class_matches_peer : PeerClass → PeerInfo → Bool
peer_class_matches_peer pc peer =
    let same_name = pc.storage_class_name == peer.storage_class_name in
    (if not (pc.group_replication_id == "") && not (peer.group_replication_id == "")
      then pc.group_replication_id == peer.group_replication_id && same_name
      else same_name)
    && equal_cluster_id_slices pc.cluster_ids peer.cluster_ids

-- findStatusPeerInPeers and findPeerInStatusPeer.
unfoldable pub find_status_peer_in_peers : PeerClass → List PeerInfo → Option PeerInfo
unfolding peer_class_matches_peer
find_status_peer_in_peers pc [] = none
find_status_peer_in_peers pc (peer ∷ peers) =
    let rest = find_status_peer_in_peers pc peers in
    if not (peer_class_matches_peer pc peer) then rest else some peer

unfoldable pub find_peer_in_status_peer : PeerInfo → List PeerClass → Bool
unfolding peer_class_matches_peer
find_peer_in_status_peer peer [] = false
find_peer_in_status_peer peer (pc ∷ pcs) =
    let rest = find_peer_in_status_peer peer pcs in
    if not (peer_class_matches_peer pc peer) then rest else true

unfoldable pub peer_class_from_peer : PeerInfo → PeerClass
peer_class_from_peer peer = record {
  replication_id = peer.replication_id;
  group_replication_id = peer.group_replication_id;
  storage_id = peer.storage_ids;
  storage_class_name = peer.storage_class_name;
  cluster_ids = peer.cluster_ids;
  grouping = peer.grouping;
  offloaded = peer.offloaded;
  global = peer.global;
}

-- pruneAndUpdateStatusPeers, by its two loops.
unfoldable pub prune_peers : List PeerClass → List PeerInfo → List PeerClass
unfolding find_status_peer_in_peers peer_class_from_peer
prune_peers [] peers = []
prune_peers (pc ∷ pcs) peers =
    let rest = prune_peers pcs peers in
    elim (find_status_peer_in_peers pc peers) [
      | none ↦ rest
      | some peer ↦ peer_class_from_peer peer ∷ rest
    ]

unfoldable pub new_peers : List PeerClass → List PeerInfo → List PeerClass
unfolding find_peer_in_status_peer peer_class_from_peer
new_peers status_peers [] = []
new_peers status_peers (peer ∷ peers) =
    let rest = new_peers status_peers peers in
    if find_peer_in_status_peer peer status_peers then rest else peer_class_from_peer peer ∷ rest

unfoldable pub prune_and_update_status_peers : List PeerClass → List PeerInfo → List PeerClass
unfolding prune_peers new_peers
prune_and_update_status_peers status_peers peers =
    prune_peers status_peers peers ++ new_peers status_peers peers

-- provisionerMatchesSC.
unfoldable pub provisioner_matches : String → List Storage → String → Bool
provisioner_matches sc_name [] driver = false
provisioner_matches sc_name (sc ∷ scs) driver =
    let rest = provisioner_matches sc_name scs driver in
    if not (sc.name == sc_name) then rest else sc.provisioner == driver

-- hasVSClassMatchingSID and hasVGSClassMatchingSID.
unfoldable pub has_snapshot_class : String → List Storage → String → List Snapshot → Bool
unfolding provisioner_matches
has_snapshot_class sc_name scs s_id [] = false
has_snapshot_class sc_name scs s_id (c ∷ cs) =
    let rest = has_snapshot_class sc_name scs s_id cs in
    let sid = assoc_or_empty storage_id_label c.labels in
    if sid == "" || not (sid == s_id)
    then rest
    else if not (provisioner_matches sc_name scs c.driver)
    then rest
    else true

-- isAsyncVSClassPeer and isAsyncVGSClassPeer.
unfoldable pub is_async_vs_class_peer : String → ClassLists → ClassLists → String → String → Bool
unfolding has_snapshot_class
is_async_vs_class_peer sc_name a b s_id_a s_id_b =
    has_snapshot_class sc_name a.s_classes s_id_a a.vs_classes
    && has_snapshot_class sc_name b.s_classes s_id_b b.vs_classes

unfoldable pub is_async_vgs_class_peer : String → ClassLists → ClassLists → String → String → Bool
unfolding has_snapshot_class
is_async_vgs_class_peer sc_name a b s_id_a s_id_b =
    has_snapshot_class sc_name a.s_classes s_id_a a.vgs_classes
    && has_snapshot_class sc_name b.s_classes s_id_b b.vgs_classes

-- The common tests of getVRID and getVGRID.
unfoldable pub is_replication_match : String → List Storage → Replication → String → String → Bool
unfolding provisioner_matches
is_replication_match sc_name scs c in_sid schedule =
    let s_id = assoc_or_empty storage_id_label c.labels in
    if s_id == "" || not (in_sid == s_id)
    then false
    else if not (c.schedule == schedule)
    then false
    else provisioner_matches sc_name scs c.provisioner

unfoldable pub get_vr_id : String → List Storage → String → String → Replication → String
unfolding is_replication_match
get_vr_id sc_name scs in_sid schedule c =
    if is_replication_match sc_name scs c in_sid schedule
    then assoc_or_empty replication_id_label c.labels
    else ""

unfoldable pub get_vgr_id : String → List Storage → String → String → String → Replication → String
unfolding is_replication_match
get_vgr_id sc_name scs in_sid schedule sc_gr_id c =
    let gr_id = assoc_or_empty group_replication_id_label c.labels in
    if not (is_replication_match sc_name scs c in_sid schedule)
    then ""
    else if not (sc_gr_id == "") && not (sc_gr_id == gr_id)
    then ""
    else gr_id

-- The loops of getAsyncVRClassPeer and getAsyncVGRClassPeer, by the ID of a class.
unfoldable pub has_id : (Replication → String) → String → List Replication → Bool
has_id id_of id [] = false
has_id id_of id (c ∷ cs) = let rest = has_id id_of id cs in if id_of c == id then true else rest

unfoldable pub common_id :
    (Replication → String) → (Replication → String) → List Replication → List Replication → String
unfolding has_id
common_id id_a id_b [] bs = ""
common_id id_a id_b (c ∷ cs) bs =
    let rest = common_id id_a id_b cs bs in
    if id_a c == "" then rest else if has_id id_b (id_a c) bs then id_a c else rest

unfoldable pub get_async_vr_class_peer :
    String → ClassLists → ClassLists → String → String → String → String
unfolding common_id get_vr_id
get_async_vr_class_peer sc_name a b s_id_a s_id_b schedule =
    common_id (get_vr_id sc_name a.s_classes s_id_a schedule)
      (get_vr_id sc_name b.s_classes s_id_b schedule) a.vr_classes b.vr_classes

unfoldable pub get_async_vgr_class_peer :
    String → ClassLists → ClassLists → String → String → String → String → String
unfolding common_id get_vgr_id
get_async_vgr_class_peer sc_name a b s_id_a s_id_b schedule sc_gr_id =
    common_id (get_vgr_id sc_name a.s_classes s_id_a schedule sc_gr_id)
      (get_vgr_id sc_name b.s_classes s_id_b schedule sc_gr_id) a.vgr_classes b.vgr_classes

-- isAsyncVGRClassPeerGlobal.
unfoldable pub has_global : String → List Replication → Bool
has_global gr_id [] = false
has_global gr_id (c ∷ cs) =
    let rest = has_global gr_id cs in
    if assoc_or_empty group_replication_id_label c.labels == gr_id
    then assoc_or_empty global_replication_label c.labels == "true"
    else rest

unfoldable pub is_async_vgr_class_peer_global : ClassLists → ClassLists → String → Bool
unfolding has_global
is_async_vgr_class_peer_global a b gr_id =
    has_global gr_id a.vgr_classes && has_global gr_id b.vgr_classes
