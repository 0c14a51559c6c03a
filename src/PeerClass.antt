-- ===== src/PeerClass.antt =====
-- The peer classes of a VRG, brought up to date from the policy's: equalClusterIDSlices,
-- updatePeerClass, hasPeerClass and updatePeers of internal/controller/drplacementcontrol.go.
-- The loops over indices are recursions on the lists; `log` has no part in the result.
pub mod Clusters
pub mod Merge
pub mod Coverage
pub mod Tests
use ramen.Prelude.{
  String, Bool, true, false, ◌&&◌, ◌||◌, not, Option, none, some, List, [], ◌∷◌, ◌++◌, eqb, ◌==◌,
  if◌then◌else◌, contains, length,
}
use ramen.Api.{PeerClass, ProtectedPvc, Vrg}

abbrev pub bool_eqb : Bool → Bool → Bool
bool_eqb true b = b
bool_eqb false b = not b

-- A loop that returns false at the first string that the other list lacks.
abbrev pub all_in : List String → List String → Bool
all_in [] other = true
all_in (v ∷ vs) other = contains other v && all_in vs other

unfoldable pub equal_cluster_id_slices : List String → List String → Bool
equal_cluster_id_slices a b =
    if not (eqb (length a) (length b))
    then false
    else (if not (all_in b a) then false else all_in a b)

-- The body of the loop of updatePeerClass, from the second test on: what becomes of the entry
-- of the storage class and clusters.
unfoldable pub refreshed : PeerClass → PeerClass → Bool → PeerClass
refreshed to from cg_annotation_exists =
    let taken = if cg_annotation_exists then record from { grouping = true } else from in
    if not (bool_eqb to.offloaded from.offloaded)
    then to
    else if not (bool_eqb to.global from.global)
    then to
    else if to.replication_id == ""
        && from.replication_id == ""
        && bool_eqb to.grouping from.grouping
    then taken
    else if not (to.replication_id == "")
        && not (from.replication_id == "")
        && bool_eqb to.grouping from.grouping
    then taken
    else to

-- The test that an entry is the one for a storage class and a set of clusters.
unfoldable pub matches : String → List String → PeerClass → Bool
matches sc_name cluster_ids p =
    p.storage_class_name == sc_name && equal_cluster_id_slices p.cluster_ids cluster_ids

unfoldable pub update_peer_class : List PeerClass → PeerClass → String → Bool → List PeerClass
update_peer_class [] from sc_name cg = []
update_peer_class (p ∷ ps) from sc_name cg =
    let rest = update_peer_class ps from sc_name cg in
    if matches sc_name from.cluster_ids p then refreshed p from cg ∷ ps else p ∷ rest

unfoldable pub has_peer_class : List PeerClass → String → List String → Bool
has_peer_class [] sc_name cluster_ids = false
has_peer_class (p ∷ ps) sc_name cluster_ids =
    matches sc_name cluster_ids p || has_peer_class ps sc_name cluster_ids

-- The inner loop of updatePeers, for the PVCs of one storage class. The test on the VRG's own
-- list reads storage classes and clusters alone, which updatePeerClass leaves as they are up to
-- order, so that it does not matter that the two slices share an array at first.
module _ (vrg_peer_classes : List PeerClass) (sc_name : String) (cg_annotation_exists : Bool) where
  unfoldable pub update_for_class : List PeerClass → List PeerClass → List PeerClass
  update_for_class [] peer_classes = peer_classes
  update_for_class (p ∷ ps) peer_classes =
      let skipped = update_for_class ps peer_classes in
      let appended = update_for_class ps (peer_classes ++ p ∷ []) in
      if not (p.storage_class_name == sc_name)
      then skipped
      else if has_peer_class vrg_peer_classes sc_name p.cluster_ids
      then update_peer_class peer_classes p sc_name cg_annotation_exists
      else if has_peer_class peer_classes sc_name p.cluster_ids
      then peer_classes
      else appended

-- One round of the outer loop of updatePeers.
unfoldable pub update_for_pvc :
    List PeerClass → List PeerClass → Bool → ProtectedPvc → List PeerClass → List PeerClass
update_for_pvc vrg_peer_classes policy_peer_classes cg pvc peer_classes =
    elim pvc.storage_class_name [
      | none ↦ peer_classes
      | some sc_name ↦
          if sc_name == ""
          then peer_classes
          else update_for_class vrg_peer_classes sc_name cg policy_peer_classes peer_classes
    ]

unfoldable pub update_for_pvcs :
    List PeerClass → List PeerClass → Bool → List ProtectedPvc → List PeerClass → List PeerClass
update_for_pvcs vrg_peer_classes policy_peer_classes cg [] peer_classes = peer_classes
update_for_pvcs vrg_peer_classes policy_peer_classes cg (pvc ∷ pvcs) peer_classes =
    update_for_pvcs vrg_peer_classes policy_peer_classes cg pvcs
      (update_for_pvc vrg_peer_classes policy_peer_classes cg pvc peer_classes)

unfoldable pub update_peers : Vrg → List PeerClass → List PeerClass → Bool → List PeerClass
unfolding update_for_pvcs
update_peers vrg_from_view vrg_peer_classes policy_peer_classes cg =
    update_for_pvcs vrg_peer_classes policy_peer_classes cg vrg_from_view.protected_pvcs
      vrg_peer_classes
