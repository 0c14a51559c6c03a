-- ===== src/PeerClass/Merge.antt =====
-- What updatePeers does to the peer classes of a VRG: the scheme of those that it has stays, and
-- a storage class of a protected PVC that the policy knows is covered afterwards.
use ramen.Prelude.{
  String, Bool, true, List, [], ◌∷◌, ◌++◌, ◌==◌, ◌≡◌, inl, inr, refl, ◌∙◌, arith, eq_iff, eq_of_==,
  Bool-cases, Option-cases,
}
use ramen.Api.{PeerClass, ProtectedPvc, Vrg}
use ramen.PeerClass.{
  equal_cluster_id_slices, refreshed, matches, update_peer_class, has_peer_class, update_for_class,
  update_for_pvc, update_for_pvcs, update_peers,
}
use ramen.PeerClass.Clusters.{equal_cluster_id_slices_refl, equal_cluster_id_slices_trans}

-- Two peer classes protect a volume in the same way: for the same storage class and clusters,
-- both with a replication ID or both without, both offloaded or neither, both global or neither.
pub record SameScheme (p q : PeerClass) : Type 0 where
  pub class_kept : p.storage_class_name ≡ q.storage_class_name
  pub clusters_kept : equal_cluster_id_slices p.cluster_ids q.cluster_ids ≡ true
  pub replication_kept : (p.replication_id == "") ≡ (q.replication_id == "")
  pub offloaded_kept : p.offloaded ≡ q.offloaded
  pub global_kept : p.global ≡ q.global

SameScheme-refl : (p : PeerClass) → SameScheme p p
SameScheme-refl p = record {
  class_kept = refl;
  clusters_kept = equal_cluster_id_slices_refl p.cluster_ids;
  replication_kept = refl;
  offloaded_kept = refl;
  global_kept = refl;
}

SameScheme-trans : (p q r : PeerClass) → SameScheme p q → SameScheme q r → SameScheme p r
SameScheme-trans p q r a b = record {
  class_kept = a.class_kept ∙ b.class_kept;
  clusters_kept =
      equal_cluster_id_slices_trans p.cluster_ids q.cluster_ids r.cluster_ids a.clusters_kept
        b.clusters_kept;
  replication_kept = a.replication_kept ∙ b.replication_kept;
  offloaded_kept = a.offloaded_kept ∙ b.offloaded_kept;
  global_kept = a.global_kept ∙ b.global_kept;
}

-- updatePeerClass takes over an entry of the policy only if the scheme is the same.
refreshed-SameScheme :
    (to from : PeerClass) (sc_name : String) (cg : Bool)
    → from.storage_class_name ≡ sc_name
    → matches sc_name from.cluster_ids to ≡ true
    → SameScheme to (refreshed to from cg)
unfolding refreshed matches
refreshed-SameScheme to from sc_name cg e h =
    ground
      (arith, eq_iff to.storage_class_name sc_name, equal_cluster_id_slices_refl to.cluster_ids)

-- The first list stands at the front of the second, each entry with its scheme.
abbrev pub KeepsSchemes : List PeerClass → List PeerClass → Type 0
KeepsSchemes [] qs = Unit
KeepsSchemes (p ∷ ps) [] = ⊥
KeepsSchemes (p ∷ ps) (q ∷ qs) = SameScheme p q × KeepsSchemes ps qs

pub KeepsSchemes-refl : (ps : List PeerClass) → KeepsSchemes ps ps
KeepsSchemes-refl [] = tt
KeepsSchemes-refl (p ∷ ps) = (SameScheme-refl p, KeepsSchemes-refl ps)

KeepsSchemes-append :
    (ps qs : List PeerClass) (q : PeerClass) → KeepsSchemes ps qs → KeepsSchemes ps (qs ++ q ∷ [])
KeepsSchemes-append [] qs r h = tt
KeepsSchemes-append (p ∷ ps) [] r h = absurd h
KeepsSchemes-append (p ∷ ps) (q ∷ qs) r h = (h.0, KeepsSchemes-append ps qs r h.1)

module _ (from : PeerClass) (sc_name : String) (cg : Bool)
    (of_class : from.storage_class_name ≡ sc_name) where
  pub KeepsSchemes-update_peer_class :
      (ps qs : List PeerClass)
      → KeepsSchemes ps qs
      → KeepsSchemes ps (update_peer_class qs from sc_name cg)
  unfolding update_peer_class
  KeepsSchemes-update_peer_class [] qs h = tt
  KeepsSchemes-update_peer_class (p ∷ ps) [] h = absurd h
  KeepsSchemes-update_peer_class (p ∷ ps) (q ∷ qs) h =
      elim (Bool-cases (matches sc_name from.cluster_ids q)) [
        | inl m ↦ rw m (
          SameScheme-trans p q (refreshed q from cg) h.0
              (refreshed-SameScheme q from sc_name cg of_class m),
          h.1,
        )
        | inr m ↦ rw m (h.0, KeepsSchemes-update_peer_class ps qs h.1)
      ]

module _ (base ps : List PeerClass) (sc_name : String) (cg : Bool) where
  pub KeepsSchemes-update_for_class :
      (policy qs : List PeerClass)
      → KeepsSchemes base qs
      → KeepsSchemes base (update_for_class ps sc_name cg policy qs)
  unfolding update_for_class
  KeepsSchemes-update_for_class [] qs h = h
  KeepsSchemes-update_for_class (f ∷ fs) qs h =
      elim (Bool-cases (f.storage_class_name == sc_name)) [
        | inr other ↦ rw other (KeepsSchemes-update_for_class fs qs h)
        | inl same ↦ elim (Bool-cases (has_peer_class ps sc_name f.cluster_ids)) [
          | inl old ↦
              rw (same, old)
                (KeepsSchemes-update_peer_class f sc_name cg (eq_of_== _ _ same) base qs h)
          | inr fresh ↦ elim (Bool-cases (has_peer_class qs sc_name f.cluster_ids)) [
            | inl there ↦ rw (same, fresh, there) h
            | inr absent ↦
                rw (same, fresh, absent)
                  (KeepsSchemes-update_for_class fs (qs ++ f ∷ [])
                    (KeepsSchemes-append base qs f h))
          ]
        ]
      ]

module _ (base ps policy : List PeerClass) (cg : Bool) where
  pub KeepsSchemes-update_for_pvc :
      (pvc : ProtectedPvc) (qs : List PeerClass)
      → KeepsSchemes base qs
      → KeepsSchemes base (update_for_pvc ps policy cg pvc qs)
  unfolding update_for_pvc
  KeepsSchemes-update_for_pvc pvc qs h = elim (Option-cases pvc.storage_class_name) [
    | inl e ↦ rw (e, update_for_pvc) h
    | inr (sc_name, e) ↦ elim (Bool-cases (sc_name == "")) [
      | inl b ↦ rw (e, update_for_pvc, b) h
      | inr b ↦
          rw (e, update_for_pvc, b) (KeepsSchemes-update_for_class base ps sc_name cg policy qs h)
    ]
  ]

  pub KeepsSchemes-update_for_pvcs :
      (pvcs : List ProtectedPvc) (qs : List PeerClass)
      → KeepsSchemes base qs
      → KeepsSchemes base (update_for_pvcs ps policy cg pvcs qs)
  unfolding update_for_pvcs
  KeepsSchemes-update_for_pvcs [] qs h = h
  KeepsSchemes-update_for_pvcs (pvc ∷ pvcs) qs h =
      KeepsSchemes-update_for_pvcs pvcs (update_for_pvc ps policy cg pvc qs)
        (KeepsSchemes-update_for_pvc pvc qs h)

-- updatePeers keeps each peer class that the VRG has at its place, for the same storage class and
-- clusters, with a replication ID exactly if it had one, and offloaded and global as it was.
pub update_peers-KeepsSchemes :
    (view : Vrg) (vrg_peer_classes policy_peer_classes : List PeerClass) (cg : Bool)
    → KeepsSchemes vrg_peer_classes (update_peers view vrg_peer_classes policy_peer_classes cg)
unfolding update_peers
update_peers-KeepsSchemes view ps policy cg =
    KeepsSchemes-update_for_pvcs ps ps policy cg view.protected_pvcs ps (KeepsSchemes-refl ps)
