-- ===== src/PeerClass/Coverage.antt =====
-- After updatePeers, the storage class of a protected PVC that the policy knows is covered.
use ramen.Prelude.{
  String, Bool, true, some, List, [], ◌∷◌, ◌++◌, ◌==◌, ◌≡◌, ◌≢◌, inl, inr, refl, arith, eq_iff,
  Bool-cases, ==-false, All,
}
use ramen.Api.{PeerClass, ProtectedPvc, Vrg}
use ramen.PeerClass.{
  matches, has_peer_class, update_for_class, update_for_pvc, update_for_pvcs, update_peers,
}
use ramen.PeerClass.Clusters.{
  equal_cluster_id_slices_refl, equal_cluster_id_slices_sym, equal_cluster_id_slices_trans,
}
use ramen.PeerClass.Merge.{
  SameScheme, KeepsSchemes, KeepsSchemes-refl, KeepsSchemes-update_peer_class,
  KeepsSchemes-update_for_pvc, KeepsSchemes-update_for_pvcs, KeepsSchemes-update_for_class,
}

matches-SameScheme :
    (sc_name : String) (ids : List String) (p q : PeerClass)
    → SameScheme p q
    → matches sc_name ids p ≡ true
    → matches sc_name ids q ≡ true
unfolding matches
matches-SameScheme sc_name ids p q s h = ground (
  arith,
  eq_iff p.storage_class_name sc_name,
  eq_iff q.storage_class_name sc_name,
  equal_cluster_id_slices_trans q.cluster_ids p.cluster_ids ids
      (equal_cluster_id_slices_sym p.cluster_ids q.cluster_ids s.clusters_kept),
)

has_peer_class-KeepsSchemes :
    (sc_name : String) (ids : List String) (ps qs : List PeerClass)
    → KeepsSchemes ps qs
    → has_peer_class ps sc_name ids ≡ true
    → has_peer_class qs sc_name ids ≡ true
unfolding has_peer_class
has_peer_class-KeepsSchemes sc_name ids [] qs k h = cc
has_peer_class-KeepsSchemes sc_name ids (p ∷ ps) [] k h = absurd k
has_peer_class-KeepsSchemes sc_name ids (p ∷ ps) (q ∷ qs) k h = ground (
  arith,
  matches-SameScheme sc_name ids p q k.0,
  has_peer_class-KeepsSchemes sc_name ids ps qs k.1,
)

has_peer_class-snoc :
    (qs : List PeerClass) (f : PeerClass) (sc_name : String)
    → f.storage_class_name ≡ sc_name
    → has_peer_class (qs ++ f ∷ []) sc_name f.cluster_ids ≡ true
unfolding has_peer_class matches
has_peer_class-snoc [] f sc_name e =
    ground (arith, eq_iff f.storage_class_name sc_name, equal_cluster_id_slices_refl f.cluster_ids)
has_peer_class-snoc (q ∷ qs) f sc_name e = ground (arith, has_peer_class-snoc qs f sc_name e)

module _ (ps : List PeerClass) (sc_name : String) (cg : Bool) where
  -- The first entry of the policy for the class decides.
  update_for_class-covers :
      (before : List PeerClass) (f : PeerClass) (rest qs : List PeerClass)
      → All (λ p. p.storage_class_name ≢ sc_name) before
      → f.storage_class_name ≡ sc_name
      → KeepsSchemes ps qs
      → has_peer_class
          (update_for_class ps sc_name cg (before ++ f ∷ rest) qs)
          sc_name
          f.cluster_ids
        ≡ true
  unfolding update_for_class
  update_for_class-covers (b ∷ bs) f rest qs others e k =
      rw (==-false b.storage_class_name sc_name others.0)
        (update_for_class-covers bs f rest qs others.1 e k)
  update_for_class-covers [] f rest qs others e k =
      let same : (f.storage_class_name == sc_name) ≡ true =
        ground (arith, eq_iff f.storage_class_name sc_name) in
      elim (Bool-cases (has_peer_class ps sc_name f.cluster_ids)) [
        | inl old ↦
            rw (same, old)
              (has_peer_class-KeepsSchemes sc_name f.cluster_ids ps _
                (KeepsSchemes-update_peer_class f sc_name cg e ps qs k) old)
        | inr fresh ↦ elim (Bool-cases (has_peer_class qs sc_name f.cluster_ids)) [
          | inl there ↦ rw (same, fresh, there) there
          | inr absent ↦
              rw (same, fresh, absent)
                (has_peer_class-KeepsSchemes sc_name f.cluster_ids (qs ++ f ∷ []) _
                  (KeepsSchemes-update_for_class (qs ++ f ∷ []) ps sc_name cg rest (qs ++ f ∷ [])
                    (KeepsSchemes-refl (qs ++ f ∷ [])))
                  (has_peer_class-snoc qs f sc_name e))
        ]
      ]

update_for_pvc_named :
    (ps policy : List PeerClass) (cg : Bool) (pvc : ProtectedPvc) (qs : List PeerClass)
    {sc_name : String}
    → pvc.storage_class_name ≡ some sc_name
    → sc_name ≢ ""
    → update_for_pvc ps policy cg pvc qs ≡ update_for_class ps sc_name cg policy qs
unfolding update_for_pvc
update_for_pvc_named ps policy cg pvc qs {sc_name} e h =
    simp (e, update_for_pvc) (rw (==-false sc_name "" h) refl)

module _ (ps before : List PeerClass) (f : PeerClass) (rest : List PeerClass) (cg : Bool)
    (pvc : ProtectedPvc) {sc_name : String} where
  update_for_pvcs-covers :
      (xs ys : List ProtectedPvc) (qs : List PeerClass)
      → pvc.storage_class_name ≡ some sc_name
      → sc_name ≢ ""
      → All (λ p. p.storage_class_name ≢ sc_name) before
      → f.storage_class_name ≡ sc_name
      → KeepsSchemes ps qs
      → has_peer_class
          (update_for_pvcs ps (before ++ f ∷ rest) cg (xs ++ pvc ∷ ys) qs)
          sc_name
          f.cluster_ids
        ≡ true
  unfolding update_for_pvcs
  update_for_pvcs-covers (x ∷ xs) ys qs named nonempty others e k =
      update_for_pvcs-covers xs ys (update_for_pvc ps (before ++ f ∷ rest) cg x qs) named nonempty
        others e (KeepsSchemes-update_for_pvc ps ps (before ++ f ∷ rest) cg x qs k)
  update_for_pvcs-covers [] ys qs named nonempty others e k =
      let next = update_for_pvc ps (before ++ f ∷ rest) cg pvc qs in
      has_peer_class-KeepsSchemes sc_name f.cluster_ids next
        (update_for_pvcs ps (before ++ f ∷ rest) cg ys next)
        (KeepsSchemes-update_for_pvcs next ps (before ++ f ∷ rest) cg ys next
          (KeepsSchemes-refl next))
        (rw (update_for_pvc_named ps (before ++ f ∷ rest) cg pvc qs named nonempty)
          (update_for_class-covers ps sc_name cg before f rest qs others e k))

-- If a protected PVC names a storage class and the policy has a peer class for it, then after
-- updatePeers the VRG has a peer class for that storage class and for the clusters of the
-- policy's first entry of the class.
pub update_peers-covers :
    (view : Vrg) (vrg_peer_classes before : List PeerClass) (f : PeerClass) (rest : List PeerClass)
    (cg : Bool) (xs : List ProtectedPvc) (pvc : ProtectedPvc) (ys : List ProtectedPvc)
    {sc_name : String}
    → view.protected_pvcs ≡ xs ++ pvc ∷ ys
    → pvc.storage_class_name ≡ some sc_name
    → sc_name ≢ ""
    → All (λ p. p.storage_class_name ≢ sc_name) before
    → f.storage_class_name ≡ sc_name
    → has_peer_class
        (update_peers view vrg_peer_classes (before ++ f ∷ rest) cg)
        sc_name
        f.cluster_ids
      ≡ true
unfolding update_peers
update_peers-covers view ps before f rest cg xs pvc ys e named nonempty others of_class = rw e (
    update_for_pvcs-covers ps before f rest cg pvc xs ys ps named nonempty others of_class
      (KeepsSchemes-refl ps))
