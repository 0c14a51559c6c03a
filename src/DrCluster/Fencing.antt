-- ===== src/DrCluster/Fencing.antt =====
-- The fencing of a cluster: clusterFenceHandle, clusterFence, clusterUnfence and cleanClusters of
-- internal/controller/drcluster_controller.go.
use ramen.Prelude.{
  ℕ, suc, String, Bool, true, false, not, Option, none, some, List, [], ◌∷◌, ◌==◌, eqb,
  if◌then◌else◌, put, length, select, ◌+++◌,
}
use ramen.Drpc.{Result, ok, err, Error, errorf, wrap, is_not_found}
use ramen.DrCluster.{
  FenceState, unfenced, fenced, manually_fenced, manually_unfenced, no_fence_state, fence_state_eqb,
  fence_state_text, phase_available, phase_fencing, phase_fenced, phase_unfencing, phase_unfenced,
  NetworkFence, FenceEnv, Cluster, set_fencing, set_unfencing, set_cleaning, set_fenced,
  set_unfenced, set_clean, set_fencing_failed, set_unfencing_failed, next, is_fencing_or_fenced,
  is_unfencing_or_unfenced, advance_to_next_phase,
}
use ramen.DrCluster.Peers.{peer_and_classes, get_nf_classes}

abbrev pub work_name : String → String → String
work_name cluster nf_class = cluster +++ "/" +++ nf_class

-- createNFManifestWork for every class, up to the first error.
unfoldable pub create_each : FenceEnv → String → List String → Cluster → Result (Unit {0}) × Cluster
create_each e peer [] c = (ok tt, c)
create_each e peer (k ∷ ks) c =
    let created = record c { works = put (work_name peer k) c.cluster_fence c.works } in
    let rest = create_each e peer ks created in
    elim (e.write_work peer k) [ none ↦ rest | some x ↦ (err x, c) ]

-- What clusterFence and clusterUnfence do with the error of a creation.
abbrev pub on_error :
    String → (Error → Cluster → Cluster) → Result (Unit {0}) × Cluster → Result (Unit {0}) × Cluster
on_error msg f (ok u, c) = (ok u, c)
on_error msg f (err x, c) = (err (wrap msg x ""), f x c)

abbrev pub not_changed_yet : FenceState → Error
not_changed_yet s = errorf (
    "fence state in the NetworkFence resource is not changed to " +++ fence_state_text s +++ " yet")

-- checkFenceStatus.
unfoldable pub fence_status : FenceEnv → Result NetworkFence → Cluster → Result (Unit {0}) × Cluster
unfolding set_fencing_failed
fence_status e (err x) c = (err (wrap "failed to get NetworkFence using MCV (error: " x ")"), c)
fence_status e (ok nf) c =
    if not (fence_state_eqb nf.fence_state c.cluster_fence)
    then (err (not_changed_yet c.cluster_fence), c)
    else if not nf.succeeded
    then (
      err (errorf "fencing operation result not successful"),
      set_fencing_failed e "fencing operation not successful" c,
    )
    else (ok tt, c)

unfoldable pub check_fence_status :
    FenceEnv → String → List String → Cluster → Result (Unit {0}) × Cluster
unfolding fence_status
check_fence_status e peer [] c = (ok tt, c)
check_fence_status e peer (k ∷ ks) c =
    next (fence_status e (e.view_nf peer k) c) (λ _ d. check_fence_status e peer ks d)

-- requeueIfNFMWExists and checkUnfenceStatus.
unfoldable pub requeue_if_nf_work_exists : Option Error → Result (Unit {0})
requeue_if_nf_work_exists none = err (errorf "NetworkFence not found. But MW still exists")
requeue_if_nf_work_exists (some x) =
    if is_not_found x.kind then ok tt else err (wrap "failed to get MW for NetworkFence " x "")

unfoldable pub unfence_status :
    FenceEnv → String → Result NetworkFence → Cluster → Result (Unit {0}) × Cluster
unfolding set_unfencing_failed requeue_if_nf_work_exists
unfence_status e peer (err x) c =
    if is_not_found x.kind
    then (requeue_if_nf_work_exists (e.find_work peer), c)
    else (err (wrap "failed to get NetworkFence using MCV (error: " x ""), c)
unfence_status e peer (ok nf) c =
    if not (fence_state_eqb nf.fence_state c.cluster_fence)
    then (err (not_changed_yet c.cluster_fence), c)
    else if not nf.succeeded
    then (
      err (errorf "un operation result not successful"),
      set_unfencing_failed e "unfencing operation not successful" c,
    )
    else (ok tt, c)

unfoldable pub check_unfence_status :
    FenceEnv → String → List String → Cluster → Result (Unit {0}) × Cluster
unfolding unfence_status
check_unfence_status e peer [] c = (ok tt, c)
check_unfence_status e peer (k ∷ ks) c =
    next (unfence_status e peer (e.view_nf peer k) c) (λ _ d. check_unfence_status e peer ks d)

-- removeFencingCR.
unfoldable pub delete_each : FenceEnv → String → List String → Cluster → Result (Unit {0}) × Cluster
delete_each e cluster [] c = (ok tt, c)
delete_each e cluster (k ∷ ks) c =
    let deleted = record c { works = select (λ w. not (w.0 == work_name cluster k)) c.works } in
    let rest = delete_each e cluster ks deleted in
    elim (e.delete_work cluster k) [ none ↦ rest | some x ↦ (err x, c) ]

unfoldable pub remove_fencing_cr : FenceEnv → String → Cluster → Result (Unit {0}) × Cluster
unfolding delete_each
remove_fencing_cr e cluster c =
    next (get_nf_classes e cluster, c) (λ ks d. delete_each e cluster ks d)

-- The loop of cleanClusters: how many clusters are cleaned.
unfoldable pub count_cleaned : Result (Unit {0}) × Cluster → ℕ → ℕ × Cluster
count_cleaned (ok u, c) n = (suc n, c)
count_cleaned (err x, c) n = (n, c)

unfoldable pub clean_each : FenceEnv → List String → ℕ → Cluster → ℕ × Cluster
unfolding remove_fencing_cr count_cleaned
clean_each e [] n c = (n, c)
clean_each e (k ∷ ks) n c =
    let (m, d) = count_cleaned (remove_fencing_cr e k c) n in clean_each e ks m d

-- cleanClusters: whether to requeue.
unfoldable pub clean_clusters : FenceEnv → List String → Cluster → Result Bool × Cluster
unfolding clean_each set_clean set_cleaning
clean_clusters e clusters c =
    let (n, d) = clean_each e clusters 0 c in
    if eqb n (length clusters)
    then (ok false, set_clean e "fencing resource cleaned from cluster" d)
    else (ok true, set_cleaning e "NetworkFence resource clean started" d)

-- clusterFence.
unfoldable pub start_fence : FenceEnv → String → List String → Cluster → Result Bool × Cluster
unfolding create_each set_fencing_failed set_fencing
start_fence e peer ks c =
    next
      (on_error
        ("failed to create the NetworkFence MW on cluster " +++ peer +++ " to fence " +++ c.name
          +++ ": ")
        (λ x. set_fencing_failed e ("NetworkFence ManifestWork creation failed: " +++ x.text))
        (create_each e peer ks c))
      (λ _ d. (
        ok true,
        record (set_fencing e "ManifestWork for NetworkFence fence operation created" d) {
          phase = phase_fencing;
        },
      ))

unfoldable pub finish_fence : FenceEnv → String → List String → Cluster → Result Bool × Cluster
unfolding check_fence_status set_fenced advance_to_next_phase
finish_fence e peer ks c =
    next (check_fence_status e peer ks c)
      (λ _ d. (ok false, advance_to_next_phase (set_fenced e "Cluster successfully fenced" d)))

unfoldable pub cluster_fence_from :
    FenceEnv → Result (String × List String) → Cluster → Result Bool × Cluster
unfolding start_fence finish_fence
cluster_fence_from e (err x) c = (err x, c)
cluster_fence_from e (ok (peer, ks)) c =
    if not (is_fencing_or_fenced c.phase) then start_fence e peer ks c else finish_fence e peer ks c

unfoldable pub cluster_fence : FenceEnv → Cluster → Result Bool × Cluster
unfolding cluster_fence_from
cluster_fence e c = cluster_fence_from e (peer_and_classes e c) c

-- clusterUnfence.
unfoldable pub start_unfence : FenceEnv → String → List String → Cluster → Result Bool × Cluster
unfolding create_each set_unfencing_failed set_unfencing
start_unfence e peer ks c =
    next
      (on_error
        ("failed to generate NetworkFence MW on cluster " +++ peer +++ " to unfence " +++ c.name
          +++ ": ")
        (λ x. set_unfencing_failed e ("NetworkFence ManifestWork for unfence failed: " +++ x.text))
        (create_each e peer ks c))
      (λ _ d. (
        ok true,
        record (set_unfencing e "ManifestWork for NetworkFence unfence operation created" d) {
          phase = phase_unfencing;
        },
      ))

unfoldable pub finish_unfence : FenceEnv → String → List String → Cluster → Result Bool × Cluster
unfolding check_unfence_status set_unfenced advance_to_next_phase clean_clusters
finish_unfence e peer ks c = next (check_unfence_status e peer ks c) (λ _ d.
    clean_clusters e (d.name ∷ peer ∷ [])
      (advance_to_next_phase (set_unfenced e "Cluster successfully unfenced" d)))

unfoldable pub cluster_unfence_from :
    FenceEnv → Result (String × List String) → Cluster → Result Bool × Cluster
unfolding start_unfence finish_unfence
cluster_unfence_from e (err x) c = (err x, c)
cluster_unfence_from e (ok (peer, ks)) c =
    if not (is_unfencing_or_unfenced c.phase)
    then start_unfence e peer ks c
    else finish_unfence e peer ks c

unfoldable pub cluster_unfence : FenceEnv → Cluster → Result Bool × Cluster
unfolding cluster_unfence_from
cluster_unfence e c = cluster_unfence_from e (peer_and_classes e c) c

-- clusterFenceHandle, by the fence state of the spec.
unfoldable pub fence_handle : FenceEnv → FenceState → Cluster → Result Bool × Cluster
unfolding cluster_fence cluster_unfence set_fenced set_clean
fence_handle e unfenced c = cluster_unfence e c
fence_handle e manually_fenced c =
    (ok false, record (set_fenced e "Cluster Manually fenced" c) { phase = phase_fenced })
fence_handle e manually_unfenced c = (
  ok false,
  record (set_clean e "Cluster Manually Unfenced and clean" c) { phase = phase_unfenced },
)
fence_handle e fenced c = cluster_fence e c
fence_handle e no_fence_state c =
    (ok false, record (set_clean e "Cluster Clean" c) { phase = phase_available })

unfoldable pub cluster_fence_handle : FenceEnv → Cluster → Result Bool × Cluster
unfolding fence_handle
cluster_fence_handle e c = fence_handle e c.cluster_fence c
