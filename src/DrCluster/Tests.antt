-- ===== src/DrCluster/Tests.antt =====
-- Witnesses of the theorems on the fencing of a cluster.
use ramen.Prelude.{true, false, none, some, [], ◌∷◌, ◌≡◌, refl}
use ramen.Condition.{condition_true, find_condition}
use ramen.Drpc.{ok, err, errorf}
use ramen.DrCluster.{
  fenced, phase_available, phase_fencing, phase_fenced, Policy, Peer, NfClass, StorageClass,
  NetworkFence, FenceEnv, Cluster, condition_type_fenced,
}
use ramen.DrCluster.Fencing.{cluster_fence, cluster_fence_handle}
use ramen.DrCluster.Peers.{peer_and_classes}
use ramen.Condition.Statuses.{status_of}
use ramen.DrCluster.Status.{is_coherent}
use ramen.DrCluster.Phases.{
  PhaseStep, cluster_fence_handle-PhaseStep, cluster_fence_handle-coherent,
}
use ramen.DrCluster.Confirmed.{Done, cluster_fence-Done}
use ramen.DrCluster.Progress.{cluster_fence_handle-Fences}

abbrev pair : Policy
pair = record { dr_clusters = "east" ∷ "west" ∷ []; has_sync_peer_classes = true }

abbrev west : Peer
west = record { name = "west"; deleted = false; region = "r2" }

abbrev nf_class : NfClass
nf_class = record { name = "ceph"; provisioner = "rbd"; storage_ids = some ("s1" ∷ "s2" ∷ []) }

abbrev storage_class : StorageClass
storage_class = record { provisioner = "rbd"; storage_id = "s2" }

abbrev fence_seen : NetworkFence
fence_seen = record { fence_state = fenced; succeeded = true }

abbrev healthy : FenceEnv
healthy = record {
  now = 7;
  policies = ok (pair ∷ []);
  read_peer = λ _. some west;
  classes = λ _. ok (nf_class ∷ [], storage_class ∷ []);
  write_work = λ _ _. none;
  delete_work = λ _ _. none;
  view_nf = λ _ _. ok fence_seen;
  find_work = λ _. none;
}

-- Before the NetworkFence can be seen.
abbrev unseen : FenceEnv
unseen = record healthy { view_nf = λ _ _. err (errorf "no view") }

abbrev east : Cluster
east = record {
  name = "east";
  region = "r1";
  generation = 2;
  cluster_fence = fenced;
  phase = phase_available;
  conditions = [];
  works = [];
}

abbrev fencing_east : Cluster
fencing_east = record east { phase = phase_fencing }

cluster_fence-Done_example : Done healthy fencing_east (cluster_fence healthy fencing_east)
unfolding cluster_fence peer_and_classes
cluster_fence-Done_example = cluster_fence-Done healthy fencing_east refl

cluster_fence_handle-PhaseStep_example :
    PhaseStep fenced phase_available (cluster_fence_handle healthy east).1.phase
cluster_fence_handle-PhaseStep_example = cluster_fence_handle-PhaseStep healthy east

cluster_fence_handle-coherent_example : is_coherent (cluster_fence_handle healthy east).1 ≡ true
unfolding is_coherent find_condition
cluster_fence_handle-coherent_example = cluster_fence_handle-coherent healthy east refl

cluster_fence_handle-Fences_example :
    let (answer, d) = cluster_fence_handle unseen east in
    let (answer_later, f) = cluster_fence_handle healthy d in
    (answer ≡ ok true)
    × (answer_later ≡ ok false)
    × (f.phase ≡ phase_fenced)
    × (status_of f.conditions condition_type_fenced ≡ condition_true)
unfolding peer_and_classes
cluster_fence_handle-Fences_example =
    cluster_fence_handle-Fences unseen healthy east "west" ("ceph" ∷ []) refl refl refl refl
      (refl, tt) ((fence_seen, refl, refl, refl), tt)
