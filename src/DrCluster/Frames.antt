-- ===== src/DrCluster/Frames.antt =====
-- What the routines of the fencing keep: createNFManifestWork, checkFenceStatus,
-- checkUnfenceStatus and removeFencingCR of internal/controller/drcluster_controller.go.
use ramen.Prelude.{
  ℕ, String, Bool, true, false, List, [], ◌∷◌, ◌≡◌, refl, inl, inr, Option-cases, if◌then◌else◌,
  not,
}
use ramen.Drpc.{Result, ok, err, is_not_found}
use ramen.DrCluster.{
  FenceEnv, Cluster, NetworkFence, fence_state_eqb, set_fencing_failed, set_unfencing_failed, next,
}
use ramen.DrCluster.Fencing.{
  create_each, fence_status, check_fence_status, unfence_status, check_unfence_status, delete_each,
  remove_fencing_cr, count_cleaned, clean_each,
}
use ramen.DrCluster.Peers.{get_nf_classes}
use ramen.DrCluster.Status.{Steady, Steady-trans, Steady-refl, set_conditions-Steady, is_coherent}

pub next-Steady :
    {A B : Type 0} (c : Cluster) (r : Result A × Cluster) (f : A → Cluster → Result B × Cluster)
    → Steady c r.1
    → ((a : A) (d : Cluster) → Steady d (f a d).1)
    → Steady c (next r f).1
next-Steady c (ok a, d) f h k = Steady-trans c d (f a d).1 h (k a d)
next-Steady c (err x, d) f h k = h

pub if-Steady :
    {A : Type 0} (c : Cluster) (b : Bool) (x y : Result A × Cluster)
    → Steady c x.1
    → Steady c y.1
    → Steady c (if b then x else y).1
if-Steady c true x y h k = h
if-Steady c false x y h k = k

pub create_each-Steady :
    (e : FenceEnv) (peer : String) (ks : List String) (c : Cluster)
    → Steady c (create_each e peer ks c).1
unfolding create_each is_coherent
create_each-Steady e peer [] c = Steady-refl c
create_each-Steady e peer (k ∷ ks) c = elim (Option-cases (e.write_work peer k)) [
  | inl h ↦ rw (h, create_each) (create_each-Steady e peer ks _)
  | inr (x, h) ↦ rw (h, create_each) (Steady-refl c)
]

fence_status-Steady :
    (e : FenceEnv) (r : Result NetworkFence) (c : Cluster) → Steady c (fence_status e r c).1
unfolding fence_status set_fencing_failed
fence_status-Steady e (err x) c = Steady-refl c
fence_status-Steady e (ok nf) c =
    if-Steady c (not (fence_state_eqb nf.fence_state c.cluster_fence)) _ _ (Steady-refl c) (
      if-Steady c (not nf.succeeded) _ _
        (set_conditions-Steady e _ _ "fencing operation not successful" c refl) (Steady-refl c))

pub check_fence_status-Steady :
    (e : FenceEnv) (peer : String) (ks : List String) (c : Cluster)
    → Steady c (check_fence_status e peer ks c).1
unfolding check_fence_status
check_fence_status-Steady e peer [] c = Steady-refl c
check_fence_status-Steady e peer (k ∷ ks) c =
    next-Steady c (fence_status e (e.view_nf peer k) c) _
      (fence_status-Steady e (e.view_nf peer k) c) (λ _ d. check_fence_status-Steady e peer ks d)

unfence_status-Steady :
    (e : FenceEnv) (peer : String) (r : Result NetworkFence) (c : Cluster)
    → Steady c (unfence_status e peer r c).1
unfolding unfence_status set_unfencing_failed
unfence_status-Steady e peer (err x) c =
    if-Steady c (is_not_found x.kind) _ _ (Steady-refl c) (Steady-refl c)
unfence_status-Steady e peer (ok nf) c =
    if-Steady c (not (fence_state_eqb nf.fence_state c.cluster_fence)) _ _ (Steady-refl c) (
      if-Steady c (not nf.succeeded) _ _
        (set_conditions-Steady e _ _ "unfencing operation not successful" c refl) (Steady-refl c))

pub check_unfence_status-Steady :
    (e : FenceEnv) (peer : String) (ks : List String) (c : Cluster)
    → Steady c (check_unfence_status e peer ks c).1
unfolding check_unfence_status
check_unfence_status-Steady e peer [] c = Steady-refl c
check_unfence_status-Steady e peer (k ∷ ks) c =
    next-Steady c (unfence_status e peer (e.view_nf peer k) c) _
      (unfence_status-Steady e peer (e.view_nf peer k) c)
      (λ _ d. check_unfence_status-Steady e peer ks d)

delete_each-Steady :
    (e : FenceEnv) (cluster : String) (ks : List String) (c : Cluster)
    → Steady c (delete_each e cluster ks c).1
unfolding delete_each is_coherent
delete_each-Steady e cluster [] c = Steady-refl c
delete_each-Steady e cluster (k ∷ ks) c = elim (Option-cases (e.delete_work cluster k)) [
  | inl h ↦ rw (h, delete_each) (delete_each-Steady e cluster ks _)
  | inr (x, h) ↦ rw (h, delete_each) (Steady-refl c)
]

remove_fencing_cr-Steady :
    (e : FenceEnv) (cluster : String) (c : Cluster) → Steady c (remove_fencing_cr e cluster c).1
unfolding remove_fencing_cr
remove_fencing_cr-Steady e cluster c =
    next-Steady c (get_nf_classes e cluster, c) _ (Steady-refl c)
      (λ ks d. delete_each-Steady e cluster ks d)

count_cleaned-cluster : (r : Result (Unit {0}) × Cluster) (n : ℕ) → (count_cleaned r n).1 ≡ r.1
unfolding count_cleaned
count_cleaned-cluster (ok u, c) n = refl
count_cleaned-cluster (err x, c) n = refl

pub clean_each-Steady :
    (e : FenceEnv) (ks : List String) (n : ℕ) (c : Cluster) → Steady c (clean_each e ks n c).1
unfolding clean_each
clean_each-Steady e [] n c = Steady-refl c
clean_each-Steady e (k ∷ ks) n c =
    let counted = count_cleaned (remove_fencing_cr e k c) n in
    Steady-trans c counted.1 _
      (rw (count_cleaned-cluster (remove_fencing_cr e k c) n) (remove_fencing_cr-Steady e k c))
      (clean_each-Steady e ks counted.0 counted.1)
