-- ===== src/DrCluster/Progress.antt =====
-- That a fencing asked for comes to its end: two reconciles of clusterFenceHandle in
-- internal/controller/drcluster_controller.go.
use ramen.Prelude.{
  String, Bool, true, false, none, List, [], ◌∷◌, ◌≡◌, refl, sym, subst, ◌∙◌, ap, All,
}
use ramen.Condition.{condition_true, condition_false}
use ramen.Drpc.{Result, ok, err, Error}
use ramen.DrCluster.{
  fenced, phase_fencing, phase_fenced, FenceEnv, Cluster, next, is_fencing_or_fenced,
  advance_to_next_phase, set_fenced, set_fencing, condition_type_fenced,
}
use ramen.DrCluster.Fencing.{
  create_each, on_error, start_fence, finish_fence, cluster_fence_from, cluster_fence,
  cluster_fence_handle, fence_handle,
}
use ramen.DrCluster.Peers.{peer_and_classes}
use ramen.Condition.Statuses.{status_of}
use ramen.DrCluster.Status.{set_conditions-status_of}
use ramen.DrCluster.Frames.{create_each-Steady}
use ramen.DrCluster.Confirmed.{
  Confirmed, next-forward, All-check_fence_status, cluster_fence_from-start,
  cluster_fence_from-finish,
}

create_each-ok :
    (e : FenceEnv) (peer : String) (ks : List String) (c : Cluster)
    → All (λ k. e.write_work peer k ≡ none) ks
    → (create_each e peer ks c).0 ≡ ok tt
unfolding create_each
create_each-ok e peer [] c a = refl
create_each-ok e peer (k ∷ ks) c (a, rest) = rw (a, create_each) (create_each-ok e peer ks _ rest)

on_error-ok :
    (msg : String) (f : Error → Cluster → Cluster) (r : Result (Unit {0}) × Cluster)
    → r.0 ≡ ok tt
    → on_error msg f r ≡ r
on_error-ok msg f (ok u, d) h = refl
on_error-ok msg f (err x, d) h = absurd (cc h)

-- The cluster after its works are created.
abbrev started : FenceEnv → String → List String → Cluster → Cluster
started e peer ks c =
    record (set_fencing e "ManifestWork for NetworkFence fence operation created"
      (create_each e peer ks c).1) { phase = phase_fencing }

start_fence-Starts :
    (e : FenceEnv) (peer : String) (ks : List String) (c : Cluster)
    → All (λ k. e.write_work peer k ≡ none) ks
    → start_fence e peer ks c ≡ (ok true, started e peer ks c)
unfolding start_fence
start_fence-Starts e peer ks c a =
    let made = create_each-ok e peer ks c a in
    let answer : Unit {0} → Cluster → Result Bool × Cluster = λ _ d. (
      ok true,
      record (set_fencing e "ManifestWork for NetworkFence fence operation created" d) {
        phase = phase_fencing;
      },
    ) in
    ap (λ r. next r answer) (on_error-ok _ _ (create_each e peer ks c) made)
    ∙ next-forward (create_each e peer ks c) answer tt made

finish_fence-Ends :
    (e : FenceEnv) (peer : String) (ks : List String) (c : Cluster)
    → All (Confirmed e c.cluster_fence peer) ks
    → finish_fence e peer ks c
      ≡ (ok false, advance_to_next_phase (set_fenced e "Cluster successfully fenced" c))
unfolding finish_fence
finish_fence-Ends e peer ks c a = rw (All-check_fence_status e peer ks c a) refl

handle-fence :
    (e : FenceEnv) (c : Cluster) (peer : String) (ks : List String)
    → c.cluster_fence ≡ fenced
    → peer_and_classes e c ≡ ok (peer, ks)
    → cluster_fence_handle e c ≡ cluster_fence_from e (ok (peer, ks)) c
unfolding cluster_fence_handle fence_handle cluster_fence
handle-fence e c peer ks s p = ap (λ t. fence_handle e t c) s ∙ ap (λ r. cluster_fence_from e r c) p

peer_and_classes-same :
    (e : FenceEnv) (c d : Cluster)
    → d.name ≡ c.name
    → d.region ≡ c.region
    → peer_and_classes e d ≡ peer_and_classes e c
unfolding peer_and_classes
peer_and_classes-same e c d n r = rw (n, r) refl

second :
    (later : FenceEnv) (d : Cluster) (peer : String) (ks : List String)
    → d.cluster_fence ≡ fenced
    → peer_and_classes later d ≡ ok (peer, ks)
    → d.phase ≡ phase_fencing
    → All (Confirmed later fenced peer) ks
    → cluster_fence_handle later d
      ≡ (ok false, advance_to_next_phase (set_fenced later "Cluster successfully fenced" d))
second later d peer ks s p f a =
    handle-fence later d peer ks s p
    ∙ cluster_fence_from-finish later peer ks d (ap is_fencing_or_fenced f)
    ∙ finish_fence-Ends later peer ks d (subst (λ t. All (Confirmed later t peer) ks) (sym s) a)

-- A cluster whose spec asks for fencing and that is not yet fencing, with a peer and classes that
-- both reconciles see: when the ManifestWorks can be created in the first one, and in the second
-- the views confirm that every class is fenced, the first asks for the second, and the second is
-- done, with the phase Fenced and the condition Fenced true.
pub cluster_fence_handle-Fences :
    (e later : FenceEnv) (c : Cluster) (peer : String) (ks : List String)
    → c.cluster_fence ≡ fenced
    → is_fencing_or_fenced c.phase ≡ false
    → peer_and_classes e c ≡ ok (peer, ks)
    → peer_and_classes later c ≡ ok (peer, ks)
    → All (λ k. e.write_work peer k ≡ none) ks
    → All (Confirmed later fenced peer) ks
    → let (answer, d) = cluster_fence_handle e c in
      let (answer_later, f) = cluster_fence_handle later d in
      (answer ≡ ok true)
      × (answer_later ≡ ok false)
      × (f.phase ≡ phase_fenced)
      × (status_of f.conditions condition_type_fenced ≡ condition_true)
unfolding advance_to_next_phase set_fenced set_fencing
cluster_fence_handle-Fences e later c peer ks s f p q w a =
    let d = started e peer ks c in
    let (_, name, region, spec, _) = create_each-Steady e peer ks c in
    let once =
      handle-fence e c peer ks s p
      ∙ cluster_fence_from-start e peer ks c f
      ∙ start_fence-Starts e peer ks c w in
    let twice =
      second later d peer ks (spec ∙ s) (peer_and_classes-same later c d name region ∙ q) refl a in
    rw (once, twice)
      (
        refl,
        refl,
        refl,
        (set_conditions-status_of later (condition_true, "Fenced") (condition_false, "Fenced")
            "Cluster successfully fenced" d).0,
      )
