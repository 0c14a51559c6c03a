-- ===== src/DrCluster/Phases.antt =====
-- The phases of a DRCluster as a state machine, and the conditions beside them: clusterFenceHandle
-- and what it calls in internal/controller/drcluster_controller.go.
use ramen.Prelude.{
  String, Bool, true, false, List, [], ◌∷◌, ◌≡◌, refl, subst, sym, inl, inr, Bool-cases,
  if◌then◌else◌, eqb, length,
}
use ramen.Drpc.{Result, ok, err, Error}
use ramen.Condition.{condition_false}
use ramen.DrCluster.{
  FenceState, fenced, unfenced, manually_fenced, manually_unfenced, no_fence_state, Phase,
  phase_available, phase_starting, phase_fencing, phase_fenced, phase_unfencing, phase_unfenced,
  phase_unset, FenceEnv, Cluster, next, next_phase, is_fencing_or_fenced, is_unfencing_or_unfenced,
  advance_to_next_phase, set_fenced, set_unfenced, set_clean, set_cleaning, set_fencing,
  set_unfencing, set_fencing_failed, set_unfencing_failed,
}
use ramen.DrCluster.Fencing.{
  create_each, on_error, check_unfence_status, clean_each, clean_clusters, start_fence,
  finish_fence, cluster_fence_from, cluster_fence, start_unfence, finish_unfence,
  cluster_unfence_from, cluster_unfence, fence_handle, cluster_fence_handle,
}
use ramen.DrCluster.Peers.{peer_and_classes}
use ramen.DrCluster.Status.{is_coherent, Steady, Steady-trans, Steady-refl, set_conditions-Steady}
use ramen.DrCluster.Frames.{
  create_each-Steady, check_fence_status-Steady, check_unfence_status-Steady, clean_each-Steady,
  if-Steady,
}

-- The phases that one reconcile may lead to, by the fence state of the spec.
pub data PhaseStep : FenceState → Phase → Phase → Type 0 where
  stays : (s : FenceState) (p : Phase) → PhaseStep s p p
  fence_starts : (p : Phase) → is_fencing_or_fenced p ≡ false → PhaseStep fenced p phase_fencing
  fence_finishes : PhaseStep fenced phase_fencing phase_fenced
  unfence_starts :
      (p : Phase) → is_unfencing_or_unfenced p ≡ false → PhaseStep unfenced p phase_unfencing
  unfence_finishes : PhaseStep unfenced phase_unfencing phase_unfenced
  fenced_by_hand : (p : Phase) → PhaseStep manually_fenced p phase_fenced
  unfenced_by_hand : (p : Phase) → PhaseStep manually_unfenced p phase_unfenced
  resets : (p : Phase) → PhaseStep no_fence_state p phase_available

fence_phase : (p : Phase) → is_fencing_or_fenced p ≡ true → PhaseStep fenced p (next_phase p)
fence_phase phase_fencing h = fence_finishes
fence_phase phase_fenced h = stays fenced phase_fenced
fence_phase phase_available h = absurd (cc h)
fence_phase phase_starting h = absurd (cc h)
fence_phase phase_unfencing h = absurd (cc h)
fence_phase phase_unfenced h = absurd (cc h)
fence_phase phase_unset h = absurd (cc h)

unfence_phase :
    (p : Phase) → is_unfencing_or_unfenced p ≡ true → PhaseStep unfenced p (next_phase p)
unfence_phase phase_unfencing h = unfence_finishes
unfence_phase phase_unfenced h = stays unfenced phase_unfenced
unfence_phase phase_available h = absurd (cc h)
unfence_phase phase_starting h = absurd (cc h)
unfence_phase phase_fencing h = absurd (cc h)
unfence_phase phase_fenced h = absurd (cc h)
unfence_phase phase_unset h = absurd (cc h)

-- A step of the phases that keeps the conditions coherent.
abbrev Sound : FenceState → Cluster → Cluster → Type 0
Sound s c d = PhaseStep s c.phase d.phase × (is_coherent c ≡ true → is_coherent d ≡ true)

Steady-Sound : (s : FenceState) (c d : Cluster) → Steady c d → Sound s c d
Steady-Sound s c d (p, n, r, f, h) =
    (subst (λ q. PhaseStep s c.phase q) (sym p) (stays s c.phase), h)

Sound-Steady : (s : FenceState) (c d f : Cluster) → Sound s c d → Steady d f → Sound s c f
Sound-Steady s c d f (p, h) (q, n, r, t, k) =
    (subst (λ x. PhaseStep s c.phase x) (sym q) p, λ x. k (h x))

-- A phase that is written after steady steps and a setter.
moved-Sound :
    (s : FenceState) (c d : Cluster) (f : Phase → Phase)
    → Steady c d
    → PhaseStep s c.phase (f c.phase)
    → Sound s c (record d { phase = f d.phase })
unfolding is_coherent
moved-Sound s c d f (p, n, r, t, h) step = (subst (λ q. PhaseStep s c.phase (f q)) (sym p) step, h)

next-Sound :
    {A B : Type 0} (s : FenceState) (c : Cluster) (r : Result A × Cluster)
    (f : A → Cluster → Result B × Cluster)
    → Steady c r.1
    → ((a : A) (d : Cluster) → Steady c d → Sound s c (f a d).1)
    → Sound s c (next r f).1
next-Sound s c (ok a, d) f h k = k a d h
next-Sound s c (err x, d) f h k = Steady-Sound s c d h

on_error-Steady :
    (c : Cluster) (msg : String) (f : Error → Cluster → Cluster) (r : Result (Unit {0}) × Cluster)
    → Steady c r.1
    → ((x : Error) (d : Cluster) → Steady d (f x d))
    → Steady c (on_error msg f r).1
on_error-Steady c msg f (ok u, d) h k = h
on_error-Steady c msg f (err x, d) h k = Steady-trans c d (f x d) h (k x d)

if-Sound :
    {A : Type 0} (s : FenceState) (c : Cluster) (b : Bool) (x y : Result A × Cluster)
    → (b ≡ true → Sound s c x.1)
    → (b ≡ false → Sound s c y.1)
    → Sound s c (if b then x else y).1
if-Sound s c true x y h k = h refl
if-Sound s c false x y h k = k refl

start_fence-Sound :
    (e : FenceEnv) (peer : String) (ks : List String) (c : Cluster)
    → is_fencing_or_fenced c.phase ≡ false
    → Sound fenced c (start_fence e peer ks c).1
unfolding start_fence set_fencing_failed set_fencing
start_fence-Sound e peer ks c h =
    next-Sound fenced c _ _
      (on_error-Steady c _ _ (create_each e peer ks c) (create_each-Steady e peer ks c)
        (λ _ d. set_conditions-Steady e _ _ _ d refl))
      (λ _ d k.
        moved-Sound fenced c _ (λ _. phase_fencing)
          (Steady-trans c d _ k (set_conditions-Steady e _ _ _ d refl)) (fence_starts c.phase h))

finish_fence-Sound :
    (e : FenceEnv) (peer : String) (ks : List String) (c : Cluster)
    → is_fencing_or_fenced c.phase ≡ true
    → Sound fenced c (finish_fence e peer ks c).1
unfolding finish_fence set_fenced advance_to_next_phase
finish_fence-Sound e peer ks c h =
    next-Sound fenced c _ _ (check_fence_status-Steady e peer ks c) (λ _ d k.
      moved-Sound fenced c _ next_phase
        (Steady-trans c d _ k (set_conditions-Steady e _ _ _ d refl)) (fence_phase c.phase h))

start_unfence-Sound :
    (e : FenceEnv) (peer : String) (ks : List String) (c : Cluster)
    → is_unfencing_or_unfenced c.phase ≡ false
    → Sound unfenced c (start_unfence e peer ks c).1
unfolding start_unfence set_unfencing_failed set_unfencing
start_unfence-Sound e peer ks c h =
    next-Sound unfenced c _ _
      (on_error-Steady c _ _ (create_each e peer ks c) (create_each-Steady e peer ks c)
        (λ _ d. set_conditions-Steady e _ _ _ d refl))
      (λ _ d k.
        moved-Sound unfenced c _ (λ _. phase_unfencing)
          (Steady-trans c d _ k (set_conditions-Steady e _ _ _ d refl)) (unfence_starts c.phase h))

clean_clusters-Steady :
    (e : FenceEnv) (clusters : List String) (c : Cluster) → Steady c (clean_clusters e clusters c).1
unfolding clean_clusters set_clean set_cleaning
clean_clusters-Steady e clusters c =
    let (n, d) = clean_each e clusters 0 c in
    let cleaned = clean_each-Steady e clusters 0 c in
    if-Steady c (eqb n (length clusters)) _ _
      (Steady-trans c d _ cleaned (set_conditions-Steady e _ _ _ d refl))
      (Steady-trans c d _ cleaned (set_conditions-Steady e _ _ _ d refl))

finish_unfence-Sound :
    (e : FenceEnv) (peer : String) (ks : List String) (c : Cluster)
    → is_unfencing_or_unfenced c.phase ≡ true
    → Sound unfenced c (finish_unfence e peer ks c).1
unfolding finish_unfence set_unfenced advance_to_next_phase
finish_unfence-Sound e peer ks c h =
    let unfence : Cluster → Cluster = set_unfenced e "Cluster successfully unfenced" in
    next-Sound unfenced c (check_unfence_status e peer ks c)
      (λ _ d. clean_clusters e (d.name ∷ peer ∷ []) (advance_to_next_phase (unfence d)))
      (check_unfence_status-Steady e peer ks c)
      (λ _ d k.
        Sound-Steady unfenced c (advance_to_next_phase (unfence d)) _
          (moved-Sound unfenced c (unfence d) next_phase
            (Steady-trans c d (unfence d) k (
              set_conditions-Steady e (condition_false, "Unfenced") (condition_false, "Fenced")
                "Cluster successfully unfenced" d refl))
            (unfence_phase c.phase h))
          (clean_clusters-Steady e (d.name ∷ peer ∷ []) (advance_to_next_phase (unfence d))))

cluster_fence_from-Sound :
    (e : FenceEnv) (r : Result (String × List String)) (c : Cluster)
    → Sound fenced c (cluster_fence_from e r c).1
unfolding cluster_fence_from
cluster_fence_from-Sound e (err x) c = Steady-Sound fenced c c (Steady-refl c)
cluster_fence_from-Sound e (ok (peer, ks)) c = elim (Bool-cases (is_fencing_or_fenced c.phase)) [
  | inl h ↦ rw (h, cluster_fence_from) (finish_fence-Sound e peer ks c h)
  | inr h ↦ rw (h, cluster_fence_from) (start_fence-Sound e peer ks c h)
]

cluster_unfence_from-Sound :
    (e : FenceEnv) (r : Result (String × List String)) (c : Cluster)
    → Sound unfenced c (cluster_unfence_from e r c).1
unfolding cluster_unfence_from
cluster_unfence_from-Sound e (err x) c = Steady-Sound unfenced c c (Steady-refl c)
cluster_unfence_from-Sound e (ok (peer, ks)) c =
    elim (Bool-cases (is_unfencing_or_unfenced c.phase)) [
      | inl h ↦ rw (h, cluster_unfence_from) (finish_unfence-Sound e peer ks c h)
      | inr h ↦ rw (h, cluster_unfence_from) (start_unfence-Sound e peer ks c h)
    ]

fence_handle-Sound :
    (e : FenceEnv) (s : FenceState) (c : Cluster) → Sound s c (fence_handle e s c).1
unfolding fence_handle cluster_fence cluster_unfence set_fenced set_clean
fence_handle-Sound e unfenced c = cluster_unfence_from-Sound e (peer_and_classes e c) c
fence_handle-Sound e manually_fenced c =
    moved-Sound manually_fenced c _ (λ _. phase_fenced) (set_conditions-Steady e _ _ _ c refl)
      (fenced_by_hand c.phase)
fence_handle-Sound e manually_unfenced c =
    moved-Sound manually_unfenced c _ (λ _. phase_unfenced) (set_conditions-Steady e _ _ _ c refl)
      (unfenced_by_hand c.phase)
fence_handle-Sound e fenced c = cluster_fence_from-Sound e (peer_and_classes e c) c
fence_handle-Sound e no_fence_state c =
    moved-Sound no_fence_state c _ (λ _. phase_available) (set_conditions-Steady e _ _ _ c refl)
      (resets c.phase)

-- A reconcile of the fencing moves the phase by one step of the state machine: to Fencing only
-- from a phase that is not Fencing or Fenced, to Fenced only from Fencing or by hand, and
-- likewise for the unfencing.
pub cluster_fence_handle-PhaseStep :
    (e : FenceEnv) (c : Cluster)
    → PhaseStep c.cluster_fence c.phase (cluster_fence_handle e c).1.phase
unfolding cluster_fence_handle
cluster_fence_handle-PhaseStep e c = (fence_handle-Sound e c.cluster_fence c).0

-- Where the conditions Fenced and Clean are not both true, they are not after a reconcile of the
-- fencing, whatever it answers.
pub cluster_fence_handle-coherent :
    (e : FenceEnv) (c : Cluster)
    → is_coherent c ≡ true
    → is_coherent (cluster_fence_handle e c).1 ≡ true
unfolding cluster_fence_handle
cluster_fence_handle-coherent e c = (fence_handle-Sound e c.cluster_fence c).1
