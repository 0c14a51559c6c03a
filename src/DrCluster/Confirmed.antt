-- ===== src/DrCluster/Confirmed.antt =====
-- When clusterFence of internal/controller/drcluster_controller.go is done.
use ramen.Prelude.{
  String, Bool, true, false, List, [], ◌∷◌, ◌≡◌, ◌≢◌, refl, sym, subst, ◌∙◌, ap, inl, inr,
  Bool-cases, All, arith,
}
use ramen.Condition.{condition_true, condition_false}
use ramen.Drpc.{Result, ok, err}
use ramen.DrCluster.{
  FenceState, fence_state_eqb, Phase, phase_fenced, NetworkFence, FenceEnv, Cluster, next,
  next_phase, is_fencing_or_fenced, advance_to_next_phase, set_fenced, condition_type_fenced,
}
use ramen.DrCluster.Fencing.{
  fence_status, check_fence_status, start_fence, finish_fence, cluster_fence_from, cluster_fence,
}
use ramen.DrCluster.Peers.{peer_and_classes}
use ramen.Condition.Statuses.{status_of}
use ramen.DrCluster.Status.{set_conditions-status_of}
use ramen.DrCluster.Frames.{check_fence_status-Steady}

-- The view of the NetworkFence of a class reports the fence state, and that it succeeded.
abbrev pub Confirmed : FenceEnv → FenceState → String → String → Type 0
Confirmed e s peer k =
    (nf : NetworkFence) × (e.view_nf peer k ≡ ok nf) × (nf.fence_state ≡ s) × (nf.succeeded ≡ true)

fence_state_eqb-eq : (a b : FenceState) → fence_state_eqb a b ≡ true → a ≡ b
fence_state_eqb-eq a b h = ground arith

fence_state_eqb_refl : (a : FenceState) → fence_state_eqb a a ≡ true
fence_state_eqb_refl a = ground arith

next-ok :
    {A B : Type 0} (r : Result A × Cluster) (f : A → Cluster → Result B × Cluster) (b : B)
    → (next r f).0 ≡ ok b
    → (a : A) × (r.0 ≡ ok a) × (next r f ≡ f a r.1)
next-ok (ok a, c) f b h = (a, refl, refl)
next-ok (err x, c) f b h = absurd (cc h)

pub next-forward :
    {A B : Type 0} (r : Result A × Cluster) (f : A → Cluster → Result B × Cluster) (a : A)
    → r.0 ≡ ok a
    → next r f ≡ f a r.1
next-forward (ok x, c) f a h = ap (λ y. next (y, c) f) h
next-forward (err x, c) f a h = absurd (cc h)

-- fence_status answers ok exactly when the view confirms.
fence_status-ok :
    (e : FenceEnv) (r : Result NetworkFence) (c : Cluster)
    → (fence_status e r c).0 ≡ ok tt
    → ((nf : NetworkFence) × (r ≡ ok nf)
        × (nf.fence_state ≡ c.cluster_fence)
        × (nf.succeeded ≡ true))
      × ((fence_status e r c).1 ≡ c)
unfolding fence_status
fence_status-ok e (err x) c h = absurd (cc h)
fence_status-ok e (ok nf) c h = elim (Bool-cases (fence_state_eqb nf.fence_state c.cluster_fence)) [
  | inr s ↦ absurd (ground arith)
  | inl s ↦ elim (Bool-cases nf.succeeded) [
    | inr t ↦ absurd (ground arith)
    | inl t ↦ (
      (nf, refl, fence_state_eqb-eq nf.fence_state c.cluster_fence s, t),
      rw (s, t, fence_status) refl,
    )
  ]
]

fence_status-Confirmed :
    (e : FenceEnv) (peer k : String) (c : Cluster)
    → Confirmed e c.cluster_fence peer k
    → fence_status e (e.view_nf peer k) c ≡ (ok tt, c)
unfolding fence_status
fence_status-Confirmed e peer k c (nf, v, s, t) =
    rw (v, fence_status, s, fence_state_eqb_refl c.cluster_fence, t) refl

check_fence_status-All :
    (e : FenceEnv) (peer : String) (ks : List String) (c : Cluster)
    → (check_fence_status e peer ks c).0 ≡ ok tt
    → All (Confirmed e c.cluster_fence peer) ks
unfolding check_fence_status
check_fence_status-All e peer [] c h = tt
check_fence_status-All e peer (k ∷ ks) c h =
    let rest : Unit {0} → Cluster → Result (Unit {0}) × Cluster =
      λ _ d. check_fence_status e peer ks d in
    let (u, first, forward) = next-ok (fence_status e (e.view_nf peer k) c) rest tt h in
    let (confirmed, same) = fence_status-ok e (e.view_nf peer k) c first in
    (
      confirmed,
      check_fence_status-All e peer ks c (
          ap (λ d. (check_fence_status e peer ks d).0) (sym same)
          ∙ sym (ap (λ r. r.0) forward)
          ∙ h),
    )

pub All-check_fence_status :
    (e : FenceEnv) (peer : String) (ks : List String) (c : Cluster)
    → All (Confirmed e c.cluster_fence peer) ks
    → check_fence_status e peer ks c ≡ (ok tt, c)
unfolding check_fence_status
All-check_fence_status e peer [] c a = refl
All-check_fence_status e peer (k ∷ ks) c (a, rest) =
    rw (fence_status-Confirmed e peer k c a) (All-check_fence_status e peer ks c rest)

fenced_phase : (p : Phase) → is_fencing_or_fenced p ≡ true → next_phase p ≡ phase_fenced
fenced_phase p h = ground arith

-- What clusterFence has established when it is done.
abbrev pub Done : FenceEnv → Cluster → Result Bool × Cluster → Type 0
Done e c (answer, d) =
    (peer : String) × (ks : List String) × (peer_and_classes e c ≡ ok (peer, ks))
    × All (Confirmed e c.cluster_fence peer) ks
    × (d.phase ≡ phase_fenced)
    × (status_of d.conditions condition_type_fenced ≡ condition_true)

next-answers :
    {A B : Type 0} (r : Result A × Cluster) (g : Cluster → Cluster) (x y : B)
    → (next r (λ _ d. (ok x, g d))).0 ≡ ok y
    → x ≡ y
next-answers (ok a, d) g x y h = cc h
next-answers (err z, d) g x y h = absurd (cc h)

start_fence-Requeues :
    (e : FenceEnv) (peer : String) (ks : List String) (c : Cluster)
    → (start_fence e peer ks c).0 ≢ ok false
unfolding start_fence
start_fence-Requeues e peer ks c h = cc (next-answers _ _ true false h)

pub cluster_fence_from-finish :
    (e : FenceEnv) (peer : String) (ks : List String) (c : Cluster)
    → is_fencing_or_fenced c.phase ≡ true
    → cluster_fence_from e (ok (peer, ks)) c ≡ finish_fence e peer ks c
unfolding cluster_fence_from
cluster_fence_from-finish e peer ks c f = rw (f, cluster_fence_from) refl

pub cluster_fence_from-start :
    (e : FenceEnv) (peer : String) (ks : List String) (c : Cluster)
    → is_fencing_or_fenced c.phase ≡ false
    → cluster_fence_from e (ok (peer, ks)) c ≡ start_fence e peer ks c
unfolding cluster_fence_from
cluster_fence_from-start e peer ks c f = rw (f, cluster_fence_from) refl

finish_fence-Done :
    (e : FenceEnv) (peer : String) (ks : List String) (c : Cluster)
    → peer_and_classes e c ≡ ok (peer, ks)
    → is_fencing_or_fenced c.phase ≡ true
    → (finish_fence e peer ks c).0 ≡ ok false
    → Done e c (finish_fence e peer ks c)
unfolding finish_fence set_fenced advance_to_next_phase
finish_fence-Done e peer ks c p f h =
    let fence : Cluster → Cluster = set_fenced e "Cluster successfully fenced" in
    let answer : Unit {0} → Cluster → Result Bool × Cluster =
      λ _ d. (ok false, advance_to_next_phase (fence d)) in
    let (u, checked, forward) = next-ok (check_fence_status e peer ks c) answer false h in
    let d = (check_fence_status e peer ks c).1 in
    rw forward (
      peer,
      ks,
      p,
      check_fence_status-All e peer ks c checked,
      ap next_phase (check_fence_status-Steady e peer ks c).0 ∙ fenced_phase c.phase f,
      (set_conditions-status_of e (condition_true, "Fenced") (condition_false, "Fenced")
          "Cluster successfully fenced" d).0,
    )

cluster_fence_from-Done :
    (e : FenceEnv) (r : Result (String × List String)) (c : Cluster)
    → peer_and_classes e c ≡ r
    → (cluster_fence_from e r c).0 ≡ ok false
    → Done e c (cluster_fence_from e r c)
unfolding cluster_fence_from
cluster_fence_from-Done e (err x) c p h = absurd (cc h)
cluster_fence_from-Done e (ok (peer, ks)) c p h = elim (Bool-cases (is_fencing_or_fenced c.phase)) [
  | inl f ↦
      let same = cluster_fence_from-finish e peer ks c f in
      subst (λ r. Done e c r) (sym same)
        (finish_fence-Done e peer ks c p f (ap (λ r. r.0) (sym same) ∙ h))
  | inr f ↦
      let same = cluster_fence_from-start e peer ks c f in
      absurd (start_fence-Requeues e peer ks c (ap (λ r. r.0) (sym same) ∙ h))
]

-- When clusterFence answers that nothing is left to do, the views of the NetworkFences of all
-- classes report the fence state of the spec and success, the phase is Fenced, and the condition
-- Fenced is true.
pub cluster_fence-Done :
    (e : FenceEnv) (c : Cluster) → (cluster_fence e c).0 ≡ ok false → Done e c (cluster_fence e c)
unfolding cluster_fence
cluster_fence-Done e c h = cluster_fence_from-Done e (peer_and_classes e c) c refl h
