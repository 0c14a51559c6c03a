-- ===== src/Drpc/Recovery/Grounds.antt =====
-- The grounds on which a DRPC without a state goes on with its action.
use ramen.Prelude.{
  ℕ, suc, String, Bool, true, false, not, ◌&&◌, Option, none, some, List, [], ◌∷◌, ◌≡◌, ◌≢◌, refl,
  sym, subst, ◌∙◌, ap, inl, inr, ◌⊎◌, ◌==◌, eqb, length, if◌then◌else◌, of_false_is_true,
  assoc_or_empty, arith, eq_iff,
}
use ramen.Api.{
  Action, action_failover, action_eqb, wait_for_user, phase_eqb, DrState, Vrg, ReplicationState,
  primary, is_primary, is_secondary,
}
use ramen.Drpc.{Drpc}
use ramen.Drpc.Fields.{destination_cluster_annotation_key}
use ramen.Drpc.Recovery.{
  Queried, Progress, continue, allow_failover, stop, first_primary_or_last, progress_by_s3,
  progress_by_single, progress_by_both, progress_by_first, progress_by_vrgs, decide_progress,
}

-- The pair is an element of the list.
abbrev pub Among : String → Vrg → List (String × Vrg) → Type 0
Among c v [] = false ≡ true
Among c v (p ∷ ps) = ((c ≡ p.0) × (v ≡ p.1)) ⊎ Among c v ps

-- The documented cases in which the DRPC goes on: no VRG on either cluster; a failover that the
-- user asks for, to a cluster that answers; no VRG anywhere, the other cluster being lost; the
-- VRG in the S3 store, on the cluster that answers, has the DRPC's action; so has the only VRG
-- seen, primary on the destination; so has a VRG on the destination, where not both VRGs are
-- secondary.
pub data Grounds (d : Drpc) (dst : String) (q : Queried) (s3 : Option Vrg) : Type 0 where
  no_vrgs : q.num_clusters_queried_successfully ≡ 2 → length q.vrgs ≡ 0 → Grounds d dst q s3
  asked :
      d.phase ≡ wait_for_user
      → d.action ≡ action_failover
      → d.failover_cluster ≢ q.failed_cluster
      → Grounds d dst q s3
  other_lost :
      q.num_clusters_queried_successfully ≡ 1
      → length q.vrgs ≡ 0
      → s3 ≡ none
      → q.failed_cluster ≢ dst
      → Grounds d dst q s3
  from_s3 :
      (v : Vrg)
      → q.num_clusters_queried_successfully ≡ 1
      → length q.vrgs ≡ 0
      → s3 ≡ some v
      → d.action ≡ v.action
      → assoc_or_empty destination_cluster_annotation_key v.annotations ≡ dst
      → dst ≢ q.failed_cluster
      → Grounds d dst q s3
  only_one :
      (v : Vrg)
      → q.num_clusters_queried_successfully ≡ 1
      → Among dst v q.vrgs
      → length q.vrgs ≡ 1
      → v.replication_state ≡ primary
      → d.action ≡ v.action
      → Grounds d dst q s3
  both_queried :
      (v : Vrg)
      → q.num_clusters_queried_successfully ≡ 2
      → Among dst v q.vrgs
      → (length q.vrgs ≡ 2 → v.replication_state ≡ primary)
      → d.action ≡ v.action
      → Grounds d dst q s3

abbrev is_continue : Progress → Bool
is_continue continue = true
is_continue allow_failover = false
is_continue stop = false

-- The branch that an answer comes from.
branch :
    (b : Bool) (p r : Progress × String)
    → (if b then p else r).0 ≡ continue
    → ((b ≡ true) × (p.0 ≡ continue)) ⊎ ((b ≡ false) × (r.0 ≡ continue))
branch true p r h = inl (refl, h)
branch false p r h = inr (refl, h)

action_eqb-eq : (a b : Action) → action_eqb a b ≡ true → a ≡ b
action_eqb-eq a b h = ground arith

phase_eqb-eq : (p : DrState) → phase_eqb p wait_for_user ≡ true → p ≡ wait_for_user
phase_eqb-eq p h = ground arith

is_primary-eq : (r : ReplicationState) → is_primary r ≡ true → r ≡ primary
is_primary-eq r h = ground arith

and_parts : (a b : Bool) → a && b ≡ true → (a ≡ true) × (b ≡ true)
and_parts a b h = ground arith

not_equal : (s t : String) → not (s == t) ≡ true → s ≢ t
not_equal s t h p = of_false_is_true (ground (arith, eq_iff s t))

equal : (s t : String) → s == t ≡ true → s ≡ t
equal s t h = ground (arith, eq_iff s t)

not_both : (r : ReplicationState) (n : ℕ) → is_secondary r && eqb n 2 ≡ false → n ≡ 2 → r ≡ primary
not_both r n h p = ground arith

zero_of : (n : ℕ) → eqb n 0 ≡ true → n ≡ 0
zero_of n h = ground arith

abbrev or_pair : String × Vrg → Option (String × Vrg) → String × Vrg
or_pair p none = p
or_pair p (some r) = r

if_first-Among :
    (b : Bool) (x : String × Vrg) (o : Option (String × Vrg)) (vrgs : List (String × Vrg))
    → ((c : String) (v : Vrg) → o ≡ some (c, v) → Among c v vrgs)
    → (c : String) (v : Vrg) → (if b then some x else o) ≡ some (c, v)
    → Among c v (x ∷ vrgs)
if_first-Among true x o vrgs ih c v p =
    let at = ap (or_pair x) p in inl (sym (ap (λ r. r.0) at), sym (ap (λ r. r.1) at))
if_first-Among false x o vrgs ih c v p = inr (ih c v p)

abbrev is_some : Option (String × Vrg) → Bool
is_some none = false
is_some (some p) = true

first_primary_or_last-Among :
    (vrgs : List (String × Vrg)) (c : String) (v : Vrg)
    → first_primary_or_last vrgs ≡ some (c, v)
    → Among c v vrgs
unfolding first_primary_or_last
first_primary_or_last-Among [] c v p = ap is_some p
first_primary_or_last-Among (x ∷ []) c v p =
    let at = ap (or_pair x) p in inl (sym (ap (λ r. r.0) at), sym (ap (λ r. r.1) at))
first_primary_or_last-Among (x ∷ w ∷ vrgs) c v p =
    if_first-Among (is_primary x.1.replication_state) x (first_primary_or_last (w ∷ vrgs))
      (w ∷ vrgs) (first_primary_or_last-Among (w ∷ vrgs)) c v p

module _ (d : Drpc) (dst : String) (q : Queried) (s3 : Option Vrg) where
  by_s3-Grounds :
      (o : Option Vrg)
      → s3 ≡ o
      → eqb q.num_clusters_queried_successfully 1 ≡ true
      → length q.vrgs ≡ 0
      → (progress_by_s3 d dst q.failed_cluster o).0 ≡ continue
      → Grounds d dst q s3
  unfolding progress_by_s3
  by_s3-Grounds none at one empty h = elim (branch (not (q.failed_cluster == dst)) _ _ h) [
    | inl (a, _) ↦ other_lost (ground arith) empty at (not_equal q.failed_cluster dst a)
    | inr (_, p) ↦ of_false_is_true (ap is_continue p)
  ]
  by_s3-Grounds (some v) at one empty h =
      let there = assoc_or_empty destination_cluster_annotation_key v.annotations in
      elim (branch (not (action_eqb d.action v.action)) _ _ h) [
        | inl (_, p) ↦ of_false_is_true (ap is_continue p)
        | inr (a, p) ↦ elim (branch (dst == there && not (dst == q.failed_cluster)) _ _ p) [
          | inl (b, _) ↦
              let (x, y) = and_parts (dst == there) (not (dst == q.failed_cluster)) b in
              from_s3 v (ground arith) empty at (action_eqb-eq d.action v.action (ground arith))
                (sym (equal dst there x)) (not_equal dst q.failed_cluster y)
          | inr (_, r) ↦ of_false_is_true (ap is_continue r)
        ]
      ]

  by_single-Grounds :
      (c : String) (v : Vrg)
      → (dst ≡ c → Among dst v q.vrgs)
      → eqb q.num_clusters_queried_successfully 1 ≡ true
      → length q.vrgs ≡ 1
      → (progress_by_single d dst c v).0 ≡ continue
      → Grounds d dst q s3
  unfolding progress_by_single
  by_single-Grounds c v among one single h =
      elim (branch (is_primary v.replication_state && dst == c) _ _ h) [
        | inl (a, p) ↦
            let (x, y) = and_parts (is_primary v.replication_state) (dst == c) a in
            elim (branch (not (action_eqb d.action v.action)) _ _ p) [
              | inl (_, r) ↦ of_false_is_true (ap is_continue r)
              | inr (b, _) ↦
                  only_one v (ground arith) (among (equal dst c y)) single
                    (is_primary-eq v.replication_state x)
                    (action_eqb-eq d.action v.action (ground arith))
            ]
        | inr (_, p) ↦ elim (branch (not (dst == c) && is_secondary v.replication_state) _ _ p) [
          | inl (_, r) ↦ of_false_is_true (ap is_continue r)
          | inr (_, r) ↦ of_false_is_true (ap is_continue r)
        ]
      ]

  by_first-Grounds :
      (o : Option (String × Vrg))
      → ((c : String) (v : Vrg) → o ≡ some (c, v) → Among c v q.vrgs)
      → eqb q.num_clusters_queried_successfully 2 ≡ true
      → (progress_by_first d dst (length q.vrgs) o).0 ≡ continue
      → Grounds d dst q s3
  unfolding progress_by_first progress_by_both
  by_first-Grounds none among two h = of_false_is_true (ap is_continue h)
  by_first-Grounds (some (c, v)) among two h =
      elim (branch (is_secondary v.replication_state && eqb (length q.vrgs) 2) _ _ h) [
        | inl (_, p) ↦ of_false_is_true (ap is_continue p)
        | inr (a, p) ↦ elim (branch (action_eqb d.action v.action && dst == c) _ _ p) [
          | inl (b, _) ↦
              let (x, y) = and_parts (action_eqb d.action v.action) (dst == c) b in
              both_queried v (ground arith)
                (subst (λ k. Among k v q.vrgs) (sym (equal dst c y)) (among c v refl))
                (λ n. not_both v.replication_state (length q.vrgs) a n)
                (action_eqb-eq d.action v.action x)
          | inr (_, r) ↦ of_false_is_true (ap is_continue r)
        ]
      ]

  by_vrgs-Grounds :
      (vrgs : List (String × Vrg))
      → q.vrgs ≡ vrgs
      → (progress_by_vrgs d dst q s3 vrgs).0 ≡ continue
      → Grounds d dst q s3
  unfolding progress_by_vrgs
  by_vrgs-Grounds [] at h = elim (branch (eqb q.num_clusters_queried_successfully 1) _ _ h) [
    | inl (a, p) ↦ by_s3-Grounds s3 refl a (ap length at) p
    | inr (_, p) ↦ of_false_is_true (ap is_continue p)
  ]
  by_vrgs-Grounds ((c, v) ∷ vrgs) at h =
      let num = q.num_clusters_queried_successfully in
      elim (branch (eqb num 1 && eqb (length vrgs) 0) _ _ h) [
        | inl (a, p) ↦
            let (x, y) = and_parts (eqb num 1) (eqb (length vrgs) 0) a in
            by_single-Grounds c v (λ r. subst (Among dst v) (sym at) (inl (r, refl))) x
              (ap length at ∙ ap suc (zero_of (length vrgs) y)) p
        | inr (_, p) ↦ elim (branch (eqb num 2) _ _ p) [
          | inl (b, r) ↦
              let P : ℕ → Type 0 = λ n.
                (progress_by_first d dst n (first_primary_or_last ((c, v) ∷ vrgs))).0 ≡ continue in
              by_first-Grounds (first_primary_or_last ((c, v) ∷ vrgs))
                (λ k w s.
                  subst (Among k w) (sym at) (first_primary_or_last-Among ((c, v) ∷ vrgs) k w s))
                b (subst P (sym (ap length at)) r)
          | inr (_, r) ↦ of_false_is_true (ap is_continue r)
        ]
      ]

-- determineDRPCState, the VRGs being queried and managed by the DRPC, answers Continue only on one
-- of these grounds: two clusters have answered and there is no VRG; the DRPC is in WaitForUser and
-- asks for a failover to a cluster other than the failed one; one cluster has answered, there is
-- no VRG in the clusters or in the S3 stores, and the failed cluster is not the destination; one
-- has answered and the VRG in the S3 stores has the DRPC's action and destination, which is not the
-- failed cluster; one has answered, and the only VRG is a primary on the destination with the
-- DRPC's action; or two have answered, a VRG on the destination has the DRPC's action, and it is
-- primary if there are two VRGs.
pub decide_progress-Grounds :
    (d : Drpc) (dst_cluster : String) (q : Queried) (s3_vrg : Option Vrg)
    → (decide_progress d dst_cluster q s3_vrg).0 ≡ continue
    → Grounds d dst_cluster q s3_vrg
unfolding decide_progress
decide_progress-Grounds d dst q s3 h =
    let num = q.num_clusters_queried_successfully in
    let free =
      phase_eqb d.phase wait_for_user
      && action_eqb d.action action_failover
      && not (d.failover_cluster == q.failed_cluster) in
    let rest = progress_by_vrgs d dst q s3 q.vrgs in
    let third = if free then (continue, "") else rest in
    let second = if eqb num 2 && eqb (length q.vrgs) 0 then (continue, "") else third in
    elim (branch (eqb num 0) (stop, "Stop - Number of clusters queried is 0") second h) [
      | inl (_, p) ↦ of_false_is_true (ap is_continue p)
      | inr (_, p) ↦ elim (branch (eqb num 2 && eqb (length q.vrgs) 0) (continue, "") third p) [
        | inl (a, _) ↦ no_vrgs (ground arith) (ground arith)
        | inr (_, r) ↦ elim (branch free (continue, "") rest r) [
          | inl (b, _) ↦
              let (y, w) =
                and_parts (phase_eqb d.phase wait_for_user && action_eqb d.action action_failover)
                  (not (d.failover_cluster == q.failed_cluster)) b in
              let (x, u) =
                and_parts (phase_eqb d.phase wait_for_user) (action_eqb d.action action_failover)
                  y in
              asked (phase_eqb-eq d.phase x) (action_eqb-eq d.action action_failover u)
                (not_equal d.failover_cluster q.failed_cluster w)
          | inr (_, s) ↦ by_vrgs-Grounds d dst q s3 q.vrgs refl s
        ]
      ]
    ]
