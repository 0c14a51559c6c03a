-- ===== src/Drpc/Actions/Relocating.antt =====
-- When RunRelocate makes a VRG primary.
use ramen.Prelude.{
  some, none, Option, assoc, Bool-cases, eq_of_==, String, Bool, true, false, not, ◌&&◌, ◌≡◌, refl,
  sym, subst, ◌∙◌, ap, inl, inr, ◌⊎◌, eqb, length, ◌==◌, if◌then◌else◌, arith, ◌≤◌,
}
use ramen.Api.{Vrg, relocating, phase_eqb}
use ramen.Drpc.{
  DrType, dr_type_sync, dr_type_async, Result, err, Env, Hub, Drpc, M, ok, Error, pure, throw,
  from_result, ◌>>=◌, ◌>>◌, try, get_drpc, modify_drpc,
}
use ramen.Drpc.Status.{set_available, set_status_initiating, validate_peer_ready}
use ramen.Drpc.Views.Current.{Current, is_condition_current-Current}
use ramen.Drpc.Views.{
  is_vrg_condition_met, is_condition_current, is_switch_over_fenced, check_cluster_fenced,
  vrg_exists_and_primary, validate_and_select_current_primary, ready_to_switch_over,
  num_of_primaries,
}
use ramen.Drpc.Views.Primaries.{PrimaryIn, validate_and_select_current_primary-PrimaryIn}
use ramen.Drpc.Works.Demotion.{handle_post}
use ramen.Drpc.Relocation.{relocate}
use ramen.Drpc.Relocation.Secondary.{OnOthers, Settled, Protected}
use ramen.Drpc.Relocation.Setup.{Named}
use ramen.Drpc.Relocation.Switch.{relocate-Promotes}
use ramen.Drpc.Quiesce.{quiesce_and_run_final_sync}
use ramen.Drpc.Quiesce.FinalSync.{Flagged, quiesce_and_run_final_sync-Flagged}
use ramen.Drpc.Actions.{
  check_consensus, finish_relocate, is_moving, quiesce_if_moving, not_protected_yet, peer_not_ready,
  relocate_from, relocate_valid, run_relocate,
}
use ramen.Drpc.Actions.Spec.{
  set_status_initiating-spec_of, Agreed, Agreed-spec, check_consensus-Agreed,
}
use ramen.Drpc.Actions.Completion.{
  check_consensus-SameWorks, finish_relocate-Promotes, quiesce_if_moving-Promotes,
}
use ramen.Drpc.Effects.{Within, Answers, bind_at}
use ramen.Drpc.Effects.Promotion.{
  is_primary_at, Promotes, Promotes-trans, SameWorks-Promotes, bind-Promotes, if_Promotes,
}

-- The VRG seen on the cluster has its data ready and its cluster data protected, at its current
-- generation, and has completed the preparation and the final sync.
abbrev pub Synced : Env → String → Type 0
Synced e home =
    (v : Vrg) × (assoc home e.vrgs ≡ some v)
    × Current v.conditions "DataReady" v.generation
    × Current v.conditions "ClusterDataProtected" v.generation
    × (v.prepare_for_final_sync_complete ≡ true)
    × (v.final_sync_complete ≡ true)

-- What is synced and ready when the application moves from one cluster to another. Nothing has to
-- be where no cluster is left, because there is no current home cluster or it is the target.
abbrev pub Left : Env → String → String → Type 0
Left e home to =
    (home ≡ "")
    ⊎ ((home ≡ to)
        ⊎ (((e.dr_type ≡ dr_type_async) ⊎ (check_cluster_fenced to e.dr_clusters ≡ ok false))
            × Synced e home))

is_vrg_condition_met-Current :
    (e : Env) (c t : String) (v : Vrg)
    → assoc c e.vrgs ≡ some v
    → is_vrg_condition_met e c t ≡ true
    → Current v.conditions t v.generation
unfolding is_vrg_condition_met
is_vrg_condition_met-Current e c t v at h =
    is_condition_current-Current v.conditions t v.generation (sym (met e c t v at) ∙ h)
  where
    met :
        (e : Env) (c t : String) (v : Vrg)
        → assoc c e.vrgs ≡ some v
        → is_vrg_condition_met e c t ≡ is_condition_current v.conditions t v.generation
    met e c t v at = rw (at, is_vrg_condition_met) refl

is_ok_false : (r : Result Bool) → (elim r [ ok b ↦ b | err x ↦ true ]) ≡ false → r ≡ ok false
is_ok_false (ok b) h = ap ok h
is_ok_false (err x) h = absurd (cc h)

not_fenced :
    (t : DrType) (e : Env) (to : String)
    → is_switch_over_fenced t e to ≡ false
    → (t ≡ dr_type_async) ⊎ (check_cluster_fenced to e.dr_clusters ≡ ok false)
unfolding is_switch_over_fenced
not_fenced dr_type_async e to h = inl refl
not_fenced dr_type_sync e to h = inr (is_ok_false (check_cluster_fenced to e.dr_clusters) h)

ready_parts :
    (fenced a b : Bool)
    → (if fenced then false else a && b) ≡ true
    → (fenced ≡ false) × (a ≡ true) × (b ≡ true)
ready_parts fenced a b h = (ground arith, ground arith, ground arith)

abbrev or_vrg : Vrg → Option Vrg → Vrg
or_vrg v none = v
or_vrg v (some w) = w

synced :
    (e : Env) (home to : String)
    → ready_to_switch_over e home to ≡ true
    → Flagged (λ v. v.prepare_for_final_sync_complete) e home
    → Flagged (λ v. v.final_sync_complete) e home
    → ((e.dr_type ≡ dr_type_async) ⊎ (check_cluster_fenced to e.dr_clusters ≡ ok false))
      × Synced e home
unfolding ready_to_switch_over
synced e home to ready (v, at, prepared) (w, at', final) =
    let (unfenced, data_ready, guarded) = ready_parts _ _ _ ready in
    (
      not_fenced e.dr_type e to unfenced,
      (
        v,
        at,
        is_vrg_condition_met-Current e home "DataReady" v at data_ready,
        is_vrg_condition_met-Current e home "ClusterDataProtected" v at guarded,
        prepared,
        subst (λ x. x.final_sync_complete ≡ true) (ap (or_vrg v) (sym at' ∙ at)) final,
      ),
    )

stays : (home to : String) → is_moving home to ≡ false → (home ≡ "") ⊎ (home ≡ to)
unfolding is_moving
stays home to h = elim (Bool-cases (home == "")) [
  | inl p ↦ inl (eq_of_== home "" p)
  | inr p ↦ inr (eq_of_== home to (ground arith))
]

answers_when_leaving :
    (e : Env) (home to : String)
    → (is_moving home to ≡ true
        → ((e.dr_type ≡ dr_type_async) ⊎ (check_cluster_fenced to e.dr_clusters ≡ ok false))
          × Synced e home)
    → Left e home to
answers_when_leaving e home to f = elim (Bool-cases (is_moving home to)) [
  | inl m ↦ inr (inr (f m))
  | inr m ↦ elim (stays home to m) [ inl p ↦ inl p | inr p ↦ inr (inl p) ]
]

-- Why a relocation may make the VRG of the cluster primary: the cluster is the preferred one,
-- the policy's clusters were all queried and show at most one primary, the DRPCs with the global
-- label agree, the cluster that validateAndSelectCurrentPrimary answers, where there is one and it
-- is not the preferred one, is seen as primary and has made its final sync, and the VRGs of the
-- other clusters have settled as secondary with their data protected.
abbrev pub MayRelocate : Env → Drpc → String → Type 0
MayRelocate e d c =
    (d.preferred_cluster ≡ c)
    × (e.num_clusters_queried_successfully ≡ length e.policy_clusters)
    × (num_of_primaries e.vrgs ≤ 1)
    × Agreed e d
    × ((home : String) × (validate_and_select_current_primary e c ≡ ok home)
        × ((home ≡ "") ⊎ PrimaryIn home e.vrgs)
        × Left e home c)
    × OnOthers (λ k. Settled (e.view k)) c e.policy_clusters
    × OnOthers (λ k. Protected (e.view k)) c e.policy_clusters

pub if_at_Promotes :
    {A : Type 0} (c : String) (S : Type 0) (b : Bool) (m n : M A) (h : Hub)
    → (b ≡ true → Promotes c S h (m h).1)
    → (b ≡ false → Promotes c S h (n h).1)
    → Promotes c S h ((if b then m else n) h).1
if_at_Promotes c S true m n h hm hn = hm refl
if_at_Promotes c S false m n h hm hn = hn refl

pub not-false : (b : Bool) → not b ≡ false → b ≡ true
not-false true p = refl
not-false false p = sym p

quiesce_if_moving-Flagged :
    (e : Env) (home to : String)
    → Answers (quiesce_if_moving e home to) true
    → is_moving home to ≡ true
    → Flagged (λ v. v.prepare_for_final_sync_complete) e home
      × Flagged (λ v. v.final_sync_complete) e home
unfolding quiesce_if_moving
quiesce_if_moving-Flagged e home to (h, p) q =
    let P : Bool → Type 0 =
      λ b. ((if b then quiesce_and_run_final_sync e home else pure true) h).0 ≡ ok true in
    quiesce_and_run_final_sync-Flagged e home h (subst P q p)

ready_if_moving : (m r : Bool) → m && not r ≡ false → m ≡ true → r ≡ true
ready_if_moving m r p q = ground arith

relocate_from-Promotes :
    (c : String) (S : Type 0) (e : Env) (home to : String)
    → Named e.policy_clusters
    → (to ≡ c
        → Left e home to
        → OnOthers (λ k. Settled (e.view k)) to e.policy_clusters
        → OnOthers (λ k. Protected (e.view k)) to e.policy_clusters
        → S)
    → Within (Promotes c S) (relocate_from e home to)
unfolding relocate_from
relocate_from-Promotes c S e home to named reason =
    let stop : M Bool =
      modify_drpc (set_available e.now (not_protected_yet home).text)
      >> throw (not_protected_yet home) in
    let go : Bool → M Bool =
      λ result. if not result then pure false else relocate e to to relocating in
    let quiesced : M Bool = quiesce_if_moving e home to >>= go in
    let checked : Drpc → M Bool = λ d.
      if not (phase_eqb d.phase relocating) && not (validate_peer_ready d)
      then throw peer_not_ready
      else quiesced in
    if_Promotes c S (is_moving home to && not (ready_to_switch_over e home to)) stop
      (get_drpc >>= checked) (λ _ h p. inl p)
      (λ unblocked.
        bind-Promotes c S get_drpc checked (λ h p. inl p)
          (λ d _.
            if_Promotes c S (not (phase_eqb d.phase relocating) && not (validate_peer_ready d))
              (throw peer_not_ready) quiesced (λ _ h p. inl p)
              (λ _.
                bind-Promotes c S (quiesce_if_moving e home to) go
                  (quiesce_if_moving-Promotes c S e home to)
                  (λ result a.
                    if_Promotes c S (not result) (pure false) (relocate e to to relocating)
                      (λ _ h p. inl p)
                      (λ r h p.
                        let answered =
                          subst (Answers (quiesce_if_moving e home to)) (not-false result r) a in
                        let left : Left e home to = answers_when_leaving e home to (λ moving.
                          let (prepared, final) =
                            quiesce_if_moving-Flagged e home to answered moving in
                          let ready =
                            ready_if_moving (is_moving home to) (ready_to_switch_over e home to)
                              unblocked moving in
                          synced e home to ready prepared final) in
                        elim (relocate-Promotes e to to relocating named c h p) [
                          | inl before ↦ inl before
                          | inr (q, settled, guarded) ↦ inr (reason q left settled guarded)
                        ])))))

-- The state in which RunFailover and RunRelocate ask for the consensus.
abbrev pub initiated : Env → Hub → Hub
initiated e h = record h { drpc = set_status_initiating e.now h.drpc }

relocate_valid-Promotes :
    (c : String) (S : Type 0) (e : Env) (to home : String) (h : Hub)
    → Named e.policy_clusters
    → (to ≡ c
        → Agreed e h.drpc
        → Left e home to
        → OnOthers (λ k. Settled (e.view k)) to e.policy_clusters
        → OnOthers (λ k. Protected (e.view k)) to e.policy_clusters
        → S)
    → Promotes c S h (relocate_valid e to home h).1
unfolding relocate_valid
relocate_valid-Promotes c S e to home h named reason =
    let start = modify_drpc (set_status_initiating e.now) in
    let go : Bool → M Bool = λ agreed. if not agreed then pure false else relocate_from e home to in
    let ask : M Bool = start >> check_consensus e in
    if_at_Promotes c S (not (home == "") && vrg_exists_and_primary e to) (finish_relocate e to)
      (ask >>= go) h (λ _. finish_relocate-Promotes c S e to h)
      (λ _.
        bind_at (Promotes c S) (Promotes-trans c S) ask go h
          (SameWorks-Promotes c S (check_consensus e) (check_consensus-SameWorks e) (initiated e h))
          (λ agreed at.
            if_Promotes c S (not agreed) (pure false) (relocate_from e home to) (λ _ i p. inl p)
              (λ r. relocate_from-Promotes c S e home to named (λ q. reason q (
                Agreed-spec e h.drpc (set_status_initiating e.now h.drpc)
                  (set_status_initiating-spec_of e.now h.drpc)
                  (check_consensus-Agreed e (initiated e h) (at ∙ ap ok (not-false agreed r))))))
              (ask h).1))

-- RunRelocate makes the VRG of a ManifestWork primary that was not primary before only if
-- MayRelocate holds of its cluster.
pub run_relocate-Promotes :
    (e : Env)
    → Named e.policy_clusters
    → (c : String) (h : Hub) → is_primary_at c (run_relocate e h).1 ≡ true
    → (is_primary_at c h ≡ true) ⊎ MayRelocate e h.drpc c
unfolding run_relocate
run_relocate-Promotes e named c h =
    let S = MayRelocate e h.drpc c in
    let to = h.drpc.preferred_cluster in
    let num = e.num_clusters_queried_successfully in
    let selected = validate_and_select_current_primary e to in
    let fail : Error → M Bool = λ x. modify_drpc (set_available e.now x.text) >> throw x in
    let valid : Drpc → M Bool = λ d.
      try (from_result (validate_and_select_current_primary e d.preferred_cluster))
        (relocate_valid e d.preferred_cluster) fail in
    if_at_Promotes c S (not (eqb num (length e.policy_clusters))) (pure false) (get_drpc >>= valid)
      h (λ _ p. inl p)
      (λ queried.
        handle_post (λ _ j. Promotes c S h j) selected h (relocate_valid e to) fail
          (λ home at.
            let (_, single, selected_in) =
              validate_and_select_current_primary-PrimaryIn e to home at in
            relocate_valid-Promotes c S e to home h named (λ q agreed left settled guarded.
              let P : String → Type 0 = λ k.
                ((x : String) × (validate_and_select_current_primary e k ≡ ok x)
                  × ((x ≡ "") ⊎ PrimaryIn x e.vrgs)
                  × Left e x k)
                × OnOthers (λ k'. Settled (e.view k')) k e.policy_clusters
                × OnOthers (λ k'. Protected (e.view k')) k e.policy_clusters in
              let (leaving, settled', guarded') =
                subst P q ((home, at, selected_in, left), settled, guarded) in
              (q, ground arith, single, agreed, leaving, settled', guarded')))
          (λ x _ p. inl p))
