-- ===== src/Drpc/Cleanup/Ready.antt =====
-- When a cleanup is complete: the loop over the peers has found each of them settled.
use ramen.Prelude.{
  String, Bool, true, false, not, ◌||◌, Option, none, some, List, [], ◌∷◌, ◌≡◌, refl, sym, ◌∙◌, inl,
  inr, ◌⊎◌, subst, ap, assoc, eqb, ◌==◌, eq_of_==, if◌then◌else◌, arith,
}
use ramen.Condition.{condition_true}
use ramen.Condition.Statuses.{status_of, status_of-add_or_update_condition}
use ramen.Api.{Vrg, Action, no_action, action_eqb, is_secondary, secondary}
use ramen.Drpc.{
  Drpc, Env, Hub, M, Error, ok, errorf, wrap, pure, throw, ◌>>=◌, ◌>>◌, modify_drpc, api_call, try,
}
use ramen.Drpc.Fields.{drpc_test_failover_dry_run_annotation, is_discovered_app}
use ramen.Drpc.Status.{condition_peer_ready, set_condition, set_progression}
use ramen.Drpc.Progress.{set_discovered_app_gc_progression}
use ramen.Drpc.Works.{update_vrg_state}
use ramen.Drpc.Placement.{remove_cluster_decision_for_failover}
use ramen.Drpc.Relocation.{ensure_vrg_is_secondary_on_cluster}
use ramen.Drpc.Relocation.Secondary.{OnOthers, Settled, secondary_answer-Settled}
use ramen.Drpc.Cleanup.{
  note_gc, cleanup_seen, recreate_secondary, cleanup_secondary, cleanup_each, set_peer_ready,
  has_annotation, delete_annotation, remove_test_failover_annotation, cleanup_secondaries,
}
use ramen.Drpc.Cleanup.Frames.{
  Keeps, bind_keeps, try_keeps, if_keeps, api_call-Keeps, update_vrg_state-Keeps,
  remove_cluster_decision-Keeps,
}
use ramen.Drpc.Cleanup.Steps.{
  is_true, bind-ok, handle-ok, past_test, not-answered, if_skipped, guarded,
}
use ramen.Drpc.Effects.{Within}

-- The VRG is seen on the cluster as secondary, its spec observed, and it has settled there.
abbrev pub Demoted : Env → String → Type 0
Demoted e c =
    (v : Vrg) × (assoc c e.vrgs ≡ some v)
    × (v.replication_state ≡ secondary)
    × (v.observed_generation ≡ v.generation)
    × Settled (e.view c)

-- Where no VRG is seen, the DRPC asks for no action.
abbrev pub Cleaned : Action → Env → String → Type 0
Cleaned action e c = ((assoc c e.vrgs ≡ none) × (action ≡ no_action)) ⊎ Demoted e c

secondary_eq :
    (v : Vrg)
    → (not (is_secondary v.replication_state) || not (eqb v.observed_generation v.generation))
      ≡ false
    → (v.replication_state ≡ secondary) × (v.observed_generation ≡ v.generation)
secondary_eq v h = ground arith

action_eq : (a : Action) → action_eqb a no_action ≡ true → a ≡ no_action
action_eq a h = ground arith

on_cluster-Settled :
    (e : Env) (c : String) (h : Hub)
    → (ensure_vrg_is_secondary_on_cluster e c h).0 ≡ ok true
    → Settled (e.view c)
unfolding ensure_vrg_is_secondary_on_cluster
on_cluster-Settled e c h p = secondary_answer-Settled (e.view c) (ap is_true p)

cleanup_seen-Cleaned :
    (e : Env) (c skip : String) (h : Hub) (o : Option Vrg)
    → assoc c e.vrgs ≡ o
    → (cleanup_seen e c skip o h).0 ≡ ok true
    → Cleaned h.drpc.action e c
unfolding cleanup_seen
cleanup_seen-Cleaned e c skip h none q p = inl (q, action_eq h.drpc.action (ap is_true p))
cleanup_seen-Cleaned e c skip h (some v) q p =
    let start = remove_cluster_decision_for_failover e c >> modify_drpc (note_gc e skip) in
    let check = ensure_vrg_is_secondary_on_cluster e c in
    let (b, r) =
      past_test
        (not (is_secondary v.replication_state) || not (eqb v.observed_generation v.generation))
        (start >> check) h p in
    let (_, _, s) = bind-ok start (λ _. check) h true (sym (ap (λ x. x.0) r) ∙ p) in
    let (state, generation) = secondary_eq v b in
    let settled =
      on_cluster-Settled e c (start h).1 (sym (ap (λ x. x.0) s) ∙ (sym (ap (λ x. x.0) r) ∙ p)) in
    inr (v, q, state, generation, settled)

abbrev SameAction : Hub → Hub → Type 0
SameAction = Keeps (λ d. d.action)

note_gc-SameAction : (e : Env) (skip : String) → Within SameAction (modify_drpc (note_gc e skip))
unfolding note_gc set_discovered_app_gc_progression set_progression
note_gc-SameAction e skip h = note (is_discovered_app h.drpc)
  where
    note :
        (b : Bool)
        → (if b then set_discovered_app_gc_progression e skip h.drpc else h.drpc).action
          ≡ h.drpc.action
    note true = refl
    note false = refl

cleanup_seen-SameAction :
    (e : Env) (c skip : String) (o : Option Vrg) → Within SameAction (cleanup_seen e c skip o)
unfolding cleanup_seen ensure_vrg_is_secondary_on_cluster
cleanup_seen-SameAction e c skip none = λ h. refl
cleanup_seen-SameAction e c skip (some v) =
    let remove = remove_cluster_decision_for_failover e c in
    let note = modify_drpc (note_gc e skip) in
    let check = ensure_vrg_is_secondary_on_cluster e c in
    if_keeps (λ d. d.action)
      (not (is_secondary v.replication_state) || not (eqb v.observed_generation v.generation))
      (pure false) (remove >> note >> check) (λ h. refl)
      (bind_keeps (λ d. d.action) (remove >> note) (λ _. check)
        (bind_keeps (λ d. d.action) remove (λ _. note)
          (remove_cluster_decision-Keeps (λ d. d.action) e c) (λ _. note_gc-SameAction e skip))
        (λ _ h. refl))

cleanup_secondary-Cleaned :
    (e : Env) (c skip : String) (h : Hub)
    → (cleanup_secondary e c skip h).0 ≡ ok true
    → Cleaned h.drpc.action e c × SameAction h (cleanup_secondary e c skip h).1
unfolding cleanup_secondary
cleanup_secondary-Cleaned e c skip h p =
    let update = update_vrg_state e c secondary in
    let h' = (update h).1 in
    let seen = cleanup_seen e c skip (assoc c e.vrgs) in
    let (updated, _, q) =
      handle-ok (update h).0 h' (λ b. if b then pure false else seen)
        (λ x. recreate_secondary e skip x >> pure false) true
        (λ x r. not-answered (recreate_secondary e skip x) h' r) p in
    let (_, r) = past_test updated seen h' (sym (ap (λ x. x.0) q) ∙ p) in
    let same = update_vrg_state-Keeps (λ d. d.action) e c secondary h in
    let cleaned =
      cleanup_seen-Cleaned e c skip h' (assoc c e.vrgs) refl (sym (ap (λ x. x.0) (q ∙ r)) ∙ p) in
    (
      subst (λ a. Cleaned a e c) same cleaned,
      ap (λ x. x.1.drpc.action) (q ∙ r)
          ∙ (cleanup_seen-SameAction e c skip (assoc c e.vrgs) h' ∙ same),
    )

cleanup_each-Cleaned :
    (e : Env) (skip : String) (cs : List String) (h : Hub)
    → (cleanup_each e skip cs h).0 ≡ ok tt
    → OnOthers (Cleaned h.drpc.action e) skip cs
unfolding cleanup_each
cleanup_each-Cleaned e skip [] h p = tt
cleanup_each-Cleaned e skip (c ∷ cs) h p =
    let rest = cleanup_each e skip cs in
    let go : Bool → M (Unit {0}) =
      λ ready. if not ready then throw (errorf "still waiting for peer to be ready") else rest in
    elim (if_skipped (skip == c) rest (cleanup_secondary e c skip >>= go) h p) [
      | inl (q, r) ↦ (λ n. absurd (n (eq_of_== skip c q)), cleanup_each-Cleaned e skip cs h r)
      | inr (q, r) ↦
          let (ready, s, t) = bind-ok (cleanup_secondary e c skip) go h tt r in
          let h' = (cleanup_secondary e c skip h).1 in
          let (is, u) =
            guarded ready (errorf "still waiting for peer to be ready") rest h'
              (sym (ap (λ x. x.0) t) ∙ r) in
          let (cleaned, same) = cleanup_secondary-Cleaned e c skip h (s ∙ ap ok is) in
          (
            λ n. cleaned,
            subst (λ a. OnOthers (Cleaned a e) skip cs) same (cleanup_each-Cleaned e skip cs h' u),
          )
    ]

remove_annotation-Keeps :
    (e : Env) → Within (Keeps (λ d. d.conditions)) (remove_test_failover_annotation e)
unfolding remove_test_failover_annotation delete_annotation
remove_annotation-Keeps e h =
    let forget = modify_drpc (delete_annotation drpc_test_failover_dry_run_annotation) in
    let fail : Error → M (Unit {0}) =
      λ x. throw (wrap "failed to remove test failover annotation: " x "") in
    let save : M (Unit {0}) = try (api_call e) (λ u. pure u) fail in
    if_keeps (λ d. d.conditions) (has_annotation drpc_test_failover_dry_run_annotation h.drpc)
      (forget >> save) (pure tt)
      (bind_keeps (λ d. d.conditions) forget (λ _. save) (λ k. refl)
        (λ _.
          try_keeps (λ d. d.conditions) (api_call e) (λ u. pure u) fail
            (api_call-Keeps (λ d. d.conditions) e) (λ _ k. refl) (λ _ k. refl)))
      (λ k. refl) h

set_peer_ready_status :
    (e : Env) (d : Drpc)
    → status_of (set_peer_ready e d).conditions condition_peer_ready ≡ condition_true
unfolding set_peer_ready set_condition
set_peer_ready_status e d =
    status_of-add_or_update_condition e.now d.conditions condition_peer_ready d.generation
      condition_true "Success" "Ready"

-- If cleanupSecondaries returns without an error, then PeerReady is true, and on every cluster of
-- the policy but the one to skip either no VRG was seen and the DRPC asks for no action, or a VRG
-- was seen whose spec is secondary and observed at its generation, and what the cluster then
-- answers is that the VRG is not there, or that its state is Secondary at its current generation.
pub cleanup_secondaries-Cleaned :
    (e : Env) (cluster_to_skip : String) (h : Hub)
    → (cleanup_secondaries e cluster_to_skip h).0 ≡ ok tt
    → OnOthers (Cleaned h.drpc.action e) cluster_to_skip e.policy_clusters
      × (status_of (cleanup_secondaries e cluster_to_skip h).1.drpc.conditions condition_peer_ready
          ≡ condition_true)
unfolding cleanup_secondaries
cleanup_secondaries-Cleaned e skip h p =
    let each = cleanup_each e skip e.policy_clusters in
    let ready = modify_drpc (set_peer_ready e) in
    let remove = remove_test_failover_annotation e in
    let (_, q, r) = bind-ok (each >> ready) (λ _. remove) h tt p in
    let (_, s, t) = bind-ok each (λ _. ready) h tt q in
    let kept =
      ap (λ x. x.1.drpc.conditions) r
      ∙ remove_annotation-Keeps e ((each >> ready) h).1
      ∙ ap (λ x. x.1.drpc.conditions) t in
    (
      cleanup_each-Cleaned e skip e.policy_clusters h s,
      ap (λ cs. status_of cs condition_peer_ready) kept ∙ set_peer_ready_status e (each h).1.drpc,
    )
