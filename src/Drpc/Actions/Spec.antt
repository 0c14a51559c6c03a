-- ===== src/Drpc/Actions/Spec.antt =====
-- What the checks before an action answer, and what they leave alone: the DRPC's spec and names.
use ramen.Prelude.{
  ℕ, String, Bool, true, false, not, ◌&&◌, List, [], ◌∷◌, ◌≡◌, refl, subst, ◌∙◌, of_false_is_true,
  ap, inl, inr, Bool-cases, if◌then◌else◌, All,
}
use ramen.Api.{Action, action_failover, action_relocate, action_eqb, phase_eqb, initiating}
use ramen.Drpc.{Env, Drpc, Hub, Result, ok, err, pure, ◌>>◌, modify_drpc}
use ramen.Drpc.Fields.{has_global_vgr_label, drpc_global_vgr_label}
use ramen.Drpc.Status.{set_dr_state, set_progression, set_status_initiating, can_be_initiated}
use ramen.Drpc.Prerequisites.{
  dry_run_ready_to_failover, is_protected, is_group_sync_lagging, has_protected_condition,
  is_too_old,
}
use ramen.Drpc.Prerequisites.DryRunLag.{HasProtected, InTime, dry_run_ready_to_failover-InTime}
use ramen.Drpc.Consensus.{
  is_same_drpc, is_global_action_in_consensus, consensus_of, decide, pending_drpcs,
}
use ramen.Drpc.Consensus.Agreement.{Agrees, is_global_action_in_consensus-Agrees}
use ramen.Drpc.Actions.{check_dry_run, check_consensus}

-- The fields of a DRPC that say what is to be done, the names that it is found by, and the decision
-- in its status.
abbrev pub Spec : Type 0
Spec = Action × String × String × String × String × List (String × String) × String × String

abbrev pub spec_of : Drpc → Spec
spec_of d = (
  d.action, d.failover_cluster, d.preferred_cluster, d.name, d.namespace, d.labels,
  d.preferred_decision.0, d.preferred_decision.1,
)

abbrev pub with_spec : Spec → Drpc → Drpc
with_spec (a, f, p, n, ns, ls, pc, pn) d = record d {
  action = a;
  failover_cluster = f;
  preferred_cluster = p;
  name = n;
  namespace = ns;
  labels = ls;
  preferred_decision = (pc, pn);
}

set_dr_state-spec_of : (d : Drpc) → spec_of (set_dr_state initiating d) ≡ spec_of d
unfolding set_dr_state
set_dr_state-spec_of d = elim (Bool-cases (not (phase_eqb d.phase initiating))) [
  | inl q ↦ rw (q, set_dr_state) refl
  | inr q ↦ rw (q, set_dr_state) refl
]

pub set_status_initiating-spec_of :
    (n : ℕ) (d : Drpc) → spec_of (set_status_initiating n d) ≡ spec_of d
unfolding set_status_initiating set_progression
set_status_initiating-spec_of n d = elim (Bool-cases (not (can_be_initiated d.phase))) [
  | inl q ↦ rw (q, set_status_initiating) refl
  | inr q ↦ rw (q, set_status_initiating) (set_dr_state-spec_of d)
]

is_protected-spec_of : (e : Env) (d : Drpc) → spec_of (is_protected e d).1 ≡ spec_of d
unfolding is_protected
is_protected-spec_of e d = elim (Bool-cases (has_protected_condition d.conditions)) [
  | inl q ↦ rw (q, is_protected) refl
  | inr q ↦ rw (q, is_protected) refl
]

lagging-spec_of : (e : Env) (d : Drpc) → spec_of (is_group_sync_lagging e d).1 ≡ spec_of d
unfolding is_group_sync_lagging
lagging-spec_of e d =
    elim (Bool-cases (not (is_too_old e.now d.last_group_sync_time e.interval_seconds))) [
      | inl q ↦ rw (q, is_group_sync_lagging) refl
      | inr q ↦ rw (q, is_group_sync_lagging) refl
    ]

pub dry_run_ready-spec_of :
    (e : Env) (d : Drpc) → spec_of (dry_run_ready_to_failover e d).1 ≡ spec_of d
unfolding dry_run_ready_to_failover
dry_run_ready-spec_of e d = elim (Bool-cases (is_protected e d).0) [
  | inl q ↦
      rw (q, dry_run_ready_to_failover)
        (lagging-spec_of e (is_protected e d).1 ∙ is_protected-spec_of e d)
  | inr q ↦ rw (q, dry_run_ready_to_failover) (is_protected-spec_of e d)
]

decide-spec_of :
    (e : Env) (d : Drpc) (names : List String) → spec_of (decide e d names).1 ≡ spec_of d
unfolding decide
decide-spec_of e d [] = refl
decide-spec_of e d (n ∷ ns) = refl

consensus_of-spec_of :
    (e : Env) (d : Drpc) (r : Result (List Drpc)) → spec_of (consensus_of e d r).1 ≡ spec_of d
unfolding consensus_of
consensus_of-spec_of e d (err x) = refl
consensus_of-spec_of e d (ok ds) = decide-spec_of e d (pending_drpcs d ds)

pub is_global_action-spec_of :
    (e : Env) (d : Drpc) → spec_of (is_global_action_in_consensus e d).1 ≡ spec_of d
unfolding is_global_action_in_consensus
is_global_action-spec_of e d =
    elim (Bool-cases
      (not (action_eqb d.action action_failover) && not (action_eqb d.action action_relocate))) [
        | inl q ↦ rw (q, is_global_action_in_consensus) refl
        | inr q ↦ rw (q, is_global_action_in_consensus) (consensus_of-spec_of e d e.drpcs)
      ]

-- If the DRPC has the global label, then the DRPCs with that label could be listed, and all
-- others of them have its action and target.
abbrev pub Agreed : Env → Drpc → Type 0
Agreed e d =
    has_global_vgr_label d ≡ true
    → (ds : List Drpc) × (e.drpcs ≡ ok ds) × All (λ o. is_same_drpc o d ≡ false → Agrees d o) ds

-- Whether they agree is a matter of the spec.
pub Agreed-spec : (e : Env) (d d' : Drpc) → spec_of d' ≡ spec_of d → Agreed e d' → Agreed e d
unfolding has_global_vgr_label drpc_global_vgr_label
Agreed-spec e d d' same p = subst (λ s. Agreed e (with_spec s d)) same p

abbrev is_true : Result Bool → Bool
is_true (ok b) = b
is_true (err x) = false

-- A check that is made only under a condition.
answered_when :
    (wanted b : Bool) (f : Drpc → Drpc) (h : Hub)
    → ((if wanted then modify_drpc f >> pure b else pure true) h).0 ≡ ok true
    → wanted ≡ true
    → b ≡ true
answered_when true b f h p q = ap is_true p
answered_when false b f h p q = of_false_is_true q

pub check_consensus-Agreed :
    (e : Env) (h : Hub) → (check_consensus e h).0 ≡ ok true → Agreed e h.drpc
unfolding check_consensus
check_consensus-Agreed e h p labelled =
    let d = h.drpc in
    let b =
      answered_when (has_global_vgr_label d) (is_global_action_in_consensus e d).0
        (λ _. (is_global_action_in_consensus e d).1) h p labelled in
    let (_, ds, listed, agree) = is_global_action_in_consensus-Agrees e d b in (ds, listed, agree)

pub check_dry_run-InTime :
    (e : Env) (h : Hub)
    → (check_dry_run e h).0 ≡ ok true
    → h.drpc.dry_run ≡ true
    → HasProtected h.drpc.conditions × InTime e.now h.drpc.last_group_sync_time e.interval_seconds
unfolding check_dry_run
check_dry_run-InTime e h p dry =
    let d = h.drpc in
    dry_run_ready_to_failover-InTime e d (
      answered_when d.dry_run (dry_run_ready_to_failover e d).0
        (λ _. (dry_run_ready_to_failover e d).1) h p dry)

if_spec :
    (b : Bool) (f : Drpc → Drpc) (a : Bool) (h : Hub)
    → spec_of (f h.drpc) ≡ spec_of h.drpc
    → spec_of ((if b then modify_drpc f >> pure a else pure true) h).1.drpc ≡ spec_of h.drpc
if_spec true f a h p = p
if_spec false f a h p = refl

pub check_consensus-spec_of :
    (e : Env) (h : Hub) → spec_of (check_consensus e h).1.drpc ≡ spec_of h.drpc
unfolding check_consensus
check_consensus-spec_of e h =
    let d = h.drpc in
    if_spec (has_global_vgr_label d) (λ _. (is_global_action_in_consensus e d).1)
      (is_global_action_in_consensus e d).0 h (is_global_action-spec_of e d)

pub check_dry_run-spec_of :
    (e : Env) (h : Hub) → spec_of (check_dry_run e h).1.drpc ≡ spec_of h.drpc
unfolding check_dry_run
check_dry_run-spec_of e h =
    let d = h.drpc in
    if_spec d.dry_run (λ _. (dry_run_ready_to_failover e d).1) (dry_run_ready_to_failover e d).0 h
      (dry_run_ready-spec_of e d)

if_placement :
    (b : Bool) (f : Drpc → Drpc) (a : Bool) (h : Hub)
    → ((if b then modify_drpc f >> pure a else pure true) h).1.user_placement ≡ h.user_placement
if_placement true f a h = refl
if_placement false f a h = refl

pub check_consensus-user_placement :
    (e : Env) (h : Hub) → (check_consensus e h).1.user_placement ≡ h.user_placement
unfolding check_consensus
check_consensus-user_placement e h =
    let d = h.drpc in
    if_placement (has_global_vgr_label d) (λ _. (is_global_action_in_consensus e d).1)
      (is_global_action_in_consensus e d).0 h

pub check_dry_run-user_placement :
    (e : Env) (h : Hub) → (check_dry_run e h).1.user_placement ≡ h.user_placement
unfolding check_dry_run
check_dry_run-user_placement e h =
    let d = h.drpc in
    if_placement d.dry_run (λ _. (dry_run_ready_to_failover e d).1)
      (dry_run_ready_to_failover e d).0 h
