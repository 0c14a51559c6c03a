-- ===== src/Drpc/Actions/Target.antt =====
-- The target of a failover, and the home cluster that it leaves.
use ramen.Prelude.{
  String, Bool, true, false, not, ◌≡◌, refl, inl, inr, ◌⊎◌, Bool-cases, arith, sym, ap, ◌∙◌,
  of_false_is_true, ◌&&◌, ◌||◌, eqb,
}
use ramen.Api.{
  Vrg, primary, State, secondary_state, is_secondary_state, is_vrg_primary, failing_over, phase_eqb,
}
use ramen.Drpc.{Env, Hub, Drpc, Result, ok, err, Error}
use ramen.Drpc.Status.{set_dr_state, set_progression, set_available, set_condition}
use ramen.Drpc.Views.{is_valid_failover_target}
use ramen.Drpc.Failover.{get_current_home_cluster_name, start_failover}

-- The VRG in the view of the cluster is primary, or has become secondary at its current generation.
abbrev pub ValidTarget : Env → String → Type 0
ValidTarget e c =
    (v : Vrg) × (e.view c ≡ ok v)
    × ((v.replication_state ≡ primary)
        ⊎ (v.state ≡ secondary_state) × (v.observed_generation ≡ v.generation))

-- getCurrentHomeClusterName answers the home cluster from the user's placement and the preferred
-- decision with which the reconcile started.
abbrev pub Home : Env → Hub → String → String → Type 0
Home e h to home =
    (j : Hub) × (j.user_placement ≡ h.user_placement)
    × (j.drpc.preferred_decision ≡ h.drpc.preferred_decision)
    × ((get_current_home_cluster_name e to j).0 ≡ ok home)

view_cases : (r : Result Vrg) → ((v : Vrg) × (r ≡ ok v)) ⊎ ((x : Error) × (r ≡ err x))
view_cases (ok v) = inl (v, refl)
view_cases (err x) = inr (x, refl)

secondary_eq : (s : State) → is_secondary_state s ≡ true → s ≡ secondary_state
secondary_eq s h = ground arith

primary_eq : (v : Vrg) → is_vrg_primary v ≡ true → v.replication_state ≡ primary
unfolding is_vrg_primary
primary_eq v h = ground arith

abbrev is_ok : Result Bool → Bool
is_ok (ok b) = true
is_ok (err x) = false

is_valid_failover_target-err :
    (e : Env) (c : String) (x : Error)
    → e.view c ≡ err x
    → is_ok (is_valid_failover_target e c) ≡ false
unfolding is_valid_failover_target
is_valid_failover_target-err e c x at = rw (at, is_valid_failover_target) refl

is_valid_failover_target-ok :
    (e : Env) (c : String) (v : Vrg)
    → e.view c ≡ ok v
    → is_ok (is_valid_failover_target e c)
      ≡ (is_vrg_primary v || is_secondary_state v.state && eqb v.observed_generation v.generation)
unfolding is_valid_failover_target
is_valid_failover_target-ok e c v at = rw (at, is_valid_failover_target) (ground arith)

valid_vrg :
    (v : Vrg)
    → (is_vrg_primary v || is_secondary_state v.state && eqb v.observed_generation v.generation)
      ≡ true
    → (v.replication_state ≡ primary)
      ⊎ (v.state ≡ secondary_state) × (v.observed_generation ≡ v.generation)
valid_vrg v h = elim (Bool-cases (is_vrg_primary v)) [
  | inl p ↦ inl (primary_eq v p)
  | inr p ↦ inr (secondary_eq v.state (ground arith), ground arith)
]

pub is_valid_failover_target-ValidTarget :
    (e : Env) (c : String) (b : Bool) → is_valid_failover_target e c ≡ ok b → ValidTarget e c
is_valid_failover_target-ValidTarget e c b h = elim (view_cases (e.view c)) [
  | inr (x, at) ↦ of_false_is_true (sym (is_valid_failover_target-err e c x at) ∙ ap is_ok h)
  | inl (v, at) ↦ (v, at, valid_vrg v (sym (is_valid_failover_target-ok e c v at) ∙ ap is_ok h))
]

set_dr_state-preferred_decision :
    (d : Drpc) → (set_dr_state failing_over d).preferred_decision ≡ d.preferred_decision
unfolding set_dr_state
set_dr_state-preferred_decision d = elim (Bool-cases (not (phase_eqb d.phase failing_over))) [
  | inl q ↦ rw (q, set_dr_state) refl
  | inr q ↦ rw (q, set_dr_state) refl
]

pub start_failover-preferred_decision :
    (e : Env) (d : Drpc) → (start_failover e d).preferred_decision ≡ d.preferred_decision
unfolding start_failover set_progression set_available set_condition
start_failover-preferred_decision e d = set_dr_state-preferred_decision d
