-- ===== src/Drpc/Effects/Decisions.antt =====
-- The changes of the placement's decisions at the end of an action leave the VRG ManifestWorks
-- alone.
use ramen.Prelude.{String, not, none, select}
use ramen.Drpc.{Env, pure, UserPlacement, placement_rule, placement}
use ramen.Drpc.Placement.{
  get_placement_decision_from_placement, has_retained_for, is_retained_for, update_decisions,
  remove_decision_for_failover_of, remove_cluster_decision_for_failover, is_switch_needed,
  switch_decisions, switch_cluster_decision_of, switch_cluster_decision_retain_failover,
  update_user_placement_status_decision, clear_user_placement_rule_status,
}
use ramen.Drpc.Effects.{Within}
use ramen.Drpc.Effects.Promotion.{SameWorks, SameWorks-refl}
use ramen.Drpc.Effects.Reads.{
  bind_same, try_same, if_same, maybe_same, update_user_placement_of-SameWorks,
  get_placement_decision-SameWorks, update_decisions-SameWorks,
}

remove_decision_of-SameWorks :
    (e : Env) (c : String) (p : UserPlacement)
    → Within SameWorks (remove_decision_for_failover_of e c p)
unfolding remove_decision_for_failover_of
remove_decision_of-SameWorks e c (placement_rule rs) = SameWorks-refl
remove_decision_of-SameWorks e c (placement ps) =
    bind_same (get_placement_decision_from_placement e ps) _ (get_placement_decision-SameWorks e ps)
      (λ o. maybe_same (pure tt) _ o SameWorks-refl (λ p.
        let kept = select (λ d. not (is_retained_for c d)) p.decisions in
        if_same (not (has_retained_for c p.decisions)) (pure tt) _ SameWorks-refl (
          try_same (update_decisions e p kept) (λ u. pure u) _ (update_decisions-SameWorks e p kept)
            (λ _. SameWorks-refl) (λ _. SameWorks-refl))))

pub remove_cluster_decision-SameWorks :
    (e : Env) (c : String) → Within SameWorks (remove_cluster_decision_for_failover e c)
unfolding remove_cluster_decision_for_failover
remove_cluster_decision-SameWorks e c h = remove_decision_of-SameWorks e c h.user_placement h

switch_decision_of-SameWorks :
    (e : Env) (c : String) (p : UserPlacement) → Within SameWorks (switch_cluster_decision_of e c p)
unfolding switch_cluster_decision_of
switch_decision_of-SameWorks e c (placement_rule rs) = SameWorks-refl
switch_decision_of-SameWorks e c (placement ps) =
    bind_same (get_placement_decision_from_placement e ps) _ (get_placement_decision-SameWorks e ps)
      (λ o. maybe_same (pure tt) _ o SameWorks-refl (λ p.
        let switched = switch_decisions c p.decisions in
        if_same (not (is_switch_needed c p.decisions)) (pure tt) _ SameWorks-refl (
          try_same (update_decisions e p switched) (λ u. pure u) _
            (update_decisions-SameWorks e p switched) (λ _. SameWorks-refl) (λ _. SameWorks-refl))))

pub switch_cluster_decision-SameWorks :
    (e : Env) (c : String) → Within SameWorks (switch_cluster_decision_retain_failover e c)
unfolding switch_cluster_decision_retain_failover
switch_cluster_decision-SameWorks e c h = switch_decision_of-SameWorks e c h.user_placement h

pub clear_user_placement-SameWorks :
    (e : Env) → Within SameWorks (clear_user_placement_rule_status e)
unfolding clear_user_placement_rule_status update_user_placement_status_decision
clear_user_placement-SameWorks e h = update_user_placement_of-SameWorks e none h.user_placement h
