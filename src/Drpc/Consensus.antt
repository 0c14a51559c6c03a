-- ===== src/Drpc/Consensus.antt =====
-- Consensus of the DRPCs that share a global VGR label:
-- internal/controller/drplacementcontrol_global.go. The DRPCs listed are those with the label.
pub mod Agreement
use ramen.Prelude.{
  String, Bool, true, false, not, ◌&&◌, ◌||◌, Option, none, some, List, [], ◌∷◌, ◌==◌,
  if◌then◌else◌, assoc_or_empty, put, ◌+++◌,
}
use ramen.Condition.{condition_true, condition_false}
use ramen.Api.{
  Action, action_failover, action_relocate, action_eqb, action_text, wait_on_global_action, Vrg,
  is_vrg_primary,
}
use ramen.Drpc.{
  Drpc, Env, M, Result, ok, err, pure, ◌>>=◌, ◌>>◌, try, get_drpc, modify_drpc, api_call,
}
use ramen.Drpc.Fields.{global_vgr_label, has_global_vgr_label}
use ramen.Drpc.Status.{set_condition, set_progression}

abbrev pub is_same_drpc : Drpc → Drpc → Bool
is_same_drpc a b = a.name == b.name && a.namespace == b.namespace

-- The cluster that the action goes to.
abbrev pub target_cluster : Drpc → String
target_cluster d =
    if action_eqb d.action action_relocate then d.preferred_cluster else d.failover_cluster

-- The test of the loop of isGlobalActionInConsensus on another DRPC.
unfoldable pub is_pending : Action → String → Drpc → Bool
is_pending action target d =
    not (action_eqb d.action action)
    || action_eqb action action_failover && not (d.failover_cluster == target)
    || action_eqb action action_relocate && not (d.preferred_cluster == target)

-- The loop: the names of the DRPCs that are pending.
unfoldable pub pending_drpcs : Drpc → List Drpc → List String
unfolding is_pending
pending_drpcs self [] = []
pending_drpcs self (d ∷ ds) =
    let rest = pending_drpcs self ds in
    if is_same_drpc d self
    then rest
    else if is_pending self.action (target_cluster self) d
    then (d.namespace +++ "/" +++ d.name) ∷ rest
    else rest

-- strings.Join(names, ", ").
unfoldable pub join_names : List String → String
join_names [] = ""
join_names (n ∷ []) = n
join_names (n ∷ m ∷ ns) = n +++ ", " +++ join_names (m ∷ ns)

-- setGlobalActionCondition.
unfoldable pub set_global_action_condition : Env → Bool → String → Drpc → Drpc
unfolding set_condition
set_global_action_condition e met msg d =
    if met
    then set_condition e.now "GlobalAction" condition_true "ConsensusReached" msg d
    else set_condition e.now "GlobalAction" condition_false "ConsensusNotReached" msg d

unfoldable pub decide : Env → Drpc → List String → Bool × Drpc
unfolding set_global_action_condition set_progression join_names
decide e d [] = (
  true,
  set_global_action_condition e true ("Consensus reached for action " +++ action_text d.action) d,
)
decide e d (p ∷ ps) = (
  false,
  set_progression wait_on_global_action (
      set_global_action_condition e false
        ("Pending: "
          +++ join_names (p ∷ ps)
          +++ "; expected action "
          +++ action_text d.action
          +++ " to "
          +++ target_cluster d)
        d),
)

-- isGlobalActionInConsensus, once the DRPCs are listed.
unfoldable pub consensus_of : Env → Drpc → Result (List Drpc) → Bool × Drpc
unfolding pending_drpcs decide
consensus_of e d (err x) = (false, d)
consensus_of e d (ok ds) = decide e d (pending_drpcs d ds)

-- isGlobalActionInConsensus: the answer, and the DRPC after it.
unfoldable pub is_global_action_in_consensus : Env → Drpc → Bool × Drpc
unfolding consensus_of
is_global_action_in_consensus e d =
    if not (action_eqb d.action action_failover) && not (action_eqb d.action action_relocate)
    then (false, d)
    else consensus_of e d e.drpcs

-- ensureGlobalVGRLabel: the first primary with its label, or the first primary without one.
unfoldable pub label_of_primary : List (String × Vrg) → String
unfolding is_vrg_primary
label_of_primary [] = ""
label_of_primary ((c, v) ∷ vrgs) =
    let rest = label_of_primary vrgs in
    if not (is_vrg_primary v) then rest else assoc_or_empty global_vgr_label v.labels

unfoldable pub ensure_global_vgr_label : Env → M Bool
unfolding has_global_vgr_label label_of_primary
ensure_global_vgr_label e = get_drpc >>= λ d.
    let label = label_of_primary e.vrgs in
    if has_global_vgr_label d || label == ""
    then pure true
    else modify_drpc (λ c. record c { labels = put global_vgr_label label c.labels })
      >> try (api_call e) (λ _. pure false) (λ x. pure false)
