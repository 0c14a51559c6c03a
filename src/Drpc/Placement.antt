-- ===== src/Drpc/Placement.antt =====
-- The cluster decisions of the user's placement, which start and stop the workload:
-- internal/controller/drplacementcontrol_controller.go. The placement is a PlacementRule or a
-- Placement, so the `default` cases are not there. A PlacementRule is written in memory before
-- the API is called, a PlacementDecision is not. The names and counts in the texts of errors are
-- left out.
pub mod Decisions
pub mod Conflicts
use ramen.Prelude.{
  ℕ, String, Bool, true, false, not, ◌&&◌, ◌||◌, Option, none, some, List, [], ◌∷◌, ◌==◌, ◌++◌, suc,
  ltb, if◌then◌else◌, select, length, zero,
}
use ramen.Drpc.{
  Drpc, Env, Hub, M, Result, ok, err, Error, errorf, wrap, is_already_exists, pure, throw, ◌>>=◌,
  ◌>>◌, try, get, maybe, api_call, RuleDecision, ClusterDecision, PlacementDecision, UserPlacement,
  placement_rule, placement,
}

-- PlacementDecisionReasonFailoverRetained.
abbrev pub failover_retained : String
failover_retained = "RetainedForFailover"

abbrev pub is_retained : ClusterDecision → Bool
is_retained c = c.reason == failover_retained

abbrev pub is_active : ClusterDecision → Bool
is_active c = not (is_retained c)

abbrev pub empty_decision : ClusterDecision
empty_decision = record { cluster_name = ""; reason = "" }

-- getPlacementDecisionFromPlacement, after the objects are listed.
unfoldable pub single_placement_decision :
    List PlacementDecision → Result (Option PlacementDecision)
single_placement_decision [] = ok none
single_placement_decision (p ∷ []) =
    if ltb 1 (length (select is_active p.decisions))
    then err (errorf "multiple placements found in PlacementDecision")
    else ok (some p)
single_placement_decision (p ∷ q ∷ ps) =
    err (errorf "multiple PlacementDecisions found for Placement")

unfoldable pub get_placement_decision_from_placement :
    Env → List PlacementDecision → M (Option PlacementDecision)
unfolding single_placement_decision
get_placement_decision_from_placement e ps =
    try (api_call e) (λ _ h. (single_placement_decision ps, h))
      (λ x. throw (errorf "failed to list PlacementDecisions"))

-- getClusterDecisionFromPlacement, once the PlacementDecision is there.
unfoldable pub first_active : List ClusterDecision → ClusterDecision
first_active [] = empty_decision
first_active (c ∷ cs) = let rest = first_active cs in if is_retained c then rest else c

-- getClusterDecision.
unfoldable pub get_cluster_decision_of : Env → UserPlacement → M ClusterDecision
unfolding get_placement_decision_from_placement first_active
get_cluster_decision_of e (placement_rule []) =
    pure (record { cluster_name = ""; reason = "PlacementRule decision" })
get_cluster_decision_of e (placement_rule (r ∷ rs)) =
    pure (record { cluster_name = r.cluster_name; reason = "PlacementRule decision" })
get_cluster_decision_of e (placement ps) =
    try (get_placement_decision_from_placement e ps)
      (λ found. maybe (pure empty_decision) (λ p. pure (first_active p.decisions)) found)
      (λ x. pure empty_decision)

unfoldable pub get_cluster_decision : Env → M ClusterDecision
unfolding get_cluster_decision_of
get_cluster_decision e h = get_cluster_decision_of e h.user_placement h

unfoldable pub put_placement : UserPlacement → M (Unit {0})
put_placement p h = (ok tt, record h { user_placement = p })

-- The loop of createPlacementDecision: what is left of MaxPlacementDecisionConflictCount.
unfoldable pub try_create : Env → ℕ → M PlacementDecision
unfolding put_placement
try_create e zero =
    throw (
      errorf "multiple PlacementDecision conflicts found, unable to create a new PlacementDecision")
try_create e (suc n) =
    try (api_call e)
      (λ _.
        let p : PlacementDecision = record { is_excluded_from_backup = true; decisions = [] } in
        put_placement (placement (p ∷ [])) >> pure p)
      (λ x. if not (is_already_exists x.kind) then throw x else try_create e n)

abbrev pub max_placement_decision_conflict_count : ℕ
max_placement_decision_conflict_count = 5

unfoldable pub create_placement_decision : Env → M PlacementDecision
unfolding try_create
create_placement_decision e = try_create e max_placement_decision_conflict_count

-- `r.Status().Update` of the single PlacementDecision.
unfoldable pub update_decisions : Env → PlacementDecision → List ClusterDecision → M (Unit {0})
unfolding put_placement
update_decisions e p ds = api_call e >> put_placement (placement (record p { decisions = ds } ∷ []))

-- The part of createOrUpdatePlacementDecision that finds, creates or labels the object.
unfoldable pub labelled_placement_decision : Env → Option PlacementDecision → M PlacementDecision
unfolding create_placement_decision put_placement
labelled_placement_decision e none = create_placement_decision e
labelled_placement_decision e (some p) =
    if not p.is_excluded_from_backup
    then (let q = record p { is_excluded_from_backup = true } in
        api_call e >> put_placement (placement (q ∷ [])) >> pure q)
    else pure p

unfoldable pub with_decision : List ClusterDecision → Option ClusterDecision → List ClusterDecision
with_decision ds none = ds
with_decision ds (some c) = ds ++ c ∷ []

-- createOrUpdatePlacementDecision.
unfoldable pub create_or_update_placement_decision :
    Env → List PlacementDecision → Option ClusterDecision → M (Unit {0})
unfolding get_placement_decision_from_placement labelled_placement_decision update_decisions
    with_decision
create_or_update_placement_decision e ps new_cd =
    get_placement_decision_from_placement e ps >>= λ found.
    labelled_placement_decision e found >>= λ p.
    try (update_decisions e p (with_decision (select is_retained p.decisions) new_cd)) (λ u. pure u)
      (λ x. throw (wrap "failed to update placementDecision status (" x ")"))

-- The status that createOrUpdatePlacementRuleDecision writes, and its comparison.
unfoldable pub rule_status : Option ClusterDecision → List RuleDecision
rule_status none = []
rule_status (some c) =
    record { cluster_name = c.cluster_name; cluster_namespace = c.cluster_name } ∷ []

-- reflect.DeepEqual on the decisions of a PlacementRule, where no decisions are always the nil
-- slice: the API leaves an empty list out, and the new status of no decision is nil.
abbrev pub rules_eqb : List RuleDecision → List RuleDecision → Bool
rules_eqb [] [] = true
rules_eqb (a ∷ as') (b ∷ bs) =
    a.cluster_name == b.cluster_name
    && a.cluster_namespace == b.cluster_namespace
    && rules_eqb as' bs
rules_eqb _ _ = false

unfoldable pub create_or_update_placement_rule_decision :
    Env → List RuleDecision → Option ClusterDecision → M (Unit {0})
unfolding rule_status put_placement
create_or_update_placement_rule_decision e rs new_cd =
    if not (rules_eqb (rule_status new_cd) rs)
    then put_placement (placement_rule (rule_status new_cd))
      >> try (api_call e) (λ u. pure u) (λ x. throw (wrap "failed to update userPlRule (" x ")"))
    else pure tt

unfoldable pub update_user_placement_of :
    Env → Option ClusterDecision → UserPlacement → M (Unit {0})
unfolding create_or_update_placement_rule_decision create_or_update_placement_decision
update_user_placement_of e new_cd (placement_rule rs) =
    create_or_update_placement_rule_decision e rs new_cd
update_user_placement_of e new_cd (placement ps) = create_or_update_placement_decision e ps new_cd

-- updateUserPlacementStatusDecision.
unfoldable pub update_user_placement_status_decision : Env → Option ClusterDecision → M (Unit {0})
unfolding update_user_placement_of
update_user_placement_status_decision e new_cd h =
    update_user_placement_of e new_cd h.user_placement h

-- updateUserPlacementRule and clearUserPlacementRuleStatus.
unfoldable pub update_user_placement_rule : Env → String → String → M (Unit {0})
unfolding update_user_placement_status_decision
update_user_placement_rule e home_cluster why =
    update_user_placement_status_decision e
      (some (record { cluster_name = home_cluster; reason = why }))

unfoldable pub clear_user_placement_rule_status : Env → M (Unit {0})
unfolding update_user_placement_status_decision
clear_user_placement_rule_status e = update_user_placement_status_decision e none

-- removePlacementClusterDecisionForFailover: the decisions kept, and whether any is dropped.
abbrev pub is_retained_for : String → ClusterDecision → Bool
is_retained_for cluster c = is_retained c && c.cluster_name == cluster

unfoldable pub has_retained_for : String → List ClusterDecision → Bool
has_retained_for cluster [] = false
has_retained_for cluster (c ∷ cs) = is_retained_for cluster c || has_retained_for cluster cs

unfoldable pub remove_decision_for_failover_of : Env → String → UserPlacement → M (Unit {0})
unfolding get_placement_decision_from_placement has_retained_for update_decisions
remove_decision_for_failover_of e cluster (placement_rule rs) = pure tt
remove_decision_for_failover_of e cluster (placement ps) =
    get_placement_decision_from_placement e ps >>= λ found.
    maybe (pure tt)
      (λ p.
        if not (has_retained_for cluster p.decisions)
        then pure tt
        else try (update_decisions e p (select (λ c. not (is_retained_for cluster c)) p.decisions))
            (λ u. pure u)
            (λ x. throw (wrap "failed to update placementDecision status to drop (" x ")")))
      found

unfoldable pub remove_cluster_decision_for_failover : Env → String → M (Unit {0})
unfolding remove_decision_for_failover_of
remove_cluster_decision_for_failover e cluster h =
    remove_decision_for_failover_of e cluster h.user_placement h

-- The loop of retainPlacementClusterDecisionAsFailover: `none` when it updates nothing.
unfoldable pub retain_first : String → List ClusterDecision → Option (List ClusterDecision)
retain_first cluster [] = none
retain_first cluster (c ∷ cs) =
    let rest = retain_first cluster cs in
    if not (c.cluster_name == cluster) || is_retained c
    then elim rest [ none ↦ none | some ds ↦ some (c ∷ ds) ]
    else some (record c { reason = failover_retained } ∷ cs)

unfoldable pub or_new_decision : String → List ClusterDecision → List ClusterDecision
or_new_decision cluster [] = record { cluster_name = cluster; reason = "" } ∷ []
or_new_decision cluster (c ∷ cs) = c ∷ cs

unfoldable pub found_or_created : Env → Option PlacementDecision → M PlacementDecision
unfolding create_placement_decision
found_or_created e none = create_placement_decision e
found_or_created e (some p) = pure p

unfoldable pub retain_cluster_decision_of : Env → String → UserPlacement → M (Unit {0})
unfolding get_placement_decision_from_placement found_or_created retain_first or_new_decision
    update_decisions
retain_cluster_decision_of e cluster (placement_rule rs) = pure tt
retain_cluster_decision_of e cluster (placement ps) =
    get_placement_decision_from_placement e ps >>= λ found. found_or_created e found >>= λ p.
    maybe (pure tt)
      (λ ds.
        try (update_decisions e p ds) (λ u. pure u)
          (λ x. throw (wrap "failed to update placementDecision status to retain (" x ")")))
      (retain_first cluster (or_new_decision cluster p.decisions))

unfoldable pub retain_cluster_decision_as_failover : Env → String → M (Unit {0})
unfolding retain_cluster_decision_of
retain_cluster_decision_as_failover e cluster h =
    retain_cluster_decision_of e cluster h.user_placement h

-- The loop of switchPlacementClusterDecisionRetainFailover: one decision, and whether it changes.
unfoldable pub switched_decision : String → ClusterDecision → ClusterDecision
switched_decision cluster c =
    if c.cluster_name == cluster
    then if is_retained c then record c { reason = c.cluster_name } else c
    else record c { reason = failover_retained }

unfoldable pub switch_decisions : String → List ClusterDecision → List ClusterDecision
unfolding switched_decision
switch_decisions cluster [] = []
switch_decisions cluster (c ∷ cs) = switched_decision cluster c ∷ switch_decisions cluster cs

unfoldable pub is_switch_needed : String → List ClusterDecision → Bool
is_switch_needed cluster [] = false
is_switch_needed cluster (c ∷ cs) =
    (if c.cluster_name == cluster then is_retained c else is_active c)
    || is_switch_needed cluster cs

unfoldable pub switch_cluster_decision_of : Env → String → UserPlacement → M (Unit {0})
unfolding get_placement_decision_from_placement is_switch_needed switch_decisions update_decisions
switch_cluster_decision_of e cluster (placement_rule rs) = pure tt
switch_cluster_decision_of e cluster (placement ps) =
    get_placement_decision_from_placement e ps >>= λ found.
    maybe (pure tt)
      (λ p.
        if not (is_switch_needed cluster p.decisions)
        then pure tt
        else try (update_decisions e p (switch_decisions cluster p.decisions)) (λ u. pure u)
            (λ x.
              throw (wrap "failed to update placementDecision status to switch retained (" x ")")))
      found

unfoldable pub switch_cluster_decision_retain_failover : Env → String → M (Unit {0})
unfolding switch_cluster_decision_of
switch_cluster_decision_retain_failover e cluster h =
    switch_cluster_decision_of e cluster h.user_placement h
