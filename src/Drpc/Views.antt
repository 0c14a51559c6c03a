-- ===== src/Drpc/Views.antt =====
-- What a reconcile reads of the VRGs seen on the clusters (`d.vrgs`) and of the DRClusters: the
-- checks of internal/controller/drplacementcontrol.go that write no state.
pub mod Primaries
pub mod Current
use ramen.Prelude.{
  ℕ, String, Bool, true, false, not, ◌&&◌, ◌||◌, Option, none, some, List, [], ◌∷◌, ◌==◌, suc, ltb,
  eqb, if◌then◌else◌, assoc, ◌+++◌, ◌++◌,
}
use ramen.Condition.{
  Condition, ConditionStatus, condition_true, condition_false, find_condition, status_eqb,
}
use ramen.Api.{
  is_primary, is_secondary, is_primary_state, is_secondary_state, Vrg, DrCluster, is_vrg_primary,
  is_vrg_secondary, replication_state_text, state_text,
}
use ramen.Drpc.{Drpc, Env, DrType, dr_type_sync, dr_type_async, Result, ok, err, Error, errorf}

abbrev pub vrg_condition_type_data_ready : String
vrg_condition_type_data_ready = "DataReady"

abbrev pub vrg_condition_type_data_protected : String
vrg_condition_type_data_protected = "DataProtected"

abbrev pub vrg_condition_type_cluster_data_ready : String
vrg_condition_type_cluster_data_ready = "ClusterDataReady"

abbrev pub vrg_condition_type_cluster_data_protected : String
vrg_condition_type_cluster_data_protected = "ClusterDataProtected"

abbrev pub dr_cluster_condition_type_fenced : String
dr_cluster_condition_type_fenced = "Fenced"

-- A condition that is there, true, and observed at the generation.
unfoldable pub is_current : ℕ → Option Condition → Bool
is_current generation none = false
is_current generation (some c) =
    status_eqb c.status condition_true && eqb c.observed_generation generation

unfoldable pub is_condition_current : List Condition → String → ℕ → Bool
unfolding is_current
is_condition_current cs t generation = is_current generation (find_condition cs t)

-- isVRGConditionMet.
unfoldable pub is_vrg_condition_met : Env → String → String → Bool
unfolding is_condition_current
is_vrg_condition_met e cluster t = elim (assoc cluster e.vrgs) [
  | none ↦ false
  | some v ↦ is_condition_current v.conditions t v.generation
]

-- checkReadiness.
unfoldable pub check_readiness : Env → String → Bool
unfolding is_vrg_condition_met
check_readiness e home_cluster = elim (assoc home_cluster e.vrgs) [
  | none ↦ false
  | some v ↦
      is_vrg_condition_met e home_cluster vrg_condition_type_data_ready
      && is_vrg_condition_met e home_cluster vrg_condition_type_cluster_data_ready
      && is_primary_state v.state
]

-- vrgExistsAndPrimary.
unfoldable pub vrg_exists_and_primary : Env → String → Bool
unfolding is_vrg_primary
vrg_exists_and_primary e cluster = elim (assoc cluster e.vrgs) [
  | none ↦ false
  | some v ↦ is_vrg_primary v && not v.deleted
]

-- The loop of areMultipleVRGsPrimary, and its test.
unfoldable pub num_of_primaries : List (String × Vrg) → ℕ
unfolding is_vrg_primary
num_of_primaries [] = 0
num_of_primaries ((c, v) ∷ vrgs) =
    let rest = num_of_primaries vrgs in if is_vrg_primary v && not v.dry_run then suc rest else rest

unfoldable pub are_multiple_vrgs_primary : List (String × Vrg) → Bool
unfolding num_of_primaries
are_multiple_vrgs_primary vrgs = ltb 1 (num_of_primaries vrgs)

-- The loop of selectCurrentPrimaryAndSecondaries, with the two variables it writes.
unfoldable pub select_current : List (String × Vrg) → String → List String → String × List String
unfolding is_vrg_primary is_vrg_secondary
select_current [] primary secondaries = (primary, secondaries)
select_current ((c, v) ∷ vrgs) primary secondaries =
    select_current vrgs (if is_vrg_primary v && primary == "" then c else primary)
      (if is_vrg_secondary v then secondaries ++ c ∷ [] else secondaries)

unfoldable pub select_current_primary_and_secondaries : List (String × Vrg) → String × List String
unfolding select_current
select_current_primary_and_secondaries vrgs = select_current vrgs "" []

-- validateAndSelectCurrentPrimary.
unfoldable pub select_among : List (String × Vrg) → Result String
unfolding are_multiple_vrgs_primary select_current_primary_and_secondaries
select_among [] = err (errorf "no VRGs exists. Can't relocate")
select_among (v ∷ vrgs) =
    if are_multiple_vrgs_primary (v ∷ vrgs)
    then err (errorf "multiple primaries in transition detected")
    else ok (select_current_primary_and_secondaries (v ∷ vrgs)).0

unfoldable pub validate_and_select_current_primary : Env → String → Result String
unfolding select_among
validate_and_select_current_primary e preferred_cluster =
    if preferred_cluster == ""
    then err (errorf "preferred cluster not valid")
    else select_among e.vrgs

-- checkClusterFenced: the first DRCluster of the name decides.
unfoldable pub check_cluster_fenced : String → List DrCluster → Result Bool
unfolding is_condition_current
check_cluster_fenced cluster [] =
    err (errorf ("failed to get the fencing status for the cluster " +++ cluster))
check_cluster_fenced cluster (c ∷ cs) =
    let rest = check_cluster_fenced cluster cs in
    if not (c.name == cluster)
    then rest
    else ok (is_condition_current c.conditions dr_cluster_condition_type_fenced c.generation)

-- The fencing test of readyToSwitchOver: whether it stops the switch.
unfoldable pub is_switch_over_fenced : DrType → Env → String → Bool
unfolding check_cluster_fenced
is_switch_over_fenced dr_type_async e preferred_cluster = false
is_switch_over_fenced dr_type_sync e preferred_cluster =
    elim (check_cluster_fenced preferred_cluster e.dr_clusters) [
      | ok fenced ↦ fenced
      | err x ↦ true
    ]

-- readyToSwitchOver.
unfoldable pub ready_to_switch_over : Env → String → String → Bool
unfolding is_switch_over_fenced is_vrg_condition_met
ready_to_switch_over e home_cluster preferred_cluster =
    if is_switch_over_fenced e.dr_type e preferred_cluster
    then false
    else is_vrg_condition_met e home_cluster vrg_condition_type_data_ready
      && is_vrg_condition_met e home_cluster vrg_condition_type_cluster_data_protected

-- isSecondaryVRGReadyOnInitialDeploy.
unfoldable pub is_secondary_on_peers : String → List (String × Vrg) → List String → Bool
is_secondary_on_peers home_cluster vrgs [] = true
is_secondary_on_peers home_cluster vrgs (c ∷ cs) =
    let rest = is_secondary_on_peers home_cluster vrgs cs in
    if c == home_cluster then rest else elim (assoc c vrgs) [
      | none ↦ false
      | some v ↦
          if not (is_secondary v.replication_state)
            || not (is_secondary_state v.state)
            || not (eqb v.observed_generation v.generation)
          then false
          else rest
    ]

unfoldable pub is_secondary_vrg_ready_on_initial_deploy : Env → Drpc → Bool
unfolding is_secondary_on_peers
is_secondary_vrg_ready_on_initial_deploy e d =
    is_secondary_on_peers d.preferred_cluster e.vrgs e.policy_clusters

-- isVRGAlreadyDeployedElsewhere, `none` for its empty name and false.
unfoldable pub is_vrg_already_deployed_elsewhere : String → List (String × Vrg) → Option String
unfolding is_vrg_primary
is_vrg_already_deployed_elsewhere cluster_to_skip [] = none
is_vrg_already_deployed_elsewhere cluster_to_skip ((c, v) ∷ vrgs) =
    let rest = is_vrg_already_deployed_elsewhere cluster_to_skip vrgs in
    if c == cluster_to_skip then rest else if is_vrg_primary v then some c else rest

-- isValidFailoverTarget: `err` where it answers false.
unfoldable pub is_valid_failover_target : Env → String → Result Bool
unfolding is_vrg_primary
is_valid_failover_target e cluster = elim (e.view cluster) [
  | err x ↦ err (record x {
    text = "failed to get VRG from managed cluster " +++ cluster +++ ": " +++ x.text;
  })
  | ok v ↦
      if is_vrg_primary v
      then ok true
      else if not (is_secondary_state v.state) || not (eqb v.observed_generation v.generation)
      then err (
          errorf (
            "VRG on "
            +++ cluster
            +++ " has not transitioned to secondary yet. Spec-State/Status-State "
            +++ replication_state_text v.replication_state
            +++ "/"
            +++ state_text v.state))
      else ok true
]
