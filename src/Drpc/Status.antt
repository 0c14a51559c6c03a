-- ===== src/Drpc/Status.antt =====
-- The status of a DRPC: phase, progression, action times and conditions, from
-- internal/controller/drplacementcontrol.go. `time.Now()` is the argument `now`; events are left
-- out.
use ramen.Prelude.{
  ℕ, String, Bool, true, false, not, ◌&&◌, ◌||◌, none, some, ◌==◌, ◌-◌, if◌then◌else◌,
}
use ramen.Condition.{
  ConditionStatus, condition_true, condition_false, condition_unknown, add_or_update_condition,
  find_condition, status_eqb,
}
use ramen.Api.{
  DrState, wait_for_user, initiating, deploying, deployed, failing_over, failed_over, relocating,
  relocated, no_phase, phase_text, phase_eqb, Progression, no_progression, preparing_final_sync,
  clearing_placement, running_final_sync, final_sync_complete, ensuring_volumes_are_secondary,
  wait_on_user_to_clean_up,
}
use ramen.Telemetry.{sync_dr_action_count_annotation}
use ramen.Drpc.{Drpc}

abbrev pub condition_available : String
condition_available = "Available"

abbrev pub condition_peer_ready : String
condition_peer_ready = "PeerReady"

abbrev pub condition_protected : String
condition_protected = "Protected"

-- setDRState.
unfoldable pub set_dr_state : DrState → Drpc → Drpc
set_dr_state next d =
    if not (phase_eqb d.phase next)
    then record d {
      phase = next;
      observed_generation = d.generation;
      dr_action_count = (sync_dr_action_count_annotation next d.dr_action_count).0;
    }
    else d

-- setProgression: updateDRPCProgression, whose answer it drops.
unfoldable pub set_progression : Progression → Drpc → Drpc
set_progression p d = record d { progression = p }

abbrev pub is_in_final_phase : DrState → Bool
is_in_final_phase deployed = true
is_in_final_phase failed_over = true
is_in_final_phase relocated = true
is_in_final_phase _ = false

abbrev pub is_in_progressing_phase : DrState → Bool
is_in_progressing_phase initiating = true
is_in_progressing_phase deploying = true
is_in_progressing_phase failing_over = true
is_in_progressing_phase relocating = true
is_in_progressing_phase _ = false

-- getConditionStatusForTypeAvailable.
unfoldable pub condition_status_for_type_available : DrState → ConditionStatus
condition_status_for_type_available phase =
    if is_in_final_phase phase
    then condition_true
    else if is_in_progressing_phase phase
    then condition_false
    else condition_unknown

-- addOrUpdateCondition on `d.instance.Status.Conditions` at the DRPC's generation.
unfoldable pub set_condition : ℕ → String → ConditionStatus → String → String → Drpc → Drpc
set_condition now t status reason msg d = record d {
  conditions = (add_or_update_condition now d.conditions t d.generation status reason msg).0;
}

-- The call that every branch repeats: Available with the status and reason of the phase.
unfoldable pub set_available : ℕ → String → Drpc → Drpc
unfolding set_condition
set_available now msg d =
    set_condition now condition_available (condition_status_for_type_available d.phase)
      (phase_text d.phase) msg d

-- setStatusInitiating.
abbrev pub can_be_initiated : DrState → Bool
can_be_initiated phase =
    phase_eqb phase no_phase
    || phase_eqb phase wait_for_user
    || phase_eqb phase deployed
    || phase_eqb phase failed_over
    || phase_eqb phase relocated

unfoldable pub set_status_initiating : ℕ → Drpc → Drpc
unfolding set_progression
set_status_initiating now d =
    if not (can_be_initiated d.phase)
    then d
    else record (set_progression no_progression (set_dr_state initiating d)) {
      action_start_time = some now;
      action_duration = none;
    }

-- setActionDuration, with a clock that does not go back.
unfoldable pub set_action_duration : ℕ → Drpc → Drpc
set_action_duration now d = elim d.action_duration [
  | some _ ↦ d
  | none ↦ elim d.action_start_time [
    | none ↦ d
    | some start ↦ record d { action_duration = some (now - start) }
  ]
]

-- updatePreferredDecision.
unfoldable pub update_preferred_decision : Drpc → Drpc
update_preferred_decision d =
    if not (d.preferred_cluster == "")
      && d.preferred_decision.0 == ""
      && d.preferred_decision.1 == ""
    then record d { preferred_decision = (d.preferred_cluster, d.preferred_cluster) }
    else d

-- validatePeerReady.
unfoldable pub validate_peer_ready : Drpc → Bool
validate_peer_ready d = elim (find_condition d.conditions condition_peer_ready) [
  | none ↦ true
  | some c ↦ status_eqb c.status condition_true
]

-- getRequeueDuration, in seconds.
abbrev pub requeue_duration : DrState → ℕ
requeue_duration failing_over = 300
requeue_duration relocating = 2
requeue_duration _ = 1

-- IsPreRelocateProgression.
abbrev pub is_pre_relocate_progression : Progression → Bool
is_pre_relocate_progression preparing_final_sync = true
is_pre_relocate_progression clearing_placement = true
is_pre_relocate_progression running_final_sync = true
is_pre_relocate_progression final_sync_complete = true
is_pre_relocate_progression ensuring_volumes_are_secondary = true
is_pre_relocate_progression wait_on_user_to_clean_up = true
is_pre_relocate_progression _ = false
