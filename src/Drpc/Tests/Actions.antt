-- ===== src/Drpc/Tests/Actions.antt =====
-- Runs of whole actions on the policy of the two clusters.
use ramen.Prelude.{eqb, if◌then◌else◌, none, some, [], ◌∷◌, ◌≡◌, refl, ◌≤◌, ◌+◌}
use ramen.Condition.{find_condition, condition_true}
use ramen.Condition.Statuses.{status_of}
use ramen.Api.{Vrg, primary, secondary, primary_state, secondary_state, action_relocate}
use ramen.Drpc.{not_found, Error, already_exists, Env, api_call}
use ramen.Drpc.Fields.{is_discovered_app}
use ramen.Drpc.Status.{condition_peer_ready}
use ramen.Drpc.Works.{find_manifest_work}
use ramen.Drpc.Placement.{create_placement_decision, get_cluster_decision}
use ramen.Drpc.Placement.Conflicts.{create_placement_decision-calls}
use ramen.Drpc.NewWorks.{create_vrg_manifest_work}
use ramen.Drpc.NewWorks.Existing.{create_vrg_manifest_work-Refused}
use ramen.Drpc.Relocation.Secondary.{OnOthers}
use ramen.Drpc.Quiesce.{quiesce_and_run_final_sync}
use ramen.Drpc.Quiesce.FinalSync.{Flagged, quiesce_and_run_final_sync-Flagged}
use ramen.Drpc.Cleanup.{cleanup_secondaries}
use ramen.Drpc.Cleanup.Ready.{Cleaned, cleanup_secondaries-Cleaned}
use ramen.Drpc.Tests.{east, west, condition_of, vrg_of, hub_of, async_env}

-- The application runs on east, which is protected and has made its final sync.
abbrev leaving : Vrg
leaving = record (vrg_of primary primary_state) {
  conditions = condition_of "DataReady" 3 ∷ condition_of "ClusterDataProtected" 3 ∷ [];
}

abbrev moving_env : Env
moving_env = record async_env { vrgs = ("east", leaving) ∷ [] }

quiesce_and_run_final_sync-Flagged_example :
    Flagged (λ v. v.prepare_for_final_sync_complete) moving_env east
    × Flagged (λ v. v.final_sync_complete) moving_env east
unfolding quiesce_and_run_final_sync api_call find_condition get_cluster_decision
quiesce_and_run_final_sync-Flagged_example =
    quiesce_and_run_final_sync-Flagged moving_env east (hub_of action_relocate) refl

-- East is seen as secondary.
abbrev settled_env : Env
settled_env = record async_env { vrgs = ("east", vrg_of secondary secondary_state) ∷ [] }

cleanup_secondaries-Cleaned_example :
    OnOthers (Cleaned action_relocate settled_env) west ("east" ∷ "west" ∷ [])
    × (status_of
          (cleanup_secondaries settled_env west (hub_of action_relocate)).1.drpc.conditions
          condition_peer_ready
        ≡ condition_true)
unfolding cleanup_secondaries api_call find_condition find_manifest_work is_discovered_app
cleanup_secondaries-Cleaned_example =
    cleanup_secondaries-Cleaned settled_env west (hub_of action_relocate) refl

-- The namespace's ManifestWork is not there: the second call is answered NotFound.
abbrev missing : Error
missing = record { kind = not_found; text = "not found" }

abbrev new_namespace_env : Env
new_namespace_env = record async_env { api = λ n. if eqb n 1 then some missing else none }

create_vrg_manifest_work-Refused_example :
    (create_vrg_manifest_work new_namespace_env east primary (hub_of action_relocate)).1.works
    ≡ (hub_of action_relocate).works
unfolding create_vrg_manifest_work api_call find_manifest_work
create_vrg_manifest_work-Refused_example =
    create_vrg_manifest_work-Refused new_namespace_env east primary
      (vrg_of secondary secondary_state) (hub_of action_relocate) (λ x h. absurd (cc h)) refl

-- Every create conflicts.
abbrev conflict : Error
conflict = record { kind = already_exists; text = "exists" }

abbrev conflict_env : Env
conflict_env = record async_env { api = λ _. some conflict }

create_placement_decision-calls_example :
    (create_placement_decision conflict_env (hub_of action_relocate)).1.calls ≤ 5 + 0
create_placement_decision-calls_example =
    create_placement_decision-calls conflict_env (hub_of action_relocate)
