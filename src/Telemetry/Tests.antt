-- ===== src/Telemetry/Tests.antt =====
-- A DRPC that fails over, then relocates, and is deployed again without an action.
use ramen.Prelude.{List, [], ◌∷◌, ◌≡◌, none}
use ramen.Api.{
  DrState, deployed, initiating, failing_over, failed_over, relocating, relocated, deploying,
}
use ramen.Telemetry.{parse_dr_action_count}
use ramen.Telemetry.Counts.{sync_all, sync_all_counts_initiated}

abbrev phases : List DrState
phases =
    initiating ∷ deploying ∷ deployed ∷ initiating ∷ failing_over ∷ failed_over ∷ initiating
    ∷ relocating ∷ relocated ∷ []

sync_all_counts_initiated_example :
    let counts = parse_dr_action_count (sync_all phases none) in
    (counts.failover ≡ 1) × (counts.relocate ≡ 1)
sync_all_counts_initiated_example = sync_all_counts_initiated phases
