-- ===== src/Telemetry.antt =====
-- The cumulative action counts of internal/controller/dr_telemetry_metrics.go. The JSON value of
-- the annotation is the record that it encodes, `none` where the annotation is absent or
-- malformed; the counts are uint64.
pub mod Counts
pub mod Tests
use ramen.Prelude.{
  ℕ, Bool, true, false, ◌&&◌, not, Option, none, some, List, [], ◌∷◌, ◌+◌, ◌%◌, if◌then◌else◌,
}
use ramen.Api.{DrState, initiating, failing_over, relocating, no_phase, phase_eqb}

pub record DrActionCount : Type 0 where
  pub failover : ℕ
  pub relocate : ℕ
  pub last_phase : DrState

abbrev pub u64_mod : ℕ
u64_mod = 18446744073709551616

-- parseDRActionCount.
abbrev pub parse_dr_action_count : Option DrActionCount → DrActionCount
parse_dr_action_count none = record { failover = 0; relocate = 0; last_phase = no_phase }
parse_dr_action_count (some c) = c

-- The inner `switch`: what a move out of Initiating counts.
abbrev pub count_action : DrState → DrActionCount → DrActionCount
count_action failing_over c = record c { failover = (c.failover + 1) % u64_mod }
count_action relocating c = record c { relocate = (c.relocate + 1) % u64_mod }
count_action _ c = c

-- syncDRActionCountAnnotation: the annotation after the call, and whether it changed.
unfoldable pub sync_dr_action_count_annotation :
    DrState → Option DrActionCount → Option DrActionCount × Bool
sync_dr_action_count_annotation phase annotation =
    let counts = parse_dr_action_count annotation in
    let counted =
      if phase_eqb counts.last_phase initiating then count_action phase counts else counts in
    if phase_eqb counts.last_phase phase
    then (annotation, false)
    else if not (phase_eqb counts.last_phase initiating) && not (phase_eqb phase initiating)
    then (annotation, false)
    else (some (record counted { last_phase = phase }), true)
