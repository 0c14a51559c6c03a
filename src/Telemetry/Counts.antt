-- ===== src/Telemetry/Counts.antt =====
-- The counts against the history of phases: an action is counted once, when it is initiated.
use ramen.Prelude.{
  ℕ, ◌&&◌, Option, none, List, [], ◌∷◌, ◌+◌, ◌%◌, ◌≡◌, ◌<◌, refl, arith, if◌then◌else◌,
}
use ramen.Api.{DrState, initiating, failing_over, relocating, no_phase, phase_eqb}
use ramen.Telemetry.{DrActionCount, u64_mod, parse_dr_action_count, sync_dr_action_count_annotation}

-- The annotation after a DRPC has gone through the phases, one call for each.
unfoldable pub sync_all : List DrState → Option DrActionCount → Option DrActionCount
sync_all [] annotation = annotation
sync_all (p ∷ ps) annotation = sync_all ps (sync_dr_action_count_annotation p annotation).0

-- How often the phase follows directly on Initiating.
abbrev pub initiated : DrState → DrState → List DrState → ℕ
initiated target before [] = 0
initiated target before (p ∷ ps) =
    (if phase_eqb before initiating && phase_eqb p target then 1 else 0) + initiated target p ps

-- What is recorded is right about Initiating.
abbrev Tracks : DrState → Option DrActionCount → Type 0
Tracks before annotation =
    phase_eqb (parse_dr_action_count annotation).last_phase initiating ≡ phase_eqb before initiating

sync-Tracks :
    (before p : DrState) (a : Option DrActionCount)
    → Tracks before a
    → Tracks p (sync_dr_action_count_annotation p a).0
unfolding sync_dr_action_count_annotation
sync-Tracks before p a h = ground arith

sync-failover :
    (before p : DrState) (a : Option DrActionCount)
    → Tracks before a
    → (parse_dr_action_count a).failover < u64_mod
    → (parse_dr_action_count (sync_dr_action_count_annotation p a).0).failover
      ≡ ((parse_dr_action_count a).failover
          + (if phase_eqb before initiating && phase_eqb p failing_over then 1 else 0))
        % u64_mod
unfolding sync_dr_action_count_annotation
sync-failover before p a h b = ground arith

sync-relocate :
    (before p : DrState) (a : Option DrActionCount)
    → Tracks before a
    → (parse_dr_action_count a).relocate < u64_mod
    → (parse_dr_action_count (sync_dr_action_count_annotation p a).0).relocate
      ≡ ((parse_dr_action_count a).relocate
          + (if phase_eqb before initiating && phase_eqb p relocating then 1 else 0))
        % u64_mod
unfolding sync_dr_action_count_annotation
sync-relocate before p a h b = ground arith

-- The counts are 64-bit numbers.
pub record IsWord (a : Option DrActionCount) : Type 0 where
  pub failover_fits : (parse_dr_action_count a).failover < u64_mod
  pub relocate_fits : (parse_dr_action_count a).relocate < u64_mod

sync-IsWord :
    (p : DrState) (a : Option DrActionCount)
    → IsWord a
    → IsWord (sync_dr_action_count_annotation p a).0
unfolding sync_dr_action_count_annotation
sync-IsWord p a h = ground arith

sync_all-counts :
    (ps : List DrState) (before : DrState) (a : Option DrActionCount)
    → Tracks before a
    → IsWord a
    → let after = parse_dr_action_count (sync_all ps a) in
      (after.failover
        ≡ ((parse_dr_action_count a).failover + initiated failing_over before ps) % u64_mod)
      × (after.relocate
          ≡ ((parse_dr_action_count a).relocate + initiated relocating before ps) % u64_mod)
unfolding sync_all
sync_all-counts [] before a t w = (omega (arith, w.failover_fits), omega (arith, w.relocate_fits))
sync_all-counts (p ∷ ps) before a t w =
    let (f, r) =
      sync_all-counts ps p (sync_dr_action_count_annotation p a).0 (sync-Tracks before p a t)
        (sync-IsWord p a w) in
    let sf = sync-failover before p a t w.failover_fits in
    let sr = sync-relocate before p a t w.relocate_fits in
    (omega (arith, f, sf), omega (arith, r, sr))

-- A DRPC without the annotation that goes through a list of phases, with a call of
-- syncDRActionCountAnnotation at each, ends with as many failovers as the list has FailingOver
-- directly after Initiating, and as many relocates as it has Relocating directly after
-- Initiating, both modulo 2^64.
pub sync_all_counts_initiated :
    (ps : List DrState)
    → let counts = parse_dr_action_count (sync_all ps none) in
      (counts.failover ≡ initiated failing_over no_phase ps % u64_mod)
      × (counts.relocate ≡ initiated relocating no_phase ps % u64_mod)
sync_all_counts_initiated ps =
    let (f, r) = sync_all-counts ps no_phase none refl (omega arith) in
    (omega (arith, f), omega (arith, r))
