-- ===== src/Drpc/Fields/DryRun.antt =====
-- How the action and the dry-run flag of a DRPC reach its VRGs.
use ramen.Prelude.{◌≡◌, arith}
use ramen.Api.{Vrg}
use ramen.Drpc.{Drpc}
use ramen.Drpc.Fields.{set_vrg_action}

-- A second setVRGAction of the same DRPC changes nothing.
pub set_vrg_action_twice :
    (d : Drpc) (v : Vrg) → set_vrg_action d (set_vrg_action d v) ≡ set_vrg_action d v
unfolding set_vrg_action
set_vrg_action_twice d v = ground arith
