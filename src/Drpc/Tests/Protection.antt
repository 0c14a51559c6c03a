-- ===== src/Drpc/Tests/Protection.antt =====
-- A run of the checks of the condition Protected.
use ramen.Prelude.{some, [], ◌∷◌, refl}
use ramen.Condition.{
  find_condition, add_or_update_condition, is_outdated, set_status_condition, replace_first,
  updated_condition,
}
use ramen.Condition.Statuses.{status_of}
use ramen.Api.{Vrg, primary, primary_state, action_relocate}
use ramen.Drpc.Protected.{update_drpc_protected_condition}
use ramen.Drpc.Protected.Checks.{update_drpc_protected_condition-Ready}
use ramen.Drpc.Protected.Findings.{Ready}
use ramen.Drpc.Tests.{vrg_of, drpc_of, condition_of}

abbrev protecting : Vrg
protecting = record (vrg_of primary primary_state) {
  conditions =
      condition_of "ClusterDataReady" 3
      ∷ condition_of "DataReady" 3
      ∷ condition_of "DataProtected" 3
      ∷ condition_of "NoClusterDataConflict" 3
      ∷ condition_of "ClusterDataProtected" 3
      ∷ [];
}

update_drpc_protected_condition-Ready_example : Ready find_condition protecting (some 8)
unfolding find_condition update_drpc_protected_condition status_of add_or_update_condition
    is_outdated set_status_condition replace_first updated_condition
update_drpc_protected_condition-Ready_example =
    update_drpc_protected_condition-Ready find_condition protecting 9 "busybox/busybox" (some 8)
      "east" (drpc_of "busybox" action_relocate) refl refl
