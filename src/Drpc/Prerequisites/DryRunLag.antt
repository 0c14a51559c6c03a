-- ===== src/Drpc/Prerequisites/DryRunLag.antt =====
-- When a dry-run failover may start.
use ramen.Prelude.{
  ℕ, true, false, Option, none, some, List, [], ◌∷◌, ◌≡◌, ◌⊎◌, eq_iff, arith, ◌-◌, ◌*◌, ◌≤◌,
}
use ramen.Condition.{Condition, condition_true}
use ramen.Drpc.{Drpc, Env}
use ramen.Drpc.Status.{condition_protected}
use ramen.Drpc.Prerequisites.{
  has_protected_condition, is_protected, is_group_sync_lagging, is_too_old,
  dry_run_ready_to_failover,
}

-- Some condition of the list says that the workload is protected.
abbrev pub HasProtected : List Condition → Type 0
HasProtected [] = false ≡ true
HasProtected (c ∷ cs) =
    ((c.type ≡ condition_protected) × (c.status ≡ condition_true)) ⊎ HasProtected cs

-- The last group sync, where one is known, is at most three scheduling intervals old.
abbrev pub InTime : ℕ → Option ℕ → Option ℕ → Type 0
InTime now none interval = Unit
InTime now (some synced) none = Unit
InTime now (some synced) (some interval) = now - synced ≤ 3 * interval

has_protected_condition-HasProtected :
    (cs : List Condition) → has_protected_condition cs ≡ true → HasProtected cs
unfolding has_protected_condition
has_protected_condition-HasProtected [] p = p
has_protected_condition-HasProtected (c ∷ cs) p =
    let ih = has_protected_condition-HasProtected cs in
    ground (arith, eq_iff c.type condition_protected, ih)

is_too_old-InTime :
    (now : ℕ) (synced interval : Option ℕ)
    → is_too_old now synced interval ≡ false
    → InTime now synced interval
unfolding is_too_old
is_too_old-InTime now none interval p = tt
is_too_old-InTime now (some synced) none p = tt
is_too_old-InTime now (some synced) (some interval) p = ground arith

-- dryRunReadyToFailover answers true only if some condition of the DRPC says that the workload
-- is protected, and the last group sync, where its time is known and the scheduling interval can
-- be read, is at most three intervals old.
pub dry_run_ready_to_failover-InTime :
    (e : Env) (d : Drpc)
    → (dry_run_ready_to_failover e d).0 ≡ true
    → HasProtected d.conditions × InTime e.now d.last_group_sync_time e.interval_seconds
unfolding dry_run_ready_to_failover is_protected is_group_sync_lagging
dry_run_ready_to_failover-InTime e d p = (
  has_protected_condition-HasProtected d.conditions (ground arith),
  is_too_old-InTime e.now d.last_group_sync_time e.interval_seconds (ground arith),
)
