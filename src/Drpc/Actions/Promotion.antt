-- ===== src/Drpc/Actions/Promotion.antt =====
-- Which VRG a reconcile makes primary, and what holds when it does.
use ramen.Prelude.{String, Bool, false, ◌≡◌}
use ramen.Api.{Action, action_failover, action_relocate, no_action}
use ramen.Drpc.{Env, Hub, Result, ok, err}
use ramen.Drpc.Actions.Relocating.{MayRelocate}
use ramen.Drpc.Actions.FailingOver.{MayFailOver}

-- Why a reconcile may make the VRG of the cluster primary, by the action of the DRPC.
abbrev pub May : Action → Env → Hub → String → Type 0
May action_failover e h c = MayFailOver e h c
May action_relocate e h c = MayRelocate e h.drpc c
May no_action e h c = h.drpc.preferred_cluster ≡ c

abbrev is_true : Result Bool → Bool
is_true (ok b) = b
is_true (err x) = false
