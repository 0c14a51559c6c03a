-- ===== src/Drpc/Actions/Completion.antt =====
-- The steps of an action that make no VRG primary: its checks, and its completion where the VRG
-- is primary already.
use ramen.Prelude.{String, Bool, true, false, not, ◌||◌, inl, ◌==◌, if◌then◌else◌}
use ramen.Api.{failed_over, relocating, relocated, testing_failover}
use ramen.Drpc.{
  Env, Drpc, M, pure, throw, ◌>>=◌, ◌>>◌, get_drpc, modify_drpc, is_not_found, ClusterDecision,
}
use ramen.Drpc.Fields.{has_global_vgr_label}
use ramen.Drpc.Status.{set_dr_state, set_progression, update_preferred_decision}
use ramen.Drpc.Views.{check_readiness}
use ramen.Drpc.Works.{find_manifest_work, ensure_vrg_manifest_work}
use ramen.Drpc.Works.Kept.{ensure_vrg_manifest_work-Promotes}
use ramen.Drpc.Placement.{get_cluster_decision}
use ramen.Drpc.Prerequisites.{dry_run_ready_to_failover}
use ramen.Drpc.Consensus.{is_global_action_in_consensus}
use ramen.Drpc.Cleanup.{ensure_placement, ensure_action_transition}
use ramen.Drpc.Cleanup.Promotion.{ensure_placement-SameWorks, ensure_action_transition-Promotes}
use ramen.Drpc.Quiesce.{quiesce_and_run_final_sync}
use ramen.Drpc.Quiesce.Promotion.{quiesce_and_run_final_sync-Promotes}
use ramen.Drpc.Actions.{
  set_requeue_after, mw_exists_and_placement_updated, check_dry_run, check_consensus, set_completed,
  wait_for_readiness_of, ensure_work_or_wait, test_failover, finish_failover, finish_relocate,
  is_moving, quiesce_if_moving,
}
use ramen.Drpc.Effects.{Within}
use ramen.Drpc.Effects.Promotion.{
  Promotes, SameWorks, SameWorks-refl, SameWorks-Promotes, bind-Promotes, try-Promotes, if_Promotes,
  seq-Promotes, find_manifest_work-SameWorks,
}
use ramen.Drpc.Effects.Reads.{bind_same, try_same, if_same, get_cluster_decision-SameWorks}

pub mw_exists-SameWorks :
    (e : Env) (k : String) → Within SameWorks (mw_exists_and_placement_updated e k)
unfolding mw_exists_and_placement_updated
mw_exists-SameWorks e k =
    let placed : ClusterDecision → M Bool =
      λ d. if d.cluster_name == "" || not (d.cluster_name == k) then pure false else pure true in
    try_same (find_manifest_work e k) (λ _. get_cluster_decision e >>= placed)
      (λ x. if is_not_found x.kind then pure false else throw x) (find_manifest_work-SameWorks e k)
      (λ _. bind_same (get_cluster_decision e) placed (get_cluster_decision-SameWorks e) (λ d.
        if_same (d.cluster_name == "" || not (d.cluster_name == k)) (pure false) (pure true)
          SameWorks-refl SameWorks-refl))
      (λ x. if_same (is_not_found x.kind) (pure false) (throw x) SameWorks-refl SameWorks-refl)

note_if-SameWorks :
    (b a : Bool) (f : Drpc → Drpc)
    → Within SameWorks (if b then modify_drpc f >> pure a else pure true)
note_if-SameWorks b a f =
    if_same b (modify_drpc f >> pure a) (pure true) SameWorks-refl SameWorks-refl

pub check_dry_run-SameWorks : (e : Env) → Within SameWorks (check_dry_run e)
unfolding check_dry_run
check_dry_run-SameWorks e h =
    note_if-SameWorks h.drpc.dry_run (dry_run_ready_to_failover e h.drpc).0
      (λ _. (dry_run_ready_to_failover e h.drpc).1) h

pub check_consensus-SameWorks : (e : Env) → Within SameWorks (check_consensus e)
unfolding check_consensus
check_consensus-SameWorks e h =
    note_if-SameWorks (has_global_vgr_label h.drpc) (is_global_action_in_consensus e h.drpc).0
      (λ _. (is_global_action_in_consensus e h.drpc).1) h

test_failover-SameWorks : (e : Env) (k : String) → Within SameWorks (test_failover e k)
unfolding test_failover
test_failover-SameWorks e k =
    let start = modify_drpc (set_progression testing_failover) in
    let place = ensure_placement e k in
    bind_same (start >> place >> set_requeue_after 60) (λ _. pure false)
      (bind_same (start >> place) (λ _. set_requeue_after 60)
        (bind_same start (λ _. place) SameWorks-refl (λ _. ensure_placement-SameWorks e k))
        (λ _. SameWorks-refl))
      (λ _. SameWorks-refl)

module _ (c : String) (S : Type 0) where
  work_or_wait-Promotes : (e : Env) (k : String) → Within (Promotes c S) (ensure_work_or_wait e k)
  unfolding ensure_work_or_wait wait_for_readiness_of
  work_or_wait-Promotes e k =
      try-Promotes c S (ensure_vrg_manifest_work e k) (λ u. pure u) _
        (ensure_vrg_manifest_work-Promotes c S e k) (λ _ _ h p. inl p) (λ x h p. inl p)

  pub finish_failover-Promotes :
      (e : Env) (k : String) → Within (Promotes c S) (finish_failover e k)
  unfolding finish_failover wait_for_readiness_of
  finish_failover-Promotes e k =
      let start = modify_drpc (λ d. set_dr_state failed_over (update_preferred_decision d)) in
      let work = ensure_work_or_wait e k in
      let last : Drpc → M Bool =
        λ d. if d.dry_run then test_failover e k else ensure_action_transition e k in
      let wait : M Bool = wait_for_readiness_of >> pure false in
      let go : M Bool = modify_drpc (set_completed e) >> get_drpc >>= last in
      seq-Promotes c S (start >> work) (if not (check_readiness e k) then wait else go)
        (seq-Promotes c S start work (λ h p. inl p) (work_or_wait-Promotes e k))
        (if_Promotes c S (not (check_readiness e k)) wait go (λ _ h p. inl p)
          (λ _.
            bind-Promotes c S (modify_drpc (set_completed e) >> get_drpc) last (λ h p. inl p)
              (λ d _.
                if_Promotes c S d.dry_run (test_failover e k) (ensure_action_transition e k)
                  (λ _. SameWorks-Promotes c S (test_failover e k) (test_failover-SameWorks e k))
                  (λ _. ensure_action_transition-Promotes c S e k))))

  pub finish_relocate-Promotes :
      (e : Env) (k : String) → Within (Promotes c S) (finish_relocate e k)
  unfolding finish_relocate wait_for_readiness_of
  finish_relocate-Promotes e k =
      let start = modify_drpc (λ d. update_preferred_decision (set_dr_state relocating d)) in
      let work = ensure_work_or_wait e k in
      let finish = modify_drpc (λ d. set_completed e (set_dr_state relocated d)) in
      let wait : M Bool = wait_for_readiness_of >> pure false in
      let go : M Bool = finish >> ensure_action_transition e k in
      seq-Promotes c S (start >> work) (if not (check_readiness e k) then wait else go)
        (seq-Promotes c S start work (λ h p. inl p) (work_or_wait-Promotes e k))
        (if_Promotes c S (not (check_readiness e k)) wait go (λ _ h p. inl p)
          (λ _.
            seq-Promotes c S finish (ensure_action_transition e k) (λ h p. inl p)
              (ensure_action_transition-Promotes c S e k)))

  pub quiesce_if_moving-Promotes :
      (e : Env) (home to : String) → Within (Promotes c S) (quiesce_if_moving e home to)
  unfolding quiesce_if_moving
  quiesce_if_moving-Promotes e home to =
      if_Promotes c S (is_moving home to) (quiesce_and_run_final_sync e home) (pure true)
        (λ _. quiesce_and_run_final_sync-Promotes c S e home) (λ _ h p. inl p)
