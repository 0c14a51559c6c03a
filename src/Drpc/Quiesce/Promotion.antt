-- ===== src/Drpc/Quiesce/Promotion.antt =====
-- The final sync makes no VRG primary.
use ramen.Prelude.{String, Bool, true, false, not, inl, assoc, ◌==◌}
use ramen.Api.{preparing_final_sync, running_final_sync, final_sync_complete}
use ramen.Drpc.{Env, M, pure, ◌>>=◌, ◌>>◌, modify_drpc, ClusterDecision}
use ramen.Drpc.Status.{set_progression}
use ramen.Drpc.Works.{update_vrg_to_prepare_for_final_sync, update_vrg_to_run_final_sync}
use ramen.Drpc.Works.Kept.{
  update_vrg_to_prepare_for_final_sync-Promotes, update_vrg_to_run_final_sync-Promotes,
}
use ramen.Drpc.Placement.{get_cluster_decision, clear_user_placement_rule_status}
use ramen.Drpc.Quiesce.{
  prepare_for_final_sync, run_final_sync, start_quiescing, gc_or_progression, clear_placement,
  finish_final_sync, quiesce_and_run_final_sync,
}
use ramen.Drpc.Effects.{Within}
use ramen.Drpc.Effects.Promotion.{
  Promotes, SameWorks, SameWorks-refl, SameWorks-Promotes, bind-Promotes, if_Promotes,
  maybe-Promotes,
}
use ramen.Drpc.Effects.Reads.{bind_same, if_same, get_cluster_decision-SameWorks}
use ramen.Drpc.Effects.Decisions.{clear_user_placement-SameWorks}

clear_placement-SameWorks :
    (e : Env) (home : String) (d : ClusterDecision) → Within SameWorks (clear_placement e home d)
unfolding clear_placement
clear_placement-SameWorks e home d =
    let start = modify_drpc (start_quiescing e home) in
    if_same (not (d.cluster_name == "")) (start >> clear_user_placement_rule_status e) (pure tt)
      (bind_same start (λ _. clear_user_placement_rule_status e) SameWorks-refl
        (λ _. clear_user_placement-SameWorks e))
      SameWorks-refl

module _ (c : String) (S : Type 0) where
  prepare_for_final_sync-Promotes :
      (e : Env) (home : String) → Within (Promotes c S) (prepare_for_final_sync e home)
  unfolding prepare_for_final_sync
  prepare_for_final_sync-Promotes e home =
      maybe-Promotes c S _ _ (assoc home e.vrgs) (λ h p. inl p)
        (λ v _.
          if_Promotes c S (not v.prepare_for_final_sync_complete)
            (update_vrg_to_prepare_for_final_sync e home >> pure false) (pure true)
            (λ _.
              bind-Promotes c S (update_vrg_to_prepare_for_final_sync e home) (λ _. pure false)
                (update_vrg_to_prepare_for_final_sync-Promotes c S e home) (λ _ _ h p. inl p))
            (λ _ h p. inl p))

  run_final_sync-Promotes :
      (e : Env) (home : String) → Within (Promotes c S) (run_final_sync e home)
  unfolding run_final_sync
  run_final_sync-Promotes e home =
      maybe-Promotes c S _ _ (assoc home e.vrgs) (λ h p. inl p)
        (λ v _.
          if_Promotes c S (not v.final_sync_complete)
            (update_vrg_to_run_final_sync e home >> pure false) (pure true)
            (λ _.
              bind-Promotes c S (update_vrg_to_run_final_sync e home) (λ _. pure false)
                (update_vrg_to_run_final_sync-Promotes c S e home) (λ _ _ h p. inl p))
            (λ _ h p. inl p))

  finish_final_sync-Promotes :
      (e : Env) (home : String) → Within (Promotes c S) (finish_final_sync e home)
  unfolding finish_final_sync
  finish_final_sync-Promotes e home =
      bind-Promotes c S (run_final_sync e home) _ (run_final_sync-Promotes e home) (λ result _.
        if_Promotes c S (not result)
          (modify_drpc (gc_or_progression e home running_final_sync) >> pure false)
          (modify_drpc (set_progression final_sync_complete) >> pure true) (λ _ h p. inl p)
          (λ _ h p. inl p))

  pub quiesce_and_run_final_sync-Promotes :
      (e : Env) (home : String) → Within (Promotes c S) (quiesce_and_run_final_sync e home)
  unfolding quiesce_and_run_final_sync
  quiesce_and_run_final_sync-Promotes e home =
      let clear : ClusterDecision → M Bool =
        λ d. clear_placement e home d >> finish_final_sync e home in
      bind-Promotes c S (prepare_for_final_sync e home) _ (prepare_for_final_sync-Promotes e home)
        (λ result _.
          if_Promotes c S (not result)
            (modify_drpc (set_progression preparing_final_sync) >> pure false)
            (get_cluster_decision e >>= clear) (λ _ h p. inl p)
            (λ _.
              bind-Promotes c S (get_cluster_decision e) clear
                (SameWorks-Promotes c S (get_cluster_decision e) (get_cluster_decision-SameWorks e))
                (λ d _.
                  bind-Promotes c S (clear_placement e home d) (λ _. finish_final_sync e home)
                    (SameWorks-Promotes c S (clear_placement e home d)
                      (clear_placement-SameWorks e home d))
                    (λ _ _. finish_final_sync-Promotes e home))))
