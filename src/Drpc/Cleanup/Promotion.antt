-- ===== src/Drpc/Cleanup/Promotion.antt =====
-- The end of an action makes no VRG primary.
use ramen.Prelude.{
  String, Bool, true, false, not, ◌||◌, Option, none, some, List, [], ◌∷◌, inl, of_false_is_true,
  assoc, eqb, ◌==◌, if◌then◌else◌,
}
use ramen.Api.{Vrg, secondary, is_secondary, cleaning_up}
use ramen.Drpc.{
  Env, Drpc, M, wrap, pure, throw, ◌>>◌, try, get_drpc, modify_drpc, api_call, is_not_found,
}
use ramen.Drpc.Fields.{drpc_test_failover_dry_run_annotation}
use ramen.Drpc.Status.{set_progression, update_preferred_decision}
use ramen.Drpc.Works.{update_vrg_state, ensure_vrg_manifest_work}
use ramen.Drpc.Works.Update.{update_vrg_state-Promotes}
use ramen.Drpc.Works.Kept.{ensure_vrg_manifest_work-Promotes}
use ramen.Drpc.Placement.{
  get_cluster_decision, update_user_placement_rule, remove_cluster_decision_for_failover,
}
use ramen.Drpc.Relocation.{ensure_vrg_is_secondary_on_cluster}
use ramen.Drpc.Replication.{ensure_secondary_replication_setup, reset_vol_sync_rd_on_primary}
use ramen.Drpc.Replication.Promotion.{
  ensure_secondary_replication_setup-Promotes, reset_vol_sync_rd_on_primary-Promotes,
}
use ramen.Drpc.Cleanup.{
  annotate_placement, save_if, ensure_placement, note_gc, cleanup_seen, recreate_secondary,
  cleanup_secondary, cleanup_each, has_annotation, delete_annotation,
  remove_test_failover_annotation, set_peer_ready, cleanup_secondaries, start_cleanup_check,
  is_peer_ready, ensure_cleanup, has_rd_spec, waiting_for_rd_spec,
  ensure_cleanup_and_secondary_replication_setup, complete_action, ensure_action_transition,
}
use ramen.Drpc.Effects.{Within}
use ramen.Drpc.Effects.Promotion.{
  Promotes, SameWorks, SameWorks-refl, SameWorks-Promotes, bind-Promotes, try-Promotes, if_Promotes,
  maybe-Promotes, seq-Promotes, api_call-SameWorks,
}
use ramen.Drpc.Effects.Reads.{
  bind_same, try_same, if_same, get_cluster_decision-SameWorks,
  update_user_placement_rule-SameWorks,
}
use ramen.Drpc.Effects.Decisions.{remove_cluster_decision-SameWorks}

-- A change of the DRPC alone.
abbrev note : (Drpc → Drpc) → M (Unit {0})
note f = modify_drpc f

save_if-SameWorks : (e : Env) (b : Bool) → Within SameWorks (save_if e b)
unfolding save_if
save_if-SameWorks e b = if_same b (api_call e) (pure tt) (api_call-SameWorks e) SameWorks-refl

pub ensure_placement-SameWorks :
    (e : Env) (home : String) → Within SameWorks (ensure_placement e home)
unfolding ensure_placement
ensure_placement-SameWorks e home h =
    let annotate = note (λ d. (annotate_placement home d).1) in
    let save = save_if e (annotate_placement home h.drpc).0 in
    let place = note update_preferred_decision >> update_user_placement_rule e home home in
    bind_same (annotate >> save >> get_cluster_decision e)
      (λ decision.
        if decision.cluster_name == "" || not (home == decision.cluster_name)
        then place
        else pure tt)
      (bind_same (annotate >> save) (λ _. get_cluster_decision e)
        (bind_same annotate (λ _. save) SameWorks-refl (λ _. save_if-SameWorks e _))
        (λ _. get_cluster_decision-SameWorks e))
      (λ decision.
        if_same (decision.cluster_name == "" || not (home == decision.cluster_name)) place (pure tt)
          (bind_same (note update_preferred_decision) (λ _. update_user_placement_rule e home home)
            SameWorks-refl (λ _. update_user_placement_rule-SameWorks e home home))
          SameWorks-refl)
      h

cleanup_seen-SameWorks :
    (e : Env) (c skip : String) (v : Option Vrg) → Within SameWorks (cleanup_seen e c skip v)
unfolding cleanup_seen ensure_vrg_is_secondary_on_cluster
cleanup_seen-SameWorks e c skip none = SameWorks-refl
cleanup_seen-SameWorks e c skip (some v) =
    let remove = remove_cluster_decision_for_failover e c in
    let check = ensure_vrg_is_secondary_on_cluster e c in
    if_same (not (is_secondary v.replication_state) || not (eqb v.observed_generation v.generation))
      (pure false) (remove >> note (note_gc e skip) >> check) SameWorks-refl
      (bind_same (remove >> note (note_gc e skip)) (λ _. check)
        (bind_same remove (λ _. note (note_gc e skip)) (remove_cluster_decision-SameWorks e c)
          (λ _. SameWorks-refl))
        (λ _. SameWorks-refl))

remove_annotation-SameWorks : (e : Env) → Within SameWorks (remove_test_failover_annotation e)
unfolding remove_test_failover_annotation
remove_annotation-SameWorks e h =
    let forget = note (delete_annotation drpc_test_failover_dry_run_annotation) in
    let save : M (Unit {0}) =
      try (api_call e) (λ u. pure u)
        (λ x. throw (wrap "failed to remove test failover annotation: " x "")) in
    if_same (has_annotation drpc_test_failover_dry_run_annotation h.drpc) (forget >> save) (pure tt)
      (bind_same forget (λ _. save) SameWorks-refl
        (λ _.
          try_same (api_call e) (λ u. pure u)
            (λ x. throw (wrap "failed to remove test failover annotation: " x ""))
            (api_call-SameWorks e) (λ _. SameWorks-refl) (λ _. SameWorks-refl)))
      SameWorks-refl h

module _ (c : String) (S : Type 0) where
  cleanup_secondary-Promotes :
      (e : Env) (k skip : String) → Within (Promotes c S) (cleanup_secondary e k skip)
  unfolding cleanup_secondary recreate_secondary
  cleanup_secondary-Promotes e k skip =
      try-Promotes c S (update_vrg_state e k secondary) _ _
        (update_vrg_state-Promotes c S e k secondary (λ _ r. of_false_is_true r))
        (λ updated _.
          if_Promotes c S updated _ _ (λ _ h p. inl p)
            (λ _.
              SameWorks-Promotes c S (cleanup_seen e k skip (assoc k e.vrgs))
                (cleanup_seen-SameWorks e k skip (assoc k e.vrgs))))
        (λ x.
          bind-Promotes c S (recreate_secondary e skip x) (λ _. pure false)
            (if_Promotes c S (is_not_found x.kind) _ (pure tt)
              (λ _. ensure_secondary_replication_setup-Promotes c S e skip) (λ _ h p. inl p))
            (λ _ _ h p. inl p))

  cleanup_each-Promotes :
      (e : Env) (skip : String) (cs : List String) → Within (Promotes c S) (cleanup_each e skip cs)
  unfolding cleanup_each
  cleanup_each-Promotes e skip [] = λ h p. inl p
  cleanup_each-Promotes e skip (k ∷ cs) =
      if_Promotes c S (skip == k) _ _ (λ _. cleanup_each-Promotes e skip cs)
        (λ _.
          bind-Promotes c S (cleanup_secondary e k skip) _ (cleanup_secondary-Promotes e k skip)
            (λ ready _.
              if_Promotes c S (not ready) _ _ (λ _ h p. inl p)
                (λ _. cleanup_each-Promotes e skip cs)))

  cleanup_secondaries-Promotes :
      (e : Env) (skip : String) → Within (Promotes c S) (cleanup_secondaries e skip)
  unfolding cleanup_secondaries
  cleanup_secondaries-Promotes e skip =
      let each = cleanup_each e skip e.policy_clusters in
      bind-Promotes c S (each >> note (set_peer_ready e)) (λ _. remove_test_failover_annotation e)
        (bind-Promotes c S each (λ _. note (set_peer_ready e))
          (cleanup_each-Promotes e skip e.policy_clusters) (λ _ _ h p. inl p))
        (λ _ _.
          SameWorks-Promotes c S (remove_test_failover_annotation e)
            (remove_annotation-SameWorks e))

  ensure_cleanup-Promotes :
      (e : Env) (skip : String) → Within (Promotes c S) (ensure_cleanup e skip)
  unfolding ensure_cleanup
  ensure_cleanup-Promotes e skip =
      let clean = cleanup_secondaries e skip in
      bind-Promotes c S (note (start_cleanup_check e) >> get_drpc)
        (λ d. if is_peer_ready d then pure tt else clean) (λ h p. inl p)
        (λ d _.
          if_Promotes c S (is_peer_ready d) (pure tt) clean (λ _ h p. inl p)
            (λ _. cleanup_secondaries-Promotes e skip))

  cleanup_and_setup-Promotes :
      (e : Env) (src : String)
      → Within (Promotes c S) (ensure_cleanup_and_secondary_replication_setup e src)
  unfolding ensure_cleanup_and_secondary_replication_setup
  cleanup_and_setup-Promotes e src =
      let setup = ensure_secondary_replication_setup e src in
      bind-Promotes c S (reset_vol_sync_rd_on_primary e src) _
        (reset_vol_sync_rd_on_primary-Promotes c S e src)
        (λ _ _.
          maybe-Promotes c S (throw (waiting_for_rd_spec src)) _ (assoc src e.vrgs) (λ h p. inl p)
            (λ v _.
              if_Promotes c S (has_rd_spec v) (throw (waiting_for_rd_spec src))
                (ensure_cleanup e src >> setup) (λ _ h p. inl p)
                (λ _.
                  bind-Promotes c S (ensure_cleanup e src) (λ _. setup)
                    (ensure_cleanup-Promotes e src)
                    (λ _ _. ensure_secondary_replication_setup-Promotes c S e src))))

  pub ensure_action_transition-Promotes :
      (e : Env) (src : String) → Within (Promotes c S) (ensure_action_transition e src)
  unfolding ensure_action_transition
  ensure_action_transition-Promotes e src =
      let start = note (set_progression cleaning_up) in
      let work = ensure_vrg_manifest_work e src in
      let place = ensure_placement e src in
      let clean = ensure_cleanup_and_secondary_replication_setup e src in
      let done = note (complete_action e) in
      seq-Promotes c S (start >> work >> place >> clean >> done) (pure true)
        (seq-Promotes c S (start >> work >> place >> clean) done
          (seq-Promotes c S (start >> work >> place) clean
            (seq-Promotes c S (start >> work) place
              (seq-Promotes c S start work (λ h p. inl p)
                (ensure_vrg_manifest_work-Promotes c S e src))
              (SameWorks-Promotes c S place (ensure_placement-SameWorks e src)))
            (cleanup_and_setup-Promotes e src))
          (λ h p. inl p))
        (λ h p. inl p)
