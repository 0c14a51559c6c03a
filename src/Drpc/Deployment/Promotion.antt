-- ===== src/Drpc/Deployment/Promotion.antt =====
-- The initial deployment makes no VRG primary but that of the preferred cluster.
use ramen.Prelude.{
  String, Bool, true, false, not, Option, none, some, [], ◌∷◌, ◌≡◌, inl, assoc, ◌==◌,
}
use ramen.Condition.{condition_false}
use ramen.Api.{primary, creating_mw, updating_pl_rule, deploying, deployed, Vrg}
use ramen.Drpc.{
  Env, Hub, Drpc, M, Error, pure, throw, ◌>>=◌, ◌>>◌, try, modify_drpc, is_already_exists,
  UserPlacement, placement_rule, placement,
}
use ramen.Drpc.Fields.{is_discovered_app, drpc_test_failover_dry_run_annotation}
use ramen.Drpc.Status.{
  set_dr_state, set_progression, set_available, set_condition, condition_peer_ready,
  set_status_initiating,
}
use ramen.Drpc.NewWorks.{create_vrg_manifest_work}
use ramen.Drpc.NewWorks.Latch.{create_vrg_manifest_work-Promotes}
use ramen.Drpc.Placement.{
  get_cluster_decision, update_user_placement_rule, switch_cluster_decision_retain_failover,
}
use ramen.Drpc.Cleanup.{has_annotation, ensure_action_transition}
use ramen.Drpc.Cleanup.Promotion.{ensure_action_transition-Promotes}
use ramen.Drpc.Deployment.{
  deployed_elsewhere, deployed_at, is_deployed, is_placement_updated, is_user_pl_rule_updated,
  create_primary, start_deploying, set_condition_on_initial_deployment_completion,
  complete_initial_deployment, place_discovered_app, finish_deployment, ensure_deployed,
  revert_test_failover, ensure_deployed_here, deploy_from, run_initial_deployment,
}
use ramen.Drpc.Views.{is_vrg_already_deployed_elsewhere}
use ramen.Drpc.Effects.{Within}
use ramen.Drpc.Effects.Promotion.{
  Promotes, SameWorks, SameWorks-refl, SameWorks-Promotes, bind-Promotes, try-Promotes, if_Promotes,
  seq-Promotes,
}
use ramen.Drpc.Effects.Reads.{
  bind_same, if_same, get_cluster_decision-SameWorks, update_user_placement_rule-SameWorks,
}
use ramen.Drpc.Effects.Decisions.{switch_cluster_decision-SameWorks}

deployed_elsewhere-SameWorks : (o : Option String) → Within SameWorks (deployed_elsewhere o)
unfolding deployed_elsewhere
deployed_elsewhere-SameWorks none = SameWorks-refl
deployed_elsewhere-SameWorks (some c) = SameWorks-refl

deployed_at-SameWorks :
    (e : Env) (home : String) (o : Option Vrg) → Within SameWorks (deployed_at e home o)
unfolding deployed_at
deployed_at-SameWorks e home none =
    deployed_elsewhere-SameWorks (is_vrg_already_deployed_elsewhere home e.vrgs)
deployed_at-SameWorks e home (some v) = SameWorks-refl

is_deployed-SameWorks : (e : Env) (home : String) → Within SameWorks (is_deployed e home)
unfolding is_deployed
is_deployed-SameWorks e home = deployed_at-SameWorks e home (assoc home e.vrgs)

is_placement_updated-SameWorks :
    (e : Env) (home : String) (p : UserPlacement) → Within SameWorks (is_placement_updated e home p)
unfolding is_placement_updated
is_placement_updated-SameWorks e home (placement_rule []) = SameWorks-refl
is_placement_updated-SameWorks e home (placement_rule (r ∷ rs)) = SameWorks-refl
is_placement_updated-SameWorks e home (placement ps) =
    bind_same (get_cluster_decision e) (λ d. pure (d.cluster_name == home))
      (get_cluster_decision-SameWorks e) (λ _. SameWorks-refl)

is_user_pl_rule_updated-SameWorks :
    (e : Env) (home : String) → Within SameWorks (is_user_pl_rule_updated e home)
unfolding is_user_pl_rule_updated
is_user_pl_rule_updated-SameWorks e home h =
    is_placement_updated-SameWorks e home h.user_placement h

place_discovered_app-SameWorks :
    (e : Env) (home : String) → Within SameWorks (place_discovered_app e home)
unfolding place_discovered_app
place_discovered_app-SameWorks e home h =
    if_same (is_discovered_app h.drpc) (update_user_placement_rule e home home) (pure tt)
      (update_user_placement_rule-SameWorks e home home) SameWorks-refl h

module _ (c : String) (S : Type 0) where
  create_primary-Promotes :
      (e : Env) (home : String) → (home ≡ c → S) → Within (Promotes c S) (create_primary e home)
  unfolding create_primary
  create_primary-Promotes e home reason =
      try-Promotes c S (create_vrg_manifest_work e home primary) (λ u. pure u) _
        (create_vrg_manifest_work-Promotes c S e home primary reason) (λ _ _ h p. inl p)
        (λ x.
          if_Promotes c S (not (is_already_exists x.kind)) (throw x) (pure tt) (λ _ h p. inl p)
            (λ _ h p. inl p))

  start_deploying-Promotes :
      (e : Env) (home namespace : String)
      → (home ≡ c → S)
      → Within (Promotes c S) (start_deploying e home namespace)
  unfolding start_deploying
  start_deploying-Promotes e home namespace reason =
      let start = modify_drpc (λ d. set_progression creating_mw (set_dr_state deploying d)) in
      let create = create_primary e home in
      let placing = modify_drpc (set_progression updating_pl_rule) in
      let place = update_user_placement_rule e home namespace in
      let done = modify_drpc (λ d.
        set_dr_state deployed
          (record d { preferred_decision = (d.preferred_cluster, d.preferred_cluster) })) in
      seq-Promotes c S (start >> create >> placing >> place >> done) (pure true)
        (seq-Promotes c S (start >> create >> placing >> place) done
          (seq-Promotes c S (start >> create >> placing) place
            (seq-Promotes c S (start >> create) placing
              (seq-Promotes c S start create (λ h p. inl p) (create_primary-Promotes e home reason))
              (λ h p. inl p))
            (SameWorks-Promotes c S place (update_user_placement_rule-SameWorks e home namespace)))
          (λ h p. inl p))
        (λ h p. inl p)

  complete_deployment-Promotes :
      (e : Env) (home : String)
      → (home ≡ c → S)
      → Within (Promotes c S) (complete_initial_deployment e home)
  unfolding complete_initial_deployment
  complete_deployment-Promotes e home reason =
      let finish : Bool → M Bool =
        λ _. modify_drpc (set_condition_on_initial_deployment_completion e) >> pure false in
      let fail : Error → M Bool = λ x. modify_drpc (set_available e.now x.text) >> throw x in
      bind-Promotes c S (modify_drpc (set_status_initiating e.now))
        (λ _. try (start_deploying e home home) finish fail) (λ h p. inl p)
        (λ _ _.
          try-Promotes c S (start_deploying e home home) finish fail
            (start_deploying-Promotes e home home reason) (λ _ _ h p. inl p) (λ x h p. inl p))

  ensure_deployed-Promotes :
      (e : Env) (home : String) → Within (Promotes c S) (ensure_deployed e home)
  unfolding ensure_deployed
  ensure_deployed-Promotes e home =
      let start = modify_drpc (set_dr_state deployed) in
      let end = ensure_action_transition e home in
      let place = place_discovered_app e home in
      let done = modify_drpc (finish_deployment e) in
      seq-Promotes c S (start >> end >> place >> done) (pure true)
        (seq-Promotes c S (start >> end >> place) done
          (seq-Promotes c S (start >> end) place
            (seq-Promotes c S start end (λ h p. inl p)
              (ensure_action_transition-Promotes c S e home))
            (SameWorks-Promotes c S place (place_discovered_app-SameWorks e home)))
          (λ h p. inl p))
        (λ h p. inl p)

  revert-Promotes : (e : Env) (home : String) → Within (Promotes c S) (revert_test_failover e home)
  unfolding revert_test_failover
  revert-Promotes e home =
      let switch = switch_cluster_decision_retain_failover e home in
      let cleaning =
        modify_drpc
          (set_condition e.now condition_peer_ready condition_false "Cleaning" "Not Ready") in
      bind-Promotes c S (switch >> cleaning) (λ _. ensure_deployed e home)
        (bind-Promotes c S switch (λ _. cleaning)
          (SameWorks-Promotes c S switch (switch_cluster_decision-SameWorks e home))
          (λ _ _ h p. inl p))
        (λ _ _. ensure_deployed-Promotes e home)

  deployed_here-Promotes :
      (e : Env) (home : String) (d : Drpc)
      → (home ≡ c → S)
      → Within (Promotes c S) (ensure_deployed_here e home d)
  unfolding ensure_deployed_here
  deployed_here-Promotes e home d reason =
      if_Promotes c S (has_annotation drpc_test_failover_dry_run_annotation d) _ _
        (λ _. revert-Promotes e home)
        (λ _.
          bind-Promotes c S (is_user_pl_rule_updated e home) _
            (SameWorks-Promotes c S (is_user_pl_rule_updated e home)
              (is_user_pl_rule_updated-SameWorks e home))
            (λ updated _.
              if_Promotes c S (not updated) _ _ (λ _. complete_deployment-Promotes e home reason)
                (λ _. ensure_deployed-Promotes e home)))

  deploy_from-Promotes :
      (e : Env) (home : String) (o : Option String)
      → (home ≡ c → S)
      → Within (Promotes c S) (deploy_from e home o)
  unfolding deploy_from
  deploy_from-Promotes e home none reason = complete_deployment-Promotes e home reason
  deploy_from-Promotes e home (some k) reason =
      if_Promotes c S (not (k == home)) (ensure_action_transition e home) _
        (λ _. ensure_action_transition-Promotes c S e home)
        (λ _ h. deployed_here-Promotes e home h.drpc reason h)

  pub run_initial_deployment-Promotes :
      (e : Env) (h : Hub)
      → (h.drpc.preferred_cluster ≡ c → S)
      → Promotes c S h (run_initial_deployment e h).1
  unfolding run_initial_deployment
  run_initial_deployment-Promotes e h reason =
      let home = h.drpc.preferred_cluster in
      if_Promotes c S (home == "") _ (is_deployed e home >>= λ found. deploy_from e home found)
        (λ _ i p. inl p)
        (λ _.
          bind-Promotes c S (is_deployed e home) (deploy_from e home)
            (SameWorks-Promotes c S (is_deployed e home) (is_deployed-SameWorks e home))
            (λ o _. deploy_from-Promotes e home o reason))
        h
