-- ===== src/Drpc/Relocation/Switch.antt =====
-- Relocation makes no VRG primary before its checks have passed.
use ramen.Prelude.{
  String, Bool, true, false, not, ◌||◌, List, [], ◌∷◌, ◌≡◌, refl, inl, ◌⊎◌, if◌then◌else◌, eqb,
  ◌+++◌, ◌==◌,
}
use ramen.Condition.{condition_false}
use ramen.Api.{
  DrState, relocated, updated_placement, waiting_for_resource_restore,
  ensuring_volumes_are_secondary,
}
use ramen.Drpc.{Env, Hub, M, Error, errorf, pure, throw, ◌>>=◌, ◌>>◌, try, modify_drpc}
use ramen.Drpc.Fields.{is_discovered_app}
use ramen.Drpc.Status.{
  set_dr_state, set_progression, set_available, set_condition, condition_peer_ready,
  update_preferred_decision,
}
use ramen.Drpc.Views.{check_readiness}
use ramen.Drpc.Progress.{set_discovered_app_gc_progression}
use ramen.Drpc.Works.{move_vrg_to_secondary, move_vrg_to_secondary_everywhere}
use ramen.Drpc.Works.Update.{move_vrg_to_secondary-Promotes}
use ramen.Drpc.NewWorks.{create_vrg_manifest_work_as_primary}
use ramen.Drpc.NewWorks.Latch.{create_vrg_manifest_work_as_primary-Promotes}
use ramen.Drpc.Placement.{update_user_placement_rule}
use ramen.Drpc.Relocation.{
  check_on_cluster, ensure_on_clusters, ensure_vrg_is_secondary_on_cluster,
  ensure_data_protected_on_cluster, ensure_vrg_is_secondary_everywhere, ensure_data_protected,
  move_to_secondary, setup_relocation, switch_to_cluster, relocate,
  wait_for_app_resource_restore_to_complete,
}
use ramen.Drpc.Effects.{Within}
use ramen.Drpc.Effects.Promotion.{
  is_primary_at, Promotes, SameWorks, SameWorks-refl, SameWorks-Promotes, bind-Promotes,
  try-Promotes, if_Promotes,
}
use ramen.Drpc.Effects.Reads.{bind_same, if_same, update_user_placement_rule-SameWorks}
use ramen.Drpc.Relocation.Secondary.{OnOthers, Settled, Protected}
use ramen.Drpc.Relocation.Setup.{Named, setup_relocation-Settled}

ensure_on_clusters-SameWorks :
    (answers : String → Bool × Bool) (skip : String) (cs : List String)
    → Within SameWorks (ensure_on_clusters (check_on_cluster answers) skip cs)
unfolding ensure_on_clusters
ensure_on_clusters-SameWorks answers skip [] = SameWorks-refl
ensure_on_clusters-SameWorks answers skip (c ∷ cs) =
    let rest = ensure_on_clusters (check_on_cluster answers) skip cs in
    let go : Bool → M Bool = λ a. if not a then pure false else rest in
    let ih = ensure_on_clusters-SameWorks answers skip cs in
    if_same (skip == c) rest (check_on_cluster answers c >>= go) ih (
      bind_same (check_on_cluster answers c) go (λ h. refl)
        (λ a. if_same (not a) (pure false) rest SameWorks-refl ih))

module _ (c : String) (S : Type 0) where
  everywhere-Promotes :
      (e : Env) (skip : String) → Within (Promotes c S) (ensure_vrg_is_secondary_everywhere e skip)
  unfolding ensure_vrg_is_secondary_everywhere ensure_vrg_is_secondary_on_cluster
  everywhere-Promotes e skip =
      SameWorks-Promotes c S (ensure_vrg_is_secondary_everywhere e skip)
        (ensure_on_clusters-SameWorks _ skip e.policy_clusters)

  data_protected-Promotes :
      (e : Env) (skip : String) → Within (Promotes c S) (ensure_data_protected e skip)
  unfolding ensure_data_protected ensure_data_protected_on_cluster
  data_protected-Promotes e skip =
      SameWorks-Promotes c S (ensure_data_protected e skip)
        (ensure_on_clusters-SameWorks _ skip e.policy_clusters)

  move_everywhere-Promotes : (e : Env) → Within (Promotes c S) (move_vrg_to_secondary_everywhere e)
  unfolding move_vrg_to_secondary_everywhere
  move_everywhere-Promotes e =
      bind-Promotes c S (move_vrg_to_secondary e e.policy_clusters 0) (λ n. pure (eqb n 0))
        (move_vrg_to_secondary-Promotes c S e e.policy_clusters 0) (λ n _ h p. inl p)

  move_to_secondary-Promotes :
      (e : Env) (skip : String) → Within (Promotes c S) (move_to_secondary e skip)
  unfolding move_to_secondary
  move_to_secondary-Promotes e skip =
      let note : M (Unit {0}) = modify_drpc (λ d.
        if is_discovered_app d
        then set_discovered_app_gc_progression e skip d
        else set_progression ensuring_volumes_are_secondary d) in
      let finish : Bool → M (Unit {0}) = λ everywhere.
        if not everywhere
        then throw (errorf "waiting for VRGs to move to secondaries everywhere")
        else pure tt in
      bind-Promotes c S (note >> move_vrg_to_secondary_everywhere e) _
        (bind-Promotes c S note (λ _. move_vrg_to_secondary_everywhere e) (λ h p. inl p)
          (λ _ _. move_everywhere-Promotes e))
        (λ moved _.
          if_Promotes c S (not moved) (throw (errorf "failed to move VRG to secondary everywhere"))
            (ensure_vrg_is_secondary_everywhere e "" >>= finish) (λ _ h p. inl p)
            (λ _.
              bind-Promotes c S (ensure_vrg_is_secondary_everywhere e "") finish
                (everywhere-Promotes e "")
                (λ b _.
                  if_Promotes c S (not b) (throw _) (pure tt) (λ _ h p. inl p) (λ _ h p. inl p))))

  setup_relocation-Promotes :
      (e : Env) (skip : String) → Within (Promotes c S) (setup_relocation e skip)
  unfolding setup_relocation
  setup_relocation-Promotes e skip =
      let move : Bool → M (Unit {0}) =
        λ everywhere. if not everywhere then move_to_secondary e skip else pure tt in
      let finish : Bool → M (Unit {0}) =
        λ b. if not b then throw (errorf "waiting for data protection") else pure tt in
      bind-Promotes c S (ensure_vrg_is_secondary_everywhere e skip)
        (λ b. move b >> ensure_data_protected e skip >>= finish) (everywhere-Promotes e skip)
        (λ b _.
          bind-Promotes c S (move b >> ensure_data_protected e skip) finish
            (bind-Promotes c S (move b) (λ _. ensure_data_protected e skip)
              (if_Promotes c S (not b) (move_to_secondary e skip) (pure tt)
                (λ _. move_to_secondary-Promotes e skip) (λ _ h p. inl p))
              (λ _ _. data_protected-Promotes e skip))
            (λ a _.
              if_Promotes c S (not a) (throw (errorf "waiting for data protection")) (pure tt)
                (λ _ h p. inl p) (λ _ h p. inl p)))

  pub switch_to_cluster-Promotes :
      (e : Env) (target namespace : String)
      → (target ≡ c → S)
      → Within (Promotes c S) (switch_to_cluster e target namespace)
  unfolding switch_to_cluster
  switch_to_cluster-Promotes e target namespace reason =
      let wait : M (Unit {0}) =
        modify_drpc (set_progression waiting_for_resource_restore)
        >> throw wait_for_app_resource_restore_to_complete in
      let place : M (Unit {0}) = update_user_placement_rule e target namespace in
      let done : Unit {0} → M (Unit {0}) = λ _. modify_drpc (set_progression updated_placement) in
      bind-Promotes c S (create_vrg_manifest_work_as_primary e target) _
        (create_vrg_manifest_work_as_primary-Promotes c S e target reason)
        (λ b _.
          if_Promotes c S (b || not (check_readiness e target)) wait (place >>= done)
            (λ _ h p. inl p)
            (λ _.
              bind-Promotes c S place done
                (SameWorks-Promotes c S place
                  (update_user_placement_rule-SameWorks e target namespace))
                (λ _ _ h p. inl p)))

-- Under a policy whose clusters have names, relocate makes the VRG of a ManifestWork primary
-- that was not primary before only on the preferred cluster, and only if on every other cluster
-- of the policy the VRG is there, has settled as secondary at its current generation, and has
-- its DataProtected condition true at that generation.
pub relocate-Promotes :
    (e : Env) (preferred_cluster namespace : String) (state : DrState)
    → Named e.policy_clusters
    → (c : String) (h : Hub)
    → is_primary_at c (relocate e preferred_cluster namespace state h).1 ≡ true
    → (is_primary_at c h ≡ true)
      ⊎ ((preferred_cluster ≡ c)
          × OnOthers (λ k. Settled (e.view k)) preferred_cluster e.policy_clusters
          × OnOthers (λ k. Protected (e.view k)) preferred_cluster e.policy_clusters)
unfolding relocate
relocate-Promotes e to namespace state named c =
    let S =
      (to ≡ c)
      × OnOthers (λ k. Settled (e.view k)) to e.policy_clusters
      × OnOthers (λ k. Protected (e.view k)) to e.policy_clusters in
    let start : M (Unit {0}) = modify_drpc (λ d.
      set_condition e.now condition_peer_ready condition_false "NotStarted"
        ("Relocation in progress to cluster \"" +++ to +++ "\"")
        (set_available e.now "Starting relocation" (set_dr_state state d))) in
    let switch : M (Unit {0}) = setup_relocation e to >> switch_to_cluster e to namespace in
    let finish : Unit {0} → M Bool = λ _.
      modify_drpc (λ d.
        set_available e.now "Completed" (set_dr_state relocated (update_preferred_decision d)))
      >> pure false in
    let fail : Error → M Bool = λ x. modify_drpc (set_available e.now x.text) >> throw x in
    bind-Promotes c S start (λ _. try switch finish fail) (λ h p. inl p)
      (λ _ _.
        try-Promotes c S switch finish fail
          (bind-Promotes c S (setup_relocation e to) (λ _. switch_to_cluster e to namespace)
            (setup_relocation-Promotes c S e to)
            (λ u (h, a). switch_to_cluster-Promotes c S e to namespace (λ q.
              let (settled, guarded) = setup_relocation-Settled e to named h a in
              (q, settled, guarded))))
          (λ _ _ h p. inl p) (λ x h p. inl p))
