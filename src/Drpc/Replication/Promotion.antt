-- ===== src/Drpc/Replication/Promotion.antt =====
-- The replication of the peers makes no VRG primary.
use ramen.Prelude.{
  String, not, none, List, [], ◌∷◌, ◌≡◌, refl, inl, of_false_is_true, ap, subst, sym, ◌∙◌, assoc,
  length, inr, Option-cases, eqb, ◌==◌, ◌+++◌,
}
use ramen.Api.{
  Vrg, ProtectedPvc, RsSpec, secondary, is_primary, ensuring_secondary_setup,
  settingup_volsync_dest,
}
use ramen.Drpc.{
  Env, Hub, DrType, dr_type_sync, dr_type_async, M, Result, ok, err, errorf, wrap, pure, throw,
  from_result, ◌>>=◌, ◌>>◌, try, maybe, get_drpc, modify_drpc, api_call, is_not_found,
}
use ramen.Drpc.Fields.{new_vrg}
use ramen.Drpc.Status.{set_progression}
use ramen.Drpc.Works.{
  put_work, get_vrg_from_manifest_work, update_vrg_manifest_work, create_or_update_manifest_work,
}
use ramen.Drpc.Works.Update.{new_vrg-replication_state}
use ramen.Drpc.Works.Demotion.{handle_post}
use ramen.Drpc.Works.Kept.{found-Promotes, kept-Promotes, if_at, update_vrg_manifest_work-Promotes}
use ramen.Drpc.NewWorks.{ensure_namespace_manifest_work}
use ramen.Drpc.Effects.{Within}
use ramen.Drpc.Effects.Promotion.{
  Promotes, SameWorks, SameWorks-refl, SameWorks-Promotes, bind-Promotes, try-Promotes, if_Promotes,
  maybe-Promotes, api_call-SameWorks, api_call-Promotes, put_work-Promotes,
  find_manifest_work-SameWorks, create_or_update_manifest_work-Promotes,
}
use ramen.Drpc.Effects.Reads.{
  bind_same, try_same, if_same, maybe_same, ensure_namespace_manifest_work-SameWorks,
}
use ramen.Drpc.Replication.{
  reconcile_vol_sync_replication_secret, reconcile_secret_propagation, propagate_secret_to_clusters,
  is_vol_sync_replication_required, ensure_vol_sync_replication_setup, rs_specs, update_vsrg_spec,
  update_source_vsrg, first_other, has_no_rd_info, ensure_vol_sync_replication_source,
  write_recipe_work, ensure_recipe_manifest_work, reset_rd_spec, reset_if_any, secondary_spec,
  read_secondary_spec, refresh_vrg_secondary_spec, create_secondary_on, create_secondary_on_first,
  create_or_update_secondary_manifest_work, is_created, is_submariner_enabled, ensure_source,
  ensure_secondary_replication_setup, reset_vol_sync_rd_on_primary,
}

reconcile_secret-SameWorks : (e : Env) → Within SameWorks (reconcile_vol_sync_replication_secret e)
unfolding reconcile_vol_sync_replication_secret
reconcile_secret-SameWorks e =
    try_same (api_call e) (λ u. pure u) _ (api_call-SameWorks e) (λ _. SameWorks-refl)
      (λ x. if_same (not (is_not_found x.kind)) _ _ SameWorks-refl (
        try_same (api_call e) (λ u. pure u) _ (api_call-SameWorks e) (λ _. SameWorks-refl)
          (λ _. SameWorks-refl)))

reconcile_propagation-SameWorks :
    (e : Env) (what : String) → Within SameWorks (reconcile_secret_propagation e what)
unfolding reconcile_secret_propagation
reconcile_propagation-SameWorks e what =
    try_same (api_call e) (λ u. pure u) _ (api_call-SameWorks e) (λ _. SameWorks-refl)
      (λ _. SameWorks-refl)

propagate-SameWorks : (e : Env) → Within SameWorks (propagate_secret_to_clusters e)
unfolding propagate_secret_to_clusters
propagate-SameWorks e =
    let rule = reconcile_secret_propagation e "placement rule" in
    let binding = reconcile_secret_propagation e "placement binding" in
    bind_same (reconcile_secret_propagation e "policy" >> rule) (λ _. binding)
      (bind_same (reconcile_secret_propagation e "policy") (λ _. rule)
        (reconcile_propagation-SameWorks e "policy")
        (λ _. reconcile_propagation-SameWorks e "placement rule"))
      (λ _. reconcile_propagation-SameWorks e "placement binding")

vol_sync_setup-SameWorks :
    (e : Env) (src : String) → Within SameWorks (ensure_vol_sync_replication_setup e src)
unfolding ensure_vol_sync_replication_setup
vol_sync_setup-SameWorks e src =
    let secret = reconcile_vol_sync_replication_secret e in
    bind_same (from_result (is_vol_sync_replication_required e src)) _ SameWorks-refl (λ needed.
      if_same (not needed) (pure tt) (secret >> propagate_secret_to_clusters e) SameWorks-refl (
        bind_same secret (λ _. propagate_secret_to_clusters e) (reconcile_secret-SameWorks e)
          (λ _. propagate-SameWorks e)))

write_recipe-SameWorks : (e : Env) (k : String) → Within SameWorks (write_recipe_work e k)
unfolding write_recipe_work
write_recipe-SameWorks e k =
    try_same (api_call e) _ _ (api_call-SameWorks e)
      (λ _. if_same (e.is_recipe_work_equal k) (pure tt) (api_call e >> api_call e) SameWorks-refl (
        bind_same (api_call e) (λ _. api_call e) (api_call-SameWorks e)
          (λ _. api_call-SameWorks e)))
      (λ x.
        if_same (is_not_found x.kind) (api_call e) (throw x) (api_call-SameWorks e) SameWorks-refl)

recipe-SameWorks : (e : Env) (k : String) → Within SameWorks (ensure_recipe_manifest_work e k)
unfolding ensure_recipe_manifest_work
recipe-SameWorks e k = if_same (not e.has_recipe) (pure tt) _ SameWorks-refl (
    try_same (api_call e) _ _ (api_call-SameWorks e)
      (λ _.
        try_same (api_call e) _ _ (api_call-SameWorks e)
          (λ _.
            try_same (from_result (e.recipe_needs_update k)) _ _ SameWorks-refl
              (λ b.
                if_same b (write_recipe_work e k) (pure tt) (write_recipe-SameWorks e k)
                  SameWorks-refl)
              (λ _. SameWorks-refl))
          (λ x.
            if_same (is_not_found x.kind) (write_recipe_work e k) _ (write_recipe-SameWorks e k)
              SameWorks-refl))
      (λ _. SameWorks-refl))

-- The spec for the secondary is one of a secondary.
reset_if_any-replication_state :
    (ps : List ProtectedPvc) (src dst : Vrg)
    → (reset_if_any ps src dst).replication_state ≡ dst.replication_state
unfolding reset_if_any reset_rd_spec
reset_if_any-replication_state [] src dst = refl
reset_if_any-replication_state (p ∷ ps) src dst = refl

secondary_spec-replication_state :
    (t : DrType) (view src dst : Vrg)
    → (secondary_spec t view src dst).replication_state ≡ dst.replication_state
unfolding secondary_spec
secondary_spec-replication_state dr_type_sync view src dst = refl
secondary_spec-replication_state dr_type_async view src dst =
    reset_if_any-replication_state view.protected_pvcs view dst

abbrev SecondaryIn : Result Vrg → Type 0
SecondaryIn (ok v) = v.replication_state ≡ secondary
SecondaryIn (err x) = Unit

read_secondary_spec-SecondaryIn :
    (e : Env) (src dst : String) (view : Vrg) (h : Hub)
    → SecondaryIn (read_secondary_spec e src dst view h).0
unfolding read_secondary_spec
read_secondary_spec-SecondaryIn e src dst view h =
    let m = get_vrg_from_manifest_work e src in
    handle_post (λ r _. SecondaryIn r) (m h).0 (m h).1 _ _
      (λ v _.
        secondary_spec-replication_state e.dr_type view v
          (new_vrg e (m h).1.drpc dst secondary none)
        ∙ new_vrg-replication_state e (m h).1.drpc dst secondary none)
      (λ x _. tt)

refresh-SecondaryIn :
    (e : Env) (src dst : String) (h : Hub) → SecondaryIn (refresh_vrg_secondary_spec e src dst h).0
unfolding refresh_vrg_secondary_spec
refresh-SecondaryIn e src dst h =
    let h' = record h { drpc = set_progression settingup_volsync_dest h.drpc } in
    elim (Option-cases (assoc src e.vrgs)) [
      | inl q ↦ rw (q, refresh_vrg_secondary_spec) tt
      | inr (view, q) ↦
          rw (q, refresh_vrg_secondary_spec) (read_secondary_spec-SecondaryIn e src dst view h')
    ]

read_secondary_spec-SameWorks :
    (e : Env) (src dst : String) (view : Vrg)
    → Within SameWorks (read_secondary_spec e src dst view)
unfolding read_secondary_spec
read_secondary_spec-SameWorks e src dst view =
    try_same (get_vrg_from_manifest_work e src)
      (λ v.
        get_drpc >>= λ d. pure (secondary_spec e.dr_type view v (new_vrg e d dst secondary none)))
      _ (find_manifest_work-SameWorks e src) (λ v h. refl) (λ x h. refl)

refresh-SameWorks :
    (e : Env) (src dst : String) → Within SameWorks (refresh_vrg_secondary_spec e src dst)
unfolding refresh_vrg_secondary_spec
refresh-SameWorks e src dst =
    let note : M (Unit {0}) = modify_drpc (set_progression settingup_volsync_dest) in
    let missing : M Vrg =
      throw (errorf ("failed to find source VolSync VRG in cluster " +++ src)) in
    bind_same note (λ _. maybe missing (read_secondary_spec e src dst) (assoc src e.vrgs))
      (λ h. refl)
      (λ _.
        maybe_same missing (read_secondary_spec e src dst) (assoc src e.vrgs) SameWorks-refl
          (read_secondary_spec-SameWorks e src dst))

module _ (c : String) (S : Type 0) where
  secondary_on-Promotes :
      (e : Env) (src dst : String) → Within (Promotes c S) (create_secondary_on e src dst)
  unfolding create_secondary_on
  secondary_on-Promotes e src dst =
      let namespaces = ensure_namespace_manifest_work e dst in
      let recipe = ensure_recipe_manifest_work e dst in
      let fresh = refresh_vrg_secondary_spec e src dst in
      try-Promotes c S namespaces _ _
        (SameWorks-Promotes c S namespaces (ensure_namespace_manifest_work-SameWorks e dst))
        (λ _ _.
          try-Promotes c S recipe _ _ (SameWorks-Promotes c S recipe (recipe-SameWorks e dst))
            (λ _ _.
              bind-Promotes c S fresh _ (SameWorks-Promotes c S fresh (refresh-SameWorks e src dst))
                (λ v (h, a).
                  let secondary_there = subst SecondaryIn a (refresh-SecondaryIn e src dst h) in
                  try-Promotes c S (create_or_update_manifest_work e dst v) (λ r. pure r) _
                    (create_or_update_manifest_work-Promotes c S e dst v
                      (λ _ r. of_false_is_true (sym (ap is_primary secondary_there) ∙ r)))
                    (λ _ _ i p. inl p) (λ x i p. inl p)))
            (λ x i p. inl p))
        (λ x i p. inl p)

  secondary_on_first-Promotes :
      (e : Env) (src : String) (cs : List String)
      → Within (Promotes c S) (create_secondary_on_first e src cs)
  unfolding create_secondary_on_first
  secondary_on_first-Promotes e src [] = λ h p. inl p
  secondary_on_first-Promotes e src (k ∷ cs) =
      if_Promotes c S (k == src) _ _ (λ _. secondary_on_first-Promotes e src cs)
        (λ _. secondary_on-Promotes e src k)

  secondary_work-Promotes :
      (e : Env) (src : String)
      → Within (Promotes c S) (create_or_update_secondary_manifest_work e src)
  unfolding create_or_update_secondary_manifest_work
  secondary_work-Promotes e src = secondary_on_first-Promotes e src e.policy_clusters

  update_vsrg_spec-Promotes :
      (e : Env) (k : String) (specs : List RsSpec)
      → Within (Promotes c S) (update_vsrg_spec e k specs)
  unfolding update_vsrg_spec
  update_vsrg_spec-Promotes e k specs =
      found-Promotes c S e k _ _
        (λ v h at.
          let w = record v { rs_spec = specs } in
          let write : M (Unit {0}) =
            try (api_call e) (λ _. put_work k w)
              (λ x. throw (wrap "failed to update MW (" x ")")) in
          kept-Promotes c S k v w h write at refl (λ T s.
            try-Promotes c T (api_call e) _ _ (api_call-Promotes c T e)
              (λ _ _. put_work-Promotes c T k w s) (λ x i p. inl p)))
        (λ x. if_Promotes c S (is_not_found x.kind) _ _ (λ _ h p. inl p) (λ _ h p. inl p))

  replication_source-Promotes :
      (e : Env) (src : String) → Within (Promotes c S) (ensure_vol_sync_replication_source e src)
  unfolding ensure_vol_sync_replication_source update_source_vsrg
  replication_source-Promotes e src =
      if_Promotes c S (not (eqb (length e.vrgs) 2)) _ _ (λ _ h p. inl p)
        (λ _.
          maybe-Promotes c S _ _ (assoc src e.vrgs) (λ h p. inl p)
            (λ v _.
              maybe-Promotes c S (pure tt) _ (first_other src e.vrgs) (λ h p. inl p)
                (λ dst _.
                  if_Promotes c S (has_no_rd_info dst) _ _ (λ _ h p. inl p)
                    (λ _.
                      try-Promotes c S (update_source_vsrg e src v dst) (λ u. pure u) _
                        (λ h.
                          update_vsrg_spec-Promotes e src (rs_specs h.drpc dst.rd_info v.rs_spec) h)
                        (λ _ _ h p. inl p) (λ x h p. inl p)))))

  ensure_source-Promotes : (e : Env) (src : String) → Within (Promotes c S) (ensure_source e src)
  unfolding ensure_source
  ensure_source-Promotes e src h =
      if_Promotes c S (not (is_submariner_enabled h.drpc.annotations)) _ (pure tt)
        (λ _. replication_source-Promotes e src) (λ _ i p. inl p) h

  pub ensure_secondary_replication_setup-Promotes :
      (e : Env) (src : String) → Within (Promotes c S) (ensure_secondary_replication_setup e src)
  unfolding ensure_secondary_replication_setup
  ensure_secondary_replication_setup-Promotes e src =
      let note : M (Unit {0}) = modify_drpc (set_progression ensuring_secondary_setup) in
      let create = create_or_update_secondary_manifest_work e src in
      let setup = ensure_vol_sync_replication_setup e src in
      bind-Promotes c S (note >> create) _
        (bind-Promotes c S note (λ _. create) (λ h p. inl p) (λ _ _. secondary_work-Promotes e src))
        (λ r _.
          if_Promotes c S (is_created r) _ _ (λ _ h p. inl p)
            (λ _.
              maybe-Promotes c S _ _ (assoc src e.vrgs) (λ h p. inl p)
                (λ _ _.
                  bind-Promotes c S setup (λ _. ensure_source e src)
                    (SameWorks-Promotes c S setup (vol_sync_setup-SameWorks e src))
                    (λ _ _. ensure_source-Promotes e src))))

  pub reset_vol_sync_rd_on_primary-Promotes :
      (e : Env) (k : String) → Within (Promotes c S) (reset_vol_sync_rd_on_primary e k)
  unfolding reset_vol_sync_rd_on_primary
  reset_vol_sync_rd_on_primary-Promotes e k =
      if_Promotes c S e.vol_sync_disabled (pure tt) _ (λ _ h p. inl p)
        (λ _.
          found-Promotes c S e k _ _
            (λ v h at.
              let w = record v { rd_spec = [] } in
              if_at c S (not (is_primary v.replication_state)) _ _ h (λ p. inl p)
                (if_at c S (eqb (length v.rd_spec) 0) (pure tt) _ h (λ p. inl p)
                  (kept-Promotes c S k v w h (update_vrg_manifest_work e k w) at refl
                    (λ T. update_vrg_manifest_work-Promotes c T e k w))))
            (λ x.
              if_Promotes c S (is_not_found x.kind) (pure tt) _ (λ _ h p. inl p) (λ _ h p. inl p)))
