-- ===== src/Drpc/Replication.antt =====
-- The replication of a DRPC's peers: internal/controller/drplacementcontrolvolsync.go, with
-- ensureRecipeManifestWork of drplacementcontrol.go and the secret of
-- internal/controller/volsync/secretgen.go and secret_propagator.go. Of the secrets, policies and
-- recipes on the hub only the calls are modelled; a CreateOrUpdate of the controller runtime is
-- one call. What updateSourceVSRG writes into `d.vrgs` is not read again, and is left out.
pub mod Promotion
use ramen.Prelude.{
  ℕ, String, Bool, true, false, not, Option, none, some, List, [], ◌∷◌, ◌==◌, ◌&&◌, eqb,
  if◌then◌else◌, assoc, assoc_or_empty, length, select, ◌+++◌,
}
use ramen.Api.{
  primary, secondary, is_primary, Vrg, ProtectedPvc, RdInfo, RsSpec, ensuring_secondary_setup,
  settingup_volsync_dest,
}
use ramen.Drpc.{
  Drpc, Env, DrType, dr_type_sync, dr_type_async, M, Result, ok, err, Error, errorf, wrap,
  is_not_found, pure, throw, from_result, ◌>>=◌, ◌>>◌, try, maybe, get_drpc, modify_drpc, api_call,
}
use ramen.Drpc.Fields.{new_vrg, is_submariner_enabled_annotation}
use ramen.Drpc.Status.{set_progression}
use ramen.Drpc.Works.{
  OperationResult, operation_result_none, operation_result_created, find_manifest_work,
  get_vrg_from_manifest_work, update_vrg_manifest_work, create_or_update_manifest_work, put_work,
}
use ramen.Drpc.NewWorks.{ensure_namespace_manifest_work}

-- ReconcileVolSyncReplicationSecret.
unfoldable pub reconcile_vol_sync_replication_secret : Env → M (Unit {0})
reconcile_vol_sync_replication_secret e =
    try (api_call e) (λ u. pure u)
      (λ x.
        if not (is_not_found x.kind)
        then throw (wrap "failed to get secret (" x ")")
        else try (api_call e) (λ u. pure u)
            (λ y. throw (wrap "error creating secret for volsync (" y ")")))

unfoldable pub reconcile_secret_propagation : Env → String → M (Unit {0})
reconcile_secret_propagation e what =
    try (api_call e) (λ u. pure u)
      (λ x. throw (wrap ("error creating or updating secret propagation " +++ what +++ " (") x ")"))

-- PropagateSecretToClusters.
unfoldable pub propagate_secret_to_clusters : Env → M (Unit {0})
unfolding reconcile_secret_propagation
propagate_secret_to_clusters e =
    reconcile_secret_propagation e "policy"
    >> reconcile_secret_propagation e "placement rule"
    >> reconcile_secret_propagation e "placement binding"

-- IsVolSyncReplicationRequired.
unfoldable pub any_protected_by_vol_sync : List ProtectedPvc → Bool
any_protected_by_vol_sync [] = false
any_protected_by_vol_sync (p ∷ ps) =
    let rest = any_protected_by_vol_sync ps in if p.protected_by_vol_sync then true else rest

unfoldable pub required_by : List ProtectedPvc → Result Bool
unfolding any_protected_by_vol_sync
required_by [] = err (errorf "waiting for primary to provide Protected PVCs")
required_by (p ∷ ps) = ok (any_protected_by_vol_sync (p ∷ ps))

unfoldable pub is_vol_sync_replication_required : Env → String → Result Bool
unfolding required_by
is_vol_sync_replication_required e home_cluster =
    if e.vol_sync_disabled then ok false else elim (assoc home_cluster e.vrgs) [
      | none ↦ err (errorf ("failed to find VRG on homeCluster " +++ home_cluster))
      | some v ↦ required_by v.protected_pvcs
    ]

-- EnsureVolSyncReplicationSetup.
unfoldable pub ensure_vol_sync_replication_setup : Env → String → M (Unit {0})
unfolding is_vol_sync_replication_required reconcile_vol_sync_replication_secret
    propagate_secret_to_clusters
ensure_vol_sync_replication_setup e src_cluster =
    from_result (is_vol_sync_replication_required e src_cluster) >>= λ vs_rep_needed.
    if not vs_rep_needed
    then pure tt
    else reconcile_vol_sync_replication_secret e >> propagate_secret_to_clusters e

-- AppendOrUpdate.
unfoldable pub append_or_update : List RsSpec → RsSpec → List RsSpec
append_or_update [] rs_spec = rs_spec ∷ []
append_or_update (info ∷ rest) rs_spec =
    let updated = append_or_update rest rs_spec in
    if info.protected_pvc.name == rs_spec.protected_pvc.name
      && info.protected_pvc.namespace == rs_spec.protected_pvc.namespace
    then rs_spec ∷ rest
    else info ∷ updated

-- The loop of updateSourceVSRG.
unfoldable pub rs_spec_of : Drpc → RdInfo → RsSpec
rs_spec_of d i = record {
  protected_pvc = i.protected_pvc;
  address = i.address;
  secret_name = d.name +++ "-vs-secret";
}

unfoldable pub rs_specs : Drpc → List RdInfo → List RsSpec → List RsSpec
unfolding append_or_update rs_spec_of
rs_specs d [] specs = specs
rs_specs d (i ∷ infos) specs = rs_specs d infos (append_or_update specs (rs_spec_of d i))

-- updateVSRGSpec.
unfoldable pub update_vsrg_spec : Env → String → List RsSpec → M (Unit {0})
update_vsrg_spec e cluster specs =
    try (find_manifest_work e cluster)
      (λ v.
        try (api_call e) (λ _. put_work cluster (record v { rs_spec = specs }))
          (λ x. throw (wrap "failed to update MW (" x ")")))
      (λ x.
        if is_not_found x.kind
        then pure tt
        else throw (wrap ("failed to update VRG, in namespace " +++ cluster +++ " (") x ")"))

-- updateSourceVSRG.
unfoldable pub update_source_vsrg : Env → String → Vrg → Vrg → M (Unit {0})
unfolding rs_specs update_vsrg_spec
update_source_vsrg e cluster src dst =
    get_drpc >>= λ d. update_vsrg_spec e cluster (rs_specs d dst.rd_info src.rs_spec)

-- The other of two clusters.
unfoldable pub first_other : String → List (String × Vrg) → Option Vrg
first_other cluster [] = none
first_other cluster ((c, v) ∷ vrgs) =
    let rest = first_other cluster vrgs in if c == cluster then rest else some v

unfoldable pub has_no_rd_info : Vrg → Bool
has_no_rd_info v = eqb (length v.rd_info) 0

-- ensureVolSyncReplicationSource.
unfoldable pub ensure_vol_sync_replication_source : Env → String → M (Unit {0})
unfolding first_other update_source_vsrg
ensure_vol_sync_replication_source e src_cluster =
    if not (eqb (length e.vrgs) 2)
    then throw (errorf "wrong number of VRGS")
    else maybe (throw (errorf ("failed to find the source VSRG in cluster " +++ src_cluster)))
        (λ src.
          maybe (pure tt)
            (λ dst.
              if has_no_rd_info dst
              then throw (errorf "waiting for VolSync RDInfo")
              else try (update_source_vsrg e src_cluster src dst) (λ u. pure u)
                  (λ x. throw (
                    wrap ("failed to update dst VSRG on cluster " +++ src_cluster +++ " - ") x "")))
            (first_other src_cluster e.vrgs))
        (assoc src_cluster e.vrgs)

-- CreateOrUpdateRecipeManifestWork.
unfoldable pub write_recipe_work : Env → String → M (Unit {0})
write_recipe_work e cluster =
    try (api_call e)
      (λ _. if e.is_recipe_work_equal cluster then pure tt else api_call e >> api_call e)
      (λ x. if is_not_found x.kind then api_call e else throw x)

-- ensureRecipeManifestWork.
unfoldable pub ensure_recipe_manifest_work : Env → String → M (Unit {0})
unfolding write_recipe_work
ensure_recipe_manifest_work e dst_cluster =
    if not e.has_recipe
    then pure tt
    else try (api_call e)
        (λ _.
          try (api_call e)
            (λ _.
              try (from_result (e.recipe_needs_update dst_cluster))
                (λ needs_update. if needs_update then write_recipe_work e dst_cluster else pure tt)
                (λ x. throw (wrap "failed to check if recipe needs update: " x "")))
            (λ x.
              if is_not_found x.kind
              then write_recipe_work e dst_cluster
              else throw (wrap "failed to get recipe MW (" x ")")))
        (λ x. throw (wrap "failed to get recipe (" x ")"))

-- resetRDSpec. The fields of a PVC that it clears are not in the model.
unfoldable pub reset_rd_spec : Vrg → Vrg → Vrg
reset_rd_spec src dst = record dst {
  rd_spec = select (λ p. p.protected_by_vol_sync) src.protected_pvcs;
}

unfoldable pub reset_if_any : List ProtectedPvc → Vrg → Vrg → Vrg
unfolding reset_rd_spec
reset_if_any [] src dst = dst
reset_if_any (p ∷ ps) src dst = reset_rd_spec src dst

-- The VRG of refreshVRGSecondarySpec: `src` is the VRG in the source's ManifestWork, which has
-- the spec of the policy's type. The two updates of the mover configuration are left out.
unfoldable pub secondary_spec : DrType → Vrg → Vrg → Vrg → Vrg
unfolding reset_if_any
secondary_spec dr_type_sync view src dst = record dst { sync = src.sync }
secondary_spec dr_type_async view src dst = record (reset_if_any view.protected_pvcs view dst) {
  async = src.async;
}

-- refreshVRGSecondarySpec.
unfoldable pub read_secondary_spec : Env → String → String → Vrg → M Vrg
unfolding secondary_spec new_vrg
read_secondary_spec e src_cluster dst_cluster view =
    try (get_vrg_from_manifest_work e src_cluster)
      (λ src. get_drpc >>= λ d.
        pure (secondary_spec e.dr_type view src (new_vrg e d dst_cluster secondary none)))
      (λ x. throw (errorf ("failed to find source VRG ManifestWork in cluster " +++ src_cluster)))

unfoldable pub refresh_vrg_secondary_spec : Env → String → String → M Vrg
unfolding read_secondary_spec set_progression
refresh_vrg_secondary_spec e src_cluster dst_cluster =
    modify_drpc (set_progression settingup_volsync_dest)
    >> maybe (throw (errorf ("failed to find source VolSync VRG in cluster " +++ src_cluster)))
        (read_secondary_spec e src_cluster dst_cluster) (assoc src_cluster e.vrgs)

-- createOrUpdateSecondaryManifestWork, on the first cluster that is not the source.
unfoldable pub create_secondary_on : Env → String → String → M OperationResult
unfolding ensure_recipe_manifest_work refresh_vrg_secondary_spec
create_secondary_on e src_cluster dst_cluster =
    try (ensure_namespace_manifest_work e dst_cluster)
      (λ _.
        try (ensure_recipe_manifest_work e dst_cluster)
          (λ _. refresh_vrg_secondary_spec e src_cluster dst_cluster >>= λ v.
            try (create_or_update_manifest_work e dst_cluster v) (λ r. pure r)
              (λ x. throw (
                wrap ("failed to create or update VRG MW in namespace " +++ dst_cluster +++ " (") x
                  ")")))
          (λ x. throw (
            errorf (
              "creating ManifestWork couldn't ensure recipe on cluster " +++ dst_cluster
              +++ " exists"))))
      (λ x. throw (
        errorf (
          "creating ManifestWork couldn't ensure namespace on cluster " +++ dst_cluster
          +++ " exists")))

unfoldable pub create_secondary_on_first : Env → String → List String → M OperationResult
unfolding create_secondary_on
create_secondary_on_first e src_cluster [] = pure operation_result_none
create_secondary_on_first e src_cluster (c ∷ cs) =
    let rest = create_secondary_on_first e src_cluster cs in
    if c == src_cluster then rest else create_secondary_on e src_cluster c

unfoldable pub create_or_update_secondary_manifest_work : Env → String → M OperationResult
unfolding create_secondary_on_first
create_or_update_secondary_manifest_work e src_cluster =
    create_secondary_on_first e src_cluster e.policy_clusters

abbrev pub is_created : OperationResult → Bool
is_created operation_result_created = true
is_created _ = false

-- IsSubmarinerEnabled.
unfoldable pub is_submariner_enabled : List (String × String) → Bool
is_submariner_enabled annotations =
    not (assoc_or_empty is_submariner_enabled_annotation annotations == "false")

-- EnsureSecondaryReplicationSetup.
unfoldable pub ensure_source : Env → String → M (Unit {0})
unfolding is_submariner_enabled ensure_vol_sync_replication_source
ensure_source e src_cluster = get_drpc >>= λ d.
    if not (is_submariner_enabled d.annotations)
    then ensure_vol_sync_replication_source e src_cluster
    else pure tt

unfoldable pub ensure_secondary_replication_setup : Env → String → M (Unit {0})
unfolding create_or_update_secondary_manifest_work ensure_vol_sync_replication_setup ensure_source
ensure_secondary_replication_setup e src_cluster =
    modify_drpc (set_progression ensuring_secondary_setup)
    >> create_or_update_secondary_manifest_work e src_cluster
    >>= λ result.
        if is_created result
        then throw (errorf "waiting for secondary ManifestWork to be created")
        else maybe (throw (errorf ("failed to find source VRG in cluster " +++ src_cluster)))
            (λ _. ensure_vol_sync_replication_setup e src_cluster >> ensure_source e src_cluster)
            (assoc src_cluster e.vrgs)

-- ResetVolSyncRDOnPrimary.
unfoldable pub reset_vol_sync_rd_on_primary : Env → String → M (Unit {0})
reset_vol_sync_rd_on_primary e cluster =
    if e.vol_sync_disabled
    then pure tt
    else try (find_manifest_work e cluster)
        (λ v.
          if not (is_primary v.replication_state)
          then throw (errorf ("vrg is not set as primary on this cluster, " +++ cluster))
          else if eqb (length v.rd_spec) 0
          then pure tt
          else update_vrg_manifest_work e cluster (record v { rd_spec = [] }))
        (λ x.
          if is_not_found x.kind
          then pure tt
          else throw (
              wrap ("failed to update VRG state for MW, in namespace " +++ cluster +++ " (") x ")"))
