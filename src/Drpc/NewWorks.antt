-- ===== src/Drpc/NewWorks.antt =====
-- New VRG ManifestWorks: createVRGManifestWork and createVRGManifestWorkAsPrimary of
-- internal/controller/drplacementcontrol.go, with ensureNamespaceManifestWork. Of the namespace
-- ManifestWorks the state has the one of the VRG's namespace on each cluster; those of the
-- protected namespaces of a discovered application are calls only.
pub mod Latch
pub mod Existing
use ramen.Prelude.{
  ℕ, String, Bool, true, false, not, ◌&&◌, ◌||◌, Option, none, some, List, [], ◌∷◌, ◌==◌, suc,
  if◌then◌else◌, assoc, put, ◌+++◌,
}
use ramen.Api.{ReplicationState, primary, secondary, is_primary, replication_state_text, Vrg}
use ramen.Drpc.{
  Drpc, Env, Hub, M, Result, ok, err, Error, errorf, wrap, not_found, already_exists, is_not_found,
  pure, throw, ◌>>=◌, ◌>>◌, try, get, get_drpc, api_call,
}
use ramen.Drpc.Fields.{is_discovered_app, new_vrg}
use ramen.Drpc.Works.{
  get_vrg_from_manifest_work, find_manifest_work, create_or_update_manifest_work, update_vrg_state,
  replication_state_eqb,
}

unfoldable pub get_namespace_work : String → M Bool
get_namespace_work cluster h = elim (assoc cluster h.namespace_works) [
  | none ↦ (err (record { kind = not_found; text = "not found" }), h)
  | some b ↦ (ok b, h)
]

unfoldable pub put_namespace_work : String → M (Unit {0})
put_namespace_work cluster h =
    (ok tt, record h { namespace_works = put cluster false h.namespace_works })

-- CreateOrUpdateNamespaceManifestWork: a read, and a create or an update. Whether the ManifestWork
-- is there is the answer of the read, NotFound or none; one that is there counts as changed.
unfoldable pub write_namespace_work : Env → M (Unit {0})
write_namespace_work e =
    try (api_call e) (λ _. api_call e) (λ x. if is_not_found x.kind then api_call e else throw x)

-- GetNSFromManagedCluster for every protected namespace, and then the ManifestWork of each of
-- them on every other cluster. filterSCCAnnotations reads the configuration.
unfoldable pub get_namespaces : Env → List String → M (Unit {0})
get_namespaces e [] = pure tt
get_namespaces e (n ∷ ns) = api_call e >> get_namespaces e ns

unfoldable pub create_on_peers : Env → String → List String → M (Unit {0})
unfolding write_namespace_work
create_on_peers e home_cluster [] = pure tt
create_on_peers e home_cluster (c ∷ cs) =
    let rest = create_on_peers e home_cluster cs in
    if home_cluster == c then rest else write_namespace_work e >> rest

unfoldable pub create_namespaces_on_peers : Env → String → List String → M (Unit {0})
unfolding create_on_peers
create_namespaces_on_peers e home_cluster [] = pure tt
create_namespaces_on_peers e home_cluster (n ∷ ns) =
    api_call e
    >> create_on_peers e home_cluster e.policy_clusters
    >> create_namespaces_on_peers e home_cluster ns

-- createOrUpdateNSForNonDiscoveredApps.
unfoldable pub create_namespace_for_non_discovered : Env → String → M (Unit {0})
unfolding put_namespace_work write_namespace_work
create_namespace_for_non_discovered e home_cluster =
    try (write_namespace_work e >> put_namespace_work home_cluster) (λ u. pure u)
      (λ x. throw (wrap ("failed to create namespace on cluster " +++ home_cluster +++ ": ") x ""))

-- createOrUpdateNamespaces.
unfoldable pub create_namespaces_for : Env → String → Option (List String) → M (Unit {0})
unfolding get_namespaces create_namespaces_on_peers create_namespace_for_non_discovered
create_namespaces_for e c none = create_namespace_for_non_discovered e c
create_namespaces_for e c (some []) = create_namespace_for_non_discovered e c
create_namespaces_for e c (some (n ∷ ns)) =
    get_namespaces e (n ∷ ns) >> create_namespaces_on_peers e c (n ∷ ns)

unfoldable pub create_or_update_namespaces : Env → String → M (Unit {0})
unfolding create_namespaces_for
create_or_update_namespaces e home_cluster =
    get_drpc >>= λ d. create_namespaces_for e home_cluster d.protected_namespaces

-- ensureNamespaceManifestWork.
unfoldable pub ensure_namespace_manifest_work : Env → String → M (Unit {0})
unfolding get_namespace_work put_namespace_work create_or_update_namespaces
ensure_namespace_manifest_work e home_cluster =
    if home_cluster == ""
    then throw (errorf "failed to get NS MW (invalid cluster for MW)")
    else try (api_call e >> get_namespace_work home_cluster)
        (λ has_backup_label.
          if has_backup_label then api_call e >> put_namespace_work home_cluster else pure tt)
        (λ x.
          if not (is_not_found x.kind)
          then throw (wrap "failed to get NS MW (" x ")")
          else create_or_update_namespaces e home_cluster)

-- The safety latch of createVRGManifestWork, at a VRG that is there.
unfoldable pub latch_error : String → ReplicationState → Vrg → Error
latch_error home_cluster rep_state v =
    if not (replication_state_eqb v.replication_state rep_state)
    then errorf (
        "ManifestWork for VolumeReplicationGroup resource exists with mismatching state ("
        +++ replication_state_text v.replication_state
        +++ ") on cluster "
        +++ home_cluster)
    else record {
      kind = already_exists;
      text =
          "VolumeReplicationGroup ManifestWork for cluster "
          +++ home_cluster
          +++ " in state "
          +++ replication_state_text v.replication_state
          +++ " exists";
    }

-- createVRGManifestWork.
unfoldable pub create_vrg_manifest_work : Env → String → ReplicationState → M (Unit {0})
unfolding ensure_namespace_manifest_work latch_error
create_vrg_manifest_work e home_cluster rep_state =
    try (ensure_namespace_manifest_work e home_cluster)
      (λ _.
        try (get_vrg_from_manifest_work e home_cluster)
          (λ v. throw (latch_error home_cluster rep_state v))
          (λ x.
            if not (is_not_found x.kind)
            then throw (
                wrap "error (" x (
                  ") determining ManifestWork for VolumeReplicationGroup resource exists on cluster "
                  +++ home_cluster))
            else get_drpc >>= λ d.
                try
                  (create_or_update_manifest_work e home_cluster
                    (new_vrg e d home_cluster rep_state none))
                  (λ _. pure tt)
                  (λ y. throw (
                    wrap
                      ("failed to create or update VolumeReplicationGroup manifest in namespace "
                        +++ home_cluster +++ " (")
                      y ")"))))
      (λ x. throw (
        errorf (
          "createVRGManifestWork couldn't ensure namespace on cluster " +++ home_cluster
          +++ " exists")))

-- createVRGManifestWorkAsPrimary: whether it created or updated.
unfoldable pub create_vrg_manifest_work_as_primary : Env → String → M Bool
unfolding create_vrg_manifest_work
create_vrg_manifest_work_as_primary e target_cluster =
    try (get_vrg_from_manifest_work e target_cluster)
      (λ v.
        if is_primary v.replication_state
        then pure false
        else update_vrg_state e target_cluster primary >> pure true)
      (λ x.
        if not (is_not_found x.kind)
        then throw x
        else create_vrg_manifest_work e target_cluster primary >> pure true)
