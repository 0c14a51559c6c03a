-- ===== src/DrPolicy/Search.antt =====
-- The search for pairs of peers: getSyncPeers, getAsyncPeers, findPeers and findAllPeers of
-- internal/controller/drpolicy_peerclass.go.
use ramen.Prelude.{
  String, Bool, true, false, not, Option, none, some, List, [], ◌∷◌, ◌++◌, ◌==◌, if◌then◌else◌,
  assoc_or_empty, contains,
}
use ramen.DrPolicy.{
  Storage, ClassLists, PeerInfo, has_label, storage_id_label, group_replication_id_label,
  storage_offloaded_label, is_async_vs_class_peer, is_async_vgs_class_peer, get_async_vr_class_peer,
  get_async_vgr_class_peer, is_async_vgr_class_peer_global,
}

abbrev pub storage_id_of : Storage → String
storage_id_of sc = assoc_or_empty storage_id_label sc.labels

-- The inner loop of getSyncPeers: the first class of the name decides.
unfoldable pub is_sync_on : String → String → List Storage → Bool
is_sync_on sc_name s_id [] = false
is_sync_on sc_name s_id (sc ∷ scs) =
    let rest = is_sync_on sc_name s_id scs in
    if not (sc.name == sc_name) then rest else s_id == storage_id_of sc

abbrev pub sync_peer : String → String → String → String → PeerInfo
sync_peer sc_name s_id cluster_id other_id = record {
  replication_id = "";
  group_replication_id = "";
  storage_ids = s_id ∷ [];
  storage_class_name = sc_name;
  cluster_ids = cluster_id ∷ other_id ∷ [];
  grouping = false;
  offloaded = false;
  global = false;
}

-- getSyncPeers.
unfoldable pub get_sync_peers : String → String → String → List ClassLists → List PeerInfo
unfolding is_sync_on
get_sync_peers sc_name cluster_id s_id [] = []
get_sync_peers sc_name cluster_id s_id (cl ∷ cls) =
    let rest = get_sync_peers sc_name cluster_id s_id cls in
    if is_sync_on sc_name s_id cl.s_classes
    then sync_peer sc_name s_id cluster_id cl.cluster_id ∷ rest
    else rest

-- The group replication ID on the first class of the name.
unfoldable pub sc_group_id : String → List Storage → String
sc_group_id sc_name [] = ""
sc_group_id sc_name (sc ∷ scs) =
    let rest = sc_group_id sc_name scs in
    if sc.name == sc_name then assoc_or_empty group_replication_id_label sc.labels else rest

-- The body of getAsyncPeers for a class with another storage ID and the same offloading: offloaded,
-- with the group replication ID; and not offloaded, with the replication ID beside it.
unfoldable pub offloaded_pair :
    ClassLists → ClassLists → String → String → String → String → Option PeerInfo
offloaded_pair first cl sc_name s_id s_id_cl gr_id =
    if gr_id == ""
    then none
    else some (record {
      replication_id = "";
      group_replication_id = gr_id;
      storage_ids = s_id ∷ s_id_cl ∷ [];
      storage_class_name = sc_name;
      cluster_ids = first.cluster_id ∷ cl.cluster_id ∷ [];
      grouping = true;
      offloaded = true;
      global = is_async_vgr_class_peer_global first cl gr_id;
    })

abbrev pub plain_peer :
    ClassLists → ClassLists → String → String → String → String → String → Bool → PeerInfo
plain_peer first cl sc_name s_id s_id_cl r_id gr_id grouping = record {
  replication_id = r_id;
  group_replication_id = gr_id;
  storage_ids = s_id ∷ s_id_cl ∷ [];
  storage_class_name = sc_name;
  cluster_ids = first.cluster_id ∷ cl.cluster_id ∷ [];
  grouping = grouping;
  offloaded = false;
  global = false;
}

unfoldable pub plain_pair :
    ClassLists → ClassLists → String → String → String → String → String → Option PeerInfo
unfolding is_async_vgs_class_peer is_async_vs_class_peer
plain_pair first cl sc_name s_id s_id_cl r_id gr_id =
    if not (r_id == "")
    then some (plain_peer first cl sc_name s_id s_id_cl r_id gr_id (not (gr_id == "")))
    else if is_async_vgs_class_peer sc_name first cl s_id s_id_cl
    then some (plain_peer first cl sc_name s_id s_id_cl r_id "" true)
    else if not (is_async_vs_class_peer sc_name first cl s_id s_id_cl)
    then none
    else some (plain_peer first cl sc_name s_id s_id_cl r_id "" false)

unfoldable pub pair_of :
    Bool → ClassLists → ClassLists → String → String → String → String → Option PeerInfo
unfolding offloaded_pair plain_pair get_async_vgr_class_peer get_async_vr_class_peer sc_group_id
pair_of true first cl sc_name s_id s_id_cl schedule = offloaded_pair first cl sc_name s_id s_id_cl (
    get_async_vgr_class_peer sc_name first cl s_id s_id_cl schedule
      (sc_group_id sc_name first.s_classes))
pair_of false first cl sc_name s_id s_id_cl schedule =
    plain_pair first cl sc_name s_id s_id_cl
      (get_async_vr_class_peer sc_name first cl s_id s_id_cl schedule)
      (get_async_vgr_class_peer sc_name first cl s_id s_id_cl schedule
        (sc_group_id sc_name first.s_classes))

abbrev pub same : Bool → Bool → Bool
same true b = b
same false b = not b

abbrev pub or_else : Option PeerInfo → Option PeerInfo → Option PeerInfo
or_else none o = o
or_else (some p) o = some p

-- The inner loop of getAsyncPeers.
unfoldable pub async_on :
    Bool → ClassLists → ClassLists → String → String → String → List Storage → Option PeerInfo
unfolding pair_of
async_on offloaded first cl sc_name s_id schedule [] = none
async_on offloaded first cl sc_name s_id schedule (sc ∷ scs) =
    let rest = async_on offloaded first cl sc_name s_id schedule scs in
    if not (sc.name == sc_name)
    then rest
    else if s_id == storage_id_of sc
    then none
    else if not (same offloaded (has_label sc.labels storage_offloaded_label))
    then rest
    else or_else (pair_of offloaded first cl sc_name s_id (storage_id_of sc) schedule) rest

abbrev pub cons_if : Option PeerInfo → List PeerInfo → List PeerInfo
cons_if none peers = peers
cons_if (some p) peers = p ∷ peers

-- getAsyncPeers, of the first cluster with each of the others.
unfoldable pub get_async_peers :
    Bool → ClassLists → String → String → String → List ClassLists → List PeerInfo
unfolding async_on
get_async_peers offloaded first sc_name s_id schedule [] = []
get_async_peers offloaded first sc_name s_id schedule (cl ∷ cls) =
    cons_if (async_on offloaded first cl sc_name s_id schedule cl.s_classes)
      (get_async_peers offloaded first sc_name s_id schedule cls)

-- The start of findPeers: the first class of the name, or the last one. `none` for no classes,
-- where the code would stop with an index out of range, and where findAllPeers never calls it.
unfoldable pub class_named : String → List Storage → Option Storage
class_named sc_name [] = none
class_named sc_name (sc ∷ []) = some sc
class_named sc_name (sc ∷ next ∷ scs) =
    let rest = class_named sc_name (next ∷ scs) in if sc.name == sc_name then some sc else rest

-- findPeers.
unfoldable pub find_peers_of :
    ClassLists → List ClassLists → String → String → Option Storage → List PeerInfo × List PeerInfo
unfolding get_sync_peers get_async_peers
find_peers_of first others sc_name schedule none = ([], [])
find_peers_of first others sc_name schedule (some sc) =
    if not (has_label sc.labels storage_id_label) then ([], []) else (
      get_sync_peers sc_name first.cluster_id (storage_id_of sc) others,
      if not (schedule == "")
          then get_async_peers (has_label sc.labels storage_offloaded_label) first sc_name
              (storage_id_of sc) schedule others
          else [],
    )

unfoldable pub find_peers :
    ClassLists → List ClassLists → String → String → List PeerInfo × List PeerInfo
unfolding find_peers_of class_named
find_peers first others sc_name schedule =
    find_peers_of first others sc_name schedule (class_named sc_name first.s_classes)

-- unionStorageClasses.
unfoldable pub union_of : List String → List Storage → List String
union_of names [] = names
union_of names (sc ∷ scs) =
    if contains names sc.name then union_of names scs else union_of (names ++ sc.name ∷ []) scs

unfoldable pub union_storage_classes : List String → List ClassLists → List String
unfolding union_of
union_storage_classes names [] = names
union_storage_classes names (cl ∷ cls) = union_storage_classes (union_of names cl.s_classes) cls

-- The loops of findAllPeers.
abbrev pub both :
    List PeerInfo × List PeerInfo → List PeerInfo × List PeerInfo → List PeerInfo × List PeerInfo
both (s, a) (t, b) = (s ++ t, a ++ b)

unfoldable pub peers_of_classes :
    List String
    → ClassLists
    → List ClassLists
    → String
    → List Storage
    → List PeerInfo × List PeerInfo
unfolding find_peers
peers_of_classes names first others schedule [] = ([], [])
peers_of_classes names first others schedule (sc ∷ scs) =
    let rest = peers_of_classes names first others schedule scs in
    if not (contains names sc.name)
    then rest
    else both (find_peers first others sc.name schedule) rest

unfoldable pub peers_from : List String → String → List ClassLists → List PeerInfo × List PeerInfo
unfolding peers_of_classes
peers_from names schedule [] = ([], [])
peers_from names schedule (first ∷ []) = ([], [])
peers_from names schedule (first ∷ cl ∷ cls) =
    both (peers_of_classes names first (cl ∷ cls) schedule first.s_classes)
      (peers_from names schedule (cl ∷ cls))

-- findAllPeers: the synchronous and the asynchronous pairs.
unfoldable pub find_all_peers : List ClassLists → String → List PeerInfo × List PeerInfo
unfolding peers_from union_storage_classes
find_all_peers cls schedule = peers_from (union_storage_classes [] cls) schedule cls
