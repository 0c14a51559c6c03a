-- ===== src/DrCluster/Peers.antt =====
-- The peer of a cluster and its NetworkFence classes: getPeerCluster, getPeerFromPolicy and
-- findMatchingNFClasses of internal/controller/drcluster_controller.go.
use ramen.Prelude.{
  String, Bool, true, false, ◌&&◌, Option, none, some, List, [], ◌∷◌, ◌++◌, ◌==◌, if◌then◌else◌,
  contains, ◌+++◌,
}
use ramen.Drpc.{Result, ok, err, errorf, wrap}
use ramen.DrCluster.{Policy, Peer, NfClass, StorageClass, FenceEnv, Cluster}

-- The tests of getPeerFromPolicy on a DRCluster that could be read.
unfoldable pub is_peer : Policy → String → Peer → Bool
is_peer policy region p =
    if p.deleted then false else if policy.has_sync_peer_classes then true else region == p.region

-- getPeerFromPolicy.
unfoldable pub peer_among : FenceEnv → Policy → String → String → List String → Option Peer
unfolding is_peer
peer_among e policy name region [] = none
peer_among e policy name region (k ∷ ks) =
    let rest = peer_among e policy name region ks in
    if k == name then rest else elim (e.read_peer k) [
      | none ↦ rest
      | some p ↦ if is_peer policy region p then some p else rest
    ]

unfoldable pub get_peer_from_policy : FenceEnv → Policy → String → String → Option Peer
unfolding peer_among
get_peer_from_policy e policy name region = peer_among e policy name region policy.dr_clusters

-- getPeerCluster, of the name and the region of a cluster.
unfoldable pub get_peer_cluster : FenceEnv → List Policy → String → String → Result Peer
unfolding get_peer_from_policy
get_peer_cluster e [] name region =
    err (errorf ("failed to find the peer cluster for cluster " +++ name))
get_peer_cluster e (policy ∷ policies) name region =
    let rest = get_peer_cluster e policies name region in
    if contains policy.dr_clusters name
    then elim (get_peer_from_policy e policy name region) [ none ↦ rest | some p ↦ ok p ]
    else rest

-- The inner loop of findMatchingNFClasses: the name of the class, once for each storage class
-- that matches.
unfoldable pub is_match : NfClass → StorageClass → Bool
is_match nfc sc = elim nfc.storage_ids [
  | none ↦ false
  | some ids ↦ sc.provisioner == nfc.provisioner && contains ids sc.storage_id
]

unfoldable pub matches_of : NfClass → List StorageClass → List String
unfolding is_match
matches_of nfc [] = []
matches_of nfc (sc ∷ scs) =
    let rest = matches_of nfc scs in if is_match nfc sc then nfc.name ∷ rest else rest

unfoldable pub all_matches : List NfClass → List StorageClass → List String
unfolding matches_of
all_matches [] scs = []
all_matches (nfc ∷ nfcs) scs = matches_of nfc scs ++ all_matches nfcs scs

unfoldable pub or_generic : List String → List String
or_generic [] = "" ∷ []
or_generic (k ∷ ks) = k ∷ ks

-- findMatchingNFClasses.
unfoldable pub find_matching_nf_classes : List NfClass → List StorageClass → List String
unfolding all_matches or_generic
find_matching_nf_classes nfcs scs = or_generic (all_matches nfcs scs)

-- getNFClassesFromDRClusterConfig.
unfoldable pub nf_classes_of : Result (List NfClass × List StorageClass) → Result (List String)
unfolding find_matching_nf_classes
nf_classes_of (err x) = err x
nf_classes_of (ok (nfcs, scs)) = ok (find_matching_nf_classes nfcs scs)

unfoldable pub get_nf_classes : FenceEnv → String → Result (List String)
unfolding nf_classes_of
get_nf_classes e cluster = nf_classes_of (e.classes cluster)

-- The start of clusterFence and clusterUnfence: the peer, and the classes on it.
unfoldable pub with_classes : String → Result (List String) → Result (String × List String)
with_classes peer (err x) = err (wrap "failed to get NetworkFenceClasses: " x "")
with_classes peer (ok ks) = ok (peer, ks)

unfoldable pub with_peer : FenceEnv → String → Result Peer → Result (String × List String)
unfolding with_classes get_nf_classes
with_peer e name (err x) =
    err (wrap ("failed to get the peer cluster for the cluster " +++ name +++ ": ") x "")
with_peer e name (ok p) = with_classes p.name (get_nf_classes e p.name)

unfoldable pub with_policies :
    FenceEnv → String → String → Result (List Policy) → Result (String × List String)
unfolding with_peer get_peer_cluster
with_policies e name region (err x) = err (wrap "getting all drpolicies failed: " x "")
with_policies e name region (ok policies) =
    with_peer e name (get_peer_cluster e policies name region)

unfoldable pub peer_and_classes : FenceEnv → Cluster → Result (String × List String)
unfolding with_policies
peer_and_classes e c = with_policies e c.name c.region e.policies
