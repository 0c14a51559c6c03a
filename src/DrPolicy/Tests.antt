-- ===== src/DrPolicy/Tests.antt =====
-- A search for peers in two clusters.
use ramen.Prelude.{All, false, String, [], ◌∷◌}
use ramen.Api.{PeerClass}
use ramen.DrPolicy.{
  PeerInfo, peer_class_from_peer, prune_and_update_status_peers, ClassLists, storage_id_label,
  replication_id_label,
}
use ramen.DrPolicy.Search.{find_all_peers, plain_peer}
use ramen.DrPolicy.Pruned.{Listed, prune_and_update_status_peers-Listed}
use ramen.DrPolicy.Pairs.{Pairs, find_all_peers-Pairs}

abbrev classes_of : String → String → ClassLists
classes_of cluster id = record {
  cluster_id = cluster;
  s_classes =
      (record { name = "block"; provisioner = "rbd"; labels = (storage_id_label, id) ∷ [] }) ∷ [];
  vs_classes = [];
  vr_classes =
      (record {
        provisioner = "rbd";
        schedule = "5m";
        labels = (storage_id_label, id) ∷ (replication_id_label, "r1") ∷ [];
      })
      ∷ [];
  vgr_classes = [];
  vgs_classes = [];
}

find_all_peers-Pairs_example :
    Pairs (find_all_peers (classes_of "east" "s1" ∷ classes_of "west" "s2" ∷ []) "5m")
find_all_peers-Pairs_example =
    find_all_peers-Pairs (classes_of "east" "s1" ∷ classes_of "west" "s2" ∷ []) "5m"

abbrev pair : PeerInfo
pair = plain_peer (classes_of "east" "s1") (classes_of "west" "s2") "block" "s1" "s2" "r1" "" false

abbrev stale : PeerClass
stale = peer_class_from_peer (record pair { storage_class_name = "old" })

prune_and_update_status_peers-Listed_example :
    All (Listed (pair ∷ [])) (prune_and_update_status_peers (stale ∷ []) (pair ∷ []))
prune_and_update_status_peers-Listed_example =
    prune_and_update_status_peers-Listed (stale ∷ []) (pair ∷ [])
