-- ===== src/Drpc/Tests/Recovery.antt =====
-- Witnesses of the theorems on the state of a DRPC after a recovery of the hub.
use ramen.Prelude.{some, length, assoc, ◌↔◌, String, none, [], ◌∷◌, ◌≡◌, refl}
use ramen.Api.{Vrg, primary, secondary, primary_state, secondary_state, action_relocate}
use ramen.Drpc.{Result, ok}
use ramen.Drpc.Recovery.{Queried, get_vrgs_from_managed_clusters, decide_progress}
use ramen.Drpc.Recovery.Grounds.{Grounds, decide_progress-Grounds}
use ramen.Drpc.Recovery.Seen.{Present, answering, get_vrgs_from_managed_clusters-Seen}
use ramen.Drpc.Tests.{vrg_of, drpc_of, east_cluster}

abbrev east_seen : Queried
east_seen = record {
  vrgs = ("west", vrg_of primary primary_state) ∷ [];
  num_clusters_queried_successfully = 2;
  failed_cluster = "";
}

decide_progress-Grounds_example : Grounds (drpc_of "busybox" action_relocate) "west" east_seen none
unfolding decide_progress
decide_progress-Grounds_example =
    decide_progress-Grounds (drpc_of "busybox" action_relocate) "west" east_seen none refl

abbrev view_east : String → Result Vrg
view_east _ = ok (vrg_of secondary secondary_state)

abbrev east_answered : Queried
east_answered = record {
  vrgs = ("east", vrg_of secondary secondary_state) ∷ [];
  num_clusters_queried_successfully = 1;
  failed_cluster = "";
}

get_vrgs_from_managed_clusters-Seen_example :
    (1 ≡ length (answering view_east (east_cluster ∷ [])))
    × ((assoc "east" east_answered.vrgs ≡ some (vrg_of secondary secondary_state))
        ↔ Present view_east "east" (vrg_of secondary secondary_state) (east_cluster ∷ []))
unfolding get_vrgs_from_managed_clusters
get_vrgs_from_managed_clusters-Seen_example =
    get_vrgs_from_managed_clusters-Seen view_east (east_cluster ∷ []) east_answered "east"
      (vrg_of secondary secondary_state) refl
