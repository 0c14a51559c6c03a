-- ===== src/DrPolicy/Pruned.antt =====
-- Where the peer classes of a policy's status come from: pruneAndUpdateStatusPeers of
-- internal/controller/drpolicy_peerclass.go.
use ramen.Prelude.{
  Bool, true, false, some, List, [], ◌∷◌, ◌++◌, ◌≡◌, refl, sym, ap, inl, inr, Option-cases,
  Bool-cases, if◌then◌else◌, All, All-append, arith,
}
use ramen.Api.{PeerClass}
use ramen.DrPolicy.{
  PeerInfo, peer_class_matches_peer, find_status_peer_in_peers, find_peer_in_status_peer,
  peer_class_from_peer, prune_peers, new_peers, prune_and_update_status_peers,
}

-- A peer among the peers has the property.
abbrev pub Some : (PeerInfo → Type 0) → List PeerInfo → Type 0
Some P peers =
    (before : List PeerInfo) × (p : PeerInfo) × (after : List PeerInfo) × (peers
      ≡ before ++ p ∷ after)
    × P p

-- A peer class is the one of a listed peer.
abbrev pub Listed : List PeerInfo → PeerClass → Type 0
Listed peers pc = Some (λ p. pc ≡ peer_class_from_peer p) peers

Some-cons :
    (P : PeerInfo → Type 0) (q : PeerInfo) (peers : List PeerInfo)
    → Some P peers
    → Some P (q ∷ peers)
Some-cons P q peers (before, p, after, e, h) = (q ∷ before, p, after, ap (λ ps. q ∷ ps) e, h)

All-map :
    (P Q : PeerClass → Type 0) (pcs : List PeerClass)
    → ((pc : PeerClass) → P pc → Q pc)
    → All P pcs
    → All Q pcs
All-map P Q [] f h = tt
All-map P Q (pc ∷ pcs) f (h, k) = (f pc h, All-map P Q pcs f k)

find_status_peer_in_peers-Some :
    (pc : PeerClass) (peers : List PeerInfo) (q : PeerInfo)
    → find_status_peer_in_peers pc peers ≡ some q
    → Some (λ p. (p ≡ q) × (peer_class_matches_peer pc p ≡ true)) peers
unfolding find_status_peer_in_peers
find_status_peer_in_peers-Some pc [] q h = absurd (cc h)
find_status_peer_in_peers-Some pc (p ∷ peers) q h =
    elim (Bool-cases (peer_class_matches_peer pc p)) [
      | inl m ↦ ([], p, peers, refl, (ground arith, m))
      | inr m ↦ Some-cons _ p peers (find_status_peer_in_peers-Some pc peers q (ground arith))
    ]

prune_peers-Listed :
    (pcs : List PeerClass) (peers : List PeerInfo) → All (Listed peers) (prune_peers pcs peers)
unfolding prune_peers
prune_peers-Listed [] peers = tt
prune_peers-Listed (pc ∷ pcs) peers = elim (Option-cases (find_status_peer_in_peers pc peers)) [
  | inl e ↦ rw (e, prune_peers) (prune_peers-Listed pcs peers)
  | inr (q, e) ↦
      let (before, p, after, at, (same, _)) = find_status_peer_in_peers-Some pc peers q e in
      rw (e, prune_peers)
        ((before, p, after, at, ap peer_class_from_peer (sym same)), prune_peers-Listed pcs peers)
]

if-All :
    (P : PeerClass → Type 0) (b : Bool) (x y : List PeerClass)
    → All P x
    → All P y
    → All P (if b then x else y)
if-All P true x y h k = h
if-All P false x y h k = k

new_peers-Listed :
    (pcs : List PeerClass) (peers : List PeerInfo) → All (Listed peers) (new_peers pcs peers)
unfolding new_peers
new_peers-Listed pcs [] = tt
new_peers-Listed pcs (p ∷ peers) =
    let rest =
      All-map (Listed peers) (Listed (p ∷ peers)) (new_peers pcs peers)
        (λ pc h. Some-cons _ p peers h) (new_peers-Listed pcs peers) in
    if-All (Listed (p ∷ peers)) (find_peer_in_status_peer p pcs) _ _ rest
      (([], p, peers, refl, refl), rest)

-- Every peer class that pruneAndUpdateStatusPeers leaves in the status is the one of a peer that
-- was found now, so that none is left of an earlier search.
pub prune_and_update_status_peers-Listed :
    (status_peers : List PeerClass) (peers : List PeerInfo)
    → All (Listed peers) (prune_and_update_status_peers status_peers peers)
unfolding prune_and_update_status_peers
prune_and_update_status_peers-Listed status_peers peers =
    All-append (Listed peers) (prune_peers status_peers peers) (new_peers status_peers peers)
      (prune_peers-Listed status_peers peers) (new_peers-Listed status_peers peers)
