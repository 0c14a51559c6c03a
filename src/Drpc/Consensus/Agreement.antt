-- ===== src/Drpc/Consensus/Agreement.antt =====
-- What consensus means: every other DRPC that is listed asks for the same move.
use ramen.Prelude.{
  String, true, false, List, [], ◌∷◌, ◌≡◌, ◌≢◌, refl, eq_iff, arith, of_false_is_true, All,
}
use ramen.Api.{Action, no_action, action_eqb}
use ramen.Drpc.{Drpc, Env, Result, ok, err}
use ramen.Drpc.Consensus.{
  is_same_drpc, target_cluster, is_pending, pending_drpcs, decide, consensus_of,
  is_global_action_in_consensus,
}

-- Another DRPC asks for the same action, to the same cluster.
abbrev pub Agrees : Drpc → Drpc → Type 0
Agrees self d = (d.action ≡ self.action) × (target_cluster d ≡ target_cluster self)

action_eqb-eq : (a b : Action) → action_eqb a b ≡ true → a ≡ b
action_eqb-eq a b h = ground arith

not_pending :
    (a : Action) (s d : Drpc)
    → s.action ≡ a
    → a ≢ no_action
    → is_pending a (target_cluster s) d ≡ false
    → Agrees s d
unfolding is_pending
not_pending a s d q n p = ground (
  arith,
  eq_iff d.failover_cluster (target_cluster s),
  eq_iff d.preferred_cluster (target_cluster s),
)

pending_none :
    (a : Action) (s : Drpc) (ds : List Drpc)
    → s.action ≡ a
    → a ≢ no_action
    → pending_drpcs s ds ≡ []
    → All (λ d. is_same_drpc d s ≡ false → Agrees s d) ds
unfolding pending_drpcs
pending_none a s [] q n p = tt
pending_none a s (d ∷ ds) q n p =
    let ih = pending_none a s ds q n in
    let step = not_pending a s d q n in (λ other. step (ground arith), ih (ground arith))

decide-empty : (e : Env) (d : Drpc) (names : List String) → (decide e d names).0 ≡ true → names ≡ []
unfolding decide
decide-empty e d [] p = refl
decide-empty e d (n ∷ ns) p = of_false_is_true p

consensus_of-Agrees :
    (e : Env) (d : Drpc) (r : Result (List Drpc))
    → d.action ≢ no_action
    → (consensus_of e d r).0 ≡ true
    → (ds : List Drpc) × (r ≡ ok ds) × All (λ o. is_same_drpc o d ≡ false → Agrees d o) ds
unfolding consensus_of
consensus_of-Agrees e d (ok ds) n p =
    (ds, refl, pending_none d.action d ds refl n (decide-empty e d (pending_drpcs d ds) p))
consensus_of-Agrees e d (err x) n p = of_false_is_true p

-- isGlobalActionInConsensus answers true only if the DRPC has an action, the DRPCs with its
-- global label could be listed, and every one of them of another name or namespace has the same
-- action and the same target cluster: the failover cluster of a failover, the preferred cluster
-- of a relocation.
pub is_global_action_in_consensus-Agrees :
    (e : Env) (d : Drpc)
    → (is_global_action_in_consensus e d).0 ≡ true
    → (d.action ≢ no_action)
      × (ds : List Drpc) × (e.drpcs ≡ ok ds)
      × All (λ o. is_same_drpc o d ≡ false → Agrees d o) ds
unfolding is_global_action_in_consensus
is_global_action_in_consensus-Agrees e d p =
    let n : d.action ≢ no_action = λ q. of_false_is_true (ground arith) in
    let (ds, listed, agree) = consensus_of-Agrees e d e.drpcs n (ground arith) in
    (n, ds, listed, agree)
