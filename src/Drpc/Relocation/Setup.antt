-- ===== src/Drpc/Relocation/Setup.antt =====
-- setupRelocation: what holds on the clusters when it lets the relocation go on.
use ramen.Prelude.{
  String, Bool, true, false, not, List, [], ◌∷◌, ◌≡◌, ◌≢◌, if◌then◌else◌, All, subst,
}
use ramen.Drpc.{Env, Hub, M, ok, errorf, pure, throw, ◌>>=◌, ◌>>◌, modify_drpc}
use ramen.Drpc.Fields.{is_discovered_app}
use ramen.Drpc.Status.{set_progression}
use ramen.Api.{ensuring_volumes_are_secondary}
use ramen.Drpc.Progress.{set_discovered_app_gc_progression}
use ramen.Drpc.Works.{move_vrg_to_secondary_everywhere}
use ramen.Drpc.Relocation.{
  ensure_vrg_is_secondary_everywhere, ensure_data_protected, move_to_secondary, setup_relocation,
}
use ramen.Drpc.Effects.{Answers, bind-Answers, guard-Answers}
use ramen.Drpc.Relocation.Secondary.{
  OnOthers, Settled, Protected, ensure_vrg_is_secondary_everywhere-Settled,
  ensure_data_protected-Protected,
}

-- Every cluster of the policy has a name.
abbrev pub Named : List String → Type 0
Named cs = All (λ c. "" ≢ c) cs

OnOthers-of_all :
    (P : String → Type 0) (skip : String) (cs : List String)
    → Named cs
    → OnOthers P "" cs
    → OnOthers P skip cs
OnOthers-of_all P skip [] n h = tt
OnOthers-of_all P skip (c ∷ cs) n h = (λ _. h.0 n.0, OnOthers-of_all P skip cs n.1 h.1)

move_to_secondary-Settled :
    (e : Env) (skip : String)
    → Named e.policy_clusters
    → Answers (move_to_secondary e skip) tt
    → OnOthers (λ c. Settled (e.view c)) skip e.policy_clusters
unfolding move_to_secondary
move_to_secondary-Settled e skip named p =
    let note : M (Unit {0}) = modify_drpc (λ d.
      if is_discovered_app d
      then set_discovered_app_gc_progression e skip d
      else set_progression ensuring_volumes_are_secondary d) in
    let finish : Bool → M (Unit {0}) = λ everywhere.
      if not everywhere
      then throw (errorf "waiting for VRGs to move to secondaries everywhere")
      else pure tt in
    let (moved, _, q) = bind-Answers (note >> move_vrg_to_secondary_everywhere e) _ tt p in
    let (_, r) =
      guard-Answers moved (errorf "failed to move VRG to secondary everywhere")
        (ensure_vrg_is_secondary_everywhere e "" >>= finish) tt q in
    let (everywhere, s, t) = bind-Answers (ensure_vrg_is_secondary_everywhere e "") finish tt r in
    let (ok', _) =
      guard-Answers everywhere (errorf "waiting for VRGs to move to secondaries everywhere")
        (pure tt) tt t in
    OnOthers-of_all (λ c. Settled (e.view c)) skip e.policy_clusters named
      (ensure_vrg_is_secondary_everywhere-Settled e ""
        (subst (Answers (ensure_vrg_is_secondary_everywhere e "")) ok' s))

if_not-Settled :
    (b : Bool) (e : Env) (skip : String)
    → Named e.policy_clusters
    → Answers (ensure_vrg_is_secondary_everywhere e skip) b
    → Answers (if not b then move_to_secondary e skip else pure tt) tt
    → OnOthers (λ c. Settled (e.view c)) skip e.policy_clusters
if_not-Settled true e skip named p q = ensure_vrg_is_secondary_everywhere-Settled e skip p
if_not-Settled false e skip named p q = move_to_secondary-Settled e skip named q

-- If setupRelocation returns without an error, under a policy whose clusters have names, then on
-- every cluster of the policy but the preferred one the VRG is there, has settled as secondary at
-- its current generation, and has its DataProtected condition true at that generation.
pub setup_relocation-Settled :
    (e : Env) (preferred_cluster : String)
    → Named e.policy_clusters
    → (h : Hub) → (setup_relocation e preferred_cluster h).0 ≡ ok tt
    → OnOthers (λ c. Settled (e.view c)) preferred_cluster e.policy_clusters
      × OnOthers (λ c. Protected (e.view c)) preferred_cluster e.policy_clusters
unfolding setup_relocation
setup_relocation-Settled e skip named h p =
    let move : Bool → M (Unit {0}) =
      λ everywhere. if not everywhere then move_to_secondary e skip else pure tt in
    let finish : Bool → M (Unit {0}) = λ is_protected.
      if not is_protected then throw (errorf "waiting for data protection") else pure tt in
    let (everywhere, a, q) =
      bind-Answers (ensure_vrg_is_secondary_everywhere e skip)
        (λ b. move b >> ensure_data_protected e skip >>= finish) tt (h, p) in
    let (is_protected, r, t) =
      bind-Answers (move everywhere >> ensure_data_protected e skip) finish tt q in
    let (u, b, s) =
      bind-Answers (move everywhere) (λ _. ensure_data_protected e skip) is_protected r in
    let (ok', _) =
      guard-Answers is_protected (errorf "waiting for data protection") (pure tt) tt t in
    (
      if_not-Settled everywhere e skip named a b,
      ensure_data_protected-Protected e skip (subst (Answers (ensure_data_protected e skip)) ok' s),
    )
