-- ===== src/Drpc/Cleanup/Frames.antt =====
-- What the steps of a cleanup leave alone of the DRPC: they write ManifestWorks and the decisions
-- of the user's placement.
use ramen.Prelude.{
  String, Bool, true, false, not, none, some, select, ◌==◌, ◌≡◌, refl, ◌∙◌, inl, inr, Option-cases,
  assoc, if◌then◌else◌, Option, List,
}
use ramen.Api.{Vrg, ReplicationState}
use ramen.Drpc.{
  Drpc, Env, Hub, M, Error, pure, maybe, ◌>>=◌, ◌>>◌, try, api_call, get_drpc, is_not_found,
  PlacementDecision, ClusterDecision, UserPlacement, placement_rule, placement,
}
use ramen.Drpc.Works.{
  get_work, find_manifest_work, update_manifest_work, update_vrg_state, switched_vrg,
  replication_state_eqb,
}
use ramen.Drpc.Placement.{
  single_placement_decision, get_placement_decision_from_placement, update_decisions,
  has_retained_for, is_retained_for, remove_decision_for_failover_of,
  remove_cluster_decision_for_failover,
}
use ramen.Drpc.Effects.{Within, bind_lem, try_lem, if_lem, Refl, Trans}

-- The part of the DRPC is the same after the step.
abbrev pub Keeps : {P : Type 0} → (Drpc → P) → Hub → Hub → Type 0
Keeps part h h' = part h'.drpc ≡ part h.drpc

module _ {P : Type 0} (part : Drpc → P) where
  abbrev S : Hub → Hub → Type 0
  S = Keeps part

  pub Keeps-refl : Refl S
  Keeps-refl h = refl

  pub Keeps-trans : Trans S
  Keeps-trans h i j p q = q ∙ p

  pub api_call-Keeps : (e : Env) → Within S (api_call e)
  unfolding api_call
  api_call-Keeps e h = elim (Option-cases (e.api h.calls)) [
    | inl p ↦ rw (p, api_call) refl
    | inr (x, p) ↦ rw (p, api_call) refl
  ]

  get_work-Keeps : (c : String) → Within S (get_work c)
  unfolding get_work
  get_work-Keeps c h = elim (Option-cases (assoc c h.works)) [
    | inl p ↦ rw (p, get_work) refl
    | inr (x, p) ↦ rw (p, get_work) refl
  ]

  module _ {A B : Type 0} where
    pub bind_keeps :
        (m : M A) (f : A → M B) → Within S m → ((a : A) → Within S (f a)) → Within S (m >>= f)
    bind_keeps m f hm hf = bind_lem S Keeps-trans m f hm (λ a _. hf a)

    pub try_keeps :
        (m : M A) (f : A → M B) (g : Error → M B)
        → Within S m
        → ((a : A) → Within S (f a))
        → ((x : Error) → Within S (g x))
        → Within S (try m f g)
    try_keeps m f g hm hf hg = try_lem S Keeps-trans m f g hm (λ a _. hf a) hg

    maybe_keeps :
        (f : M B) (g : A → M B) (o : Option A)
        → Within S f
        → ((a : A) → Within S (g a))
        → Within S (maybe f g o)
    maybe_keeps f g none hf hg = hf
    maybe_keeps f g (some a) hf hg = hg a

  pub if_keeps :
      {A : Type 0} (b : Bool) (m n : M A) → Within S m → Within S n → Within S (if b then m else n)
  if_keeps b m n hm hn = if_lem S b m n (λ _. hm) (λ _. hn)

  find_manifest_work-Keeps : (e : Env) (c : String) → Within S (find_manifest_work e c)
  unfolding find_manifest_work
  find_manifest_work-Keeps e c = if_keeps (c == "") _ _ Keeps-refl (
      try_keeps (api_call e >> get_work c) _ _
        (bind_keeps (api_call e) (λ _. get_work c) (api_call-Keeps e) (λ _. get_work-Keeps c))
        (λ _. Keeps-refl) (λ x. if_keeps (is_not_found x.kind) _ _ Keeps-refl Keeps-refl))

  update_manifest_work-Keeps :
      (e : Env) (c : String) (v : Vrg) → Within S (update_manifest_work e c v)
  unfolding update_manifest_work
  update_manifest_work-Keeps e c v =
      bind_keeps (find_manifest_work e c) _ (find_manifest_work-Keeps e c)
        (λ _. bind_keeps (api_call e) _ (api_call-Keeps e) (λ _. Keeps-refl))

  pub update_vrg_state-Keeps :
      (e : Env) (c : String) (s : ReplicationState) → Within S (update_vrg_state e c s)
  unfolding update_vrg_state
  update_vrg_state-Keeps e c s =
      try_keeps (find_manifest_work e c) _ _ (find_manifest_work-Keeps e c)
        (λ v.
          let write : Drpc → M Bool =
            λ d. update_manifest_work e c (switched_vrg e d c s v) >> pure true in
          if_keeps (replication_state_eqb v.replication_state s) (pure false) (get_drpc >>= write)
            Keeps-refl
            (bind_keeps get_drpc write Keeps-refl (λ d.
              bind_keeps (update_manifest_work e c (switched_vrg e d c s v)) (λ _. pure true)
                (update_manifest_work-Keeps e c (switched_vrg e d c s v)) (λ _. Keeps-refl))))
        (λ _. Keeps-refl)

  get_placement_decision-Keeps :
      (e : Env) (ps : List PlacementDecision)
      → Within S (get_placement_decision_from_placement e ps)
  unfolding get_placement_decision_from_placement
  get_placement_decision-Keeps e ps =
      try_keeps (api_call e) (λ _ h. (single_placement_decision ps, h)) _ (api_call-Keeps e)
        (λ _ h. refl) (λ _ h. refl)

  update_decisions-Keeps :
      (e : Env) (p : PlacementDecision) (ds : List ClusterDecision)
      → Within S (update_decisions e p ds)
  unfolding update_decisions
  update_decisions-Keeps e p ds = bind_keeps (api_call e) _ (api_call-Keeps e) (λ _ h. refl)

  remove_decision_of-Keeps :
      (e : Env) (c : String) (p : UserPlacement) → Within S (remove_decision_for_failover_of e c p)
  unfolding remove_decision_for_failover_of
  remove_decision_of-Keeps e c (placement_rule rs) = Keeps-refl
  remove_decision_of-Keeps e c (placement ps) =
      bind_keeps (get_placement_decision_from_placement e ps) _ (get_placement_decision-Keeps e ps)
        (λ o. maybe_keeps (pure tt) _ o Keeps-refl (λ p.
          let kept = select (λ d. not (is_retained_for c d)) p.decisions in
          if_keeps (not (has_retained_for c p.decisions)) (pure tt) _ Keeps-refl (
            try_keeps (update_decisions e p kept) (λ u. pure u) _ (update_decisions-Keeps e p kept)
              (λ _. Keeps-refl) (λ _. Keeps-refl))))

  pub remove_cluster_decision-Keeps :
      (e : Env) (c : String) → Within S (remove_cluster_decision_for_failover e c)
  unfolding remove_cluster_decision_for_failover
  remove_cluster_decision-Keeps e c h = remove_decision_of-Keeps e c h.user_placement h
