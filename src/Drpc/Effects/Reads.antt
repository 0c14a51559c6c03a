-- ===== src/Drpc/Effects/Reads.antt =====
-- Steps that leave the VRG ManifestWorks alone: the namespaces and the user's placement.
use ramen.Prelude.{
  ℕ, zero, suc, String, Bool, true, not, Option, none, some, List, [], ◌∷◌, refl, Option-cases, inl,
  inr, ◌==◌, if◌then◌else◌, assoc, select,
}
use ramen.Drpc.{
  Env, M, Error, errorf, wrap, pure, throw, maybe, ◌>>=◌, ◌>>◌, try, api_call, is_not_found,
  is_already_exists, RuleDecision, ClusterDecision, PlacementDecision, UserPlacement,
  placement_rule, placement,
}
use ramen.Drpc.NewWorks.{
  write_namespace_work, get_namespace_work, put_namespace_work, get_namespaces, create_on_peers,
  create_namespaces_on_peers, create_namespace_for_non_discovered, create_or_update_namespaces,
  create_namespaces_for, ensure_namespace_manifest_work,
}
use ramen.Drpc.Placement.{
  single_placement_decision, get_placement_decision_from_placement, get_cluster_decision_of,
  get_cluster_decision, put_placement, try_create, create_placement_decision, update_decisions,
  labelled_placement_decision, create_or_update_placement_decision, rules_eqb, rule_status,
  create_or_update_placement_rule_decision, update_user_placement_of,
  update_user_placement_status_decision, update_user_placement_rule, retain_first, or_new_decision,
  found_or_created, retain_cluster_decision_of, retain_cluster_decision_as_failover, with_decision,
  is_retained, max_placement_decision_conflict_count, empty_decision, first_active,
}
use ramen.Drpc.Effects.{Within, bind_lem, try_lem, if_lem}
use ramen.Drpc.Effects.Promotion.{SameWorks, SameWorks-refl, SameWorks-trans, api_call-SameWorks}

module _ {A B : Type 0} where
  pub bind_same :
      (m : M A) (f : A → M B)
      → Within SameWorks m
      → ((a : A) → Within SameWorks (f a))
      → Within SameWorks (m >>= f)
  bind_same m f hm hf = bind_lem SameWorks SameWorks-trans m f hm (λ a _. hf a)

  pub try_same :
      (m : M A) (f : A → M B) (g : Error → M B)
      → Within SameWorks m
      → ((a : A) → Within SameWorks (f a))
      → ((x : Error) → Within SameWorks (g x))
      → Within SameWorks (try m f g)
  try_same m f g hm hf hg = try_lem SameWorks SameWorks-trans m f g hm (λ a _. hf a) hg

pub if_same :
    {A : Type 0} (b : Bool) (m n : M A)
    → Within SameWorks m
    → Within SameWorks n
    → Within SameWorks (if b then m else n)
if_same b m n hm hn = if_lem SameWorks b m n (λ _. hm) (λ _. hn)

write_namespace_work-SameWorks : (e : Env) → Within SameWorks (write_namespace_work e)
unfolding write_namespace_work
write_namespace_work-SameWorks e =
    try_same (api_call e) (λ _. api_call e)
      (λ x. if is_not_found x.kind then api_call e else throw x) (api_call-SameWorks e)
      (λ _. api_call-SameWorks e)
      (λ x.
        if_same (is_not_found x.kind) (api_call e) (throw x) (api_call-SameWorks e) SameWorks-refl)

get_namespace_work-SameWorks : (c : String) → Within SameWorks (get_namespace_work c)
unfolding get_namespace_work
get_namespace_work-SameWorks c h = elim (Option-cases (assoc c h.namespace_works)) [
  | inl p ↦ rw (p, get_namespace_work) refl
  | inr (x, p) ↦ rw (p, get_namespace_work) refl
]

put_namespace_work-SameWorks : (c : String) → Within SameWorks (put_namespace_work c)
unfolding put_namespace_work
put_namespace_work-SameWorks c h = refl

get_namespaces-SameWorks : (e : Env) (ns : List String) → Within SameWorks (get_namespaces e ns)
unfolding get_namespaces
get_namespaces-SameWorks e [] = SameWorks-refl
get_namespaces-SameWorks e (n ∷ ns) =
    bind_same (api_call e) (λ _. get_namespaces e ns) (api_call-SameWorks e)
      (λ _. get_namespaces-SameWorks e ns)

create_on_peers-SameWorks :
    (e : Env) (c : String) (cs : List String) → Within SameWorks (create_on_peers e c cs)
unfolding create_on_peers
create_on_peers-SameWorks e c [] = SameWorks-refl
create_on_peers-SameWorks e c (k ∷ cs) =
    let rest = create_on_peers-SameWorks e c cs in
    if_same (c == k) (create_on_peers e c cs) (write_namespace_work e >> create_on_peers e c cs)
      rest
      (bind_same (write_namespace_work e) (λ _. create_on_peers e c cs)
        (write_namespace_work-SameWorks e) (λ _. rest))

create_namespaces_on_peers-SameWorks :
    (e : Env) (c : String) (ns : List String) → Within SameWorks (create_namespaces_on_peers e c ns)
unfolding create_namespaces_on_peers
create_namespaces_on_peers-SameWorks e c [] = SameWorks-refl
create_namespaces_on_peers-SameWorks e c (n ∷ ns) =
    bind_same (api_call e >> create_on_peers e c e.policy_clusters)
      (λ _. create_namespaces_on_peers e c ns)
      (bind_same (api_call e) (λ _. create_on_peers e c e.policy_clusters) (api_call-SameWorks e)
        (λ _. create_on_peers-SameWorks e c e.policy_clusters))
      (λ _. create_namespaces_on_peers-SameWorks e c ns)

create_namespace_for_non_discovered-SameWorks :
    (e : Env) (c : String) → Within SameWorks (create_namespace_for_non_discovered e c)
unfolding create_namespace_for_non_discovered
create_namespace_for_non_discovered-SameWorks e c =
    try_same (write_namespace_work e >> put_namespace_work c) (λ u. pure u) _
      (bind_same (write_namespace_work e) (λ _. put_namespace_work c)
        (write_namespace_work-SameWorks e) (λ _. put_namespace_work-SameWorks c))
      (λ _. SameWorks-refl) (λ _. SameWorks-refl)

create_namespaces_for-SameWorks :
    (e : Env) (c : String) (ns : Option (List String))
    → Within SameWorks (create_namespaces_for e c ns)
unfolding create_namespaces_for
create_namespaces_for-SameWorks e c none = create_namespace_for_non_discovered-SameWorks e c
create_namespaces_for-SameWorks e c (some []) = create_namespace_for_non_discovered-SameWorks e c
create_namespaces_for-SameWorks e c (some (m ∷ ms)) =
    bind_same (get_namespaces e (m ∷ ms)) (λ _. create_namespaces_on_peers e c (m ∷ ms))
      (get_namespaces-SameWorks e (m ∷ ms)) (λ _. create_namespaces_on_peers-SameWorks e c (m ∷ ms))

create_or_update_namespaces-SameWorks :
    (e : Env) (c : String) → Within SameWorks (create_or_update_namespaces e c)
unfolding create_or_update_namespaces
create_or_update_namespaces-SameWorks e c h =
    create_namespaces_for-SameWorks e c h.drpc.protected_namespaces h

pub ensure_namespace_manifest_work-SameWorks :
    (e : Env) (c : String) → Within SameWorks (ensure_namespace_manifest_work e c)
unfolding ensure_namespace_manifest_work
ensure_namespace_manifest_work-SameWorks e c =
    if_same (c == "") (throw (errorf "failed to get NS MW (invalid cluster for MW)")) _
      SameWorks-refl
      (try_same (api_call e >> get_namespace_work c) _ _
        (bind_same (api_call e) (λ _. get_namespace_work c) (api_call-SameWorks e)
          (λ _. get_namespace_work-SameWorks c))
        (λ b.
          if_same b (api_call e >> put_namespace_work c) (pure tt)
            (bind_same (api_call e) (λ _. put_namespace_work c) (api_call-SameWorks e)
              (λ _. put_namespace_work-SameWorks c))
            SameWorks-refl)
        (λ x.
          if_same (not (is_not_found x.kind)) (throw (wrap "failed to get NS MW (" x ")"))
            (create_or_update_namespaces e c) SameWorks-refl
            (create_or_update_namespaces-SameWorks e c)))

put_placement-SameWorks : (p : UserPlacement) → Within SameWorks (put_placement p)
unfolding put_placement
put_placement-SameWorks p h = refl

pub get_placement_decision-SameWorks :
    (e : Env) (ps : List PlacementDecision)
    → Within SameWorks (get_placement_decision_from_placement e ps)
unfolding get_placement_decision_from_placement
get_placement_decision-SameWorks e ps =
    try_same (api_call e) (λ _ h. (single_placement_decision ps, h)) _ (api_call-SameWorks e)
      (λ _ h. refl) (λ _ h. refl)

pub maybe_same :
    {A B : Type 0} (f : M B) (g : A → M B) (o : Option A)
    → Within SameWorks f
    → ((a : A) → Within SameWorks (g a))
    → Within SameWorks (maybe f g o)
maybe_same f g none hf hg = hf
maybe_same f g (some a) hf hg = hg a

get_cluster_decision_of-SameWorks :
    (e : Env) (p : UserPlacement) → Within SameWorks (get_cluster_decision_of e p)
unfolding get_cluster_decision_of
get_cluster_decision_of-SameWorks e (placement_rule []) = SameWorks-refl
get_cluster_decision_of-SameWorks e (placement_rule (r ∷ rs)) = SameWorks-refl
get_cluster_decision_of-SameWorks e (placement ps) =
    try_same (get_placement_decision_from_placement e ps) _ _
      (get_placement_decision-SameWorks e ps)
      (λ o.
        maybe_same (pure empty_decision) (λ p. pure (first_active p.decisions)) o SameWorks-refl
          (λ _. SameWorks-refl))
      (λ _. SameWorks-refl)

pub get_cluster_decision-SameWorks : (e : Env) → Within SameWorks (get_cluster_decision e)
unfolding get_cluster_decision
get_cluster_decision-SameWorks e h = get_cluster_decision_of-SameWorks e h.user_placement h

try_create-SameWorks : (e : Env) (n : ℕ) → Within SameWorks (try_create e n)
unfolding try_create
try_create-SameWorks e zero = SameWorks-refl
try_create-SameWorks e (suc n) =
    try_same (api_call e) _ _ (api_call-SameWorks e) (λ _ h. refl)
      (λ x.
        if_same (not (is_already_exists x.kind)) (throw x) (try_create e n) SameWorks-refl
          (try_create-SameWorks e n))

pub update_decisions-SameWorks :
    (e : Env) (p : PlacementDecision) (ds : List ClusterDecision)
    → Within SameWorks (update_decisions e p ds)
unfolding update_decisions
update_decisions-SameWorks e p ds =
    bind_same (api_call e) (λ _. put_placement (placement (record p { decisions = ds } ∷ [])))
      (api_call-SameWorks e)
      (λ _. put_placement-SameWorks (placement (record p { decisions = ds } ∷ [])))

labelled_placement_decision-SameWorks :
    (e : Env) (o : Option PlacementDecision) → Within SameWorks (labelled_placement_decision e o)
unfolding labelled_placement_decision create_placement_decision
labelled_placement_decision-SameWorks e none =
    try_create-SameWorks e max_placement_decision_conflict_count
labelled_placement_decision-SameWorks e (some p) =
    let q = record p { is_excluded_from_backup = true } in
    if_same (not p.is_excluded_from_backup)
      (api_call e >> put_placement (placement (q ∷ [])) >> pure q) (pure p)
      (bind_same (api_call e >> put_placement (placement (q ∷ []))) (λ _. pure q)
        (bind_same (api_call e) (λ _. put_placement (placement (q ∷ []))) (api_call-SameWorks e)
          (λ _. put_placement-SameWorks (placement (q ∷ []))))
        (λ _. SameWorks-refl))
      SameWorks-refl

create_or_update_placement_decision-SameWorks :
    (e : Env) (ps : List PlacementDecision) (c : Option ClusterDecision)
    → Within SameWorks (create_or_update_placement_decision e ps c)
unfolding create_or_update_placement_decision
create_or_update_placement_decision-SameWorks e ps c =
    bind_same (get_placement_decision_from_placement e ps) _ (get_placement_decision-SameWorks e ps)
      (λ o.
        bind_same (labelled_placement_decision e o) _ (labelled_placement_decision-SameWorks e o)
          (λ p.
            try_same (update_decisions e p (with_decision (select is_retained p.decisions) c))
              (λ u. pure u) _
              (update_decisions-SameWorks e p (with_decision (select is_retained p.decisions) c))
              (λ _. SameWorks-refl) (λ _. SameWorks-refl)))

create_or_update_placement_rule_decision-SameWorks :
    (e : Env) (rs : List RuleDecision) (c : Option ClusterDecision)
    → Within SameWorks (create_or_update_placement_rule_decision e rs c)
unfolding create_or_update_placement_rule_decision
create_or_update_placement_rule_decision-SameWorks e rs c =
    let put = put_placement (placement_rule (rule_status c)) in
    let fail : Error → M (Unit {0}) = λ x. throw (wrap "failed to update userPlRule (" x ")") in
    let save : M (Unit {0}) = try (api_call e) (λ u. pure u) fail in
    if_same (not (rules_eqb (rule_status c) rs)) (put >> save) (pure tt)
      (bind_same put (λ _. save) (put_placement-SameWorks (placement_rule (rule_status c)))
        (λ _.
          try_same (api_call e) (λ u. pure u) fail (api_call-SameWorks e) (λ _. SameWorks-refl)
            (λ _. SameWorks-refl)))
      SameWorks-refl

pub update_user_placement_of-SameWorks :
    (e : Env) (c : Option ClusterDecision) (p : UserPlacement)
    → Within SameWorks (update_user_placement_of e c p)
unfolding update_user_placement_of
update_user_placement_of-SameWorks e c (placement_rule rs) =
    create_or_update_placement_rule_decision-SameWorks e rs c
update_user_placement_of-SameWorks e c (placement ps) =
    create_or_update_placement_decision-SameWorks e ps c

pub update_user_placement_rule-SameWorks :
    (e : Env) (c why : String) → Within SameWorks (update_user_placement_rule e c why)
unfolding update_user_placement_rule update_user_placement_status_decision
update_user_placement_rule-SameWorks e c why h =
    update_user_placement_of-SameWorks e (some (record { cluster_name = c; reason = why }))
      h.user_placement h

found_or_created-SameWorks :
    (e : Env) (o : Option PlacementDecision) → Within SameWorks (found_or_created e o)
unfolding found_or_created create_placement_decision
found_or_created-SameWorks e none = try_create-SameWorks e max_placement_decision_conflict_count
found_or_created-SameWorks e (some p) = SameWorks-refl

retain_cluster_decision_of-SameWorks :
    (e : Env) (c : String) (p : UserPlacement) → Within SameWorks (retain_cluster_decision_of e c p)
unfolding retain_cluster_decision_of
retain_cluster_decision_of-SameWorks e c (placement_rule rs) = SameWorks-refl
retain_cluster_decision_of-SameWorks e c (placement ps) =
    bind_same (get_placement_decision_from_placement e ps) _ (get_placement_decision-SameWorks e ps)
      (λ o. bind_same (found_or_created e o) _ (found_or_created-SameWorks e o) (λ p.
        maybe_same (pure tt) _ (retain_first c (or_new_decision c p.decisions)) SameWorks-refl
          (λ ds.
            try_same (update_decisions e p ds) (λ u. pure u) _ (update_decisions-SameWorks e p ds)
              (λ _. SameWorks-refl) (λ _. SameWorks-refl))))

pub retain_cluster_decision-SameWorks :
    (e : Env) (c : String) → Within SameWorks (retain_cluster_decision_as_failover e c)
unfolding retain_cluster_decision_as_failover
retain_cluster_decision-SameWorks e c h =
    retain_cluster_decision_of-SameWorks e c h.user_placement h
