-- ===== src/Drpc/Placement/Decisions.antt =====
-- Where the user's placement sends the workload after a write.
use ramen.Prelude.{
  String, Bool, true, false, not, Option, none, some, List, [], ◌∷◌, ◌++◌, ◌≡◌, refl, ap, ◌∙◌, inl,
  inr, if◌then◌else◌, eq_iff, arith, of_false_is_true, select, Option-cases,
}
use ramen.Drpc.{
  Env, Hub, M, Result, ok, err, Error, wrap, pure, throw, ◌>>=◌, ◌>>◌, try, and_then, handle,
  api_call, RuleDecision, ClusterDecision, PlacementDecision, UserPlacement, placement_rule,
  placement,
}
use ramen.Drpc.Placement.{
  is_retained, first_active, empty_decision, with_decision, rule_status, rules_eqb, put_placement,
  update_decisions, create_or_update_placement_decision, create_or_update_placement_rule_decision,
  update_user_placement_of, update_user_placement_status_decision,
  get_placement_decision_from_placement, labelled_placement_decision,
}

-- The cluster that a placement names: the first decision of a PlacementRule, or the first
-- decision of the first PlacementDecision that is not retained for a failover.
abbrev pub active_cluster : UserPlacement → String
active_cluster (placement_rule []) = ""
active_cluster (placement_rule (r ∷ rs)) = r.cluster_name
active_cluster (placement []) = ""
active_cluster (placement (p ∷ ps)) = (first_active p.decisions).cluster_name

first_active-retained :
    (ds : List ClusterDecision) (c : ClusterDecision)
    → is_retained c ≡ false
    → first_active (select is_retained ds ++ c ∷ []) ≡ c
unfolding first_active
first_active-retained [] c n = rw (n, first_active) refl
first_active-retained (d ∷ ds) c n = ground (arith, first_active-retained ds c n)

first_active_none :
    (ds : List ClusterDecision) → first_active (select is_retained ds) ≡ empty_decision
unfolding first_active
first_active_none [] = refl
first_active_none (d ∷ ds) = ground (arith, first_active_none ds)

-- The cluster that a placement is to name after a write.
abbrev pub cluster_of : Option ClusterDecision → String
cluster_of none = ""
cluster_of (some c) = c.cluster_name

abbrev pub IsNew : Option ClusterDecision → Type 0
IsNew none = Unit
IsNew (some c) = is_retained c ≡ false

with_decision-active :
    (ds : List ClusterDecision) (o : Option ClusterDecision)
    → IsNew o
    → (first_active (with_decision (select is_retained ds) o)).cluster_name ≡ cluster_of o
unfolding with_decision
with_decision-active ds none n = ap (λ c. c.cluster_name) (first_active_none ds)
with_decision-active ds (some c) n = ap (λ d. d.cluster_name) (first_active-retained ds c n)

-- A step that answers leaves a state with the property.
abbrev Ensures : (Hub → Type 0) → {A : Type 0} → M A → Type 0
Ensures Q {A} m = (h : Hub) (a : A) → (m h).0 ≡ ok a → Q (m h).1

abbrev is_ok : {A : Type 0} → Result A → Bool
is_ok (ok a) = true
is_ok (err x) = false

module _ {A B : Type 0} (Q : Hub → Type 0) where
  and_then_ensures :
      (r : Result A) (h : Hub) (f : A → M B) (b : B)
      → ((a : A) → Ensures Q (f a))
      → (and_then r f h).0 ≡ ok b
      → Q (and_then r f h).1
  and_then_ensures (ok a) h f b hf p = hf a h b p
  and_then_ensures (err x) h f b hf p = of_false_is_true (ap is_ok p)

  bind-Ensures : (m : M A) (f : A → M B) → ((a : A) → Ensures Q (f a)) → Ensures Q (m >>= f)
  bind-Ensures m f hf h b p = and_then_ensures (m h).0 (m h).1 f b hf p

module _ {A : Type 0} (Q : Hub → Type 0) where
  handle_ensures :
      (r : Result A) (h : Hub) (g : Error → Error) (b : A)
      → (is_ok r ≡ true → Q h)
      → (handle r (λ u. pure u) (λ x. throw (g x)) h).0 ≡ ok b
      → Q (handle r (λ u. pure u) (λ x. throw (g x)) h).1
  handle_ensures (ok a) h g b hr p = hr refl
  handle_ensures (err x) h g b hr p = of_false_is_true (ap is_ok p)

  ensured_of : (r : Result A) (h : Hub) → ((a : A) → r ≡ ok a → Q h) → is_ok r ≡ true → Q h
  ensured_of (ok a) h f p = f a refl
  ensured_of (err x) h f p = of_false_is_true p

  rethrow-Ensures :
      (m : M A) (g : Error → Error)
      → Ensures Q m
      → Ensures Q (try m (λ u. pure u) (λ x. throw (g x)))
  rethrow-Ensures m g hm h b p =
      handle_ensures (m h).0 (m h).1 g b (ensured_of (m h).0 (m h).1 (hm h)) p

update_decisions-Ensures :
    (e : Env) (p : PlacementDecision) (ds : List ClusterDecision) (t : String)
    → (first_active ds).cluster_name ≡ t
    → Ensures (λ h. active_cluster h.user_placement ≡ t) (update_decisions e p ds)
unfolding update_decisions put_placement
update_decisions-Ensures e p ds t q =
    bind-Ensures (λ h. active_cluster h.user_placement ≡ t) (api_call e)
      (λ _. put_placement (placement (record p { decisions = ds } ∷ []))) (λ _ h a r. q)

create_or_update-Ensures :
    (e : Env) (ps : List PlacementDecision) (o : Option ClusterDecision)
    → IsNew o
    → Ensures
        (λ h. active_cluster h.user_placement ≡ cluster_of o)
        (create_or_update_placement_decision e ps o)
unfolding create_or_update_placement_decision
create_or_update-Ensures e ps o n =
    let Q : Hub → Type 0 = λ h. active_cluster h.user_placement ≡ cluster_of o in
    let write : PlacementDecision → M (Unit {0}) =
      λ p. update_decisions e p (with_decision (select is_retained p.decisions) o) in
    let safe : PlacementDecision → M (Unit {0}) = λ p.
      try (write p) (λ u. pure u)
        (λ x. throw (wrap "failed to update placementDecision status (" x ")")) in
    bind-Ensures Q (get_placement_decision_from_placement e ps)
      (λ found. labelled_placement_decision e found >>= safe)
      (λ found. bind-Ensures Q (labelled_placement_decision e found) safe (λ p.
        rethrow-Ensures Q (write p) (λ x. wrap "failed to update placementDecision status (" x ")")
          (update_decisions-Ensures e p (with_decision (select is_retained p.decisions) o)
            (cluster_of o) (with_decision-active p.decisions o n))))

rules-active :
    (rs : List RuleDecision) (o : Option ClusterDecision)
    → rules_eqb (rule_status o) rs ≡ true
    → active_cluster (placement_rule rs) ≡ cluster_of o
unfolding rule_status
rules-active [] none p = refl
rules-active [] (some c) p = of_false_is_true p
rules-active (r ∷ rs) none p = of_false_is_true p
rules-active (r ∷ rs) (some c) p = ground (arith, eq_iff c.cluster_name r.cluster_name)

rule_status-active :
    (o : Option ClusterDecision) → active_cluster (placement_rule (rule_status o)) ≡ cluster_of o
unfolding rule_status
rule_status-active none = refl
rule_status-active (some c) = refl

api_call-user_placement : (e : Env) (h : Hub) → (api_call e h).1.user_placement ≡ h.user_placement
unfolding api_call
api_call-user_placement e h = elim (Option-cases (e.api h.calls)) [
  | inl p ↦ rw (p, api_call) refl
  | inr (x, p) ↦ rw (p, api_call) refl
]

handle-state :
    {A : Type 0} (r : Result A) (h : Hub) (g : Error → Error)
    → (handle r (λ u. pure u) (λ x. throw (g x)) h).1 ≡ h
handle-state (ok a) h g = refl
handle-state (err x) h g = refl

rule_decision-Ensures :
    (b : Bool) (e : Env) (rs : List RuleDecision) (o : Option ClusterDecision) (h : Hub)
    → rules_eqb (rule_status o) rs ≡ b
    → h.user_placement ≡ placement_rule rs
    → active_cluster
        ((if not b
            then put_placement (placement_rule (rule_status o))
              >> try
                  (api_call e)
                  (λ u. pure u)
                  (λ x. throw (wrap "failed to update userPlRule (" x ")"))
            else pure tt)
          h).1.user_placement
      ≡ cluster_of o
unfolding put_placement
rule_decision-Ensures true e rs o h q at = ap active_cluster at ∙ rules-active rs o q
rule_decision-Ensures false e rs o h q at =
    let h' = record h { user_placement = placement_rule (rule_status o) } in
    ap (λ i. active_cluster i.user_placement)
      (handle-state (api_call e h').0 (api_call e h').1
        (λ x. wrap "failed to update userPlRule (" x ")"))
    ∙ ap active_cluster (api_call-user_placement e h')
    ∙ rule_status-active o

update_of-Ensures :
    (e : Env) (o : Option ClusterDecision) (p : UserPlacement) (h : Hub)
    → IsNew o
    → h.user_placement ≡ p
    → (update_user_placement_of e o p h).0 ≡ ok tt
    → active_cluster (update_user_placement_of e o p h).1.user_placement ≡ cluster_of o
unfolding update_user_placement_of create_or_update_placement_rule_decision
update_of-Ensures e o (placement_rule rs) h n at q =
    rule_decision-Ensures (rules_eqb (rule_status o) rs) e rs o h refl at
update_of-Ensures e o (placement ps) h n at q = create_or_update-Ensures e ps o n h tt q

-- If updateUserPlacementStatusDecision returns without an error, given a decision that is not
-- retained for a failover or none at all, then the user's placement names the cluster of the
-- decision, or no cluster.
pub update_user_placement_status_decision-active :
    (e : Env) (o : Option ClusterDecision) (h : Hub)
    → IsNew o
    → (update_user_placement_status_decision e o h).0 ≡ ok tt
    → active_cluster (update_user_placement_status_decision e o h).1.user_placement ≡ cluster_of o
unfolding update_user_placement_status_decision
update_user_placement_status_decision-active e o h n q =
    update_of-Ensures e o h.user_placement h n refl q
