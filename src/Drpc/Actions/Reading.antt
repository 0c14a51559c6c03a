-- ===== src/Drpc/Actions/Reading.antt =====
-- mwExistsAndPlacementUpdated only reads: the DRPC and the user's placement are the same after it.
use ramen.Prelude.{
  String, not, ◌||◌, none, some, List, [], ◌∷◌, refl, inl, inr, ◌∙◌, ◌==◌, Option, Option-cases,
  assoc, if◌then◌else◌, ◌≡◌, Bool, true, false,
}
use ramen.Drpc.{
  Env, Hub, M, Error, pure, throw, maybe, ◌>>=◌, ◌>>◌, try, api_call, is_not_found,
  PlacementDecision, UserPlacement, placement_rule, placement, ClusterDecision,
}
use ramen.Drpc.Works.{get_work, find_manifest_work}
use ramen.Drpc.Placement.{
  single_placement_decision, get_placement_decision_from_placement, get_cluster_decision_of,
  get_cluster_decision, empty_decision, first_active,
}
use ramen.Drpc.Actions.{mw_exists_and_placement_updated}
use ramen.Drpc.Effects.{Within, bind_lem, try_lem, if_lem, Refl, Trans}

abbrev pub SameReads : Hub → Hub → Type 0
SameReads h h' = (h'.drpc ≡ h.drpc) × (h'.user_placement ≡ h.user_placement)

SameReads-refl : Refl SameReads
SameReads-refl h = (refl, refl)

SameReads-trans : Trans SameReads
SameReads-trans h i j (p, a) (q, b) = (q ∙ p, b ∙ a)

api_call-SameReads : (e : Env) → Within SameReads (api_call e)
unfolding api_call
api_call-SameReads e h = elim (Option-cases (e.api h.calls)) [
  | inl p ↦ rw (p, api_call) (refl, refl)
  | inr (x, p) ↦ rw (p, api_call) (refl, refl)
]

get_work-SameReads : (c : String) → Within SameReads (get_work c)
unfolding get_work
get_work-SameReads c h = elim (Option-cases (assoc c h.works)) [
  | inl p ↦ rw (p, get_work) (refl, refl)
  | inr (x, p) ↦ rw (p, get_work) (refl, refl)
]

module _ {A B : Type 0} where
  bind_reads :
      (m : M A) (f : A → M B)
      → Within SameReads m
      → ((a : A) → Within SameReads (f a))
      → Within SameReads (m >>= f)
  bind_reads m f hm hf = bind_lem SameReads SameReads-trans m f hm (λ a _. hf a)

  try_reads :
      (m : M A) (f : A → M B) (g : Error → M B)
      → Within SameReads m
      → ((a : A) → Within SameReads (f a))
      → ((x : Error) → Within SameReads (g x))
      → Within SameReads (try m f g)
  try_reads m f g hm hf hg = try_lem SameReads SameReads-trans m f g hm (λ a _. hf a) hg

  maybe_reads :
      (f : M B) (g : A → M B) (o : Option A)
      → Within SameReads f
      → ((a : A) → Within SameReads (g a))
      → Within SameReads (maybe f g o)
  maybe_reads f g none hf hg = hf
  maybe_reads f g (some a) hf hg = hg a

if_reads :
    {A : Type 0} (b : Bool) (m n : M A)
    → Within SameReads m
    → Within SameReads n
    → Within SameReads (if b then m else n)
if_reads b m n hm hn = if_lem SameReads b m n (λ _. hm) (λ _. hn)

find_manifest_work-SameReads : (e : Env) (c : String) → Within SameReads (find_manifest_work e c)
unfolding find_manifest_work
find_manifest_work-SameReads e c = if_reads (c == "") _ _ SameReads-refl (
    try_reads (api_call e >> get_work c) _ _
      (bind_reads (api_call e) (λ _. get_work c) (api_call-SameReads e) (λ _. get_work-SameReads c))
      (λ _. SameReads-refl) (λ x. if_reads (is_not_found x.kind) _ _ SameReads-refl SameReads-refl))

get_placement_decision-SameReads :
    (e : Env) (ps : List PlacementDecision)
    → Within SameReads (get_placement_decision_from_placement e ps)
unfolding get_placement_decision_from_placement
get_placement_decision-SameReads e ps =
    try_reads (api_call e) (λ _ h. (single_placement_decision ps, h)) _ (api_call-SameReads e)
      (λ _. SameReads-refl) (λ _. SameReads-refl)

get_cluster_decision_of-SameReads :
    (e : Env) (p : UserPlacement) → Within SameReads (get_cluster_decision_of e p)
unfolding get_cluster_decision_of
get_cluster_decision_of-SameReads e (placement_rule []) = SameReads-refl
get_cluster_decision_of-SameReads e (placement_rule (r ∷ rs)) = SameReads-refl
get_cluster_decision_of-SameReads e (placement ps) =
    try_reads (get_placement_decision_from_placement e ps) _ _
      (get_placement_decision-SameReads e ps)
      (λ o.
        maybe_reads (pure empty_decision) (λ p. pure (first_active p.decisions)) o SameReads-refl
          (λ _. SameReads-refl))
      (λ _. SameReads-refl)

get_cluster_decision-SameReads : (e : Env) → Within SameReads (get_cluster_decision e)
unfolding get_cluster_decision
get_cluster_decision-SameReads e h = get_cluster_decision_of-SameReads e h.user_placement h

pub mw_exists-SameReads :
    (e : Env) (k : String) → Within SameReads (mw_exists_and_placement_updated e k)
unfolding mw_exists_and_placement_updated
mw_exists-SameReads e k =
    let placed : ClusterDecision → M Bool =
      λ d. if d.cluster_name == "" || not (d.cluster_name == k) then pure false else pure true in
    try_reads (find_manifest_work e k) (λ _. get_cluster_decision e >>= placed)
      (λ x. if is_not_found x.kind then pure false else throw x) (find_manifest_work-SameReads e k)
      (λ _. bind_reads (get_cluster_decision e) placed (get_cluster_decision-SameReads e) (λ d.
        if_reads (d.cluster_name == "" || not (d.cluster_name == k)) (pure false) (pure true)
          SameReads-refl SameReads-refl))
      (λ x. if_reads (is_not_found x.kind) (pure false) (throw x) SameReads-refl SameReads-refl)
