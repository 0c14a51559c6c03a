-- ===== src/Drpc/NewWorks/Existing.antt =====
-- The safety latch of createVRGManifestWork: a VRG that is there is left as it is.
use ramen.Prelude.{
  String, Bool, true, false, not, Option, none, some, ◌≡◌, refl, sym, subst, ◌∙◌, ap,
  of_false_is_true, assoc, if◌then◌else◌,
}
use ramen.Api.{ReplicationState, Vrg}
use ramen.Drpc.{Env, Hub, M, Result, ok, err, is_not_found}
use ramen.Drpc.Works.{get_vrg_from_manifest_work}
use ramen.Drpc.Works.Demotion.{CoherentAt, Looked, handle_post, find_manifest_work-Looked}
use ramen.Drpc.NewWorks.{ensure_namespace_manifest_work, create_vrg_manifest_work}
use ramen.Drpc.Effects.Promotion.{find_manifest_work-SameWorks}
use ramen.Drpc.Effects.Reads.{ensure_namespace_manifest_work-SameWorks}

-- The step fails, and leaves the ManifestWorks as they were.
abbrev Refused : {A : Type 0} → Hub → Result A → Hub → Type 0
Refused h (ok a) h' = false ≡ true
Refused h (err x) h' = h'.works ≡ h.works

if_known :
    {A : Type 0} (b : Bool) (m n : M A) (P : Result A → Hub → Type 0) (h : Hub)
    → b ≡ true
    → P (m h).0 (m h).1
    → P ((if b then m else n) h).0 ((if b then m else n) h).1
if_known true m n P h q p = p
if_known false m n P h q p = of_false_is_true q

some-none : (o : Option Vrg) (v : Vrg) → o ≡ some v → o ≡ none → false ≡ true
some-none o v p q = ap is_some (sym q ∙ p)
  where
    is_some : Option Vrg → Bool
    is_some none = false
    is_some (some w) = true

not-true : (b : Bool) → (b ≡ true → false ≡ true) → not b ≡ true
not-true true f = f refl
not-true false f = refl

-- createVRGManifestWork for a cluster whose ManifestWork has a VRG already returns an error, and
-- leaves every VRG ManifestWork as it is, if the one call of the API that looks this ManifestWork
-- up, after those for the namespace, is not answered NotFound. The calls for the namespace may be.
pub create_vrg_manifest_work-Refused :
    (e : Env) (home_cluster : String) (rep_state : ReplicationState) (v : Vrg) (h : Hub)
    → CoherentAt e (ensure_namespace_manifest_work e home_cluster h).1.calls
    → assoc home_cluster h.works ≡ some v
    → Refused h
        (create_vrg_manifest_work e home_cluster rep_state h).0
        (create_vrg_manifest_work e home_cluster rep_state h).1
unfolding create_vrg_manifest_work
create_vrg_manifest_work-Refused e k s v h coherent at =
    let namespaces = ensure_namespace_manifest_work e k in
    let same = ensure_namespace_manifest_work-SameWorks e k h in
    let i = (namespaces h).1 in
    let find = get_vrg_from_manifest_work e k in
    let j = (find i).1 in
    let unchanged = find_manifest_work-SameWorks e k i ∙ same in
    let there = ap (assoc k) same ∙ at in
    handle_post (Refused {A = Unit {0}} h) (namespaces h).0 i _ _
      (λ _ _.
        handle_post (Refused {A = Unit {0}} h) (find i).0 j _ _ (λ w _. unchanged)
          (λ x q.
            let looked =
              subst (λ r. Looked (assoc k i.works) r j) q
                (find_manifest_work-Looked e k i coherent) in
            if_known (not (is_not_found x.kind)) _ _ (Refused {A = Unit {0}} h) j
              (not-true (is_not_found x.kind) (λ n. some-none (assoc k i.works) v there (looked n)))
              unchanged))
      (λ x _. same)
