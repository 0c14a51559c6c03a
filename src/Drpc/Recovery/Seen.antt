-- ===== src/Drpc/Recovery/Seen.antt =====
-- What the query of the clusters has seen.
use ramen.Prelude.{
  suc, String, Bool, true, false, Option, none, some, List, [], ◌∷◌, ◌≡◌, refl, sym, subst, ◌∙◌, ap,
  inl, inr, ◌⊎◌, ◌↔◌, assoc, assoc-put, ◌==◌, eq_of_==, eq_refl, if◌then◌else◌, ◌+◌, arith,
  of_false_is_true, length, select, eqb,
}
use ramen.Api.{Vrg, DrCluster}
use ramen.Drpc.{Result, ok, err, Error, is_not_found}
use ramen.Drpc.Recovery.{
  Queried, query_one, query_each, nothing_queried, get_vrgs_from_managed_clusters,
}

-- A DRCluster of the name that is not being deleted is among the clusters, and its view gives the
-- VRG.
abbrev pub Present : (String → Result Vrg) → String → Vrg → List DrCluster → Type 0
Present view c v [] = false ≡ true
Present view c v (k ∷ ks) =
    ((k.name ≡ c) × (k.deleted ≡ false) × (view c ≡ ok v)) ⊎ Present view c v ks

-- A view answers with a VRG, or that there is none.
abbrev pub has_answered : Result Vrg → Bool
has_answered (ok v) = true
has_answered (err x) = is_not_found x.kind

abbrev or_vrg : Vrg → Option Vrg → Vrg
or_vrg v none = v
or_vrg v (some w) = w

abbrev vrg_or : Vrg → Result Vrg → Vrg
vrg_or v (ok w) = w
vrg_or v (err x) = v

abbrev is_some : Option Vrg → Bool
is_some none = false
is_some (some v) = true

if_seen :
    (b : Bool) (p r : Queried) (c : String) (v : Vrg) (T : Type 0)
    → (b ≡ true → assoc c p.vrgs ≡ some v → T)
    → (b ≡ false → assoc c r.vrgs ≡ some v → T)
    → assoc c (if b then p else r).vrgs ≡ some v
    → T
if_seen true p r c v T f g h = f refl h
if_seen false p r c v T f g h = g refl h

if_found :
    (b : Bool) (p r : Queried) (c : String) (v : Vrg)
    → (b ≡ true → assoc c p.vrgs ≡ some v)
    → (b ≡ false → assoc c r.vrgs ≡ some v)
    → assoc c (if b then p else r).vrgs ≡ some v
if_found true p r c v f g = f refl
if_found false p r c v f g = g refl

put_seen :
    (b : Bool) (k c : String) (w v : Vrg) (o : Option Vrg)
    → (k == c) ≡ b
    → (if b then some w else o) ≡ some v
    → (o ≡ some v) ⊎ ((k ≡ c) × (w ≡ v))
put_seen true k c w v o e h = inr (eq_of_== k c e, ap (or_vrg v) h)
put_seen false k c w v o e h = inl h

put_found :
    (b : Bool) (k c : String) (w v : Vrg) (o : Option Vrg)
    → (k == c) ≡ b
    → (k ≡ c → w ≡ v)
    → o ≡ some v
    → (if b then some w else o) ≡ some v
put_found true k c w v o e f h = ap some (f (eq_of_== k c e))
put_found false k c w v o e f h = h

module _ (view : String → Result Vrg) (c : String) (v : Vrg) where
  query_one-seen :
      (k : DrCluster) (r : Result Vrg) (q : Queried)
      → view k.name ≡ r
      → assoc c (query_one k r q).vrgs ≡ some v
      → (assoc c q.vrgs ≡ some v) ⊎ ((k.name ≡ c) × (k.deleted ≡ false) × (view c ≡ ok v))
  unfolding query_one
  query_one-seen k (err x) q at h =
      if_seen (is_not_found x.kind) _ _ c v _ (λ _ p. inl p) (λ _ p. inl p) h
  query_one-seen k (ok w) q at h =
      if_seen k.deleted _ _ c v _ (λ _ p. inl p)
        (λ kept p.
          elim (put_seen (k.name == c) k.name c w v (assoc c q.vrgs) refl
            (sym (assoc-put k.name c w q.vrgs) ∙ p)) [
              | inl o ↦ inl o
              | inr (n, same) ↦ inr (n, kept, sym (ap view n) ∙ at ∙ ap ok same)
            ])
        h

  query_one-kept :
      (k : DrCluster) (r : Result Vrg) (q : Queried)
      → view k.name ≡ r
      → view c ≡ ok v
      → assoc c q.vrgs ≡ some v
      → assoc c (query_one k r q).vrgs ≡ some v
  unfolding query_one
  query_one-kept k (err x) q at seen h = if_found (is_not_found x.kind) _ _ c v (λ _. h) (λ _. h)
  query_one-kept k (ok w) q at seen h =
      if_found k.deleted _ _ c v (λ _. h)
        (λ _.
          assoc-put k.name c w q.vrgs
          ∙ put_found (k.name == c) k.name c w v (assoc c q.vrgs) refl
              (λ n. ap (vrg_or v) (sym at ∙ ap view n ∙ seen)) h)

  query_one-found :
      (k : DrCluster) (r : Result Vrg) (q : Queried)
      → r ≡ ok v
      → k.name ≡ c
      → k.deleted ≡ false
      → assoc c (query_one k r q).vrgs ≡ some v
  unfolding query_one
  query_one-found k (err x) q at n kept = absurd (cc at)
  query_one-found k (ok w) q at n kept =
      if_found k.deleted _ _ c v (λ gone. of_false_is_true (sym kept ∙ gone))
        (λ _.
          assoc-put k.name c w q.vrgs
          ∙ ap (λ b. if b then some w else assoc c q.vrgs) (ap (λ x. x == c) n ∙ eq_refl c)
          ∙ ap (λ x. some (vrg_or v x)) at)

  query_each-seen :
      (cs : List DrCluster) (q : Queried)
      → assoc c (query_each view cs q).vrgs ≡ some v
      → (assoc c q.vrgs ≡ some v) ⊎ Present view c v cs
  unfolding query_each
  query_each-seen [] q h = inl h
  query_each-seen (k ∷ cs) q h = elim (query_each-seen cs (query_one k (view k.name) q) h) [
    | inr later ↦ inr (inr later)
    | inl o ↦ elim (query_one-seen k (view k.name) q refl o) [
      | inl before ↦ inl before
      | inr here ↦ inr (inl here)
    ]
  ]

  query_each-kept :
      (cs : List DrCluster) (q : Queried)
      → view c ≡ ok v
      → assoc c q.vrgs ≡ some v
      → assoc c (query_each view cs q).vrgs ≡ some v
  unfolding query_each
  query_each-kept [] q seen h = h
  query_each-kept (k ∷ cs) q seen h =
      query_each-kept cs (query_one k (view k.name) q) seen
        (query_one-kept k (view k.name) q refl seen h)

  query_each-found :
      (cs : List DrCluster) (q : Queried)
      → Present view c v cs
      → assoc c (query_each view cs q).vrgs ≡ some v
  unfolding query_each
  query_each-found [] q p = of_false_is_true p
  query_each-found (k ∷ cs) q (inl (n, kept, seen)) =
      query_each-kept cs (query_one k (view k.name) q) seen
        (query_one-found k (view k.name) q (ap view n ∙ seen) n kept)
  query_each-found (k ∷ cs) q (inr p) = query_each-found cs (query_one k (view k.name) q) p

query_one-num :
    (k : DrCluster) (r : Result Vrg) (q : Queried)
    → (query_one k r q).num_clusters_queried_successfully ≡ (
        if has_answered r
        then suc q.num_clusters_queried_successfully
        else q.num_clusters_queried_successfully)
unfolding query_one
query_one-num k (err x) q = ground arith
query_one-num k (ok w) q = ground arith

-- The clusters that have answered.
abbrev pub answering : (String → Result Vrg) → List DrCluster → List DrCluster
answering view clusters = select (λ k. has_answered (view k.name)) clusters

query_each-num :
    (view : String → Result Vrg) (cs : List DrCluster) (q : Queried)
    → (query_each view cs q).num_clusters_queried_successfully
      ≡ length (answering view cs) + q.num_clusters_queried_successfully
unfolding query_each
query_each-num view [] q = ground arith
query_each-num view (k ∷ cs) q =
    ground
      (arith, query_each-num view cs (query_one k (view k.name) q), query_one-num k (view k.name) q)

-- What the loop has found, of one cluster and one VRG.
abbrev Reported : (String → Result Vrg) → List DrCluster → String → Vrg → Queried → Type 0
Reported view clusters c v q =
    (q.num_clusters_queried_successfully ≡ length (answering view clusters))
    × ((assoc c q.vrgs ≡ some v) ↔ Present view c v clusters)

query_each-Reported :
    (view : String → Result Vrg) (clusters : List DrCluster) (c : String) (v : Vrg)
    → Reported view clusters c v (query_each view clusters nothing_queried)
query_each-Reported view clusters c v = (
  query_each-num view clusters nothing_queried ∙ ground arith,
  (
    λ h. elim (query_each-seen view c v clusters nothing_queried h) [
      | inl p ↦ of_false_is_true (ap is_some p)
      | inr p ↦ p
    ],
    query_each-found view c v clusters nothing_queried,
  ),
)

abbrev is_ok : Result Queried → Bool
is_ok (ok q) = true
is_ok (err x) = false

abbrev or_query : Queried → Result Queried → Queried
or_query q (ok r) = r
or_query q (err x) = q

-- The two tests after the loop.
checked :
    (all nothing : Bool) (q r : Queried) (x : Error) (P : Queried → Type 0)
    → (if all then ok (record q { failed_cluster = "" }) else if nothing then err x else ok q)
      ≡ ok r
    → P q
    → P (record q { failed_cluster = "" })
    → P r
checked true nothing q r x P h p p' = subst P (ap (or_query q) h) p'
checked false true q r x P h p p' = of_false_is_true (ap is_ok h)
checked false false q r x P h p p' = subst P (ap (or_query q) h) p

-- If getVRGsFromManagedClusters returns without an error, then the number that it returns is that
-- of the clusters whose view answers, with a VRG or that there is none; and it returns a VRG for a
-- cluster name exactly when a DRCluster of that name that is not being deleted is among the clusters
-- and the view of the name gives that VRG.
pub get_vrgs_from_managed_clusters-Seen :
    (view : String → Result Vrg) (clusters : List DrCluster) (q : Queried) (c : String) (v : Vrg)
    → get_vrgs_from_managed_clusters view clusters ≡ ok q
    → (q.num_clusters_queried_successfully ≡ length (answering view clusters))
      × ((assoc c q.vrgs ≡ some v) ↔ Present view c v clusters)
unfolding get_vrgs_from_managed_clusters
get_vrgs_from_managed_clusters-Seen view clusters q c v h =
    let r = query_each view clusters nothing_queried in
    let reported = query_each-Reported view clusters c v in
    checked (eqb r.num_clusters_queried_successfully (length clusters))
      (eqb r.num_clusters_queried_successfully 0) r q _ (Reported view clusters c v) h reported
      reported
