-- ===== src/Drpc/Works/Demotion.antt =====
-- What moveVRGToSecondaryEverywhere has done when it answers true.
use ramen.Prelude.{
  ℕ, String, Bool, true, false, Option, none, some, List, [], ◌∷◌, ◌≡◌, refl, sym, subst,
  of_false_is_true, ◌∙◌, ap, inl, inr, assoc, assoc-put, arith, eq_refl, Bool-cases, ◌==◌,
  if◌then◌else◌, Option-cases, suc, eqb, All,
}
use ramen.Api.{ReplicationState, primary, secondary, is_primary, Vrg}
use ramen.Drpc.{
  Env, Hub, M, Result, ok, err, Error, pure, throw, ◌>>◌, and_then, handle, api_call, is_not_found,
}
use ramen.Drpc.Works.{
  get_work, put_work, switched_vrg, find_manifest_work, update_manifest_work, update_vrg_state,
  move_vrg_to_secondary, move_vrg_to_secondary_everywhere, replication_state_eqb,
}
use ramen.Drpc.Works.Update.{switched_vrg-replication_state, move_vrg_to_secondary-Promotes}
use ramen.Drpc.Effects.Promotion.{
  is_primary_at, is_primary_work, api_call-SameWorks, find_manifest_work-SameWorks,
}

-- The n-th call of the API is not answered NotFound: the object that it reads or writes is there,
-- or its being there is read from the state.
abbrev pub CoherentAt : Env → ℕ → Type 0
CoherentAt e n = (x : Error) → e.api n ≡ some x → is_not_found x.kind ≡ false

abbrev pub Coherent : Env → Type 0
Coherent e = (n : ℕ) → CoherentAt e n

-- What holds of the answer of a step and of the state after it.
module _ {A B : Type 0} (P : Result B → Hub → Type 0) where
  pub handle_post :
      (r : Result A) (h : Hub) (f : A → M B) (g : Error → M B)
      → ((a : A) → r ≡ ok a → P (f a h).0 (f a h).1)
      → ((x : Error) → r ≡ err x → P (g x h).0 (g x h).1)
      → P (handle r f g h).0 (handle r f g h).1
  handle_post (ok a) h f g hf hg = hf a refl
  handle_post (err x) h f g hf hg = hg x refl

  pub and_then_post :
      (r : Result A) (h : Hub) (f : A → M B)
      → ((a : A) → r ≡ ok a → P (f a h).0 (f a h).1)
      → ((x : Error) → r ≡ err x → P (err x) h)
      → P (and_then r f h).0 (and_then r f h).1
  and_then_post (ok a) h f hf hg = hf a refl
  and_then_post (err x) h f hf hg = hg x refl

-- The answer of a lookup in a cluster's ManifestWork.
abbrev pub Looked : Option Vrg → Result Vrg → Hub → Type 0
Looked o (ok v) h = o ≡ some v
Looked o (err x) h = is_not_found x.kind ≡ true → o ≡ none

-- An error of a call that is not NotFound.
abbrev IsOther : {A : Type 0} → Result A → Type 0
IsOther (ok u) = Unit
IsOther (err x) = is_not_found x.kind ≡ false

api_call-IsOther : (e : Env) (h : Hub) → CoherentAt e h.calls → IsOther (api_call e h).0
unfolding api_call
api_call-IsOther e h coherent = elim (Option-cases (e.api h.calls)) [
  | inl q ↦ rw (q, api_call) tt
  | inr (y, q) ↦ rw (q, api_call) (coherent y q)
]

get_work-Looked :
    (k : String) (h : Hub) → Looked (assoc k h.works) (get_work k h).0 (get_work k h).1
unfolding get_work
get_work-Looked k h = elim (Option-cases (assoc k h.works)) [
  | inl q ↦ rw (q, get_work) (λ _. refl)
  | inr (v, q) ↦ rw (q, get_work) refl
]

get_work-Looked_elsewhere :
    (o : Option Vrg) (k : String) (h : Hub)
    → assoc k h.works ≡ o
    → Looked o (get_work k h).0 (get_work k h).1
get_work-Looked_elsewhere o k h p =
    subst (λ q. Looked q (get_work k h).0 (get_work k h).1) p (get_work-Looked k h)

read-Looked :
    (e : Env) (k : String) (h : Hub)
    → CoherentAt e h.calls
    → Looked (assoc k h.works) ((api_call e >> get_work k) h).0 ((api_call e >> get_work k) h).1
read-Looked e k h coherent =
    and_then_post (Looked (assoc k h.works)) (api_call e h).0 (api_call e h).1 (λ _. get_work k)
      (λ u q.
        get_work-Looked_elsewhere (assoc k h.works) k (api_call e h).1
          (ap (assoc k) (api_call-SameWorks e h)))
      (λ x q n. of_false_is_true (sym (subst IsOther q (api_call-IsOther e h coherent)) ∙ n))

rethrown :
    (o : Option Vrg) (b : Bool) (x y : Error) (h : Hub)
    → is_not_found x.kind ≡ b
    → is_not_found y.kind ≡ is_not_found x.kind
    → Looked o (err x) h
    → Looked o
        ((if b then throw {A = Vrg} x else throw y) h).0
        ((if b then throw {A = Vrg} x else throw y) h).1
rethrown o true x y h p q l = l
rethrown o false x y h p q l = λ n. l (sym q ∙ n)

pub find_manifest_work-Looked :
    (e : Env) (k : String) (h : Hub)
    → CoherentAt e h.calls
    → Looked (assoc k h.works) (find_manifest_work e k h).0 (find_manifest_work e k h).1
unfolding find_manifest_work
find_manifest_work-Looked e k h coherent = elim (Bool-cases (k == "")) [
  | inl q ↦ rw (q, find_manifest_work) (λ n. of_false_is_true n)
  | inr q ↦
      let m = api_call e >> get_work k in
      let l = read-Looked e k h coherent in
      let o = assoc k h.works in
      rw (q, find_manifest_work)
        (handle_post (Looked o) (m h).0 (m h).1 (λ v. pure v) _
          (λ v p. subst (λ r. Looked o r (m h).1) p l)
          (λ x p.
            rethrown o (is_not_found x.kind) x _ (m h).1 refl refl
              (subst (λ r. Looked o r (m h).1) p l)))
]

-- The VRG of the cluster is not primary after the step, unless it failed for another reason than
-- that the ManifestWork is not there.
abbrev Demoted : String → {A : Type 0} → Result A → Hub → Type 0
Demoted k (ok u) h = is_primary_at k h ≡ false
Demoted k (err x) h = is_not_found x.kind ≡ true → is_primary_at k h ≡ false

put_work-Demoted :
    (k : String) (w : Vrg) (h : Hub)
    → is_primary w.replication_state ≡ false
    → is_primary_at k (put_work k w h).1 ≡ false
unfolding put_work
put_work-Demoted k w h p =
    ap is_primary_work (assoc-put k k w h.works)
    ∙ (subst (λ b. is_primary_work (if b then some w else assoc k h.works) ≡ false)
        (sym (eq_refl k)) p)

-- What a failed lookup tells of the state that it leaves.
absent-Demoted :
    (e : Env) (k : String) (h : Hub) (x : Error)
    → Coherent e
    → (find_manifest_work e k h).0 ≡ err x
    → is_not_found x.kind ≡ true
    → is_primary_at k (find_manifest_work e k h).1 ≡ false
absent-Demoted e k h x coherent p n =
    let h' = (find_manifest_work e k h).1 in
    let gone : assoc k h.works ≡ none =
      subst (λ r. Looked (assoc k h.works) r h') p
        (find_manifest_work-Looked e k h (coherent h.calls)) n in
    ap (λ w. is_primary_work (assoc k w)) (find_manifest_work-SameWorks e k h)
    ∙ ap is_primary_work gone

update_manifest_work-Demoted :
    (e : Env) (k : String) (w : Vrg) (h : Hub)
    → Coherent e
    → is_primary w.replication_state ≡ false
    → Demoted k (update_manifest_work e k w h).0 (update_manifest_work e k w h).1
unfolding update_manifest_work put_work
update_manifest_work-Demoted e k w h coherent p =
    let h' = (find_manifest_work e k h).1 in
    and_then_post (Demoted k) (find_manifest_work e k h).0 h' _
      (λ v q.
        and_then_post (Demoted k) (api_call e h').0 (api_call e h').1 (λ _. put_work k w)
          (λ u r. put_work-Demoted k w (api_call e h').1 p)
          (λ x r n.
            of_false_is_true
              (sym (subst IsOther r (api_call-IsOther e h' (coherent h'.calls))) ∙ n)))
      (λ x q n. absent-Demoted e k h x coherent q n)

secondary-not-primary :
    (s : ReplicationState) → replication_state_eqb s secondary ≡ true → is_primary s ≡ false
secondary-not-primary primary p = sym p
secondary-not-primary secondary p = refl

update_vrg_state-Demoted :
    (e : Env) (k : String) (h : Hub)
    → Coherent e
    → Demoted k (update_vrg_state e k secondary h).0 (update_vrg_state e k secondary h).1
unfolding update_vrg_state
update_vrg_state-Demoted e k h coherent =
    let h' = (find_manifest_work e k h).1 in
    handle_post (Demoted k) (find_manifest_work e k h).0 h' _ _
      (λ v p.
        let found : assoc k h.works ≡ some v =
          subst (λ r. Looked (assoc k h.works) r h') p
            (find_manifest_work-Looked e k h (coherent h.calls)) in
        let here : is_primary_at k h' ≡ is_primary v.replication_state =
          ap (λ w. is_primary_work (assoc k w)) (find_manifest_work-SameWorks e k h)
          ∙ ap is_primary_work found in
        let w = switched_vrg e h'.drpc k secondary v in
        elim (Bool-cases (replication_state_eqb v.replication_state secondary)) [
          | inl q ↦ rw (q) (here ∙ secondary-not-primary v.replication_state q)
          | inr q ↦ rw (q) (
              and_then_post (Demoted k) (update_manifest_work e k w h').0
                (update_manifest_work e k w h').1 (λ _. pure true)
                (λ u r.
                  subst (λ t. Demoted k t (update_manifest_work e k w h').1) r
                    (update_manifest_work-Demoted e k w h' coherent
                      (ap is_primary (switched_vrg-replication_state e h'.drpc k secondary v))))
                (λ x r.
                  subst (λ t. Demoted k t (update_manifest_work e k w h').1) r
                    (update_manifest_work-Demoted e k w h' coherent
                      (ap is_primary (switched_vrg-replication_state e h'.drpc k secondary v)))))
        ])
      (λ x p n. absent-Demoted e k h x coherent p n)

stays_demoted :
    (e : Env) (k : String) (cs : List String) (n : ℕ) (h : Hub)
    → is_primary_at k h ≡ false
    → is_primary_at k (move_vrg_to_secondary e cs n h).1 ≡ false
stays_demoted e k cs n h p =
    elim (Bool-cases (is_primary_at k (move_vrg_to_secondary e cs n h).1)) [
      | inl q ↦ elim (move_vrg_to_secondary-Promotes k (false ≡ true) e cs n h q) [
        | inl r ↦ of_false_is_true (sym p ∙ r)
        | inr r ↦ of_false_is_true r
      ]
      | inr q ↦ q
    ]

-- Nothing is counted as a failure, and no VRG of the list is primary.
abbrev AllDemoted : ℕ → List String → Result ℕ → Hub → Type 0
AllDemoted n cs r h = r ≡ ok 0 → (n ≡ 0) × All (λ c. is_primary_at c h ≡ false) cs

counted : (b : Bool) (n : ℕ) → (if b then n else suc n) ≡ 0 → (b ≡ true) × (n ≡ 0)
counted true n p = (refl, p)
counted false n p = of_false_is_true (ground arith)

count_of : Result ℕ → ℕ → ℕ
count_of (ok n) m = n
count_of (err x) m = m

move_vrg_to_secondary-AllDemoted :
    (e : Env) (cs : List String) (n : ℕ) (h : Hub)
    → Coherent e
    → AllDemoted n cs (move_vrg_to_secondary e cs n h).0 (move_vrg_to_secondary e cs n h).1
unfolding move_vrg_to_secondary count_of
move_vrg_to_secondary-AllDemoted e [] n h coherent = λ p. (ap (λ r. count_of r n) p, tt)
move_vrg_to_secondary-AllDemoted e (k ∷ cs) n h coherent =
    let h' = (update_vrg_state e k secondary h).1 in
    let demoted = update_vrg_state-Demoted e k h coherent in
    handle_post (AllDemoted n (k ∷ cs)) (update_vrg_state e k secondary h).0 h' _ _
      (λ b q p.
        let (zero_n, rest) = move_vrg_to_secondary-AllDemoted e cs n h' coherent p in
        (zero_n, (stays_demoted e k cs n h' (subst (λ r. Demoted k r h') q demoted), rest)))
      (λ x q p.
        let m = if is_not_found x.kind then n else suc n in
        let (zero_m, rest) = move_vrg_to_secondary-AllDemoted e cs m h' coherent p in
        let (absent, zero_n) = counted (is_not_found x.kind) n zero_m in
        (zero_n, (stays_demoted e k cs m h' (subst (λ r. Demoted k r h') q demoted absent), rest)))

abbrev truth : Result Bool → Bool
truth (ok b) = b
truth (err x) = false

counted_none :
    (r : Result ℕ) (h : Hub) → (and_then r (λ n. pure (eqb n 0)) h).0 ≡ ok true → r ≡ ok 0
counted_none (ok n) h p = ap ok (ground (arith, ap truth p))
counted_none (err x) h p = of_false_is_true (ap truth p)

after_count : (r : Result ℕ) (h : Hub) → (and_then r (λ n. pure (eqb n 0)) h).1 ≡ h
after_count (ok n) h = refl
after_count (err x) h = refl

-- If moveVRGToSecondaryEverywhere answers true, and the API answers NotFound only where there is
-- no ManifestWork, then on no cluster of the policy is the VRG of the ManifestWork primary.
pub move_vrg_to_secondary_everywhere-AllDemoted :
    (e : Env) (h : Hub)
    → Coherent e
    → (move_vrg_to_secondary_everywhere e h).0 ≡ ok true
    → All (λ c. is_primary_at c (move_vrg_to_secondary_everywhere e h).1 ≡ false) e.policy_clusters
unfolding move_vrg_to_secondary_everywhere
move_vrg_to_secondary_everywhere-AllDemoted e h coherent p =
    let (r, h') = move_vrg_to_secondary e e.policy_clusters 0 h in
    subst (λ i. All (λ c. is_primary_at c i ≡ false) e.policy_clusters) (sym (after_count r h'))
      (move_vrg_to_secondary-AllDemoted e e.policy_clusters 0 h coherent (counted_none r h' p)).1
