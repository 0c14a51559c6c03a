-- ===== src/Drpc/Works/Kept.antt =====
-- Updates of a ManifestWork that keep the replication state of its VRG: they make no VRG primary.
use ramen.Prelude.{
  String, Bool, true, false, not, Option, none, some, ◌≡◌, refl, sym, subst, ◌∙◌, ap, inl, inr,
  assoc, Bool-cases, ◌==◌, if◌then◌else◌, Option-cases,
}
use ramen.Api.{Vrg, is_primary}
use ramen.Drpc.{
  Env, Hub, M, Result, ok, err, Error, throw, ◌>>◌, try, maybe, api_call, is_not_found,
}
use ramen.Drpc.Fields.{update_vrg_optional_fields}
use ramen.Drpc.Works.{
  get_work, put_work, find_manifest_work, update_manifest_work, update_vrg_manifest_work,
  update_vrg_to_prepare_for_final_sync, update_vrg_to_run_final_sync, ensure_vrg_manifest_work,
}
use ramen.Drpc.Works.Update.{update_vrg_optional_fields-replication_state}
use ramen.Drpc.Works.Demotion.{handle_post, and_then_post}
use ramen.Drpc.Effects.{Within}
use ramen.Drpc.Effects.Promotion.{
  is_primary_at, is_primary_work, Promotes, Promotes-trans, SameWorks-Promotes, try-Promotes,
  if_Promotes, api_call-Promotes, put_work-Promotes, update_manifest_work-Promotes,
  api_call-SameWorks, find_manifest_work-SameWorks,
}

-- An answer is what the API server has.
abbrev Found : Option Vrg → Result Vrg → Hub → Type 0
Found o (ok v) h = o ≡ some v
Found o (err x) h = Unit

get_work-Found : (k : String) (h : Hub) → Found (assoc k h.works) (get_work k h).0 (get_work k h).1
unfolding get_work
get_work-Found k h = elim (Option-cases (assoc k h.works)) [
  | inl q ↦ rw (q, get_work) tt
  | inr (v, q) ↦ rw (q, get_work) refl
]

read-Found :
    (e : Env) (k : String) (h : Hub)
    → Found (assoc k h.works) ((api_call e >> get_work k) h).0 ((api_call e >> get_work k) h).1
read-Found e k h =
    and_then_post (Found (assoc k h.works)) (api_call e h).0 (api_call e h).1 (λ _. get_work k)
      (λ u q.
        subst (λ o. Found o (get_work k (api_call e h).1).0 (get_work k (api_call e h).1).1)
          (ap (assoc k) (api_call-SameWorks e h)) (get_work-Found k (api_call e h).1))
      (λ x q. tt)

if_throw-Found :
    (o : Option Vrg) (b : Bool) (x y : Error) (h : Hub)
    → Found o
        ((if b then throw {A = Vrg} x else throw y) h).0
        ((if b then throw {A = Vrg} x else throw y) h).1
if_throw-Found o true x y h = tt
if_throw-Found o false x y h = tt

find_manifest_work-Found :
    (e : Env) (k : String) (h : Hub)
    → Found (assoc k h.works) (find_manifest_work e k h).0 (find_manifest_work e k h).1
unfolding find_manifest_work
find_manifest_work-Found e k h = elim (Bool-cases (k == "")) [
  | inl q ↦ rw (q, find_manifest_work) tt
  | inr q ↦
      let m = api_call e >> get_work k in
      let o = assoc k h.works in
      rw (q, find_manifest_work)
        (handle_post (Found o) (m h).0 (m h).1 (λ v. λ i. (ok v, i)) _
          (λ v p. subst (λ r. Found o r (m h).1) p (read-Found e k h))
          (λ x p. if_throw-Found o (is_not_found x.kind) x _ (m h).1))
]

module _ (c : String) (S : Type 0) where
  -- What is done with a VRG that was found may use that it is the VRG that is there.
  pub found-Promotes :
      {B : Type 0} (e : Env) (k : String) (f : Vrg → M B) (g : Error → M B)
      → ((v : Vrg) (h : Hub) → assoc k h.works ≡ some v → Promotes c S h (f v h).1)
      → ((x : Error) → Within (Promotes c S) (g x))
      → Within (Promotes c S) (try (find_manifest_work e k) f g)
  found-Promotes e k f g hf hg h =
      let m = find_manifest_work e k in
      let same = find_manifest_work-SameWorks e k in
      let start : Promotes c S h (m h).1 = SameWorks-Promotes c S m same h in
      handle_post (λ _ j. Promotes c S h j) (m h).0 (m h).1 f g
        (λ v p.
          let at =
            subst (λ r. Found (assoc k h.works) r (m h).1) p (find_manifest_work-Found e k h) in
          Promotes-trans c S h (m h).1 (f v (m h).1).1 start
            (hf v (m h).1 (ap (assoc k) (same h) ∙ at)))
        (λ x p. Promotes-trans c S h (m h).1 (g x (m h).1).1 start (hg x (m h).1))

  -- A write of a VRG with the replication state of the one that is there.
  pub kept-Promotes :
      {B : Type 0} (k : String) (v w : Vrg) (h : Hub) (n : M B)
      → assoc k h.works ≡ some v
      → w.replication_state ≡ v.replication_state
      → ((T : Type 0)
          → (k ≡ c → is_primary w.replication_state ≡ true → T)
          → Within (Promotes c T) n)
      → Promotes c S h (n h).1
  kept-Promotes k v w h n at same hn p =
      let before : k ≡ c → is_primary w.replication_state ≡ true → is_primary_at c h ≡ true = λ q r.
        subst (λ k'. is_primary_at k' h ≡ true) q
          (ap is_primary_work at ∙ sym (ap is_primary same) ∙ r) in
      elim (hn (is_primary_at c h ≡ true) before h p) [ inl a ↦ inl a | inr b ↦ inl b ]

  pub update_vrg_manifest_work-Promotes :
      (e : Env) (k : String) (v : Vrg)
      → (k ≡ c → is_primary v.replication_state ≡ true → S)
      → Within (Promotes c S) (update_vrg_manifest_work e k v)
  unfolding update_vrg_manifest_work
  update_vrg_manifest_work-Promotes e k v s =
      try-Promotes c S (api_call e) (λ _. put_work k v) _ (api_call-Promotes c S e)
        (λ _ _. put_work-Promotes c S k v s) (λ x h p. inl p)

module _ (c : String) (S : Type 0) where
  pub if_at :
      {B : Type 0} (b : Bool) (m n : M B) (h : Hub)
      → Promotes c S h (m h).1
      → Promotes c S h (n h).1
      → Promotes c S h ((if b then m else n) h).1
  if_at true m n h p q = p
  if_at false m n h p q = q

  pub update_vrg_to_prepare_for_final_sync-Promotes :
      (e : Env) (k : String) → Within (Promotes c S) (update_vrg_to_prepare_for_final_sync e k)
  unfolding update_vrg_to_prepare_for_final_sync
  update_vrg_to_prepare_for_final_sync-Promotes e k =
      found-Promotes c S e k _ _
        (λ v h at.
          let u = record v { prepare_for_final_sync = true; run_final_sync = false } in
          let w = update_vrg_optional_fields e h.drpc k (assoc k e.vrgs) u in
          if_at v.prepare_for_final_sync _ _ h (λ p. inl p)
            (kept-Promotes c S k v w h (update_manifest_work e k w) at
              (update_vrg_optional_fields-replication_state e h.drpc k (assoc k e.vrgs) u)
              (λ T. update_manifest_work-Promotes c T e k w)))
        (λ x h p. inl p)

  pub update_vrg_to_run_final_sync-Promotes :
      (e : Env) (k : String) → Within (Promotes c S) (update_vrg_to_run_final_sync e k)
  unfolding update_vrg_to_run_final_sync
  update_vrg_to_run_final_sync-Promotes e k =
      found-Promotes c S e k _ _
        (λ v h at.
          let u = record v { run_final_sync = true; prepare_for_final_sync = false } in
          let w = update_vrg_optional_fields e h.drpc k (assoc k e.vrgs) u in
          if_at v.run_final_sync _ _ h (λ p. inl p)
            (kept-Promotes c S k v w h (update_manifest_work e k w) at
              (update_vrg_optional_fields-replication_state e h.drpc k (assoc k e.vrgs) u)
              (λ T. update_manifest_work-Promotes c T e k w)))
        (λ x h p. inl p)

  pub maybe_at :
      {A B : Type 0} (f : M B) (g : A → M B) (o : Option A) (h : Hub)
      → Promotes c S h (f h).1
      → ((a : A) → Promotes c S h (g a h).1)
      → Promotes c S h (maybe f g o h).1
  maybe_at f g none h hf hg = hf
  maybe_at f g (some a) h hf hg = hg a

  pub ensure_vrg_manifest_work-Promotes :
      (e : Env) (k : String) → Within (Promotes c S) (ensure_vrg_manifest_work e k)
  unfolding ensure_vrg_manifest_work
  ensure_vrg_manifest_work-Promotes e k =
      found-Promotes c S e k _ _
        (λ v h at.
          if_at (not (is_primary v.replication_state)) _ _ h (λ p. inl p)
            (maybe_at _ _ (assoc k e.vrgs) h (λ p. inl p)
              (λ view.
                let w = update_vrg_optional_fields e h.drpc k (some view) v in
                kept-Promotes c S k v w h (update_vrg_manifest_work e k w) at
                  (update_vrg_optional_fields-replication_state e h.drpc k (some view) v)
                  (λ T. update_vrg_manifest_work-Promotes c T e k w))))
        (λ x. if_Promotes c S (is_not_found x.kind) _ _ (λ _ h p. inl p) (λ _ h p. inl p))
