-- ===== src/Drpc/Effects/Promotion.antt =====
-- The VRG ManifestWorks across a step: which steps leave them alone, and which may make the VRG
-- of a cluster primary.
use ramen.Prelude.{
  String, Bool, true, false, not, Option, none, some, ◌≡◌, refl, sym, subst, ◌∙◌, ap, ◌⊎◌, inl, inr,
  assoc, assoc-put, Bool-cases, ◌==◌, eq_of_==, if◌then◌else◌, Option-cases,
}
use ramen.Api.{is_primary, Vrg}
use ramen.Drpc.{
  Env, Hub, Drpc, modify_drpc, M, Error, pure, maybe, ◌>>=◌, ◌>>◌, try, api_call, is_not_found,
}
use ramen.Drpc.Works.{
  get_work, put_work, find_manifest_work, update_manifest_work, create_or_update_manifest_work,
  operation_result_updated, operation_result_created,
}
use ramen.Drpc.Effects.{Within, Answers, bind_lem, try_lem, if_lem, Refl, Trans}

-- The VRG in the ManifestWork of the cluster is primary.
abbrev pub is_primary_work : Option Vrg → Bool
is_primary_work none = false
is_primary_work (some v) = is_primary v.replication_state

abbrev pub is_primary_at : String → Hub → Bool
is_primary_at c h = is_primary_work (assoc c h.works)

abbrev pub SameWorks : Hub → Hub → Type 0
SameWorks h h' = h'.works ≡ h.works

pub SameWorks-refl : Refl SameWorks
SameWorks-refl h = refl

pub SameWorks-trans : Trans SameWorks
SameWorks-trans h i j p q = q ∙ p

-- A step that makes the VRG of the cluster primary has the reason S.
abbrev pub Promotes : String → Type 0 → Hub → Hub → Type 0
Promotes c S h h' = is_primary_at c h' ≡ true → (is_primary_at c h ≡ true) ⊎ S

pub Promotes-trans : (c : String) (S : Type 0) → Trans (Promotes c S)
Promotes-trans c S h i j p q hj = elim (q hj) [ inl hi ↦ p hi | inr s ↦ inr s ]

pub SameWorks-at : (c : String) (S : Type 0) (h h' : Hub) → SameWorks h h' → Promotes c S h h'
SameWorks-at c S h h' same p = inl (sym (ap (λ w. is_primary_work (assoc c w)) same) ∙ p)

pub SameWorks-Promotes :
    {A : Type 0} (c : String) (S : Type 0) (m : M A) → Within SameWorks m → Within (Promotes c S) m
SameWorks-Promotes c S m hm h = SameWorks-at c S h (m h).1 (hm h)

pub api_call-SameWorks : (e : Env) → Within SameWorks (api_call e)
unfolding api_call
api_call-SameWorks e h = elim (Option-cases (e.api h.calls)) [
  | inl p ↦ rw (p, api_call) refl
  | inr (x, p) ↦ rw (p, api_call) refl
]

pub get_work-SameWorks : (c : String) → Within SameWorks (get_work c)
unfolding get_work
get_work-SameWorks c h = elim (Option-cases (assoc c h.works)) [
  | inl p ↦ rw (p, get_work) refl
  | inr (x, p) ↦ rw (p, get_work) refl
]

pub find_manifest_work-SameWorks :
    (e : Env) (c : String) → Within SameWorks (find_manifest_work e c)
unfolding find_manifest_work
find_manifest_work-SameWorks e c =
    if_lem SameWorks (c == "") _ _ (λ _. SameWorks-refl)
      (λ _.
        try_lem SameWorks SameWorks-trans (api_call e >> get_work c) _ _
          (bind_lem SameWorks SameWorks-trans (api_call e) (λ _. get_work c) (api_call-SameWorks e)
            (λ _ _. get_work-SameWorks c))
          (λ a _ i. refl)
          (λ x.
            if_lem SameWorks (is_not_found x.kind) _ _ (λ _. SameWorks-refl) (λ _. SameWorks-refl)))

module _ (c : String) (S : Type 0) where
  pub bind-Promotes :
      {A B : Type 0} (m : M A) (f : A → M B)
      → Within (Promotes c S) m
      → ((a : A) → Answers m a → Within (Promotes c S) (f a))
      → Within (Promotes c S) (m >>= f)
  bind-Promotes = bind_lem (Promotes c S) (Promotes-trans c S)

  pub try-Promotes :
      {A B : Type 0} (m : M A) (f : A → M B) (g : Error → M B)
      → Within (Promotes c S) m
      → ((a : A) → Answers m a → Within (Promotes c S) (f a))
      → ((x : Error) → Within (Promotes c S) (g x))
      → Within (Promotes c S) (try m f g)
  try-Promotes = try_lem (Promotes c S) (Promotes-trans c S)

  pub if_Promotes :
      {A : Type 0} (b : Bool) (m n : M A)
      → (b ≡ true → Within (Promotes c S) m)
      → (b ≡ false → Within (Promotes c S) n)
      → Within (Promotes c S) (if b then m else n)
  if_Promotes = if_lem (Promotes c S)

  pub seq-Promotes :
      {A B : Type 0} (m : M A) (n : M B)
      → Within (Promotes c S) m
      → Within (Promotes c S) n
      → Within (Promotes c S) (m >> n)
  seq-Promotes m n hm hn = bind-Promotes m (λ _. n) hm (λ _ _. hn)

  pub note-Promotes : (f : Drpc → Drpc) → Within (Promotes c S) (modify_drpc f)
  note-Promotes f h p = inl p

  pub maybe-Promotes :
      {A B : Type 0} (f : M B) (g : A → M B) (o : Option A)
      → Within (Promotes c S) f
      → ((a : A) → o ≡ some a → Within (Promotes c S) (g a))
      → Within (Promotes c S) (maybe f g o)
  maybe-Promotes f g none hf hg = hf
  maybe-Promotes f g (some a) hf hg = hg a refl

  pub api_call-Promotes : (e : Env) → Within (Promotes c S) (api_call e)
  api_call-Promotes e = SameWorks-Promotes c S (api_call e) (api_call-SameWorks e)

  pub get_work-Promotes : (k : String) → Within (Promotes c S) (get_work k)
  get_work-Promotes k = SameWorks-Promotes c S (get_work k) (get_work-SameWorks k)

  pub find_manifest_work-Promotes :
      (e : Env) (k : String) → Within (Promotes c S) (find_manifest_work e k)
  find_manifest_work-Promotes e k =
      SameWorks-Promotes c S (find_manifest_work e k) (find_manifest_work-SameWorks e k)

  -- A write of a VRG to a ManifestWork.
  pub put_work-Promotes :
      (k : String) (v : Vrg)
      → (k ≡ c → is_primary v.replication_state ≡ true → S)
      → Within (Promotes c S) (put_work k v)
  unfolding put_work
  put_work-Promotes k v s h p =
      let p' = subst (λ o. is_primary_work o ≡ true) (assoc-put k c v h.works) p in
      let P : Bool → Type 0 = λ b. is_primary_work (if b then some v else assoc c h.works) ≡ true in
      elim (Bool-cases (k == c)) [
        | inl q ↦ inr (s (eq_of_== k c q) (subst P q p'))
        | inr q ↦ inl (subst P q p')
      ]

  pub update_manifest_work-Promotes :
      (e : Env) (k : String) (v : Vrg)
      → (k ≡ c → is_primary v.replication_state ≡ true → S)
      → Within (Promotes c S) (update_manifest_work e k v)
  unfolding update_manifest_work
  update_manifest_work-Promotes e k v s =
      bind-Promotes (find_manifest_work e k) _ (find_manifest_work-Promotes e k) (λ _ _.
        bind-Promotes (api_call e) (λ _. put_work k v) (api_call-Promotes e)
          (λ _ _. put_work-Promotes k v s))

  pub create_or_update_manifest_work-Promotes :
      (e : Env) (k : String) (v : Vrg)
      → (k ≡ c → is_primary v.replication_state ≡ true → S)
      → Within (Promotes c S) (create_or_update_manifest_work e k v)
  unfolding create_or_update_manifest_work
  create_or_update_manifest_work-Promotes e k v s =
      let read : Within (Promotes c S) (api_call e >> get_work k) =
        bind-Promotes (api_call e) (λ _. get_work k) (api_call-Promotes e)
          (λ _ _. get_work-Promotes k) in
      try-Promotes (api_call e >> get_work k) _ _ read
        (λ found _.
          if_Promotes (e.deep_equal found v) _ _ (λ _ h p. inl p)
            (λ _.
              try-Promotes (api_call e >> get_work k >> api_call e) _ _
                (bind-Promotes (api_call e >> get_work k) (λ _. api_call e) read
                  (λ _ _. api_call-Promotes e))
                (λ _ _.
                  bind-Promotes (put_work k v) (λ _. pure operation_result_updated)
                    (put_work-Promotes k v s) (λ _ _ h p. inl p))
                (λ x h p. inl p)))
        (λ x.
          if_Promotes (not (is_not_found x.kind)) _ _ (λ _ h p. inl p)
            (λ _.
              bind-Promotes (api_call e >> put_work k v) (λ _. pure operation_result_created)
                (bind-Promotes (api_call e) (λ _. put_work k v) (api_call-Promotes e)
                  (λ _ _. put_work-Promotes k v s))
                (λ _ _ h p. inl p)))
