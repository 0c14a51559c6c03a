-- ===== src/Condition/Oldest.antt =====
-- The loop of MergeConditions of internal/controller/util/conditions.go, which keeps the oldest
-- conditions of each status.
use ramen.Prelude.{
  ℕ, Bool, true, false, Option, none, some, List, [], ◌∷◌, ◌++◌, eqb, if◌then◌else◌, ◌≡◌, refl, sym,
  ap, ◌∙◌, inl, inr, arith, append-nil, append_assoc, min, ◌≤◌, ◌<◌, ◌⊎◌,
}
use ramen.Condition.{
  Condition, ConditionStatus, condition_true, condition_false, condition_unknown, status_eqb,
  Buckets, oldest_conditions, put_in_bucket, fill_buckets,
}

-- The sub-conditions that are not nil and have the status, in order.
abbrev pub with_status : ConditionStatus → List (Option Condition) → List Condition
with_status s [] = []
with_status s (none ∷ cs) = with_status s cs
with_status s (some c ∷ cs) =
    let rest = with_status s cs in if status_eqb c.status s then c ∷ rest else rest

-- The least generation among `g` and those of the list.
abbrev pub oldest_generation : ℕ → List Condition → ℕ
oldest_generation g [] = g
oldest_generation g (c ∷ cs) = oldest_generation (min g c.observed_generation) cs

abbrev pub of_generation : ℕ → List Condition → List Condition
of_generation m [] = []
of_generation m (c ∷ cs) =
    let rest = of_generation m cs in if eqb c.observed_generation m then c ∷ rest else rest

-- The conditions of the oldest generation, in order.
abbrev pub oldest_of : List Condition → List Condition
oldest_of [] = []
oldest_of (c ∷ cs) = of_generation (oldest_generation c.observed_generation cs) (c ∷ cs)

pub lt_cases : (a b : ℕ) → (a < b) ⊎ (a ≡ b) ⊎ (b < a)
lt_cases a b = ground arith

abbrev pub oldest_from : List Condition → List Condition → List Condition
oldest_from acc [] = acc
oldest_from acc (c ∷ cs) = oldest_from (oldest_conditions c acc) cs

oldest_generation-le : (g : ℕ) (cs : List Condition) → oldest_generation g cs ≤ g
oldest_generation-le g [] = omega arith
oldest_generation-le g (c ∷ cs) =
    omega (arith, oldest_generation-le (min g c.observed_generation) cs)

module _ (a c : Condition) (kept : List Condition) where
  pub oldest_conditions-newer :
      a.observed_generation < c.observed_generation → oldest_conditions c (a ∷ kept) ≡ a ∷ kept
  unfolding oldest_conditions
  oldest_conditions-newer h = ground arith

  pub oldest_conditions-same :
      a.observed_generation ≡ c.observed_generation
      → oldest_conditions c (a ∷ kept) ≡ a ∷ kept ++ c ∷ []
  unfolding oldest_conditions
  oldest_conditions-same h = ground arith

  pub oldest_conditions-older :
      c.observed_generation < a.observed_generation → oldest_conditions c (a ∷ kept) ≡ c ∷ []
  unfolding oldest_conditions
  oldest_conditions-older h = ground arith

if-snoc :
    (b : Bool) (xs : List Condition) (x : Condition) (ys : List Condition)
    → (if b then xs ++ x ∷ [] else []) ++ ys ≡ (if b then xs else []) ++ (if b then x ∷ ys else ys)
if-snoc true xs x ys = append_assoc xs (x ∷ []) ys
if-snoc false xs x ys = refl

if-cons :
    (b : Bool) (x : Condition) (ys : List Condition)
    → (if b then x ∷ [] else []) ++ ys ≡ (if b then x ∷ ys else ys)
if-cons true x ys = refl
if-cons false x ys = refl

oldest_from-cons :
    (a : Condition) (kept cs : List Condition) (m : ℕ)
    → oldest_generation a.observed_generation cs ≡ m
    → oldest_from (a ∷ kept) cs
      ≡ (if eqb a.observed_generation m then a ∷ kept else []) ++ of_generation m cs
oldest_from-cons a kept [] m e = ground (arith, append-nil kept)
oldest_from-cons a kept (c ∷ cs) m e = elim (lt_cases a.observed_generation c.observed_generation) [
  | inl newer ↦
      let le = oldest_generation-le (min a.observed_generation c.observed_generation) cs in
      let dropped : eqb c.observed_generation m ≡ false = ground arith in
      let low : min a.observed_generation c.observed_generation ≡ a.observed_generation =
        omega arith in
      rw (oldest_conditions-newer a c kept newer, dropped)
        (oldest_from-cons a kept cs m (rw low at e))
  | inr (inl same) ↦
      let low : min a.observed_generation c.observed_generation ≡ a.observed_generation =
        omega arith in
      let joined : eqb c.observed_generation m ≡ eqb a.observed_generation m =
        ap (λ g. eqb g m) (sym same) in
      rw (oldest_conditions-same a c kept same, joined)
        (oldest_from-cons a (kept ++ c ∷ []) cs m (rw low at e)
          ∙ if-snoc (eqb a.observed_generation m) (a ∷ kept) c (of_generation m cs))
  | inr (inr older) ↦
      let le = oldest_generation-le (min a.observed_generation c.observed_generation) cs in
      let dropped : eqb a.observed_generation m ≡ false = ground arith in
      let low : min a.observed_generation c.observed_generation ≡ c.observed_generation =
        omega arith in
      rw (oldest_conditions-older a c kept older, dropped)
        (oldest_from-cons c [] cs m (rw low at e)
          ∙ if-cons (eqb c.observed_generation m) c (of_generation m cs))
]

pub oldest_from-nil : (cs : List Condition) → oldest_from [] cs ≡ oldest_of cs
unfolding oldest_conditions
oldest_from-nil [] = refl
oldest_from-nil (c ∷ cs) =
    oldest_from-cons c [] cs _ refl
    ∙ if-cons (eqb c.observed_generation (oldest_generation c.observed_generation cs)) c _

fill_buckets-with_status :
    (subs : List (Option Condition)) (b : Buckets)
    → fill_buckets subs b ≡ record {
      true_conditions = oldest_from b.true_conditions (with_status condition_true subs);
      false_conditions = oldest_from b.false_conditions (with_status condition_false subs);
      unknown_conditions = oldest_from b.unknown_conditions (with_status condition_unknown subs);
    }
unfolding fill_buckets put_in_bucket
fill_buckets-with_status [] b = refl
fill_buckets-with_status (none ∷ cs) b = fill_buckets-with_status cs b
fill_buckets-with_status (some c ∷ cs) b =
    ground (arith, fill_buckets-with_status cs (put_in_bucket c.status c b))

-- The three lists that the loop of MergeConditions leaves are, for each status, the
-- sub-conditions of that status that have the oldest generation among them, in their order.
pub fill_buckets-oldest_of :
    (subs : List (Option Condition))
    → fill_buckets subs
        (record { true_conditions = []; false_conditions = []; unknown_conditions = [] })
      ≡ record {
        true_conditions = oldest_of (with_status condition_true subs);
        false_conditions = oldest_of (with_status condition_false subs);
        unknown_conditions = oldest_of (with_status condition_unknown subs);
      }
fill_buckets-oldest_of subs = fill_buckets-with_status subs _ ∙ (λ i. record {
  true_conditions = oldest_from-nil (with_status condition_true subs) i;
  false_conditions = oldest_from-nil (with_status condition_false subs) i;
  unknown_conditions = oldest_from-nil (with_status condition_unknown subs) i;
})
