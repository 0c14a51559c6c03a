-- ===== src/Condition/Merge.antt =====
-- MergeConditions of internal/controller/util/conditions.go against a description with no loop:
-- the worst status, and of it the conditions of the oldest generation.
use ramen.Prelude.{
  ℕ, String, Option, none, some, List, [], ◌∷◌, ◌++◌, eqb, ◌≡◌, ◌≢◌, refl, ◌∙◌, inl, inr, arith,
  Bool-cases, Option-cases, All,
}
use ramen.Condition.{
  Condition, ConditionStatus, condition_true, condition_false, condition_unknown, status_eqb,
  oldest_conditions, merge_into, merged_from, merged_condition, pick_bucket, set_merged,
  merge_conditions, set_status_condition, empty_condition, find_condition,
}
use ramen.Condition.Transition.{
  status_eqb-eq, set_status_condition-absent, set_status_condition-present,
  updated_condition-Reports,
}
use ramen.Condition.Oldest.{
  with_status, oldest_generation, of_generation, oldest_of, lt_cases, oldest_from,
  oldest_conditions-newer, oldest_conditions-same, oldest_conditions-older, oldest_from-nil,
  fill_buckets-oldest_of,
}

-- A condition of the status and the generation, with a type.
abbrev Fits : ConditionStatus → ℕ → Condition → Type 0
Fits s g c = (c.status ≡ s) × (c.observed_generation ≡ g) × (c.type ≢ "")

merge_into-Fits :
    (ignore : List String) (s : ConditionStatus) (g : ℕ) (m c : Condition)
    → Fits s g m
    → Fits s g c
    → Fits s g (merge_into ignore m c)
unfolding merge_into
merge_into-Fits ignore s g m c hm hc = ground arith

merged_from-Fits :
    (ignore : List String) (s : ConditionStatus) (g : ℕ) (m : Condition) (cs : List Condition)
    → Fits s g m
    → All (Fits s g) cs
    → Fits s g (merged_from ignore m cs)
unfolding merged_from
merged_from-Fits ignore s g m [] hm h = hm
merged_from-Fits ignore s g m (c ∷ cs) hm h =
    merged_from-Fits ignore s g (merge_into ignore m c) cs (merge_into-Fits ignore s g m c hm h.0)
      h.1

merged_condition-Fits :
    (ignore : List String) (s : ConditionStatus) (g : ℕ) (c : Condition) (cs : List Condition)
    → All (Fits s g) (c ∷ cs)
    → Fits s g (merged_condition (c ∷ cs) ignore)
unfolding merged_condition merge_into
merged_condition-Fits ignore s g c cs h =
    merged_from-Fits ignore s g (merge_into ignore empty_condition c) cs h.0 h.1

-- The status with the least generation of the list, or the alternative if the list is empty.
abbrev pub first_generation :
    ConditionStatus → List Condition → Option (ConditionStatus × ℕ) → Option (ConditionStatus × ℕ)
first_generation s [] otherwise = otherwise
first_generation s (c ∷ cs) otherwise = some (s, oldest_generation c.observed_generation cs)

abbrev pub HasType : Option Condition → Type 0
HasType none = Unit {0}
HasType (some c) = c.type ≢ ""

abbrev Typed : ConditionStatus → Condition → Type 0
Typed s c = (c.status ≡ s) × (c.type ≢ "")

with_status-Typed :
    (s : ConditionStatus) (subs : List (Option Condition))
    → All HasType subs
    → All (Typed s) (with_status s subs)
with_status-Typed s [] h = tt
with_status-Typed s (none ∷ cs) h = with_status-Typed s cs h.1
with_status-Typed s (some c ∷ cs) h = elim (Bool-cases (status_eqb c.status s)) [
  | inl e ↦ rw e ((status_eqb-eq c.status s e, h.0), with_status-Typed s cs h.1)
  | inr e ↦ rw e (with_status-Typed s cs h.1)
]

of_generation-Fits :
    (s : ConditionStatus) (g : ℕ) (cs : List Condition)
    → All (Typed s) cs
    → All (Fits s g) (of_generation g cs)
of_generation-Fits s g [] h = tt
of_generation-Fits s g (c ∷ cs) h = elim (Bool-cases (eqb c.observed_generation g)) [
  | inl e ↦ rw e ((h.0.0, (ground arith), h.0.1), of_generation-Fits s g cs h.1)
  | inr e ↦ rw e (of_generation-Fits s g cs h.1)
]

-- The status that decides: false before unknown before true. None if there is no sub-condition
-- with one of the three.
abbrev pub worst : List (Option Condition) → Option (ConditionStatus × ℕ)
worst subs = first_generation condition_false (with_status condition_false subs) (
    first_generation condition_unknown (with_status condition_unknown subs)
      (first_generation condition_true (with_status condition_true subs) none))

abbrev IsFull : List Condition → Type 0
IsFull cs = (d : Condition) × (ds : List Condition) × (cs ≡ d ∷ ds)

oldest_conditions-IsFull :
    (c a : Condition) (kept : List Condition) → IsFull (oldest_conditions c (a ∷ kept))
oldest_conditions-IsFull c a kept = elim (lt_cases a.observed_generation c.observed_generation) [
  | inl newer ↦ (a, kept, oldest_conditions-newer a c kept newer)
  | inr (inl same) ↦ (a, kept ++ c ∷ [], oldest_conditions-same a c kept same)
  | inr (inr older) ↦ (c, [], oldest_conditions-older a c kept older)
]

oldest_from-IsFull : (a : Condition) (kept cs : List Condition) → IsFull (oldest_from (a ∷ kept) cs)
oldest_from-IsFull a kept [] = (a, kept, refl)
oldest_from-IsFull a kept (c ∷ cs) =
    let (d, ds, e) = oldest_conditions-IsFull c a kept in rw e (oldest_from-IsFull d ds cs)

oldest_of-IsFull : (c : Condition) (cs : List Condition) → IsFull (oldest_of (c ∷ cs))
unfolding oldest_conditions
oldest_of-IsFull c cs = rw (← oldest_from-nil (c ∷ cs)) (oldest_from-IsFull c [] cs)

set_status_condition-keeps :
    (now : ℕ) (cs : List Condition) (new : Condition)
    → ((set_status_condition now cs new).1.status ≡ new.status)
      × ((set_status_condition now cs new).1.observed_generation ≡ new.observed_generation)
set_status_condition-keeps now cs new = elim (Option-cases (find_condition cs new.type)) [
  | inl e ↦ rw (set_status_condition-absent now cs new e) (refl, refl)
  | inr (old, e) ↦
      let (s, g, _, _) = updated_condition-Reports now old new in
      rw (set_status_condition-present now cs new e) (s, g)
]

pick_bucket-full : (fs us ts : List Condition) → IsFull fs → pick_bucket fs us ts ≡ fs
unfolding pick_bucket
pick_bucket-full [] us ts (d, ds, e) = cc
pick_bucket-full (c ∷ cs) us ts h = refl

pick_bucket-next : (us ts : List Condition) → IsFull us → pick_bucket [] us ts ≡ us
unfolding pick_bucket
pick_bucket-next [] ts (d, ds, e) = cc
pick_bucket-next (c ∷ cs) ts h = refl

abbrev Sets : ConditionStatus → ℕ → Condition → Type 0
Sets s g c = (c.status ≡ s) × (c.observed_generation ≡ g)

module _ (now : ℕ) (conditions : List Condition) (ignore : List String) where
  set_merged-Sets :
      (s : ConditionStatus) (g : ℕ) (bucket : List Condition)
      → IsFull bucket
      → All (Fits s g) bucket
      → Sets s g (set_merged (set_status_condition now) conditions ignore bucket).1
  unfolding set_merged
  set_merged-Sets s g [] (d, ds, e) h = cc
  set_merged-Sets s g (c ∷ cs) full h =
      let (t, o, _) = merged_condition-Fits ignore s g c cs h in
      let (a, b) = set_status_condition-keeps now conditions (merged_condition (c ∷ cs) ignore) in
      (a ∙ t, b ∙ o)

  -- The bucket of a status that occurs, merged.
  set_oldest-Sets :
      (s : ConditionStatus) (c : Condition) (cs : List Condition) (bucket : List Condition)
      → All (Typed s) (c ∷ cs)
      → bucket ≡ oldest_of (c ∷ cs)
      → Sets s
          (oldest_generation c.observed_generation cs)
          (set_merged (set_status_condition now) conditions ignore bucket).1
  set_oldest-Sets s c cs bucket h e = rw e (
      set_merged-Sets s (oldest_generation c.observed_generation cs) (oldest_of (c ∷ cs))
        (oldest_of-IsFull c cs)
        (of_generation-Fits s (oldest_generation c.observed_generation cs) (c ∷ cs) h))

  set_picked-Sets :
      (fs us ts : List Condition) {s : ConditionStatus} {g : ℕ}
      → All (Typed condition_false) fs
      → All (Typed condition_unknown) us
      → All (Typed condition_true) ts
      → first_generation condition_false fs
          (first_generation condition_unknown us (first_generation condition_true ts none))
        ≡ some (s, g)
      → Sets s g
          (set_merged
            (set_status_condition now)
            conditions
            ignore
            (pick_bucket (oldest_of fs) (oldest_of us) (oldest_of ts))).1
  unfolding pick_bucket
  set_picked-Sets (c ∷ cs) us ts hf hu ht e = ground (
    arith,
    set_oldest-Sets condition_false c cs _ hf (
        pick_bucket-full (oldest_of (c ∷ cs)) (oldest_of us) (oldest_of ts)
          (oldest_of-IsFull c cs)),
  )
  set_picked-Sets [] (c ∷ cs) ts hf hu ht e = ground (
    arith,
    set_oldest-Sets condition_unknown c cs _ hu
        (pick_bucket-next (oldest_of (c ∷ cs)) (oldest_of ts) (oldest_of-IsFull c cs)),
  )
  set_picked-Sets [] [] (c ∷ cs) hf hu ht e =
      ground (arith, set_oldest-Sets condition_true c cs (oldest_of (c ∷ cs)) ht refl)
  set_picked-Sets [] [] [] hf hu ht e = cc

-- If every sub-condition that is not nil has a type, and one of them is false, unknown or true,
-- then MergeConditions with SetStatusCondition returns a condition whose status is the worst
-- among them, false before unknown before true, and whose generation is the oldest among the
-- sub-conditions of that status.
pub merge_conditions-worst :
    (now : ℕ) (conditions : List Condition) (ignore : List String) (subs : List (Option Condition))
    {s : ConditionStatus} {g : ℕ}
    → All HasType subs
    → worst subs ≡ some (s, g)
    → let final = (merge_conditions (set_status_condition now) conditions ignore subs).1 in
      (final.status ≡ s) × (final.observed_generation ≡ g)
unfolding merge_conditions
merge_conditions-worst now conditions ignore subs h e = rw (fill_buckets-oldest_of subs) (
    set_picked-Sets now conditions ignore (with_status condition_false subs)
      (with_status condition_unknown subs) (with_status condition_true subs)
      (with_status-Typed condition_false subs h) (with_status-Typed condition_unknown subs h)
      (with_status-Typed condition_true subs h) e)
