-- ===== src/Condition.antt =====
-- Status conditions, shared by every controller: internal/controller/util/conditions.go, and
-- addOrUpdateCondition of internal/controller/drplacementcontrol_controller.go.
-- A `[]metav1.Condition` behind a pointer is a list that is passed in and returned. The callers
-- pass the address of a status field, so the pointer itself is never nil. `time.Now()` is the
-- argument `now`.
pub mod Lookup
pub mod Transition
pub mod Updates
pub mod Oldest
pub mod Merge
pub mod Statuses
pub mod Tests
use ramen.Prelude.{
  ℕ, String, Bool, true, false, ◌&&◌, ◌||◌, not, Option, none, some, List, [], ◌∷◌, ◌++◌, ltb, eqb,
  ◌==◌, if◌then◌else◌, contains, ◌+++◌,
}

-- metav1.ConditionStatus, with the empty string of a zero value as `condition_unset`.
pub data ConditionStatus : Type 0 where
  condition_true condition_false condition_unknown condition_unset : ConditionStatus

-- metav1.Condition.
pub record Condition : Type 0 where
  pub type : String
  pub status : ConditionStatus
  pub observed_generation : ℕ
  pub last_transition_time : ℕ
  pub reason : String
  pub message : String

abbrev pub status_eqb : ConditionStatus → ConditionStatus → Bool
status_eqb condition_true condition_true = true
status_eqb condition_false condition_false = true
status_eqb condition_unknown condition_unknown = true
status_eqb condition_unset condition_unset = true
status_eqb _ _ = false

unfoldable pub find_condition : List Condition → String → Option Condition
find_condition [] t = none
find_condition (c ∷ cs) t = if c.type == t then some c else find_condition cs t

-- A write through the pointer that FindCondition returns: the first condition of the type.
unfoldable pub replace_first : List Condition → String → Condition → List Condition
replace_first [] t new = []
replace_first (c ∷ cs) t new =
    let rest = replace_first cs t new in if c.type == t then new ∷ cs else c ∷ rest

-- The reason or message that stands for an empty one.
unfoldable pub or_default : String → String
or_default s = if s == "" then "none" else s

-- What SetStatusCondition makes of a condition that is there.
unfoldable pub updated_condition : ℕ → Condition → Condition → Condition
unfolding or_default
updated_condition now existing new =
    let a =
      if not (status_eqb existing.status new.status)
      then record existing { status = new.status; last_transition_time = now }
      else existing in
    let b = record a { reason = or_default new.reason; message = or_default new.message } in
    if not (eqb b.observed_generation new.observed_generation)
    then record b { observed_generation = new.observed_generation; last_transition_time = now }
    else b

-- SetStatusCondition: the conditions after the call, and the condition returned.
unfoldable pub set_status_condition : ℕ → List Condition → Condition → List Condition × Condition
set_status_condition now cs new = elim (find_condition cs new.type) [
  | none ↦ let added = record new { last_transition_time = now } in (cs ++ added ∷ [], added)
  | some existing ↦ let c = updated_condition now existing new in (replace_first cs new.type c, c)
]

-- SetStatusConditionIfNotFound.
unfoldable pub set_status_condition_if_not_found : ℕ → List Condition → Condition → List Condition
set_status_condition_if_not_found now cs new = elim (find_condition cs new.type) [
  | none ↦ cs ++ record new { last_transition_time = now } ∷ []
  | some existing ↦ cs
]

-- The test of addOrUpdateCondition on the condition that is there.
unfoldable pub is_outdated : Condition → Condition → Bool
is_outdated existing new =
    not (status_eqb existing.status new.status)
    || not (eqb existing.observed_generation new.observed_generation)
    || not (existing.reason == new.reason)
    || not (existing.message == new.message)

-- addOrUpdateCondition: the conditions after the call, and whether it reports a change.
unfoldable pub add_or_update_condition :
    ℕ → List Condition → String → ℕ → ConditionStatus → String → String → List Condition × Bool
add_or_update_condition now cs t generation status reason msg =
    let new : Condition = record {
      type = t;
      status = status;
      observed_generation = generation;
      last_transition_time = now;
      reason = reason;
      message = msg;
    } in
    elim (find_condition cs t) [
      | none ↦ ((set_status_condition now cs new).0, true)
      | some existing ↦
          if is_outdated existing new
          then ((set_status_condition now cs new).0, true)
          else (cs, false)
    ]

-- oldestConditions: the new condition joins those of its generation, replaces newer ones, and
-- is dropped beside older ones.
unfoldable pub oldest_conditions : Condition → List Condition → List Condition
oldest_conditions new [] = new ∷ []
oldest_conditions new (c ∷ cs) =
    if ltb c.observed_generation new.observed_generation
    then c ∷ cs
    else if eqb c.observed_generation new.observed_generation
    then c ∷ cs ++ new ∷ []
    else new ∷ []

-- The three lists of MergeConditions.
pub record Buckets : Type 0 where
  pub true_conditions : List Condition
  pub false_conditions : List Condition
  pub unknown_conditions : List Condition

-- One round of the loop of MergeConditions, at a sub-condition that is not nil.
unfoldable pub put_in_bucket : ConditionStatus → Condition → Buckets → Buckets
put_in_bucket condition_false c b = record b {
  false_conditions = oldest_conditions c b.false_conditions;
}
put_in_bucket condition_unknown c b = record b {
  unknown_conditions = oldest_conditions c b.unknown_conditions;
}
put_in_bucket condition_true c b = record b {
  true_conditions = oldest_conditions c b.true_conditions;
}
put_in_bucket condition_unset c b = b

unfoldable pub fill_buckets : List (Option Condition) → Buckets → Buckets
fill_buckets [] b = b
fill_buckets (none ∷ cs) b = fill_buckets cs b
fill_buckets (some c ∷ cs) b = fill_buckets cs (put_in_bucket c.status c b)

-- metav1.Condition{}.
abbrev pub empty_condition : Condition
empty_condition = record {
  type = "";
  status = condition_unset;
  observed_generation = 0;
  last_transition_time = 0;
  reason = "";
  message = "";
}

-- One round of the loop of mergedCondition.
unfoldable pub merge_into : List String → Condition → Condition → Condition
merge_into ignore merged sub =
    if merged.type == ""
    then sub
    else if sub.reason == merged.reason
    then record merged { message = merged.message +++ ". " +++ sub.message }
    else if contains ignore sub.reason
    then merged
    else if contains ignore merged.reason
    then sub
    else record merged { message = merged.message +++ ". " +++ sub.message }

unfoldable pub merged_from : List String → Condition → List Condition → Condition
merged_from ignore merged [] = merged
merged_from ignore merged (c ∷ cs) = merged_from ignore (merge_into ignore merged c) cs

unfoldable pub merged_condition : List Condition → List String → Condition
unfolding merged_from
merged_condition cs ignore = merged_from ignore empty_condition cs

-- The `switch` of MergeConditions: the list that is merged, false before unknown before true.
unfoldable pub pick_bucket : List Condition → List Condition → List Condition → List Condition
pick_bucket (c ∷ cs) unknown_conditions true_conditions = c ∷ cs
pick_bucket [] (c ∷ cs) true_conditions = c ∷ cs
pick_bucket [] [] true_conditions = true_conditions

-- MergeConditions, with the `conditionSet` that it is given.
unfoldable pub set_merged :
    (List Condition → Condition → List Condition × Condition)
    → List Condition
    → List String
    → List Condition
    → List Condition × Condition
set_merged condition_set conditions ignore [] = (conditions, empty_condition)
set_merged condition_set conditions ignore (c ∷ cs) =
    condition_set conditions (merged_condition (c ∷ cs) ignore)

unfoldable pub merge_conditions :
    (List Condition → Condition → List Condition × Condition)
    → List Condition
    → List String
    → List (Option Condition)
    → List Condition × Condition
merge_conditions condition_set conditions ignore subs =
    let b =
      fill_buckets subs
        (record { true_conditions = []; false_conditions = []; unknown_conditions = [] }) in
    set_merged condition_set conditions ignore
      (pick_bucket b.false_conditions b.unknown_conditions b.true_conditions)
