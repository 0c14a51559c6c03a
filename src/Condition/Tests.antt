-- ===== src/Condition/Tests.antt =====
-- Runs of the condition functions.
use ramen.Prelude.{
  ◌+◌, ℕ, String, true, false, Option, none, some, List, [], ◌∷◌, ◌≡◌, ◌≢◌, refl, eq_iff,
  of_false_is_true, ◌==◌, sym, ◌∙◌,
}
use ramen.Condition.{
  Condition, ConditionStatus, condition_true, condition_false, find_condition, set_status_condition,
  add_or_update_condition, fill_buckets, merge_conditions,
}
use ramen.Condition.Lookup.{find_condition-set_status_condition}
use ramen.Condition.Transition.{
  Reports, set_status_condition-Reports, set_status_condition-last_transition_time,
}
use ramen.Condition.Updates.{
  add_or_update_condition-Reports, add_or_update_condition-other, add_or_update_condition_twice,
  add_or_update_condition_empty_reason, after_calls,
}
use ramen.Condition.Oldest.{fill_buckets-oldest_of}
use ramen.Condition.Merge.{merge_conditions-worst}

abbrev condition_of : String → ConditionStatus → ℕ → Condition
condition_of t s g = record {
  type = t;
  status = s;
  observed_generation = g;
  last_transition_time = 10;
  reason = "Progressing";
  message = "Waiting";
}

abbrev ready : Condition
ready = condition_of "Ready" condition_true 1

abbrev new_ready : Condition
new_ready = condition_of "Ready" condition_false 2

abbrev available : String
available = "Available"

abbrev ready_type : String
ready_type = "Ready"

abbrev waiting : String
waiting = "Waiting"

abbrev progressing : String
progressing = "Progressing"

abbrev is_progressing : progressing ≢ ""
is_progressing = λ p. of_false_is_true ((eq_iff progressing "").1 p)

abbrev is_waiting : waiting ≢ ""
is_waiting = λ p. of_false_is_true ((eq_iff waiting "").1 p)

find_condition-set_status_condition_example :
    find_condition (set_status_condition 20 (ready ∷ []) new_ready).0 available ≡ none
unfolding find_condition
find_condition-set_status_condition_example =
    find_condition-set_status_condition 20 (ready ∷ []) new_ready available

set_status_condition-Reports_example :
    (c : Condition) × (find_condition (set_status_condition 20 (ready ∷ []) new_ready).0 ready_type
      ≡ some c)
    × Reports c condition_false 2 progressing waiting
set_status_condition-Reports_example =
    set_status_condition-Reports 20 (ready ∷ []) new_ready is_progressing is_waiting

set_status_condition-last_transition_time_example :
    (set_status_condition 20 (ready ∷ []) new_ready).1.last_transition_time ≡ 20
unfolding find_condition
set_status_condition-last_transition_time_example =
    set_status_condition-last_transition_time 20 (ready ∷ []) new_ready {old = ready} refl

add_or_update_condition-Reports_example :
    (c : Condition) × (find_condition
        (add_or_update_condition 20 (ready ∷ []) ready_type 2 condition_false progressing waiting).0
        ready_type
      ≡ some c)
    × Reports c condition_false 2 progressing waiting
add_or_update_condition-Reports_example =
    add_or_update_condition-Reports 20 (ready ∷ []) ready_type 2 condition_false progressing waiting
      is_progressing is_waiting

add_or_update_condition-other_example :
    find_condition
      (add_or_update_condition 20 (ready ∷ []) available 2 condition_false progressing waiting).0
      ready_type
    ≡ find_condition (ready ∷ []) ready_type
add_or_update_condition-other_example =
    add_or_update_condition-other 20 (ready ∷ []) available 2 condition_false progressing waiting
      ready_type (λ p. of_false_is_true ((eq_iff available ready_type).1 p))

add_or_update_condition_twice_example :
    let after =
      (add_or_update_condition 20
        (ready ∷ [])
        ready_type
        2
        condition_false
        progressing
        waiting).0 in
    add_or_update_condition 30 after ready_type 2 condition_false progressing waiting
    ≡ (after, false)
add_or_update_condition_twice_example =
    add_or_update_condition_twice 20 30 (ready ∷ []) ready_type 2 condition_false progressing
      waiting is_progressing is_waiting

add_or_update_condition_empty_reason_example :
    (add_or_update_condition 22
      (after_calls (λ n. 20 + n) 2 (ready ∷ []) ready_type 2 condition_false waiting)
      ready_type
      2
      condition_false
      ""
      waiting).1
    ≡ true
unfolding find_condition
add_or_update_condition_empty_reason_example =
    add_or_update_condition_empty_reason (λ n. 20 + n) 2 (ready ∷ []) ready_type 2 condition_false
      waiting {old = ready} refl is_progressing

-- Two false conditions of different generations, a true one, and one that is missing.
abbrev subs : List (Option Condition)
subs =
    some (condition_of "A" condition_false 4)
    ∷ none
    ∷ some (condition_of "B" condition_true 1)
    ∷ some (condition_of "C" condition_false 3)
    ∷ []

fill_buckets-oldest_of_example :
    fill_buckets subs
      (record { true_conditions = []; false_conditions = []; unknown_conditions = [] })
    ≡ record {
      true_conditions = condition_of "B" condition_true 1 ∷ [];
      false_conditions = condition_of "C" condition_false 3 ∷ [];
      unknown_conditions = [];
    }
fill_buckets-oldest_of_example = fill_buckets-oldest_of subs

abbrev differs : (s : String) → (s == "") ≡ false → s ≢ ""
differs s e p = of_false_is_true (sym e ∙ (eq_iff s "").1 p)

merge_conditions-worst_example :
    let final = (merge_conditions (set_status_condition 20) [] [] subs).1 in
    (final.status ≡ condition_false) × (final.observed_generation ≡ 3)
merge_conditions-worst_example =
    merge_conditions-worst 20 [] [] subs {s = condition_false} {g = 3}
      (differs "A" refl, (tt, (differs "B" refl, (differs "C" refl, tt)))) refl
