-- ===== src/Condition/Transition.antt =====
-- What SetStatusCondition records, and when the transition time moves.
use ramen.Prelude.{
  ℕ, String, true, none, some, List, [], ◌∷◌, ◌++◌, ◌&&◌, if◌then◌else◌, ◌≡◌, ◌≢◌, refl, inl, inr,
  arith, eq_refl, Option-cases, ==-false, eqb,
}
use ramen.Condition.{
  Condition, ConditionStatus, find_condition, replace_first, updated_condition, or_default,
  status_eqb, set_status_condition,
}
use ramen.Condition.Lookup.{find_condition-set_status_condition}

-- What a condition reports, the transition time left out: status, generation, reason, message.
abbrev pub Reports : Condition → ConditionStatus → ℕ → String → String → Type 0
Reports c status generation reason message =
    (c.status ≡ status)
    × (c.observed_generation ≡ generation)
    × (c.reason ≡ reason)
    × (c.message ≡ message)

pub status_eqb-eq : (a b : ConditionStatus) → status_eqb a b ≡ true → a ≡ b
status_eqb-eq a b h = ground arith

pub or_default_self : (s : String) → s ≢ "" → or_default s ≡ s
unfolding or_default
or_default_self s h = rw (==-false s "" h) refl

pub updated_condition-Reports :
    (now : ℕ) (existing new : Condition)
    → Reports
        (updated_condition now existing new)
        new.status
        new.observed_generation
        (or_default new.reason)
        (or_default new.message)
unfolding updated_condition
updated_condition-Reports now existing new =
    ground (arith, status_eqb-eq existing.status new.status)

-- The transition time of a condition that is there moves to `now` exactly when the status or the
-- observed generation changes.
updated_condition-last_transition_time :
    (now : ℕ) (existing new : Condition)
    → (updated_condition now existing new).last_transition_time ≡ (
        if status_eqb existing.status new.status
          && eqb existing.observed_generation new.observed_generation
        then existing.last_transition_time
        else now)
unfolding updated_condition
updated_condition-last_transition_time now existing new = ground arith

-- A second update to the same report, at any later time, changes nothing.
updated_condition_twice :
    (now later : ℕ) (existing new : Condition)
    → updated_condition later (updated_condition now existing new) new
      ≡ updated_condition now existing new
unfolding updated_condition
updated_condition_twice now later existing new = ground arith

-- The two branches of SetStatusCondition.
pub set_status_condition-absent :
    (now : ℕ) (cs : List Condition) (new : Condition)
    → find_condition cs new.type ≡ none
    → let added = record new { last_transition_time = now } in
      set_status_condition now cs new ≡ (cs ++ added ∷ [], added)
unfolding set_status_condition
set_status_condition-absent now cs new e = rw (e, set_status_condition) refl

pub set_status_condition-present :
    (now : ℕ) (cs : List Condition) (new : Condition) {old : Condition}
    → find_condition cs new.type ≡ some old
    → set_status_condition now cs new
      ≡ (replace_first cs new.type (updated_condition now old new), updated_condition now old new)
unfolding set_status_condition
set_status_condition-present now cs new e = rw (e, set_status_condition) refl

pub find_condition-set_status_condition_self :
    (now : ℕ) (cs : List Condition) (new : Condition)
    → find_condition (set_status_condition now cs new).0 new.type
      ≡ some (set_status_condition now cs new).1
find_condition-set_status_condition_self now cs new =
    rw (find_condition-set_status_condition now cs new new.type, eq_refl new.type) refl

set_status_condition_result :
    (now : ℕ) (cs : List Condition) (new : Condition)
    → new.reason ≢ ""
    → new.message ≢ ""
    → Reports
        (set_status_condition now cs new).1
        new.status
        new.observed_generation
        new.reason
        new.message
set_status_condition_result now cs new r m = elim (Option-cases (find_condition cs new.type)) [
  | inl e ↦ rw (set_status_condition-absent now cs new e) (refl, refl, refl, refl)
  | inr (old, e) ↦ rw (set_status_condition-present now cs new e) (
      ground (
        arith,
        updated_condition-Reports now old new,
        or_default_self new.reason r,
        or_default_self new.message m,
      ))
]

-- SetStatusCondition with a reason and a message leaves a condition of the type that was set,
-- with the status, the generation, the reason and the message that were given.
pub set_status_condition-Reports :
    (now : ℕ) (cs : List Condition) (new : Condition)
    → new.reason ≢ ""
    → new.message ≢ ""
    → (c : Condition) × (find_condition (set_status_condition now cs new).0 new.type ≡ some c)
      × Reports c new.status new.observed_generation new.reason new.message
set_status_condition-Reports now cs new r m = (
  (set_status_condition now cs new).1,
  find_condition-set_status_condition_self now cs new,
  set_status_condition_result now cs new r m,
)

-- When a condition of the type is there, its transition time is `now` after SetStatusCondition if
-- the status or the observed generation differs from the new one's, and is as it was if both are
-- the same, whatever happens to the reason and the message.
pub set_status_condition-last_transition_time :
    (now : ℕ) (cs : List Condition) (new : Condition) {old : Condition}
    → find_condition cs new.type ≡ some old
    → (set_status_condition now cs new).1.last_transition_time ≡ (
        if status_eqb old.status new.status && eqb old.observed_generation new.observed_generation
        then old.last_transition_time
        else now)
set_status_condition-last_transition_time now cs new {old} e =
    rw (set_status_condition-present now cs new e)
      (updated_condition-last_transition_time now old new)
