-- ===== src/Condition/Statuses.antt =====
-- The status that a lookup sees after the writers of internal/controller/util/conditions.go and
-- addOrUpdateCondition.
use ramen.Prelude.{
  ℕ, String, false, none, some, List, ◌≡◌, refl, ◌∙◌, ap, inl, inr, Option-cases, Bool-cases,
  if◌then◌else◌, ◌==◌, arith, eq_refl,
}
use ramen.Condition.{
  Condition, ConditionStatus, condition_unset, find_condition, set_status_condition,
  add_or_update_condition, is_outdated,
}
use ramen.Condition.Lookup.{find_condition-set_status_condition}
use ramen.Condition.Transition.{
  updated_condition-Reports, set_status_condition-absent, set_status_condition-present,
  status_eqb-eq,
}
use ramen.Condition.Updates.{
  requested, add_or_update_condition-absent, add_or_update_condition-present,
}

-- The status of the condition of a type.
unfoldable pub status_of : List Condition → String → ConditionStatus
status_of cs t = elim (find_condition cs t) [ none ↦ condition_unset | some x ↦ x.status ]

set_status_condition-status :
    (now : ℕ) (cs : List Condition) (new : Condition)
    → (set_status_condition now cs new).1.status ≡ new.status
set_status_condition-status now cs new = elim (Option-cases (find_condition cs new.type)) [
  | inl e ↦ rw (set_status_condition-absent now cs new e) refl
  | inr (old, e) ↦
      rw (set_status_condition-present now cs new e) (updated_condition-Reports now old new).0
]

pub status_of-set_status_condition :
    (now : ℕ) (cs : List Condition) (new : Condition) (t : String)
    → status_of (set_status_condition now cs new).0 t
      ≡ (if new.type == t then new.status else status_of cs t)
unfolding status_of
status_of-set_status_condition now cs new t = ground (
  arith,
  find_condition-set_status_condition now cs new t,
  set_status_condition-status now cs new,
)

is_outdated-status : (c new : Condition) → is_outdated c new ≡ false → c.status ≡ new.status
unfolding is_outdated
is_outdated-status c new h = ground (arith, status_eqb-eq c.status new.status)

status_of-find_condition :
    (cs : List Condition) (t : String) (c : Condition)
    → find_condition cs t ≡ some c
    → status_of cs t ≡ c.status
unfolding status_of
status_of-find_condition cs t c e = rw (e, status_of) refl

-- addOrUpdateCondition leaves the status that it is given.
pub status_of-add_or_update_condition :
    (now : ℕ) (cs : List Condition) (t : String) (generation : ℕ) (status : ConditionStatus)
    (reason msg : String)
    → status_of (add_or_update_condition now cs t generation status reason msg).0 t ≡ status
unfolding status_of
status_of-add_or_update_condition now cs t generation status reason msg =
    let new = requested now t generation status reason msg in
    let written =
      status_of-set_status_condition now cs new t
      ∙ ap (λ b. if b then status else status_of cs t) (eq_refl t) in
    elim (Option-cases (find_condition cs t)) [
      | inl e ↦ rw (add_or_update_condition-absent now cs t generation status reason msg e) written
      | inr (c, e) ↦ elim (Bool-cases (is_outdated c new)) [
        | inl o ↦
            rw (add_or_update_condition-present now cs t generation status reason msg e, o) written
        | inr o ↦
            rw (add_or_update_condition-present now cs t generation status reason msg e, o)
              (status_of-find_condition cs t c e ∙ is_outdated-status c new o)
      ]
    ]
