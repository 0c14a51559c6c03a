-- ===== src/Condition/Lookup.antt =====
-- What a lookup sees after the writers of internal/controller/util/conditions.go.
use ramen.Prelude.{
  ℕ, String, none, some, List, [], ◌∷◌, ◌++◌, ◌==◌, if◌then◌else◌, ◌≡◌, refl, ◌∙◌, inl, inr, arith,
  eq_iff, Option-cases,
}
use ramen.Condition.{
  Condition, find_condition, replace_first, updated_condition, set_status_condition,
}

-- Of a condition that is found, the type is the one asked for.
pub find_condition-type :
    (cs : List Condition) (t : String) (c : Condition) → find_condition cs t ≡ some c → c.type ≡ t
unfolding find_condition
find_condition-type [] t c h = cc
find_condition-type (d ∷ cs) t c h = ground (arith, eq_iff d.type t, find_condition-type cs t c)

find_condition-append :
    (cs : List Condition) (new : Condition) (t : String)
    → find_condition (cs ++ new ∷ []) t ≡ elim (find_condition cs t) [
      | none ↦ if new.type == t then some new else none
      | some c ↦ some c
    ]
unfolding find_condition
find_condition-append [] new t = ground arith
find_condition-append (d ∷ cs) new t = ground (arith, find_condition-append cs new t)

find_condition-replace_first :
    (cs : List Condition) (u : String) (old new : Condition) (t : String)
    → new.type ≡ u
    → find_condition cs u ≡ some old
    → find_condition (replace_first cs u new) t ≡ (if u == t then some new else find_condition cs t)
unfolding find_condition replace_first
find_condition-replace_first [] u old new t e h = cc
find_condition-replace_first (d ∷ cs) u old new t e h = ground (
  arith,
  find_condition-replace_first cs u old new t,
  eq_iff d.type u,
  eq_iff d.type t,
  eq_iff u t,
  eq_iff new.type t,
)

pub updated_condition-type :
    (now : ℕ) (existing new : Condition) → (updated_condition now existing new).type ≡ existing.type
unfolding updated_condition
updated_condition-type now existing new = ground arith

-- The condition that SetStatusCondition returns has the type that it was given.
pub set_status_condition-type :
    (now : ℕ) (cs : List Condition) (new : Condition)
    → (set_status_condition now cs new).1.type ≡ new.type
unfolding set_status_condition
set_status_condition-type now cs new = elim (Option-cases (find_condition cs new.type)) [
  | inl e ↦ rw (e, set_status_condition) refl
  | inr (c, e) ↦
      rw (e, set_status_condition)
        (updated_condition-type now c new ∙ find_condition-type cs new.type c e)
]

-- After SetStatusCondition a lookup of the type that was set finds the condition that the call
-- returned, and a lookup of any other type finds what it found before.
pub find_condition-set_status_condition :
    (now : ℕ) (cs : List Condition) (new : Condition) (t : String)
    → find_condition (set_status_condition now cs new).0 t
      ≡ (if new.type == t then some (set_status_condition now cs new).1 else find_condition cs t)
unfolding set_status_condition
find_condition-set_status_condition now cs new t =
    elim (Option-cases (find_condition cs new.type)) [
      | inl e ↦
          rw (e, set_status_condition)
            (ground (
              arith,
              find_condition-append cs (record new { last_transition_time = now }) t,
              eq_iff new.type t,
            ))
      | inr (c, e) ↦
          rw (e, set_status_condition)
            (find_condition-replace_first cs new.type c (updated_condition now c new) t
              (updated_condition-type now c new ∙ find_condition-type cs new.type c e) e)
    ]
