-- ===== src/Condition/Updates.antt =====
-- What addOrUpdateCondition of internal/controller/drplacementcontrol_controller.go records, and
-- when it reports a change.
use ramen.Prelude.{
  zero, suc, sym, ℕ, String, true, false, none, some, List, if◌then◌else◌, ◌≡◌, ◌≢◌, refl, ◌∙◌, inl,
  inr, arith, eq_iff, Bool-cases, Option-cases, ==-false,
}
use ramen.Condition.{
  Condition, ConditionStatus, find_condition, updated_condition, or_default, set_status_condition,
  add_or_update_condition, is_outdated,
}
use ramen.Condition.Lookup.{find_condition-set_status_condition}
use ramen.Condition.Transition.{
  Reports, updated_condition-Reports, set_status_condition-present,
  find_condition-set_status_condition_self, set_status_condition-Reports,
}

is_outdated-Reports :
    (c new : Condition)
    → Reports c new.status new.observed_generation new.reason new.message
    → is_outdated c new ≡ false
unfolding is_outdated
is_outdated-Reports c new (s, g, r, m) =
    ground (arith, eq_iff c.reason new.reason, eq_iff c.message new.message)

not-is_outdated-Reports :
    (c new : Condition)
    → is_outdated c new ≡ false
    → Reports c new.status new.observed_generation new.reason new.message
unfolding is_outdated
not-is_outdated-Reports c new h =
    ground (arith, eq_iff c.reason new.reason, eq_iff c.message new.message)

-- The condition that addOrUpdateCondition asks for.
abbrev pub requested : ℕ → String → ℕ → ConditionStatus → String → String → Condition
requested now t generation status reason msg = record {
  type = t;
  status = status;
  observed_generation = generation;
  last_transition_time = now;
  reason = reason;
  message = msg;
}

module _ (now : ℕ) (cs : List Condition) (t : String) (generation : ℕ) (status : ConditionStatus)
    (reason msg : String) where
  abbrev new : Condition
  new = requested now t generation status reason msg

  pub add_or_update_condition-absent :
      find_condition cs t ≡ none
      → add_or_update_condition now cs t generation status reason msg
        ≡ ((set_status_condition now cs new).0, true)
  unfolding add_or_update_condition
  add_or_update_condition-absent e = rw (e, add_or_update_condition) refl

  pub add_or_update_condition-present :
      {c : Condition}
      → find_condition cs t ≡ some c
      → add_or_update_condition now cs t generation status reason msg
        ≡ (if is_outdated c new then ((set_status_condition now cs new).0, true) else (cs, false))
  unfolding add_or_update_condition
  add_or_update_condition-present e = rw (e, add_or_update_condition) refl

  -- addOrUpdateCondition with a reason and a message leaves a condition of the type with the
  -- status, the generation, the reason and the message that were given, whether or not it reports
  -- a change.
  pub add_or_update_condition-Reports :
      reason ≢ ""
      → msg ≢ ""
      → (c : Condition) × (find_condition
            (add_or_update_condition now cs t generation status reason msg).0
            t
          ≡ some c)
        × Reports c status generation reason msg
  add_or_update_condition-Reports r m = elim (Option-cases (find_condition cs t)) [
    | inl e ↦ rw (add_or_update_condition-absent e) (set_status_condition-Reports now cs new r m)
    | inr (c, e) ↦ elim (Bool-cases (is_outdated c new)) [
      | inl o ↦
          rw (add_or_update_condition-present e, o) (set_status_condition-Reports now cs new r m)
      | inr o ↦ rw (add_or_update_condition-present e, o) (c, e, not-is_outdated-Reports c new o)
    ]
  ]

  -- addOrUpdateCondition leaves what a lookup of any other type finds.
  pub add_or_update_condition-other :
      (u : String)
      → t ≢ u
      → find_condition (add_or_update_condition now cs t generation status reason msg).0 u
        ≡ find_condition cs u
  add_or_update_condition-other u h =
      let frame = find_condition-set_status_condition now cs new u ∙ (rw (==-false t u h) refl) in
      elim (Option-cases (find_condition cs t)) [
        | inl e ↦ rw (add_or_update_condition-absent e) frame
        | inr (c, e) ↦ elim (Bool-cases (is_outdated c new)) [
          | inl o ↦ rw (add_or_update_condition-present e, o) frame
          | inr o ↦ rw (add_or_update_condition-present e, o) refl
        ]
      ]

  -- A result of false means that the conditions are as they were, and report what was asked for.
  add_or_update_condition-unchanged :
      (add_or_update_condition now cs t generation status reason msg).1 ≡ false
      → ((add_or_update_condition now cs t generation status reason msg).0 ≡ cs)
        × (c : Condition) × (find_condition cs t ≡ some c)
        × Reports c status generation reason msg
  add_or_update_condition-unchanged h = elim (Option-cases (find_condition cs t)) [
    | inl e ↦ cc (add_or_update_condition-absent e)
    | inr (c, e) ↦ elim (Bool-cases (is_outdated c new)) [
      | inl o ↦ absurd (ground (arith, add_or_update_condition-present e))
      | inr o ↦
          rw (add_or_update_condition-present e, o) (refl, c, e, not-is_outdated-Reports c new o)
    ]
  ]

-- A second addOrUpdateCondition with the same arguments, at any later time, changes nothing and
-- reports no change, if the reason and the message are not empty.
pub add_or_update_condition_twice :
    (now later : ℕ) (cs : List Condition) (t : String) (generation : ℕ) (status : ConditionStatus)
    (reason msg : String)
    → reason ≢ ""
    → msg ≢ ""
    → let after = (add_or_update_condition now cs t generation status reason msg).0 in
      add_or_update_condition later after t generation status reason msg ≡ (after, false)
add_or_update_condition_twice now later cs t generation status reason msg r m =
    let (c, e, reports) =
      add_or_update_condition-Reports now cs t generation status reason msg r m in
    add_or_update_condition-present later _ t generation status reason msg e
    ∙ (rw (is_outdated-Reports c (requested later t generation status reason msg) reports) refl)

is_outdated-empty_reason :
    (c new : Condition) → new.reason ≡ "" → c.reason ≢ "" → is_outdated c new ≡ true
unfolding is_outdated
is_outdated-empty_reason c new e h =
    ground (arith, ==-false c.reason "" h, eq_iff c.reason new.reason)

-- A condition of the type is there, and has a reason.
abbrev HasReason : List Condition → String → Type 0
HasReason cs t = (c : Condition) × (find_condition cs t ≡ some c) × (c.reason ≢ "")

none≢empty : or_default "" ≢ ""
unfolding or_default
none≢empty h = ground (arith, eq_iff "none" "")

add_or_update_condition-HasReason :
    (now : ℕ) (cs : List Condition) (t : String) (generation : ℕ) (status : ConditionStatus)
    (msg : String)
    → HasReason cs t
    → ((add_or_update_condition now cs t generation status "" msg).1 ≡ true)
      × HasReason (add_or_update_condition now cs t generation status "" msg).0 t
add_or_update_condition-HasReason now cs t generation status msg (old, e, h) =
    let new = requested now t generation status "" msg in
    let updated = updated_condition now old new in
    let (s, g, r, m) = updated_condition-Reports now old new in
    let found : find_condition (set_status_condition now cs new).0 t ≡ some updated =
      find_condition-set_status_condition_self now cs new
      ∙ (rw (set_status_condition-present now cs new e) refl) in
    rw
      (
        add_or_update_condition-present now cs t generation status "" msg e,
        is_outdated-empty_reason old new refl h,
      )
      (refl, (updated, found, λ q. none≢empty (sym r ∙ q)))

-- The conditions after a number of calls of addOrUpdateCondition with an empty reason, the n-th of
-- them at the n-th time.
abbrev pub after_calls :
    (ℕ → ℕ) → ℕ → List Condition → String → ℕ → ConditionStatus → String → List Condition
after_calls times zero cs t generation status msg = cs
after_calls times (suc n) cs t generation status msg =
    (add_or_update_condition (times n) (after_calls times n cs t generation status msg) t generation
      status "" msg).0

after_calls-HasReason :
    (times : ℕ → ℕ) (n : ℕ) (cs : List Condition) (t : String) (generation : ℕ)
    (status : ConditionStatus) (msg : String)
    → HasReason cs t
    → HasReason (after_calls times n cs t generation status msg) t
after_calls-HasReason times zero cs t generation status msg h = h
after_calls-HasReason times (suc n) cs t generation status msg h =
    (add_or_update_condition-HasReason (times n) (after_calls times n cs t generation status msg) t
      generation status msg (after_calls-HasReason times n cs t generation status msg h)).1

-- On conditions that have one of the type with a reason, addOrUpdateCondition with an empty reason
-- reports a change, and so does every repetition of the same call, after any number of them and at
-- any times, since SetStatusCondition stores `none` in the place of the empty reason.
pub add_or_update_condition_empty_reason :
    (times : ℕ → ℕ) (n : ℕ) (cs : List Condition) (t : String) (generation : ℕ)
    (status : ConditionStatus) (msg : String) {old : Condition}
    → find_condition cs t ≡ some old
    → old.reason ≢ ""
    → (add_or_update_condition
        (times n)
        (after_calls times n cs t generation status msg)
        t
        generation
        status
        ""
        msg).1
      ≡ true
add_or_update_condition_empty_reason times n cs t generation status msg {old} e h =
    (add_or_update_condition-HasReason (times n) (after_calls times n cs t generation status msg) t
      generation status msg
      (after_calls-HasReason times n cs t generation status msg (old, e, h))).0
