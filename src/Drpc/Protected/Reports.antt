-- ===== src/Drpc/Protected/Reports.antt =====
-- What the checks of internal/controller/protected_condition.go on one condition of the VRG find.
use ramen.Prelude.{
  inr, of_false_is_true, ℕ, String, not, ◌&&◌, ◌||◌, Option, none, some, List, ◌≡◌, ◌≢◌, refl, sym,
  ap, ◌∙◌, inl, ◌==◌, eqb, arith,
}
use ramen.Condition.{
  Condition, ConditionStatus, condition_true, condition_false, condition_unknown, status_eqb,
}
use ramen.Condition.Statuses.{status_of-add_or_update_condition}
use ramen.Api.{Vrg}
use ramen.Drpc.{Drpc}
use ramen.Drpc.Status.{set_condition, condition_protected}
use ramen.Drpc.Protected.{
  is_vrg_reason_error, updated, generic_of, generic_update_protected_for_condition, hooks_ready_of,
  destination_info_of,
}
use ramen.Drpc.Protected.Findings.{
  Finds, found-nothing, if-Finds, Finds-map, no_failure, and_eq, Met, HooksPass, DestinationKnown,
}

module _ (find : List Condition → String → Option Condition) (v : Vrg) where
  module _ (now : ℕ) (who : String) (sync_time : Option ℕ) (cluster : String) where
    pub updated-Finds :
        (P : Type 0) (s : ConditionStatus) (reason msg : String) (d : Drpc)
        → s ≢ condition_true
        → Finds P (updated find now who sync_time v cluster s reason msg d)
    unfolding Finds updated set_condition
    updated-Finds P s reason msg d h e = h (
        sym (
          status_of-add_or_update_condition now d.conditions condition_protected d.generation s
            reason _)
        ∙ e)

    generic_of-Met :
        (name a b c : String) (d : Drpc) (o : Option Condition)
        → find v.conditions name ≡ o
        → Finds (Met find v name) (generic_of find now who sync_time v cluster name a b c d o)
    unfolding generic_of
    generic_of-Met name a b c d none e =
        updated-Finds (Met find v name) condition_unknown _ _ d (λ x. absurd (cc x))
    generic_of-Met name a b c d (some k) e =
        let P = Met find v name in
        if-Finds P (status_eqb k.status condition_true && eqb k.observed_generation v.generation) _
          _
          (λ h.
            let (s, g) = and_eq k.status condition_true k.observed_generation v.generation h in
            found-nothing P (k, e, s, g))
          (λ _.
            if-Finds P
              (not (eqb k.observed_generation v.generation)
                || status_eqb k.status condition_unknown)
              _ _ (λ _. updated-Finds P condition_unknown _ _ d (λ x. absurd (cc x)))
              (λ _.
                if-Finds P (is_vrg_reason_error k) _ _
                  (λ _. updated-Finds P condition_false _ _ d (λ x. absurd (cc x)))
                  (λ _. updated-Finds P condition_false _ _ d (λ x. absurd (cc x)))))

    pub generic-Met :
        (name a b c : String) (d : Drpc)
        → Finds
            (Met find v name)
            (generic_update_protected_for_condition find now who sync_time v cluster name a b c d)
    unfolding generic_update_protected_for_condition
    generic-Met name a b c d = generic_of-Met name a b c d (find v.conditions name) refl

    pub hooks_ready_of-Finds :
        (d : Drpc) (o : Option Condition)
        → find v.conditions "HooksReady" ≡ o
        → Finds (HooksPass find v) (hooks_ready_of find now who sync_time v cluster d o)
    unfolding hooks_ready_of
    hooks_ready_of-Finds d none e = found-nothing (HooksPass find v) (inl e)
    hooks_ready_of-Finds d (some c) e =
        if-Finds (HooksPass find v) (not (eqb c.observed_generation v.generation)) _ _
          (λ h. found-nothing (HooksPass find v) (inr (c, e, inl (λ q. absurd (ground arith)))))
          (λ _.
            if-Finds (HooksPass find v) (status_eqb c.status condition_true) _ _
              (λ h. found-nothing (HooksPass find v) (
                inr (
                  c,
                  e,
                  inr (
                      inl (λ q.
                        of_false_is_true (sym (ap (λ s. status_eqb s condition_true) q) ∙ h))),
                )))
              (λ _.
                if-Finds (HooksPass find v)
                  (status_eqb c.status condition_false && c.reason == "HookFailed") _ _
                  (λ _. updated-Finds (HooksPass find v) condition_false _ _ d (λ x. absurd (cc x)))
                  (λ h. found-nothing (HooksPass find v) (inr (c, e, inr (no_failure c h))))))

    pub destination_info_of-Finds :
        (d : Drpc) (o : Option Condition)
        → find v.conditions "DestinationInfoAvailable" ≡ o
        → Finds (DestinationKnown find v) (destination_info_of find now who sync_time v cluster d o)
    unfolding destination_info_of
    destination_info_of-Finds d none e = found-nothing (DestinationKnown find v) (inl e)
    destination_info_of-Finds d (some c) e =
        if-Finds (DestinationKnown find v)
          (status_eqb c.status condition_true && eqb c.observed_generation v.generation) _ _
          (λ h.
            let (s, g) = and_eq c.status condition_true c.observed_generation v.generation h in
            found-nothing (DestinationKnown find v) (inr (c, e, s, g)))
          (λ _.
            Finds-map (Met find v "DestinationInfoAvailable") (DestinationKnown find v) _
              (λ m. inr m)
              (generic-Met "DestinationInfoAvailable" "destination info availability"
                "waiting for destination info" "destination info" d))
