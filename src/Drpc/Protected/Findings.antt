-- ===== src/Drpc/Protected/Findings.antt =====
-- What a check of internal/controller/protected_condition.go finds, and what the checks of a primary
-- VRG find together.
use ramen.Prelude.{
  inr, Bool-cases, of_false_is_true, ℕ, String, Bool, true, false, ◌&&◌, Option, none, some, List,
  ◌≡◌, ◌≢◌, refl, ◌⊎◌, inl, ◌==◌, eqb, if◌then◌else◌, arith, eq_iff, assoc_or_empty,
}
use ramen.Condition.{Condition, ConditionStatus, condition_true, condition_false, status_eqb}
use ramen.Condition.Statuses.{status_of}
use ramen.Condition.Transition.{status_eqb-eq}
use ramen.Api.{State, primary_state, secondary_state, unknown_state, unset_state, state_text, Vrg}
use ramen.Drpc.{Drpc}
use ramen.Drpc.Status.{condition_protected}
use ramen.Drpc.Fields.{global_vgr_label}
use ramen.Drpc.Protected.{or_check}

-- The condition Protected of a DRPC is true.
abbrev pub IsProtected : Drpc → Type 0
IsProtected d = status_of d.conditions condition_protected ≡ condition_true

-- What a check has found: P if it updates nothing; else Protected is not true.
unfoldable pub Finds : Type 0 → Option Drpc → Type 0
Finds P none = P
Finds P (some d) = status_of d.conditions condition_protected ≢ condition_true

pub found-nothing : (P : Type 0) → P → Finds P none
unfolding Finds
found-nothing P h = h

pub or_check-Finds :
    (P Q : Type 0) (o r : Option Drpc) → Finds P o → Finds Q r → Finds (P × Q) (or_check o r)
unfolding Finds
or_check-Finds P Q none none h k = (h, k)
or_check-Finds P Q none (some d) h k = k
or_check-Finds P Q (some d) r h k = h

pub if-Finds :
    (P : Type 0) (b : Bool) (x y : Option Drpc)
    → (b ≡ true → Finds P x)
    → (b ≡ false → Finds P y)
    → Finds P (if b then x else y)
if-Finds P true x y h k = h refl
if-Finds P false x y h k = k refl

pub Finds-map : (P Q : Type 0) (o : Option Drpc) → (P → Q) → Finds P o → Finds Q o
unfolding Finds
Finds-map P Q none f h = f h
Finds-map P Q (some d) f h = h

pub no_failure :
    (c : Condition)
    → (status_eqb c.status condition_false && c.reason == "HookFailed") ≡ false
    → (c.status ≢ condition_false) ⊎ (c.reason ≢ "HookFailed")
no_failure c h = elim (Bool-cases (status_eqb c.status condition_false)) [
  | inl p ↦ inr (λ q. absurd (ground (arith, eq_iff c.reason "HookFailed")))
  | inr p ↦ inl (λ q. absurd (ground arith))
]

pub state_text-eq : (s t : State) → (state_text s == state_text t) ≡ true → s ≡ t
state_text-eq primary_state primary_state h = refl
state_text-eq primary_state secondary_state h = of_false_is_true h
state_text-eq primary_state unknown_state h = of_false_is_true h
state_text-eq primary_state unset_state h = of_false_is_true h
state_text-eq secondary_state primary_state h = of_false_is_true h
state_text-eq secondary_state secondary_state h = refl
state_text-eq secondary_state unknown_state h = of_false_is_true h
state_text-eq secondary_state unset_state h = of_false_is_true h
state_text-eq unknown_state primary_state h = of_false_is_true h
state_text-eq unknown_state secondary_state h = of_false_is_true h
state_text-eq unknown_state unknown_state h = refl
state_text-eq unknown_state unset_state h = of_false_is_true h
state_text-eq unset_state primary_state h = of_false_is_true h
state_text-eq unset_state secondary_state h = of_false_is_true h
state_text-eq unset_state unknown_state h = of_false_is_true h
state_text-eq unset_state unset_state h = refl

pub and_eq :
    (s t : ConditionStatus) (m n : ℕ) → (status_eqb s t && eqb m n) ≡ true → (s ≡ t) × (m ≡ n)
and_eq s t m n h = ground (arith, status_eqb-eq s t)

module _ (find : List Condition → String → Option Condition) (v : Vrg) where
  -- The VRG reports a condition as true, at its generation.
  abbrev pub Met : String → Type 0
  Met t =
      (c : Condition) × (find v.conditions t ≡ some c)
      × (c.status ≡ condition_true)
      × (c.observed_generation ≡ v.generation)

  -- The VRG reports, at its generation, that data is protected, or that it is being replicated.
  abbrev pub DataProtected : Type 0
  DataProtected =
      (c : Condition) × (find v.conditions "DataProtected" ≡ some c)
      × (c.observed_generation ≡ v.generation)
      × ((c.status ≡ condition_true) ⊎ (c.status ≡ condition_false) × (c.reason ≡ "Replicating"))

  -- No hook is reported as failed at the VRG's generation.
  abbrev pub HooksPass : Type 0
  HooksPass =
      (find v.conditions "HooksReady" ≡ none)
      ⊎ ((c : Condition) × (find v.conditions "HooksReady" ≡ some c)
          × ((c.observed_generation ≢ v.generation)
              ⊎ ((c.status ≢ condition_false) ⊎ (c.reason ≢ "HookFailed"))))

  -- The VRG does not report on destination info, or reports that it is available.
  abbrev pub DestinationKnown : Type 0
  DestinationKnown =
      (find v.conditions "DestinationInfoAvailable" ≡ none) ⊎ Met "DestinationInfoAvailable"

  -- An asynchronous VRG without a global group has synced its group.
  abbrev pub GroupSynced : Option ℕ → Type 0
  GroupSynced sync_time =
      (v.async ≡ none)
      ⊎ ((assoc_or_empty global_vgr_label v.labels ≢ "") ⊎ ((t : ℕ) × (sync_time ≡ some t)))

  -- What the checks of a primary VRG establish.
  abbrev pub Ready : Option ℕ → Type 0
  Ready sync_time =
      HooksPass
      × Met "ClusterDataReady"
      × Met "DataReady"
      × DataProtected
      × DestinationKnown
      × Met "NoClusterDataConflict"
      × (v.observed_generation ≡ v.generation)
      × (v.state ≡ primary_state)
      × GroupSynced sync_time
      × Met "ClusterDataProtected"
