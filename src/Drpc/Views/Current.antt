-- ===== src/Drpc/Views/Current.antt =====
-- The conditions that the checks rely on: present, true, and of the current generation.
use ramen.Prelude.{
  ℕ, String, true, Option, none, some, List, ◌≡◌, refl, sym, arith, of_false_is_true, subst,
}
use ramen.Condition.{Condition, condition_true, find_condition}
use ramen.Condition.Transition.{status_eqb-eq}
use ramen.Drpc.Views.{is_condition_current, is_current}

abbrev pub IsCurrent : Option Condition → ℕ → Type 0
IsCurrent o generation =
    (d : Condition) × (o ≡ some d)
    × (d.status ≡ condition_true)
    × (d.observed_generation ≡ generation)

abbrev pub Current : List Condition → String → ℕ → Type 0
Current cs t generation = IsCurrent (find_condition cs t) generation

is_current-IsCurrent : (n : ℕ) (o : Option Condition) → is_current n o ≡ true → IsCurrent o n
unfolding is_current
is_current-IsCurrent n none p = of_false_is_true p
is_current-IsCurrent n (some d) p =
    (d, refl, status_eqb-eq d.status condition_true (ground arith), ground arith)

current_of :
    (n : ℕ) (d : Condition)
    → d.status ≡ condition_true
    → d.observed_generation ≡ n
    → is_current n (some d) ≡ true
unfolding is_current
current_of n d p q = ground arith

pub is_condition_current-Current :
    (cs : List Condition) (t : String) (n : ℕ) → is_condition_current cs t n ≡ true → Current cs t n
unfolding is_condition_current
is_condition_current-Current cs t n = is_current-IsCurrent n (find_condition cs t)

pub Current-is_condition_current :
    (cs : List Condition) (t : String) (n : ℕ) → Current cs t n → is_condition_current cs t n ≡ true
unfolding is_condition_current
Current-is_condition_current cs t n (d, p, q, r) =
    subst (λ o. is_current n o ≡ true) (sym p) (current_of n d q r)
