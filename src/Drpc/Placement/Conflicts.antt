-- ===== src/Drpc/Placement/Conflicts.antt =====
-- The retries of createPlacementDecision.
use ramen.Prelude.{
  ℕ, zero, suc, ◌+◌, ◌≤◌, Bool, true, false, not, ◌≡◌, refl, inl, inr, Option-cases, arith,
  if◌then◌else◌,
}
use ramen.Drpc.{Env, Hub, M, Error, throw, api_call, is_already_exists, PlacementDecision}
use ramen.Drpc.Works.Demotion.{handle_post}
use ramen.Drpc.Placement.{try_create, create_placement_decision, put_placement}

if_calls :
    (b : Bool) (x : Error) (m : M PlacementDecision) (h : Hub) (n : ℕ)
    → h.calls ≤ n
    → (m h).1.calls ≤ n
    → ((if b then throw x else m) h).1.calls ≤ n
if_calls true x m h n p q = p
if_calls false x m h n p q = q

api_call-calls : (e : Env) (h : Hub) → (api_call e h).1.calls ≡ suc h.calls
unfolding api_call
api_call-calls e h = elim (Option-cases (e.api h.calls)) [
  | inl p ↦ rw (p, api_call) refl
  | inr (x, p) ↦ rw (p, api_call) refl
]

try_create-calls : (e : Env) (n : ℕ) (h : Hub) → (try_create e n h).1.calls ≤ n + h.calls
unfolding try_create put_placement
try_create-calls e zero h = ground arith
try_create-calls e (suc n) h =
    let i = (api_call e h).1 in
    let counted = api_call-calls e h in
    let ih = try_create-calls e n i in
    handle_post (λ _ j. j.calls ≤ suc n + h.calls) (api_call e h).0 i _ _ (λ _ _. ground arith)
      (λ x _.
        if_calls (not (is_already_exists x.kind)) x (try_create e n) i (suc n + h.calls)
          (ground arith) (ground arith))

-- createPlacementDecision ends after at most five calls of the API, whatever they answer.
pub create_placement_decision-calls :
    (e : Env) (h : Hub) → (create_placement_decision e h).1.calls ≤ 5 + h.calls
unfolding create_placement_decision
create_placement_decision-calls e h = try_create-calls e 5 h
