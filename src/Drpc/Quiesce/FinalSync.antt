-- ===== src/Drpc/Quiesce/FinalSync.antt =====
-- What the source's VRG reports when the final sync is over.
use ramen.Prelude.{
  String, Bool, true, false, not, Option, none, some, ◌≡◌, refl, subst, of_false_is_true, ap, assoc,
  if◌then◌else◌,
}
use ramen.Api.{Vrg, running_final_sync, final_sync_complete, preparing_final_sync}
use ramen.Drpc.{Env, Hub, M, Result, ok, err, Error, pure, throw, ◌>>=◌, ◌>>◌, maybe, modify_drpc}
use ramen.Drpc.Status.{set_progression}
use ramen.Drpc.Works.{update_vrg_to_prepare_for_final_sync, update_vrg_to_run_final_sync}
use ramen.Drpc.Placement.{get_cluster_decision}
use ramen.Drpc.Quiesce.{
  prepare_for_final_sync, run_final_sync, gc_or_progression, clear_placement, finish_final_sync,
  quiesce_and_run_final_sync,
}
use ramen.Drpc.Effects.{Answers, bind-Answers}

-- The VRG is seen on the cluster, and the flag of its status is set.
abbrev pub Flagged : (Vrg → Bool) → Env → String → Type 0
Flagged flag e c = (v : Vrg) × (assoc c e.vrgs ≡ some v) × (flag v ≡ true)

abbrev is_true : Result Bool → Bool
is_true (ok b) = b
is_true (err x) = false

-- A step that answers false after what it does.
not-answered : {A : Type 0} (m : M A) → Answers (m >> pure false) true → false ≡ true
not-answered m p = let (a, q, (h, r)) = bind-Answers m (λ _. pure false) true p in ap is_true r

if_flag :
    {A : Type 0} (b : Bool) (m : M A)
    → Answers (if not b then m >> pure false else pure true) true
    → b ≡ true
if_flag true m p = refl
if_flag false m p = not-answered m p

maybe-Flagged :
    (flag : Vrg → Bool) (x : Error) (m : M (Unit {0})) (o : Option Vrg)
    → Answers (maybe (throw x) (λ v. if not (flag v) then m >> pure false else pure true) o) true
    → (v : Vrg) × (o ≡ some v) × (flag v ≡ true)
maybe-Flagged flag x m none (h, p) = of_false_is_true (ap is_true p)
maybe-Flagged flag x m (some v) p = (v, refl, if_flag (flag v) m p)

-- A test that stops the sequence with false.
guarded :
    {A : Type 0} (b : Bool) (m : M A) (n : M Bool)
    → Answers (if not b then m >> pure false else n) true
    → (b ≡ true) × Answers n true
guarded true m n p = (refl, p)
guarded false m n p = of_false_is_true (not-answered m p)

finish_final_sync-Flagged :
    (e : Env) (home : String)
    → Answers (finish_final_sync e home) true
    → Flagged (λ v. v.final_sync_complete) e home
unfolding finish_final_sync run_final_sync
finish_final_sync-Flagged e home p =
    let (result, a, b) = bind-Answers (run_final_sync e home) _ true p in
    let (is, _) =
      guarded result (modify_drpc (gc_or_progression e home running_final_sync))
        (modify_drpc (set_progression final_sync_complete) >> pure true) b in
    maybe-Flagged (λ v. v.final_sync_complete) _ (update_vrg_to_run_final_sync e home)
      (assoc home e.vrgs) (subst (Answers (run_final_sync e home)) is a)

-- When quiesceAndRunFinalSync answers that it is done, a VRG is seen on the cluster that the
-- relocation leaves, and its status says that the preparation and the final sync are complete.
pub quiesce_and_run_final_sync-Flagged :
    (e : Env) (home_cluster : String) (h : Hub)
    → (quiesce_and_run_final_sync e home_cluster h).0 ≡ ok true
    → Flagged (λ v. v.prepare_for_final_sync_complete) e home_cluster
      × Flagged (λ v. v.final_sync_complete) e home_cluster
unfolding quiesce_and_run_final_sync prepare_for_final_sync
quiesce_and_run_final_sync-Flagged e home h p =
    let (result, a, b) = bind-Answers (prepare_for_final_sync e home) _ true (h, p) in
    let (is, q) =
      guarded result (modify_drpc (set_progression preparing_final_sync))
        (get_cluster_decision e >>= λ d. clear_placement e home d >> finish_final_sync e home) b in
    let (d, _, r) = bind-Answers (get_cluster_decision e) _ true q in
    let (_, _, s) = bind-Answers (clear_placement e home d) _ true r in
    (
      maybe-Flagged (λ v. v.prepare_for_final_sync_complete) _
          (update_vrg_to_prepare_for_final_sync e home) (assoc home e.vrgs)
          (subst (Answers (prepare_for_final_sync e home)) is a),
      finish_final_sync-Flagged e home s,
    )
