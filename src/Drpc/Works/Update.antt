-- ===== src/Drpc/Works/Update.antt =====
-- What updateVRGState and moveVRGToSecondaryEverywhere leave in the ManifestWorks.
use ramen.Prelude.{
  ℕ, String, true, Option, none, some, List, [], ◌∷◌, ◌≡◌, refl, sym, of_false_is_true, ◌||◌, ◌∙◌,
  ap, inl, inr, assoc, arith, Bool-cases, if◌then◌else◌, suc,
}
use ramen.Api.{ReplicationState, secondary, is_primary, is_secondary, Vrg}
use ramen.Drpc.{Env, Drpc, DrType, dr_type_sync, dr_type_async, pure, is_not_found}
use ramen.Drpc.Fields.{
  set_vrg_annotations, set_vrg_action, set_vrg_spec_fields, update_vrg_dr_type_spec_if_needed,
  update_vrg_dr_type_spec, update_vrg_sync_spec, update_vrg_async_spec, new_vrg_dr_type_spec,
  update_vrg_optional_fields, new_vrg, empty_vrg, has_global_vgr_label,
}
use ramen.Drpc.Works.{
  switched_vrg, is_failover_promotion, find_manifest_work, update_manifest_work, update_vrg_state,
  move_vrg_to_secondary, replication_state_eqb,
}
use ramen.Drpc.Effects.{Within}
use ramen.Drpc.Effects.Promotion.{
  Promotes, bind-Promotes, try-Promotes, if_Promotes, find_manifest_work-Promotes,
  update_manifest_work-Promotes,
}

set_vrg_annotations-replication_state :
    (d : Drpc) (c : String) (v : Vrg)
    → (set_vrg_annotations d c v).replication_state ≡ v.replication_state
unfolding set_vrg_annotations
set_vrg_annotations-replication_state d c v = elim (Bool-cases (has_global_vgr_label d)) [
  | inl q ↦ rw (q, set_vrg_annotations) refl
  | inr q ↦ rw (q, set_vrg_annotations) refl
]

set_vrg_action-replication_state :
    (d : Drpc) (v : Vrg) → (set_vrg_action d v).replication_state ≡ v.replication_state
unfolding set_vrg_action
set_vrg_action-replication_state d v = ground arith

dr_type_spec-replication_state :
    (t : DrType) (e : Env) (d : Drpc) (view v : Vrg)
    → (update_vrg_dr_type_spec t e d view v).replication_state ≡ v.replication_state
unfolding update_vrg_dr_type_spec update_vrg_sync_spec update_vrg_async_spec
dr_type_spec-replication_state dr_type_sync e d view v = refl
dr_type_spec-replication_state dr_type_async e d view v = refl

new_dr_type_spec-replication_state :
    (t : DrType) (e : Env) (v : Vrg)
    → (new_vrg_dr_type_spec t e v).replication_state ≡ v.replication_state
unfolding new_vrg_dr_type_spec
new_dr_type_spec-replication_state dr_type_sync e v = refl
new_dr_type_spec-replication_state dr_type_async e v = refl

dr_type_spec_if_needed-replication_state :
    (e : Env) (d : Drpc) (view : Option Vrg) (v : Vrg)
    → (update_vrg_dr_type_spec_if_needed e d view v).replication_state ≡ v.replication_state
unfolding update_vrg_dr_type_spec_if_needed
dr_type_spec_if_needed-replication_state e d none v =
    new_dr_type_spec-replication_state e.dr_type e v
dr_type_spec_if_needed-replication_state e d (some view) v =
    dr_type_spec-replication_state e.dr_type e d view v

pub update_vrg_optional_fields-replication_state :
    (e : Env) (d : Drpc) (c : String) (view : Option Vrg) (v : Vrg)
    → (update_vrg_optional_fields e d c view v).replication_state ≡ v.replication_state
unfolding update_vrg_optional_fields set_vrg_spec_fields
update_vrg_optional_fields-replication_state e d c view v =
    let a = set_vrg_annotations d c v in
    let b = record a {
      protected_namespaces = d.protected_namespaces;
      vol_sync_disabled = e.vol_sync_disabled;
    } in
    dr_type_spec_if_needed-replication_state e d view (set_vrg_action d b)
    ∙ set_vrg_action-replication_state d b
    ∙ set_vrg_annotations-replication_state d c v

pub new_vrg-replication_state :
    (e : Env) (d : Drpc) (c : String) (s : ReplicationState) (view : Option Vrg)
    → (new_vrg e d c s view).replication_state ≡ s
unfolding new_vrg
new_vrg-replication_state e d c s view =
    update_vrg_optional_fields-replication_state e d c view (empty_vrg s)

pub switched_vrg-replication_state :
    (e : Env) (d : Drpc) (c : String) (s : ReplicationState) (v : Vrg)
    → (switched_vrg e d c s v).replication_state ≡ s
unfolding switched_vrg
switched_vrg-replication_state e d c s v =
    let b =
      update_vrg_optional_fields-replication_state e d c (assoc c e.vrgs)
        (set_vrg_action d (record v { replication_state = s }))
      ∙ set_vrg_action-replication_state d (record v { replication_state = s }) in
    elim (Bool-cases (is_secondary s || is_failover_promotion d c)) [
      | inl q ↦ rw (q, switched_vrg) b
      | inr q ↦ rw (q, switched_vrg) b
    ]

-- An update to primary may promote the cluster that it is for; an update to secondary, none.
pub update_vrg_state-Promotes :
    (c : String) (S : Type 0) (e : Env) (k : String) (s : ReplicationState)
    → (k ≡ c → is_primary s ≡ true → S)
    → Within (Promotes c S) (update_vrg_state e k s)
unfolding update_vrg_state
update_vrg_state-Promotes c S e k s reason =
    try-Promotes c S (find_manifest_work e k) _ _ (find_manifest_work-Promotes c S e k)
      (λ v _.
        if_Promotes c S (replication_state_eqb v.replication_state s) _ _ (λ _ h p. inl p)
          (λ _ h.
            let w = switched_vrg e h.drpc k s v in
            bind-Promotes c S (update_manifest_work e k w) (λ _. pure true)
              (update_manifest_work-Promotes c S e k w (λ q r.
                reason q (sym (ap is_primary (switched_vrg-replication_state e h.drpc k s v)) ∙ r)))
              (λ _ _ i p. inl p) h))
      (λ x h p. inl p)

pub move_vrg_to_secondary-Promotes :
    (c : String) (S : Type 0) (e : Env) (cs : List String) (n : ℕ)
    → Within (Promotes c S) (move_vrg_to_secondary e cs n)
unfolding move_vrg_to_secondary
move_vrg_to_secondary-Promotes c S e [] n = λ h p. inl p
move_vrg_to_secondary-Promotes c S e (k ∷ cs) n =
    try-Promotes c S (update_vrg_state e k secondary) _ _
      (update_vrg_state-Promotes c S e k secondary (λ q r. of_false_is_true r))
      (λ _ _. move_vrg_to_secondary-Promotes c S e cs n)
      (λ x. move_vrg_to_secondary-Promotes c S e cs (if is_not_found x.kind then n else suc n))
