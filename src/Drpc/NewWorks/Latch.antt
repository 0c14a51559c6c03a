-- ===== src/Drpc/NewWorks/Latch.antt =====
-- Which ManifestWork the creation of a VRG may make primary.
use ramen.Prelude.{String, true, not, ◌≡◌, inl, none}
use ramen.Api.{ReplicationState, primary, is_primary}
use ramen.Drpc.{Env, pure, is_not_found}
use ramen.Drpc.Fields.{new_vrg}
use ramen.Drpc.Works.{find_manifest_work, create_or_update_manifest_work, update_vrg_state}
use ramen.Drpc.Works.Update.{update_vrg_state-Promotes}
use ramen.Drpc.NewWorks.{
  ensure_namespace_manifest_work, create_vrg_manifest_work, create_vrg_manifest_work_as_primary,
}
use ramen.Drpc.Effects.{Within}
use ramen.Drpc.Effects.Promotion.{
  Promotes, SameWorks-Promotes, bind-Promotes, try-Promotes, if_Promotes,
  find_manifest_work-Promotes, create_or_update_manifest_work-Promotes,
}
use ramen.Drpc.Effects.Reads.{ensure_namespace_manifest_work-SameWorks}

pub create_vrg_manifest_work-Promotes :
    (c : String) (S : Type 0) (e : Env) (k : String) (s : ReplicationState)
    → (k ≡ c → S)
    → Within (Promotes c S) (create_vrg_manifest_work e k s)
unfolding create_vrg_manifest_work
create_vrg_manifest_work-Promotes c S e k s reason =
    try-Promotes c S (ensure_namespace_manifest_work e k) _ _
      (SameWorks-Promotes c S (ensure_namespace_manifest_work e k)
        (ensure_namespace_manifest_work-SameWorks e k))
      (λ _ _.
        try-Promotes c S (find_manifest_work e k) _ _ (find_manifest_work-Promotes c S e k)
          (λ v _ h p. inl p)
          (λ x.
            if_Promotes c S (not (is_not_found x.kind)) _ _ (λ _ h p. inl p)
              (λ _ h.
                let w = new_vrg e h.drpc k s none in
                try-Promotes c S (create_or_update_manifest_work e k w) (λ _. pure tt) _
                  (create_or_update_manifest_work-Promotes c S e k w (λ q r. reason q))
                  (λ _ _ i p. inl p) (λ y i p. inl p) h)))
      (λ x h p. inl p)

pub create_vrg_manifest_work_as_primary-Promotes :
    (c : String) (S : Type 0) (e : Env) (k : String)
    → (k ≡ c → S)
    → Within (Promotes c S) (create_vrg_manifest_work_as_primary e k)
unfolding create_vrg_manifest_work_as_primary
create_vrg_manifest_work_as_primary-Promotes c S e k reason =
    try-Promotes c S (find_manifest_work e k) _ _ (find_manifest_work-Promotes c S e k)
      (λ v _.
        if_Promotes c S (is_primary v.replication_state) _ _ (λ _ h p. inl p)
          (λ _.
            bind-Promotes c S (update_vrg_state e k primary) (λ _. pure true)
              (update_vrg_state-Promotes c S e k primary (λ q r. reason q)) (λ _ _ h p. inl p)))
      (λ x.
        if_Promotes c S (not (is_not_found x.kind)) _ _ (λ _ h p. inl p)
          (λ _.
            bind-Promotes c S (create_vrg_manifest_work e k primary) (λ _. pure true)
              (create_vrg_manifest_work-Promotes c S e k primary reason) (λ _ _ h p. inl p)))
