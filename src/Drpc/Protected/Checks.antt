-- ===== src/Drpc/Protected/Checks.antt =====
-- What a DRPC whose condition Protected is true says of its VRG:
-- internal/controller/protected_condition.go.
use ramen.Prelude.{
  inr, ℕ, String, true, false, not, ◌&&◌, ◌||◌, Option, none, some, List, ◌≡◌, refl, sym, subst, ap,
  ◌∙◌, ◌⊎◌, inl, ◌==◌, eqb, if◌then◌else◌, arith, eq_iff, assoc_or_empty,
}
use ramen.Condition.{Condition, condition_true, condition_false, status_eqb}
use ramen.Condition.Transition.{status_eqb-eq}
use ramen.Api.{PeerClass, state_text, primary, is_primary, Vrg}
use ramen.Drpc.{Drpc}
use ramen.Drpc.Fields.{global_vgr_label}
use ramen.Drpc.Protected.{
  status_state, is_async, is_unset, update_vrg_hooks_ready, update_vrg_cluster_data_ready,
  update_vrg_cluster_data_protected, update_vrg_destination_info_available,
  update_vrg_data_ready_as_primary, data_protected_generic, data_protected_primary_of,
  update_vrg_data_protected_as_primary, for_replication_state, update_vrg_no_cluster_data_conflict,
  update_misc_vrg_status, checks, protected_or, update_drpc_protected_condition,
}
use ramen.Drpc.Protected.Findings.{
  IsProtected, Finds, found-nothing, or_check-Finds, if-Finds, Finds-map, state_text-eq, Met,
  DataProtected, HooksPass, DestinationKnown, GroupSynced, Ready,
}
use ramen.Drpc.Protected.Reports.{
  updated-Finds, generic-Met, hooks_ready_of-Finds, destination_info_of-Finds,
}

module _ (find : List Condition → String → Option Condition) (v : Vrg) where
  module _ (now : ℕ) (who : String) (sync_time : Option ℕ) (cluster : String) where
    replicating_eq :
        (c : Condition)
        → (eqb c.observed_generation v.generation
            && (c.reason == "Replicating" && status_eqb c.status condition_false
                || status_eqb c.status condition_true))
          ≡ true
        → (c.observed_generation ≡ v.generation)
          × ((c.status ≡ condition_true)
              ⊎ (c.status ≡ condition_false) × (c.reason ≡ "Replicating"))
    replicating_eq c h = ground (
      arith,
      status_eqb-eq c.status condition_true,
      status_eqb-eq c.status condition_false,
      eq_iff c.reason "Replicating",
    )

    met_data_protected : Met find v "DataProtected" → (DataProtected find v)
    met_data_protected (c, e, s, g) = (c, e, g, inl s)

    data_protected_generic-Finds :
        (d : Drpc)
        → Finds (DataProtected find v) (data_protected_generic find now who sync_time v cluster d)
    unfolding data_protected_generic
    data_protected_generic-Finds d =
        Finds-map (Met find v "DataProtected") (DataProtected find v) _ met_data_protected (
          generic-Met find v now who sync_time cluster "DataProtected" "workload data protection"
            "protecting workload data" "protecting workload data" d)

    data_protected_primary_of-Finds :
        (d : Drpc) (o : Option Condition)
        → find v.conditions "DataProtected" ≡ o
        → Finds
            (DataProtected find v)
            (data_protected_primary_of find now who sync_time v cluster d o)
    unfolding data_protected_primary_of
    data_protected_primary_of-Finds d none e = data_protected_generic-Finds d
    data_protected_primary_of-Finds d (some c) e =
        if-Finds (DataProtected find v)
          (eqb c.observed_generation v.generation
            && (c.reason == "Replicating" && status_eqb c.status condition_false
                || status_eqb c.status condition_true))
          _ _
          (λ h.
            let (g, s) = replicating_eq c h in found-nothing (DataProtected find v) (c, e, g, s))
          (λ _. data_protected_generic-Finds d)

    abbrev Settled : Type 0
    Settled =
        (v.observed_generation ≡ v.generation)
        × (v.state ≡ status_state v.replication_state)
        × GroupSynced find v sync_time

    group_synced :
        (classes : Option (List PeerClass)) (time : Option ℕ)
        → v.async ≡ classes
        → sync_time ≡ time
        → (is_async classes && assoc_or_empty global_vgr_label v.labels == "" && is_unset time)
          ≡ false
        → GroupSynced find v sync_time
    group_synced none time a t h = inl a
    group_synced (some classes) (some x) a t h = inr (inr (x, t))
    group_synced (some classes) none a t h =
        inr
          (inl (λ q. absurd (ground (arith, eq_iff (assoc_or_empty global_vgr_label v.labels) ""))))

    misc-Finds :
        (d : Drpc) → Finds Settled (update_misc_vrg_status find now who sync_time v cluster d)
    unfolding update_misc_vrg_status
    misc-Finds d =
        if-Finds Settled (not (eqb v.observed_generation v.generation)) _ _
          (λ _.
            updated-Finds find v now who sync_time cluster Settled condition_false _ _ d
              (λ x. absurd (cc x)))
          (λ observed.
            if-Finds Settled
              (not (state_text v.state == state_text (status_state v.replication_state))) _ _
              (λ _.
                updated-Finds find v now who sync_time cluster Settled condition_false _ _ d
                  (λ x. absurd (cc x)))
              (λ same.
                if-Finds Settled
                  (is_async v.async
                    && assoc_or_empty global_vgr_label v.labels == ""
                    && is_unset sync_time)
                  _ _
                  (λ _.
                    updated-Finds find v now who sync_time cluster Settled condition_false _ _ d
                      (λ x. absurd (cc x)))
                  (λ h. found-nothing Settled (
                    ground arith,
                    state_text-eq v.state (status_state v.replication_state) (ground arith),
                    group_synced v.async sync_time refl refl h,
                  ))))

    when_primary-Finds :
        (P : Type 0) (o : Option Drpc)
        → v.replication_state ≡ primary
        → Finds P o
        → Finds P (if not (is_primary v.replication_state) then none else o)
    when_primary-Finds P o p h =
        subst (λ b. Finds P (if b then none else o)) (sym (ap (λ r. not (is_primary r)) p)) h

    protected_or-Ready :
        (P : Type 0) (d : Drpc) (o : Option Drpc)
        → Finds P o
        → IsProtected (protected_or find now who sync_time v cluster d o)
        → P
    unfolding Finds protected_or
    protected_or-Ready P d none h p = h
    protected_or-Ready P d (some c) h p = absurd (h p)

    for_primary-Finds :
        (d : Drpc)
        → Finds
            (Met find v "DataReady" × (DataProtected find v))
            (for_replication_state find now who sync_time v cluster d primary)
    unfolding for_replication_state update_vrg_data_ready_as_primary
        update_vrg_data_protected_as_primary
    for_primary-Finds d =
        or_check-Finds (Met find v "DataReady") (DataProtected find v) _ _
          (generic-Met find v now who sync_time cluster "DataReady" "workload data readiness"
            "readying workload data" "readying workload data" d)
          (data_protected_primary_of-Finds d (find v.conditions "DataProtected") refl)

    abbrev Found : Type 0
    Found =
        (HooksPass find v)
        × (Met find v "ClusterDataReady"
            × ((Met find v "DataReady" × (DataProtected find v))
                × ((DestinationKnown find v)
                    × (Met find v "NoClusterDataConflict"
                        × (Settled × Met find v "ClusterDataProtected")))))

    checks-Finds :
        (d : Drpc)
        → v.replication_state ≡ primary
        → Finds Found (checks find now who sync_time v cluster d)
    unfolding checks update_vrg_hooks_ready update_vrg_cluster_data_ready
        update_vrg_destination_info_available update_vrg_no_cluster_data_conflict
        update_vrg_cluster_data_protected
    checks-Finds d p =
        or_check-Finds _ _ _ _
          (hooks_ready_of-Finds find v now who sync_time cluster d (find v.conditions "HooksReady")
            refl)
          (or_check-Finds _ _ _ _
            (when_primary-Finds (Met find v "ClusterDataReady") _ p (
              generic-Met find v now who sync_time cluster "ClusterDataReady"
                "workload resources readiness" "restoring workload resources"
                "restoring workload resources" d))
            (or_check-Finds _ _ _ _
              (subst
                (λ r.
                  Finds (Met find v "DataReady" × (DataProtected find v))
                    (for_replication_state find now who sync_time v cluster d r))
                (sym p) (for_primary-Finds d))
              (or_check-Finds _ _ _ _
                (destination_info_of-Finds find v now who sync_time cluster d
                  (find v.conditions "DestinationInfoAvailable") refl)
                (or_check-Finds _ _ _ _
                  (generic-Met find v now who sync_time cluster "NoClusterDataConflict"
                    "workload data protection" "checking for workload data conflict"
                    "conflicting workload data" d)
                  (or_check-Finds _ _ _ _ (misc-Finds d) (
                    when_primary-Finds (Met find v "ClusterDataProtected") _ p (
                      generic-Met find v now who sync_time cluster "ClusterDataProtected"
                        "workload resource protection" "protecting workload resources"
                        "protecting workload resources" d)))))))

    -- If updateDRPCProtectedCondition leaves the condition Protected true for a VRG whose spec is
    -- primary, then the VRG has observed its current generation, its state is Primary, and it
    -- reports at that generation that ClusterDataReady, DataReady, NoClusterDataConflict and
    -- ClusterDataProtected are true, that DataProtected is true or is false while replicating, no
    -- hook failure, and that DestinationInfoAvailable is true if it reports on it at all; and if it
    -- is asynchronous without a global group, the time of its last group sync is known.
    pub update_drpc_protected_condition-Ready :
        (d : Drpc)
        → v.replication_state ≡ primary
        → IsProtected (update_drpc_protected_condition find now who sync_time v cluster d)
        → Ready find v sync_time
    unfolding update_drpc_protected_condition
    update_drpc_protected_condition-Ready d p h =
        let (hooks, (restored, ((ready, protects), (known, (no_conflict, (settled, guarded)))))) =
          protected_or-Ready Found d (checks find now who sync_time v cluster d) (checks-Finds d p)
            h in
        let (observed, state, synced) = settled in
        (
          hooks,
          restored,
          ready,
          protects,
          known,
          no_conflict,
          observed,
          state ∙ ap status_state p,
          synced,
          guarded,
        )
