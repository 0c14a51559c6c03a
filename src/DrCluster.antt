-- ===== src/DrCluster.antt =====
-- The fencing of a cluster by its DRCluster: internal/controller/drcluster_controller.go. The
-- state of a reconcile is the DRCluster (`u.object`) and the NetworkFence ManifestWorks, by
-- cluster and class. What the API, the managed clusters and their views answer is the
-- environment. Where the code answers (true, err), the model answers the error: the caller
-- requeues.
pub mod Peers
pub mod Status
pub mod Frames
pub mod Phases
pub mod Confirmed
pub mod Progress
pub mod Fencing
pub mod Tests
use ramen.Prelude.{
  ℕ, suc, String, Bool, true, false, not, ◌&&◌, Option, none, some, List, [], ◌∷◌, ◌++◌, ◌==◌, eqb,
  if◌then◌else◌, put, length, select, contains, ◌+++◌,
}
use ramen.Condition.{
  Condition, ConditionStatus, condition_true, condition_false, condition_unknown,
  set_status_condition, set_status_condition_if_not_found,
}
use ramen.Drpc.{Result, ok, err, Error, errorf, wrap, is_not_found}

-- ClusterFenceState, the empty string as `no_fence_state`. A NetworkFence has the same strings.
pub data FenceState : Type 0 where
  unfenced fenced manually_fenced manually_unfenced no_fence_state : FenceState

abbrev pub fence_state_eqb : FenceState → FenceState → Bool
fence_state_eqb unfenced unfenced = true
fence_state_eqb fenced fenced = true
fence_state_eqb manually_fenced manually_fenced = true
fence_state_eqb manually_unfenced manually_unfenced = true
fence_state_eqb no_fence_state no_fence_state = true
fence_state_eqb _ _ = false

abbrev pub fence_state_text : FenceState → String
fence_state_text unfenced = "Unfenced"
fence_state_text fenced = "Fenced"
fence_state_text manually_fenced = "ManuallyFenced"
fence_state_text manually_unfenced = "ManuallyUnfenced"
fence_state_text no_fence_state = ""

-- DRClusterPhase, the empty string as `phase_unset`.
pub data Phase : Type 0 where
  phase_available phase_starting phase_fencing phase_fenced phase_unfencing phase_unfenced
        phase_unset :
      Phase

-- A DRPolicy, as getPeerCluster reads it, and the DRCluster of a peer.
pub record Policy : Type 0 where
  pub dr_clusters : List String
  pub has_sync_peer_classes : Bool

pub record Peer : Type 0 where
  pub name : String
  pub deleted : Bool
  pub region : String

-- NetworkFenceClass, with the annotation of its storage IDs split at the commas; StorageClass.
pub record NfClass : Type 0 where
  pub name : String
  pub provisioner : String
  pub storage_ids : Option (List String)

pub record StorageClass : Type 0 where
  pub provisioner : String
  pub storage_id : String

-- NetworkFence: the fence state of its spec, and whether its result is Succeeded.
pub record NetworkFence : Type 0 where
  pub fence_state : FenceState
  pub succeeded : Bool

pub record FenceEnv : Type 0 where
  pub now : ℕ
  pub policies : Result (List Policy)
  -- the DRCluster of a name, `none` where it cannot be read
  pub read_peer : String → Option Peer
  -- the classes on a cluster
  pub classes : String → Result (List NfClass × List StorageClass)
  -- the answers to the creation of a NetworkFence ManifestWork and to its deletion, by cluster
  -- and class
  pub write_work : String → String → Option Error
  pub delete_work : String → String → Option Error
  -- GetNFFromManagedCluster by cluster and class, and FindManifestWorkByType by cluster
  pub view_nf : String → String → Result NetworkFence
  pub find_work : String → Option Error

-- DRCluster: spec and status, and the ManifestWorks.
pub record Cluster : Type 0 where
  pub name : String
  pub region : String
  pub generation : ℕ
  pub cluster_fence : FenceState
  pub phase : Phase
  pub conditions : List Condition
  pub works : List (String × FenceState)

abbrev pub condition_type_fenced : String
condition_type_fenced = "Fenced"

abbrev pub condition_type_clean : String
condition_type_clean = "Clean"

-- The two calls of SetStatusCondition that each of the setters makes.
unfoldable pub set_conditions :
    FenceEnv → ConditionStatus × String → ConditionStatus × String → String → Cluster → Cluster
set_conditions e (is_fenced, fenced_reason) (is_clean, clean_reason) msg c =
    let fenced_condition : Condition = record {
      type = condition_type_fenced;
      status = is_fenced;
      observed_generation = c.generation;
      last_transition_time = 0;
      reason = fenced_reason;
      message = msg;
    } in
    let clean_condition : Condition = record {
      type = condition_type_clean;
      status = is_clean;
      observed_generation = c.generation;
      last_transition_time = 0;
      reason = clean_reason;
      message = msg;
    } in
    record c {
      conditions =
          (set_status_condition e.now (set_status_condition e.now c.conditions fenced_condition).0
            clean_condition).0;
    }

module _ (e : FenceEnv) where
  -- setDRClusterFencingCondition and its siblings.
  unfoldable pub set_fencing : String → Cluster → Cluster
  unfolding set_conditions
  set_fencing = set_conditions e (condition_false, "Fencing") (condition_true, "Fencing")

  unfoldable pub set_unfencing : String → Cluster → Cluster
  unfolding set_conditions
  set_unfencing = set_conditions e (condition_true, "Unfencing") (condition_false, "Unfencing")

  unfoldable pub set_cleaning : String → Cluster → Cluster
  unfolding set_conditions
  set_cleaning = set_conditions e (condition_false, "Cleaning") (condition_false, "Cleaning")

  unfoldable pub set_fenced : String → Cluster → Cluster
  unfolding set_conditions
  set_fenced = set_conditions e (condition_true, "Fenced") (condition_false, "Fenced")

  unfoldable pub set_unfenced : String → Cluster → Cluster
  unfolding set_conditions
  set_unfenced = set_conditions e (condition_false, "Unfenced") (condition_false, "Fenced")

  unfoldable pub set_clean : String → Cluster → Cluster
  unfolding set_conditions
  set_clean = set_conditions e (condition_false, "Clean") (condition_true, "Clean")

  unfoldable pub set_fencing_failed : String → Cluster → Cluster
  unfolding set_conditions
  set_fencing_failed =
      set_conditions e (condition_false, "FenceError") (condition_true, "FenceError")

  unfoldable pub set_unfencing_failed : String → Cluster → Cluster
  unfolding set_conditions
  set_unfencing_failed =
      set_conditions e (condition_true, "UnfenceError") (condition_false, "UnfenceError")

-- A step that stops at an error.
abbrev pub next :
    {A B : Type 0} → Result A × Cluster → (A → Cluster → Result B × Cluster) → Result B × Cluster
next (ok a, c) f = f a c
next (err x, c) f = (err x, c)

-- isFencingOrFenced, isUnfencingOrUnfenced and advanceToNextPhase.
abbrev pub is_fencing_or_fenced : Phase → Bool
is_fencing_or_fenced phase_fencing = true
is_fencing_or_fenced phase_fenced = true
is_fencing_or_fenced _ = false

abbrev pub is_unfencing_or_unfenced : Phase → Bool
is_unfencing_or_unfenced phase_unfencing = true
is_unfencing_or_unfenced phase_unfenced = true
is_unfencing_or_unfenced _ = false

abbrev pub next_phase : Phase → Phase
next_phase phase_fencing = phase_fenced
next_phase phase_unfencing = phase_unfenced
next_phase p = p

unfoldable pub advance_to_next_phase : Cluster → Cluster
advance_to_next_phase c = record c { phase = next_phase c.phase }
