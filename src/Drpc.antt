-- ===== src/Drpc.antt =====
-- One reconcile of a DRPlacementControl: internal/controller/drplacementcontrol.go, with the
-- placement decisions of drplacementcontrol_controller.go and the consensus of
-- drplacementcontrol_global.go. The state of a reconcile is the DRPC (`d.instance`), the VRG in
-- each cluster's ManifestWork, and the user's placement. What it only reads is the environment.
-- Every call of the Kubernetes API may fail: the n-th call of a reconcile gets the n-th answer of
-- `api`. Logs and events are left out.
pub mod Fields
pub mod Status
pub mod Views
pub mod Works
pub mod Effects
pub mod Placement
pub mod NewWorks
pub mod Progress
pub mod Replication
pub mod Cleanup
pub mod Deployment
pub mod Quiesce
pub mod Actions
pub mod Recovery
pub mod Protected
pub mod Relocation
pub mod Prerequisites
pub mod Consensus
pub mod Failover
pub mod Tests
use ramen.Prelude.{ℕ, String, Bool, true, false, Option, none, some, List, suc, ◌+++◌}
use ramen.Condition.{Condition}
use ramen.Api.{Action, DrState, Progression, PeerClass, Vrg, DrCluster}
use ramen.Telemetry.{DrActionCount}

-- What the callers ask of an error: k8serrors.IsNotFound, k8serrors.IsAlreadyExists, and Error().
pub data ErrorKind : Type 0 where
  not_found already_exists other : ErrorKind

pub record Error : Type 0 where
  pub kind : ErrorKind
  pub text : String

-- fmt.Errorf with a wrapped error at its end: `prefix (%w)` has the prefix with its parenthesis.
abbrev pub wrap : String → Error → String → Error
wrap before e after = record e { text = before +++ e.text +++ after }

-- fmt.Errorf with no wrapped error.
abbrev pub errorf : String → Error
errorf t = record { kind = other; text = t }

pub data Result (A : Type 0) : Type 0 where
  ok : A → Result A
  err : Error → Result A

abbrev pub is_not_found : ErrorKind → Bool
is_not_found not_found = true
is_not_found _ = false

abbrev pub is_already_exists : ErrorKind → Bool
is_already_exists already_exists = true
is_already_exists _ = false

-- DRPlacementControl: metadata, spec and status.
pub record Drpc : Type 0 where
  pub name : String
  pub namespace : String
  pub uid : String
  pub generation : ℕ
  pub annotations : List (String × String)
  pub labels : List (String × String)
  pub dr_action_count : Option DrActionCount
  pub preferred_cluster : String
  pub failover_cluster : String
  pub action : Action
  pub dry_run : Bool
  pub protected_namespaces : Option (List String)
  pub phase : DrState
  pub observed_generation : ℕ
  pub progression : Progression
  pub preferred_decision : String × String
  pub conditions : List Condition
  pub action_start_time : Option ℕ
  pub action_duration : Option ℕ
  pub last_group_sync_time : Option ℕ

-- A decision of a PlacementRule, and one of a PlacementDecision object.
pub record RuleDecision : Type 0 where
  pub cluster_name : String
  pub cluster_namespace : String

pub record ClusterDecision : Type 0 where
  pub cluster_name : String
  pub reason : String

-- A PlacementDecision object: whether it carries the label that keeps it out of Velero backups,
-- and its decisions.
pub record PlacementDecision : Type 0 where
  pub is_excluded_from_backup : Bool
  pub decisions : List ClusterDecision

-- The user's placement: a PlacementRule with the decisions of its status, or a Placement with the
-- PlacementDecision objects that carry its label.
pub data UserPlacement : Type 0 where
  placement_rule : List RuleDecision → UserPlacement
  placement : List PlacementDecision → UserPlacement

-- DRType.
pub data DrType : Type 0 where
  dr_type_sync dr_type_async : DrType

-- What a reconcile reads and does not write.
pub record Env : Type 0 where
  -- time.Now(), which does not move during a reconcile
  pub now : ℕ
  pub dr_type : DrType
  -- drPolicy.Spec.DRClusters, and the peer classes of its status
  pub policy_clusters : List String
  pub policy_sync : List PeerClass
  pub policy_async : List PeerClass
  -- GetSecondsFromSchedulingInterval(drPolicy), `none` for its error
  pub interval_seconds : Option ℕ
  pub dr_clusters : List DrCluster
  -- the VRGs as seen at the start of the reconcile, in the order in which a `range` meets them
  pub vrgs : List (String × Vrg)
  pub num_clusters_queried_successfully : ℕ
  -- GetVRGFromManagedCluster
  pub view : String → Result Vrg
  -- the VRG in the S3 store of a profile, `none` where it cannot be had
  pub s3 : String → Option Vrg
  -- the DRPCs with the global VGR label, as listed
  pub drpcs : Result (List Drpc)
  pub vol_sync_disabled : Bool
  -- IsVMRecipe(d.instance.Spec.KubeObjectProtection)
  pub is_vm_recipe : Bool
  -- sets.List on the set of the strings
  pub sets_list : List String → List String
  -- whether the VRG ManifestWork of a cluster is being deleted
  pub is_work_deleted : String → Bool
  -- whether the DRPC has a recipe that is not the built-in one, what recipeNeedsUpdate answers on
  -- the ManifestWork of a cluster, and whether the recipe to write is the one that is there
  pub has_recipe : Bool
  pub recipe_needs_update : String → Result Bool
  pub is_recipe_work_equal : String → Bool
  -- reflect.DeepEqual on the specs of two ManifestWorks, by the VRG in each
  pub deep_equal : Vrg → Vrg → Bool
  -- the answer of the API to the n-th call: `none` for success
  pub api : ℕ → Option Error

-- What a reconcile writes.
pub record Hub : Type 0 where
  pub drpc : Drpc
  -- the VRG in the ManifestWork of each cluster
  pub works : List (String × Vrg)
  pub user_placement : UserPlacement
  -- the namespace ManifestWork of each cluster: whether it has the OCM backup label
  pub namespace_works : List (String × Bool)
  pub calls : ℕ
  pub mcv_request_in_progress : Bool
  -- requeueAfter, in seconds
  pub requeue_after : ℕ

-- A step of a reconcile. A function of type (bool, error) returns its bool or its error: no
-- caller reads the bool beside an error.
abbrev pub M : Type 0 → Type 0
M A = Hub → Result A × Hub

module _ {A : Type 0} where
  abbrev pub pure : A → M A
  pure a h = (ok a, h)

  abbrev pub throw : Error → M A
  throw e h = (err e, h)

  abbrev pub from_result : Result A → M A
  from_result r h = (r, h)

module _ {A B : Type 0} where
  abbrev pub and_then : Result A → (A → M B) → M B
  and_then (ok a) f = f a
  and_then (err e) f = throw e

  infixl 5 ◌>>=◌ ◌>>◌
  abbrev pub ◌>>=◌ : M A → (A → M B) → M B
  m >>= f = λ h. let (r, h') = m h in and_then r f h'

  abbrev pub ◌>>◌ : M A → M B → M B
  m >> n = m >>= λ _. n

  -- `if err != nil { handler } else { rest }`.
  abbrev pub handle : Result A → (A → M B) → (Error → M B) → M B
  handle (ok a) f g = f a
  handle (err e) f g = g e

  abbrev pub try : M A → (A → M B) → (Error → M B) → M B
  try m f g = λ h. let (r, h') = m h in handle r f g h'

  -- What a step does of a value that may be missing.
  abbrev pub maybe : M B → (A → M B) → Option A → M B
  maybe f g none = f
  maybe f g (some a) = g a

abbrev pub get : M Hub
get h = (ok h, h)

abbrev pub get_drpc : M Drpc
get_drpc h = (ok h.drpc, h)

abbrev pub modify_drpc : (Drpc → Drpc) → M (Unit {0})
modify_drpc f h = (ok tt, record h { drpc = f h.drpc })

-- A call of the API that writes or reads one object.
unfoldable pub api_call : Env → M (Unit {0})
api_call e h =
    let h' = record h { calls = suc h.calls } in
    elim (e.api h.calls) [ none ↦ (ok tt, h') | some x ↦ (err x, h') ]
