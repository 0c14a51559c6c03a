-- ===== src/Lib.antt =====
-- Ramen is a disaster recovery operator for Kubernetes. On the hub cluster a DRPlacementControl
-- (DRPC) says where an application runs and asks for a failover or a relocation; its controller
-- writes a VolumeReplicationGroup (VRG) into the ManifestWork of each managed cluster and moves
-- the cluster decision of the user's placement. A DRCluster asks
-- to fence a managed cluster off its storage. This library models the hub side.
--
-- The files, and the code they are about:
--   Prelude, Prelude/Lists, Prelude/Tests: names and lemmas that the others share.
--   Condition: internal/controller/util/conditions.go (FindCondition, SetStatusCondition,
--     MergeConditions) and addOrUpdateCondition of drplacementcontrol_controller.go. Lookup,
--     Transition, Updates, Oldest, Merge and Statuses prove, Tests runs.
--   Api: the CRD types of api/v1alpha1, with the fields that are read or written here.
--   PeerClass: equalClusterIDSlices, updatePeerClass, hasPeerClass and updatePeers of
--     internal/controller/drplacementcontrol.go. Clusters, Merge and Coverage prove.
--   Telemetry: syncDRActionCountAnnotation of internal/controller/dr_telemetry_metrics.go.
--   Drpc: one reconcile of a DRPC as steps of a state monad with errors. `Hub` is what a reconcile
--     writes (the DRPC, the VRG in each cluster's ManifestWork, the user's placement), `Env` what
--     it only reads. Every call of the Kubernetes API takes its answer from `api`, so any call
--     may fail.
--     Drpc/Fields: what a DRPC writes into a VRG (setVRGAnnotations to newVRG).
--     Drpc/Status: phase, progression and conditions (setDRState to getRequeueDuration).
--     Drpc/Views: the checks on the VRGs seen (checkReadiness, checkClusterFenced and others).
--     Drpc/Works, Drpc/NewWorks: the VRG ManifestWorks (updateVRGState, ensureVRGManifestWork,
--       moveVRGToSecondaryEverywhere, createVRGManifestWork, createVRGManifestWorkAsPrimary),
--       with MWUtil of internal/controller/util/mw_util.go.
--     Drpc/Placement: the cluster decisions of the user's placement
--       (internal/controller/drplacementcontrol_controller.go).
--     Drpc/Progress: setDiscoveredAppGCProgression.
--     Drpc/Relocation: setupRelocation, switchToCluster and relocate.
--     Drpc/Prerequisites, Drpc/Failover: what a failover waits for, and switchToFailoverCluster.
--     Drpc/Consensus: internal/controller/drplacementcontrol_global.go.
--     Drpc/Replication: the VolSync sources and destinations in the VRGs
--       (internal/controller/drplacementcontrolvolsync.go).
--     Drpc/Cleanup: EnsureCleanup, cleanupSecondaries and ensureActionTransition.
--     Drpc/Deployment: RunInitialDeployment. Drpc/Quiesce: quiesceAndRunFinalSync.
--     Drpc/Actions: RunFailover, RunRelocate, executeAction and processPlacement.
--     Drpc/Recovery: ensureDRPCStatusConsistency, determineDRPCState, the query of the clusters
--       and the adoption of VRGs (internal/controller/drplacementcontrol_controller.go).
--     Drpc/Protected: the condition Protected (internal/controller/protected_condition.go). Findings,
--       Reports and Checks prove. meta.FindStatusCondition and meta.RemoveStatusCondition are parameters.
--     Drpc/Effects: what a step does to the ManifestWorks, carried through the monad. Promotion
--       follows the VRGs that become primary, Reads the steps that leave all VRGs alone.
--   DrCluster: the fencing of a cluster, internal/controller/drcluster_controller.go. `Cluster` is
--     the DRCluster and its NetworkFence works, `FenceEnv` what a reconcile reads. Peers has the
--     peer cluster and its NetworkFence classes, Fencing clusterFenceHandle and what it calls.
--     Status, Frames, Phases, Confirmed and Progress prove.
--   DrPolicy: the peer classes of a DRPolicy, internal/controller/drpolicy_peerclass.go. Search has
--     findAllPeers and what it calls, Pairs and Pruned prove.
--   A Tests module beside its component runs it on concrete inputs.
--
-- How the code is rendered. A Go pointer that may be nil is an Option, a Go map an association
-- list in the order in which a `range` meets it, so a statement about every list covers every
-- order. A function of type (bool, error) returns its bool or its error. time.Now() is a number
-- of seconds that stands still in a reconcile. The action counts wrap at 2^64. The one bound is
-- the source's MaxPlacementDecisionConflictCount, at which createPlacementDecision stops; every
-- other loop runs over a list, so no fuel is needed. Logs and events are left out.
--
-- Parameters for what is not in the code: the answers of the Kubernetes API, of
-- ManagedClusterViews (`view`) and of the object stores (`s3`), reflect.DeepEqual on
-- ManifestWorks, and the parsed scheduling interval.
--
-- Not modelled: the status writes and the finalizers around a reconcile, and ReconcileDRPC's
-- setup, deletion and watches; the reset of static IPs and the mover configuration in a VRG;
-- secrets, policies and recipes beyond the API calls that their functions make; the CIDRs, the
-- deletion and the maintenance modes of a DRCluster; the other parts of the DRPolicy
-- controller; the VRG controller; S3,
-- Velero, VolSync and Argo CD, which are input and output. A DRPC's own updates are taken to be
-- seen by the later steps of its reconcile.
pub mod Prelude
pub mod Condition
pub mod Api
pub mod PeerClass
pub mod Telemetry
pub mod Drpc
pub mod DrCluster
pub mod DrPolicy
