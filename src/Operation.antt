-- ===== src/Operation.antt =====
-- operation.go: one run of an action against one node.
pub mod Json
pub mod Machine
pub mod FenceStatus
pub mod Volumes
pub mod Clusters
pub mod Switchovers
pub mod World
pub mod Network
pub mod Host
pub mod StorageGates
pub mod DatabaseGates
pub mod WorkloadGates
pub mod ReadyFloorGate
pub mod Changes
pub mod Fence
pub mod DrainTimeout
pub mod Prepare
pub mod Lifecycle
pub mod Steps
pub mod Runs
pub mod ChangeRuns
pub mod CheckRuns
pub mod LifeRuns
pub mod RunSteps
pub mod RunLaws
pub mod LimitLaws
pub mod Marks
pub mod PowerLaws
pub mod PrepareMarks
pub mod StartMarks
pub mod Guarded
pub mod PowerGuard
pub mod Waits
pub mod Endings
pub mod DrainLaws
pub mod ReleaseLaws
pub mod NodeIndex
pub mod Candidates
pub mod SwitchoverLaws
pub mod FenceLaws
pub mod ReportLaws
pub mod VolumeSpread
pub mod VolumeLaws
