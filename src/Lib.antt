-- ===== src/Lib.antt =====
-- The node maintenance tool (tools/nix-deploy/k8snode): it reboots a Kubernetes node, switches one
-- off or brings one back, and before it drains a node it checks that the cluster can do without
-- it. This library models the command line, the checks, and the run itself with every command in
-- it.
--
-- Parts and files:
--   * Base: the shared helpers. Lists over the native numbers, 64-bit words (an int or int64 is
--     its bit pattern, below 2 ^ 64, and every sum and difference wraps), texts by their code
--     points, the decimal reading of strconv.Atoi, results, Go maps as association lists,
--     stable sorting, and lists described by what a loop keeps of them.
--   * Kube: the decoded objects and their predicates, from tools/nix-deploy/k8snode/kube.go.
--   * Placement: tools/nix-deploy/k8snode/placement.go. Selectors (requirementMatches to
--     requiresTargetNode, selectorMatches), Taints (toleratesTaint, nodeAdmits, livePod,
--     toleratesCordon), Spread (onePerNode, hostnameSpread) and Floor (readyFloor with its replay
--     of the scheduler's skew check). SelectorLaws, TaintLaws, Floor/Bounds, Floor/Domains and
--     Floor/Skew are the proofs.
--   * Capacity: tools/nix-deploy/k8snode/capacity.go. Quantity (parseQuantity), Resources (plus,
--     minus, fits, readResources), Requests (heldRequests, residentRequests), Admission (admits,
--     claimed, repels, mayRunElsewhere), Place (largestFirst, place, freeShare), Pack/Search
--     (pack), Pack/Needed (placeNeeded), Budgets (checkPDBEvictionBlockers,
--     checkStableNodePodSlots), Replacement with Defaults and Templates (replacementRequests,
--     withLimitRangeDefaults, recreationTemplate), Displaced with Select (displacedPodsToPlace,
--     and from workloads.go workloadForPod, uniqueWorkloads and readyMinimum) and Check
--     (checkDisplacedPodsFit). The other modules below Place, Pack, Budgets, Displaced and Check,
--     and the Range modules, are the proofs.
--   * Options: tools/nix-deploy/k8snode/options.go. Durations (the patterns and parseDuration) and
--     Options (ParseArgs: the defaults, the loop over the arguments, the final validations).
--     Units, Numbers, Kept and Valid are the proofs.
--   * Operation: the run. Machine has its state (Operation of operation.go) and a small monad;
--     World is what the cluster, the host and the clock answer (runner.go and the readers). The
--     rules on data are Json and FenceStatus (fence.go), Volumes (storage.go), Clusters and
--     Switchovers (cnpg.go). The gates are Network (network.go), Host (host.go), StorageGates,
--     DatabaseGates, WorkloadGates and ReadyFloorGate (workloads.go), DrainTimeout. The actions
--     are Changes, Fence, Prepare (prepareNodeForDisruption, releaseCordon) and Lifecycle (reboot,
--     powerOff, powerOn, checkOnly, Run). Steps is the relation of a run's steps, and Runs,
--     ChangeRuns, CheckRuns, LifeRuns and RunSteps show that each action is made of them; RunLaws,
--     LimitLaws, Marks, PowerLaws, PrepareMarks, StartMarks, Guarded and PowerGuard read the trace
--     of a run, Waits and Endings are on the loops, and DrainLaws, ReleaseLaws, SwitchoverLaws,
--     FenceLaws, ReportLaws, VolumeSpread and VolumeLaws on the part they name; NodeIndex and
--     Candidates are lemmas of SwitchoverLaws.
--   * Tests: a small cluster, and the theorems at concrete inputs.
--
-- The parts call each other as the code does: Check reads the nodes and Pods, charges each node
-- for its residents (Requests), asks Displaced which Pods the availability gate needs elsewhere,
-- which asks Floor how many replicas can stay Ready and Replacement for the size of each Pod, and
-- hands them to Needed, which spreads them (Place) and, when that leaves one out, searches (Pack).
--
-- Run calls the gates and actions in the code's order; ParseArgs gives it the options, and
-- prepareNodeForDisruption calls the checks of Capacity.
--
-- State: a run's state has the fields that waits set (Notes) and those that go with a change
-- (Ledger), among them a trace of the commands with their exit statuses, newest first. A step that
-- fails keeps what it changed. A gate is an action that only changes Notes. A room is a list of
-- nodes, each with what is free and the Pods placed there. Placing and taking back are functions
-- from a room to a room, so the source's updates through pointers are the rooms passed along. The
-- cache of LimitRanges is passed along in the same way.
--
-- Bounds: `pack` counts its steps against a budget (packBudget, 200000) as the source does, so its
-- recursion is on the Pods and no fuel is added. The replay runs the source's own number of
-- rounds. A polling loop (pollUntil) has fuel for its remaining time over the poll, and two more;
-- the wait for ssh has its timeout over five seconds, and one more: see Waits and Endings. At the
-- two largest timeouts its sum wraps, as the source's int does.
-- `show_int64` writes 20 digits, enough for 2 ^ 64.
--
-- Parameters: float64 is an argument (Base/Float64, the operations that the source uses; its one
-- law, that a conversion to int64 gives a 64-bit pattern, is a hypothesis where it is used);
-- kubectl's answers are the fields of `Cluster` or results passed in; strings.ToLower is a
-- function. Go's sort.SliceStable is a stable insertion sort; sort.Slice in uniqueWorkloads sorts
-- texts that only equal workloads share, so its order is the stable one. The two environment
-- variables that ParseArgs reads are arguments, and its patterns are read over the code points.
--
-- `World` is what the run cannot compute: the answer of each read and the exit status of each
-- command, at its moment, how long a command takes, when the operator interrupts, JSON decoding
-- and printing, strings.EqualFold, and whether the kubectl-cnpg plugin is there.
--
-- Not modelled: what is printed and the texts of failures, of which only the data and the kind are
-- kept; the processes, signals and pipes of runner.go; the shell scripts that run on the nodes
-- (the detach, the audit and the reboot check), which are commands here; package bootcheck. The
-- other tools of the repository are outside this library.
pub mod Base
pub mod Kube
pub mod Placement
pub mod Capacity
pub mod Options
pub mod Operation
mod Tests
