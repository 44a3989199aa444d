-- ===== src/Placement.antt =====
-- tools/nix-deploy/k8snode/placement.go: which nodes may run a Pod, and how many replicas a
-- Deployment can keep Ready while a node is out.
pub mod Selectors
pub mod Taints
pub mod Spread
pub mod Floor
pub mod SelectorLaws
pub mod TaintLaws
