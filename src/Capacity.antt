-- ===== src/Capacity.antt =====
-- tools/nix-deploy/k8snode/capacity.go: whether the Pods that a drain displaces fit on the other
-- nodes.
pub mod Quantity
pub mod Resources
pub mod Requests
pub mod Admission
pub mod Place
pub mod Pack
pub mod Budgets
pub mod Replacement
pub mod Displaced
pub mod Check
