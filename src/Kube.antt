-- ===== src/Kube.antt =====
-- tools/nix-deploy/k8snode/kube.go: the decoded Kubernetes objects and the questions asked of them.
mod Meta
mod Nodes
mod Pods
mod Controllers
unfoldable pub use Meta.*
unfoldable pub use Nodes.*
unfoldable pub use Pods.*
unfoldable pub use Controllers.*
