-- ===== src/Tests/Cluster.antt =====
-- A small cluster: nodes alpha, beta and the target, and Pods of the Deployment web.
use Prim.Native.Nat.{ℕ, ◌%◌, ◌*◌, ◌+◌, ◌-◌, ◌/◌, ◌^◌}
use Prim.Native.String.{String}
use mathlib.Core.Bool.{false, true}
use mathlib.Core.List.{List, [], ◌∷◌}
use mathlib.Core.Option.{none, some}
use text.Mathlib.Text.{◌==◌}
use nix_packages.Base.{Dict, Floats, digits_value, if◌then◌else◌, leb, ltb, word}
use nix_packages.Capacity.Admission.{DisplacedPod, RoomyNode}
use nix_packages.Kube.{
  Condition, ContainerStatus, Node, ObjectMeta, Pod, PodSpec, ResourceLists, Taint,
}
use nix_packages.Placement.Selectors.{hostname_label}

-- Whole numbers in place of float64.
instance abbrev pub whole_floats : Floats
whole_floats = record {
  Float = ℕ;
  literal = λ s. if s == "1000" then 1000 else if s == "1" then 1 else 0;
  parse_float = λ s. some (digits_value 0 s);
  flt = ltb;
  fle = leb;
  fadd = λ a b. a + b;
  fsub = λ a b. a - b;
  fmul = λ a b. a * b;
  fdiv = λ a b. a / b;
  of_int64 = λ n. n;
  ceil_int64 = λ x. x % word;
  pow10 = λ n. 10 ^ n;
}

abbrev pub meta : String → Dict String → ObjectMeta
meta name labels = record {
  name = name;
  namespace = "default";
  uid = "";
  labels = labels;
  annotations = [];
  owner_references = record { kind = "ReplicaSet"; name = "web" } ∷ [];
  deletion_timestamp = none;
}

abbrev pub ready : Condition
ready = record { type = "Ready"; status = "True"; reason = ""; message = "" }

abbrev pub node_named : String → List Taint → Node
node_named name taints = record {
  metadata = meta name ((hostname_label, name) ∷ []);
  spec = record { unschedulable = false; taints = taints };
  status = record { conditions = ready ∷ []; addresses = []; allocatable = [] };
}

abbrev pub no_lists : ResourceLists
no_lists = record { requests = []; limits = [] }

abbrev pub plain_spec : String → PodSpec
plain_spec node_name = record {
  node_name = node_name;
  node_selector = [];
  affinity = none;
  tolerations = [];
  topology_spread_constraints = [];
  containers = [];
  init_containers = [];
  overhead = [];
  resources = no_lists;
  termination_grace_period_seconds = none;
}

abbrev pub web_labels : Dict String
web_labels = ("app", "web") ∷ []

abbrev pub running_container : ContainerStatus
running_container = record {
  name = "main";
  ready = true;
  allocated_resources = [];
  requests = [];
  waiting = none;
}

abbrev pub pod_named : String → String → Pod
pod_named name node_name = record {
  metadata = meta name web_labels;
  spec = plain_spec node_name;
  status = record {
    phase = "Running";
    conditions = [];
    requests = [];
    allocated_resources = [];
    resize = "";
    nominated_node_name = "";
    container_statuses = [];
    init_container_statuses = [];
  };
}

abbrev pub roomy : String → ℕ → RoomyNode
roomy name cpu = record {
  node = node_named name [];
  allocatable = record { cpu = 1000; memory = 1000 };
  free = record { cpu = cpu; memory = 500 };
  placed = [];
}

abbrev pub displaced_named : String → ℕ → DisplacedPod
displaced_named name cpu = record {
  pod = pod_named name "target";
  requests = record { cpu = cpu; memory = 100 };
}

abbrev pub two_nodes : List RoomyNode
two_nodes = roomy "alpha" 500 ∷ roomy "beta" 500 ∷ []

-- Three Pods fit on the two nodes; of the other two the first fits on neither.
abbrev pub three_pods : List DisplacedPod
three_pods =
    displaced_named "web-1" 300 ∷ displaced_named "web-2" 300 ∷ displaced_named "web-3" 150 ∷ []

abbrev pub too_large : List DisplacedPod
too_large = displaced_named "web-1" 600 ∷ displaced_named "web-2" 100 ∷ []
