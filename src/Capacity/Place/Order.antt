-- ===== src/Capacity/Place/Order.antt =====
-- About the order of `largestFirst`.
use mathlib.Core.Bool.{false, true}
use mathlib.Core.List.{List, Perm, [], ◌∷◌}
use mathlib.Core.Path.{◌≡◌}
use native.Mathlib.Omega.{arith}
use nix_packages.Base.{All, All-map, IsSorted, le64, lt64, sort_by-IsSorted, sort_by-perm}
use nix_packages.Capacity.Admission.{DisplacedPod}
use nix_packages.Capacity.Pack.Placements.{RequestsAreWords}
use nix_packages.Capacity.Place.{larger_request, largest_first}
use nix_packages.Capacity.Resources.{IsWord}

abbrev RequestsIsWord : DisplacedPod → Type 0
RequestsIsWord d = IsWord d.requests

larger_request-asym : (a b : DisplacedPod) → larger_request a b ≡ true → larger_request b a ≡ false
unfolding larger_request lt64
larger_request-asym a b h = ground arith

larger_request-cotrans :
    (a b c : DisplacedPod)
    → IsWord a.requests
    → IsWord b.requests
    → IsWord c.requests
    → larger_request b a ≡ false
    → larger_request c b ≡ false
    → larger_request c a ≡ false
unfolding larger_request lt64
larger_request-cotrans a b c wa wb wc h k = ground arith

-- The later Pod asks for no more CPU, and at the same CPU for no more memory.
abbrev pub NotLarger : DisplacedPod → DisplacedPod → Type 0
NotLarger first later =
    (le64 later.requests.cpu first.requests.cpu ≡ true)
    × (later.requests.cpu ≡ first.requests.cpu
        → le64 later.requests.memory first.requests.memory ≡ true)

-- Each Pod against all after it.
abbrev pub Descending : List DisplacedPod → Type 0
Descending [] = Unit {0}
Descending (d ∷ ds) = All (NotLarger d) ds × Descending ds

larger_request-NotLarger :
    (first later : DisplacedPod) → larger_request later first ≡ false → NotLarger first later
unfolding larger_request lt64 le64
larger_request-NotLarger first later h = (ground arith, λ e. ground arith)

IsSorted-Descending : (ds : List DisplacedPod) → IsSorted larger_request ds → Descending ds
IsSorted-Descending [] h = tt
IsSorted-Descending (d ∷ ds) h =
    (All-map ds (larger_request-NotLarger d) h.0, IsSorted-Descending ds h.1)

-- No Pod of `largestFirst` asks for more CPU than one before it, nor for more memory at the same
-- CPU, as int64 compares them, and the Pods are those given. The requests are 64-bit patterns.
pub largest_first-Descending :
    (displaced : List DisplacedPod)
    → RequestsAreWords displaced
    → Descending (largest_first displaced) × Perm (largest_first displaced) displaced
unfolding largest_first
largest_first-Descending displaced w = (
  IsSorted-Descending _ (
      sort_by-IsSorted larger_request RequestsIsWord larger_request-asym larger_request-cotrans
        displaced w),
  sort_by-perm larger_request displaced,
)
