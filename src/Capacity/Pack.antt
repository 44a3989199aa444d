-- ===== src/Capacity/Pack.antt =====
-- capacity.go: the search for any placement of the Pods that the availability gate needs.
pub mod Search
pub mod Needed
pub mod Placements
pub mod Candidates
pub mod Sound
pub mod Complete
pub mod Keys
pub mod Alike
pub mod Placed
pub mod NeededLaws
