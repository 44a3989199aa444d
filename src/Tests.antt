-- ===== src/Tests.antt =====
-- Concrete clusters, and each theorem with hypotheses applied to one of them.
mod Cluster
mod PlacementCases
mod CapacityCases
mod CheckCases
mod OptionsCases
mod Maintenance
mod GateCases
