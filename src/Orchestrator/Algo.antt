-- ===== src/Orchestrator/Algo.antt =====
-- orchestrator/algo: where games are placed and found. The log is left out.
pub mod Allocators
pub mod Searchers
pub mod Location
pub mod Placement
pub mod Allocation
pub mod Balance
pub mod Reallocation
