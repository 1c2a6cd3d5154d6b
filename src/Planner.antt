-- ===== src/Planner.antt =====
-- internal/planner: the deterministic Auto v1 policy.
pub mod Externals
pub mod Reasons
pub mod Admission
pub mod Candidates
pub mod Dedupe
pub mod Collapse
pub mod Canonical
pub mod Build
pub mod PlanSet
pub mod Overlaps
pub mod Priority
