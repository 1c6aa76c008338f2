-- ===== src/Matching.antt =====
-- packages/matching/src: the pure functions that rank candidates for a viewer.
pub mod Gates
pub mod Diversity
mod Examples
