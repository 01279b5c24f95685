-- ===== src/Duel.antt =====
-- duel/: a duel's rows, its two sides, and its life from request to record.
pub mod Merge
pub mod Side
pub mod Prompts
pub mod Run
pub mod Orphans
