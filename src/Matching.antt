-- ===== src/Matching.antt =====
-- src/matching: wildcard patterns, and the registry of match entries that harpoon slots, custom
-- names and rules refer to by a stable number.
pub mod Wildcard
pub mod Fzf
pub mod Tier
pub mod Registry
pub mod Examples
