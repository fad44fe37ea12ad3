-- ===== src/Expedition.antt =====
-- The expedition: a campaign of levels that stars open.
pub mod Tiers
pub mod Campaign
pub mod Gate
pub mod Play
pub mod Rows
pub mod Clears
pub mod Levels
pub mod Handlers
pub mod Restarts
pub mod Sessions
pub mod Completions
