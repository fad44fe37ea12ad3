-- ===== src/Expedition/Levels.antt =====
-- internal/repository/expedition.go: the levels of the campaign, which admins add, edit and remove.
pub mod Statements
pub mod Store
pub mod Handlers
pub mod Numbering
pub mod Queries
pub mod Playable
pub mod Changes
pub mod Removal
pub mod Refinement
pub mod Bounds
