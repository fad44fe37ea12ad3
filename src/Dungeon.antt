-- ===== src/Dungeon.antt =====
-- Dungeon mode: the layouts that an admin authors, and the players' walks through them.
pub mod Grid
pub mod Layout
pub mod Statements
pub mod Store
pub mod Moves
pub mod Quests
pub mod Walks
pub mod History
pub mod Handler
pub mod Credit
pub mod Admin
