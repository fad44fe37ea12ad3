-- ===== src/Dungeon/Walks.antt =====
-- internal/repository/dungeon.go: the invariant of the saved progress.
pub mod Sound
pub mod Steps
pub mod Rows
pub mod Moving
pub mod Questing
