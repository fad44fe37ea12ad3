-- ===== src/Dungeon/Layout.antt =====
-- internal/models/dungeon.go: ValidateDungeonLayout and the layout that it reads.
pub mod Defs
pub mod Spec
pub mod Paths
pub mod Monsters
pub mod Valid
