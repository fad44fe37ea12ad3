-- ===== src/Dungeon/Quests.antt =====
-- internal/repository/dungeon.go: RetreatDungeon, CompleteDungeonMonster and CompleteDungeon.
pub mod Retreat
pub mod Defeat
pub mod Complete
