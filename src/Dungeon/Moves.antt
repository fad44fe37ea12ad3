-- ===== src/Dungeon/Moves.antt =====
-- internal/repository/dungeon.go: what MoveDungeon does.
pub mod Step
pub mod Outcome
