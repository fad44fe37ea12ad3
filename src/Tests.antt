-- ===== src/Tests.antt =====
-- The theorems and the definitions at concrete inputs.
mod World
mod Dungeon
mod Layout
mod Points
mod Secret
mod Campaign
mod Levels
mod Handler
mod Reveals
mod Rebuild
mod Purchases
mod Expedition
mod Stories
mod Names
