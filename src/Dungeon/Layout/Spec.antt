-- ===== src/Dungeon/Layout/Spec.antt =====
-- What a well-formed dungeon layout is, said without the code of ValidateDungeonLayout.
use magic_jigsaw.Prelude.{
  ◌≤◌, ◌≡◌, ◌≢◌, ◌⊎◌, List, [], ◌∷◌, ℤ, pos, ◌≤ℤ◌, ◌<ℤ◌, length, All, In, Distinct,
}
use magic_jigsaw.Db.Schema.{Cell}
use magic_jigsaw.Dungeon.Grid.{InBounds, Adjacent}
use magic_jigsaw.Dungeon.Layout.Defs.{DungeonLayout, DungeonMonsterInput}

-- Each cell is next to the one before it.
abbrev pub Connected : List Cell → Type 0
Connected [] = Unit
Connected (a ∷ []) = Unit
Connected (a ∷ b ∷ cs) = Adjacent a b × Connected (b ∷ cs)

abbrev pub StartsAt : Cell → List Cell → Type 0
StartsAt s [] = ⊥
StartsAt s (c ∷ cs) = c ≡ s

abbrev pub EndsAt : Cell → List Cell → Type 0
EndsAt t [] = ⊥
EndsAt t (c ∷ []) = c ≡ t
EndsAt t (c ∷ d ∷ cs) = EndsAt t (d ∷ cs)

-- A puzzle of 2 to 20 columns and rows, with time to solve it.
abbrev pub IsPuzzle : ℤ → ℤ → ℤ → Type 0
IsPuzzle cols rows seconds =
    (pos 2 ≤ℤ cols) × (cols ≤ℤ pos 20) × (pos 2 ≤ℤ rows) × (rows ≤ℤ pos 20) × (pos 0 <ℤ seconds)

-- A monster stands on the grid and on the path, off its ends, and guards a puzzle.
abbrev pub IsPlaced : DungeonLayout → DungeonMonsterInput → Type 0
IsPlaced l m =
    InBounds m.cell
    × In m.cell l.path
    × (m.cell ≢ l.start)
    × (m.cell ≢ l.treasure)
    × IsPuzzle m.grid_cols m.grid_rows m.play_seconds

abbrev pub cells : List DungeonMonsterInput → List Cell
cells [] = []
cells (m ∷ ms) = m.cell ∷ cells ms

abbrev pub HasTreasurePuzzle : DungeonLayout → Type 0
HasTreasurePuzzle l =
    (l.treasure_image_id ≡ 0)
    ⊎ IsPuzzle l.treasure_grid_cols l.treasure_grid_rows l.treasure_play_seconds

pub record IsValid (l : DungeonLayout) : Type 0 where
  pub start_in : InBounds l.start
  pub treasure_in : InBounds l.treasure
  pub long : 2 ≤ length l.path
  pub path_in : All InBounds l.path
  pub path_distinct : Distinct l.path
  pub path_connected : Connected l.path
  pub starts : StartsAt l.start l.path
  pub ends : EndsAt l.treasure l.path
  pub some_monster : 1 ≤ length l.monsters
  pub few_monsters : length l.monsters ≤ 20
  pub placed : All (IsPlaced l) l.monsters
  pub monsters_apart : Distinct (cells l.monsters)
  pub treasure_puzzle : HasTreasurePuzzle l
