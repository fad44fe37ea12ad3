-- ===== src/Dungeon/Layout/Defs.antt =====
-- internal/models/dungeon.go: DungeonLayout, puzzleGridInRange, ValidateDungeonLayout. An error is
-- named for its message, with the numbers that the message shows; a nil error is `none`.
use magic_jigsaw.Prelude.{
  ℕ, ◌+◌, Bool, false, not, ◌&&◌, ◌||◌, List, [], ◌∷◌, Option, none, some, ℤ, pos, int_le, ltb,
  ◌==◌, if◌then◌else◌, length,
}
use magic_jigsaw.Db.Schema.{Cell}
use magic_jigsaw.Dungeon.Grid.{cell_eq, cell_in_bounds, cells_adjacent, has_cell}

abbrev pub dungeon_min_monster_count : ℕ
dungeon_min_monster_count = 1

abbrev pub dungeon_max_monster_count : ℕ
dungeon_max_monster_count = 20

abbrev pub dungeon_min_puzzle_grid : ℤ
dungeon_min_puzzle_grid = pos 2

abbrev pub dungeon_max_puzzle_grid : ℤ
dungeon_max_puzzle_grid = pos 20

pub record DungeonMonsterInput : Type 0 where
  pub cell : Cell
  pub image_id : ℕ
  pub grid_cols : ℤ
  pub grid_rows : ℤ
  pub play_seconds : ℤ

pub record DungeonLayout : Type 0 where
  pub start : Cell
  pub treasure : Cell
  pub path : List Cell
  pub monsters : List DungeonMonsterInput
  pub treasure_image_id : ℕ
  pub treasure_grid_cols : ℤ
  pub treasure_grid_rows : ℤ
  pub treasure_play_seconds : ℤ

pub data LayoutError : Type 0 where
  start_out_of_bounds treasure_out_of_bounds path_too_short : LayoutError
  path_cell_out_of_bounds path_cells_not_adjacent : ℕ → LayoutError
  path_duplicate : Cell → LayoutError
  path_start path_end monster_count : LayoutError
  monster_out_of_bounds monster_off_path monster_on_endpoint monster_shares_cell : ℕ → LayoutError
  monster_grid monster_play_seconds : ℕ → LayoutError
  treasure_grid treasure_play_seconds : LayoutError

unfoldable pub puzzle_grid_in_range : ℤ → ℤ → Bool
puzzle_grid_in_range cols rows =
    int_le dungeon_min_puzzle_grid cols
    && (int_le cols dungeon_max_puzzle_grid
        && (int_le dungeon_min_puzzle_grid rows && int_le rows dungeon_max_puzzle_grid))

-- `i > 0 && !cellsAdjacent(l.Path[i-1], c)`, with the cell before `c` if there is one.
unfoldable pub breaks_path : Option Cell → Cell → Bool
breaks_path none c = false
breaks_path (some b) c = not (cells_adjacent b c)

-- The loop over l.Path from its i-th cell on: `prev` is l.Path[i-1], `seen` the cells so far.
unfoldable pub check_path : ℕ → Option Cell → List Cell → List Cell → Option LayoutError
check_path i prev seen [] = none
check_path i prev seen (c ∷ cs) =
    let rest = check_path (i + 1) (some c) (c ∷ seen) cs in
    if not (cell_in_bounds c)
    then some (path_cell_out_of_bounds i)
    else if has_cell c seen
    then some (path_duplicate c)
    else if breaks_path prev c
    then some (path_cells_not_adjacent i)
    else rest

-- The loop over l.Monsters from its i-th on: `path` are the cells seen before, `taken` is
-- monsterCells.
unfoldable pub check_monsters :
    DungeonLayout → ℕ → List Cell → List DungeonMonsterInput → Option LayoutError
check_monsters l i taken [] = none
check_monsters l i taken (m ∷ ms) =
    let rest = check_monsters l (i + 1) (m.cell ∷ taken) ms in
    if not (cell_in_bounds m.cell)
    then some (monster_out_of_bounds i)
    else if not (has_cell m.cell l.path)
    then some (monster_off_path i)
    else if cell_eq m.cell l.start || cell_eq m.cell l.treasure
    then some (monster_on_endpoint i)
    else if has_cell m.cell taken
    then some (monster_shares_cell i)
    else if not (puzzle_grid_in_range m.grid_cols m.grid_rows)
    then some (monster_grid i)
    else if int_le m.play_seconds (pos 0)
    then some (monster_play_seconds i)
    else rest

-- l.Path[0] != l.Start and l.Path[len(l.Path)-1] != l.Treasure, on a path that is not empty.
unfoldable pub starts_at : Cell → List Cell → Bool
starts_at s [] = false
starts_at s (c ∷ cs) = cell_eq c s

unfoldable pub ends_at : Cell → List Cell → Bool
ends_at t [] = false
ends_at t (c ∷ []) = cell_eq c t
ends_at t (c ∷ d ∷ cs) = ends_at t (d ∷ cs)

unfoldable pub check_treasure : DungeonLayout → Option LayoutError
check_treasure l =
    if l.treasure_image_id == 0
    then none
    else if not (puzzle_grid_in_range l.treasure_grid_cols l.treasure_grid_rows)
    then some treasure_grid
    else if int_le l.treasure_play_seconds (pos 0)
    then some treasure_play_seconds
    else none

-- `if err != nil { return err }`, then the rest.
abbrev pub and_then : Option LayoutError → Option LayoutError → Option LayoutError
and_then none rest = rest
and_then (some e) rest = some e

unfoldable pub validate_dungeon_layout : DungeonLayout → Option LayoutError
validate_dungeon_layout l =
    if not (cell_in_bounds l.start)
    then some start_out_of_bounds
    else if not (cell_in_bounds l.treasure)
    then some treasure_out_of_bounds
    else if ltb (length l.path) 2
    then some path_too_short
    else and_then (check_path 0 none [] l.path) (
        if not (starts_at l.start l.path)
        then some path_start
        else if not (ends_at l.treasure l.path)
        then some path_end
        else if ltb (length l.monsters) dungeon_min_monster_count
            || ltb dungeon_max_monster_count (length l.monsters)
        then some monster_count
        else and_then (check_monsters l 0 [] l.monsters) (check_treasure l))
