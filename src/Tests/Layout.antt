-- ===== src/Tests/Layout.antt =====
-- Layouts of the crypt, well formed and not.
use magic_jigsaw.Prelude.{◌≡◌, ◌↔◌, refl, none, some, [], ◌∷◌, pos, List}
use magic_jigsaw.Db.Schema.{Cell}
use magic_jigsaw.Dungeon.Grid.{
  cell_eq, cell_in_bounds, cells_adjacent, has_cell, manhattan, abs_diff,
}
use magic_jigsaw.Dungeon.Layout.Defs.{
  DungeonLayout, validate_dungeon_layout, path_cells_not_adjacent, check_path, check_monsters,
  check_treasure, breaks_path, starts_at, ends_at, puzzle_grid_in_range,
}
use magic_jigsaw.Dungeon.Layout.Spec.{IsValid}
use magic_jigsaw.Dungeon.Layout.Valid.{validate_dungeon_layout-IsValid}
use magic_jigsaw.Tests.World.{at, corridor}

abbrev layout : List Cell → DungeonLayout
layout path = record {
  start = at 0 0;
  treasure = at 1 2;
  path = path;
  monsters =
      record {
        cell = at 0 1;
        image_id = 7;
        grid_cols = pos 4;
        grid_rows = pos 4;
        play_seconds = pos 60;
      }
      ∷ [];
  treasure_image_id = 7;
  treasure_grid_cols = pos 4;
  treasure_grid_rows = pos 6;
  treasure_play_seconds = pos 300;
}

corridor_passes : validate_dungeon_layout (layout corridor) ≡ none
unfolding validate_dungeon_layout cell_in_bounds cell_eq cells_adjacent has_cell check_path
    check_monsters check_treasure breaks_path starts_at ends_at puzzle_grid_in_range manhattan
    abs_diff
corridor_passes = refl

gap_is_refused :
    validate_dungeon_layout (layout (at 0 0 ∷ at 0 2 ∷ at 1 2 ∷ []))
    ≡ some (path_cells_not_adjacent 1)
unfolding validate_dungeon_layout cell_in_bounds cell_eq cells_adjacent has_cell check_path
    check_monsters check_treasure breaks_path starts_at ends_at puzzle_grid_in_range manhattan
    abs_diff
gap_is_refused = refl

validate_dungeon_layout-IsValid_example :
    (validate_dungeon_layout (layout corridor) ≡ none) ↔ IsValid (layout corridor)
validate_dungeon_layout-IsValid_example = validate_dungeon_layout-IsValid (layout corridor)
