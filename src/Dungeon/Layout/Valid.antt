-- ===== src/Dungeon/Layout/Valid.antt =====
-- ValidateDungeonLayout decides which layouts are well formed.
use magic_jigsaw.Prelude.{◌≤◌, ◌≡◌, ◌↔◌, true, [], none, arith, length}
use magic_jigsaw.Dungeon.Grid.{cell_in_bounds, cell_in_bounds-InBounds, InBounds-cell_in_bounds}
use magic_jigsaw.Dungeon.Layout.Defs.{
  DungeonLayout, check_path, check_monsters, check_treasure, starts_at, ends_at,
  validate_dungeon_layout,
}
use magic_jigsaw.Dungeon.Layout.Spec.{IsValid}
use magic_jigsaw.Dungeon.Layout.Paths.{
  check_path_sound, check_path_complete, starts_at-StartsAt, StartsAt-starts_at, ends_at-EndsAt,
  EndsAt-ends_at,
}
use magic_jigsaw.Dungeon.Layout.Monsters.{
  check_monsters-IsPlaced, IsPlaced-check_monsters, check_treasure-HasTreasurePuzzle,
  HasTreasurePuzzle-check_treasure,
}

module _ (l : DungeonLayout) where
  -- Every test that a layout passes when no error is returned.
  passes :
      validate_dungeon_layout l ≡ none
      → (cell_in_bounds l.start ≡ true)
        × (cell_in_bounds l.treasure ≡ true)
        × (2 ≤ length l.path)
        × (check_path 0 none [] l.path ≡ none)
        × (starts_at l.start l.path ≡ true)
        × (ends_at l.treasure l.path ≡ true)
        × (1 ≤ length l.monsters)
        × (length l.monsters ≤ 20)
        × (check_monsters l 0 [] l.monsters ≡ none)
        × (check_treasure l ≡ none)
  unfolding validate_dungeon_layout
  passes h = ground arith

  passes-IsValid : validate_dungeon_layout l ≡ none → IsValid l
  passes-IsValid h =
      let t = passes h in
      let p = check_path_sound l.path t.3 in
      let m = check_monsters-IsPlaced l t.8 in
      record {
        start_in = cell_in_bounds-InBounds l.start t.0;
        treasure_in = cell_in_bounds-InBounds l.treasure t.1;
        long = t.2;
        path_in = p.0;
        path_distinct = p.1;
        path_connected = p.2;
        starts = starts_at-StartsAt l.start l.path t.4;
        ends = ends_at-EndsAt l.treasure l.path t.5;
        some_monster = t.6;
        few_monsters = t.7;
        placed = m.0;
        monsters_apart = m.1;
        treasure_puzzle = check_treasure-HasTreasurePuzzle l t.9;
      }

  IsValid-passes : IsValid l → validate_dungeon_layout l ≡ none
  unfolding validate_dungeon_layout
  IsValid-passes v = ground (
    arith,
    InBounds-cell_in_bounds l.start v.start_in,
    InBounds-cell_in_bounds l.treasure v.treasure_in,
    check_path_complete l.path v.path_in v.path_distinct v.path_connected,
    StartsAt-starts_at l.start l.path v.starts,
    EndsAt-ends_at l.treasure l.path v.ends,
    IsPlaced-check_monsters l v.placed v.monsters_apart,
    HasTreasurePuzzle-check_treasure l v.treasure_puzzle,
  )

-- ValidateDungeonLayout returns nil exactly on the well-formed layouts: those whose path stays on
-- the 6x8 grid, visits no cell twice, goes from neighbour to neighbour, from the start to the
-- treasure, and has at least two cells; with 1 to 20 monsters, each on a path cell of its own that
-- is neither the start nor the treasure, with a puzzle in range; and, if a treasure image is set,
-- a treasure puzzle in range.
pub validate_dungeon_layout-IsValid :
    (l : DungeonLayout) → (validate_dungeon_layout l ≡ none) ↔ IsValid l
validate_dungeon_layout-IsValid l = (passes-IsValid l, IsValid-passes l)
