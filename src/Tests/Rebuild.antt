-- ===== src/Tests/Rebuild.antt =====
-- The crypt with a shorter road and no monster, while a player stands in it.
use magic_jigsaw.Prelude.{◌≡◌, ◌⊎◌, [], ◌∷◌, pos, true}
use magic_jigsaw.Db.Action.{Error, ok, err}
use magic_jigsaw.Dungeon.Admin.{
  SaveDungeonParams, Cleared, update_dungeon, update_dungeon_drops_progress,
}
use magic_jigsaw.Tests.World.{env, at, facing}

abbrev shorter : SaveDungeonParams
shorter = record {
  title = "Crypt";
  xp_reward = pos 50;
  active = true;
  start = at 0 0;
  treasure = at 0 1;
  path = at 0 0 ∷ at 0 1 ∷ [];
  monsters = [];
  treasure_image_id = 7;
  treasure_grid_cols = pos 4;
  treasure_grid_rows = pos 6;
  treasure_play_seconds = pos 300;
}

update_dungeon_drops_progress_example :
    let (r, w') = update_dungeon env 3 shorter facing in
    ((w'.db ≡ facing.db) × ((e : Error) × (r ≡ err e)))
    ⊎ ((r ≡ ok tt) × Cleared env 3 shorter w'.db)
update_dungeon_drops_progress_example = update_dungeon_drops_progress env 3 shorter facing
