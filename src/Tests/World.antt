-- ===== src/Tests/World.antt =====
-- A database with two players and a dungeon of one monster, and the drivers that the tests use.
use magic_jigsaw.Prelude.{ℕ, Bool, true, false, some, List, [], ◌∷◌, pos, ◌==◌, if◌then◌else◌}
use magic_jigsaw.Db.Schema.{Db, Cell, UserRow, ImageRow, DungeonRow, MonsterRow, ProgressRow}
use magic_jigsaw.Db.Action.{Env, World}

-- A driver whose n-th call fails when `bad n`.
abbrev pub driver : (ℕ → Bool) → Env
driver bad = record {
  fails = bad;
  gen_random_uuid = λ n. n;
  uuid_string = λ n. if n == 9 then "skeleton" else "other";
}

abbrev pub env : Env
env = driver (λ n. false)

abbrev pub at : ℕ → ℕ → Cell
at r c = record { row = pos r; col = pos c }

abbrev pub corridor : List Cell
corridor = at 0 0 ∷ at 0 1 ∷ at 0 2 ∷ at 1 2 ∷ []

abbrev pub crypt : DungeonRow
crypt = record {
  id = 3;
  title = "Crypt";
  xp_reward = pos 50;
  start = at 0 0;
  treasure = at 1 2;
  path = corridor;
  active = true;
  treasure_image_id = some 7;
  treasure_grid_cols = pos 4;
  treasure_grid_rows = pos 6;
  treasure_play_seconds = pos 300;
}

abbrev pub skeleton : MonsterRow
skeleton = record {
  id = 9;
  dungeon_id = 3;
  cell = at 0 1;
  image_id = 7;
  grid_cols = pos 4;
  grid_rows = pos 4;
  play_seconds = pos 60;
}

abbrev pub player : ℕ → ℕ → UserRow
player id points = record {
  id = id;
  xp = pos 0;
  unlock_points = pos points;
  expedition_bonus_stars = pos 0;
}

abbrev pub seven : ImageRow
seven = record { id = 7; url = "seven.jpg" }

-- The tables with these rows of progress.
abbrev pub tables : List ProgressRow → Db
tables ps = record {
  users = player 1 5 ∷ player 2 0 ∷ [];
  images = seven ∷ [];
  dungeons = crypt ∷ [];
  dungeon_monsters = skeleton ∷ [];
  dungeon_progress = ps;
  dungeon_treasure_unlocks = [];
  hidden_secrets = [];
  hidden_secret_progress = [];
  hidden_secret_unlocks = [];
  checkins = [];
  expedition_progress = [];
  expedition_levels = [];
  purchases = [];
  stories = [];
  story_pages = [];
  story_page_progress = [];
}

abbrev pub world_of : List ProgressRow → World
world_of ps = record { db = tables ps; clock = 0 }

-- Nobody has moved yet.
abbrev pub outset : World
outset = world_of []

-- Player 1 at the monster, not yet fought.
abbrev pub facing : World
facing = world_of (
    record {
      user_id = 1;
      dungeon_id = 3;
      position = at 0 1;
      prev_row = some (pos 0);
      prev_col = some (pos 0);
      defeated = [];
      visited = at 0 0 ∷ at 0 1 ∷ [];
      completed = false;
    }
    ∷ [])

-- Player 1 at the treasure, the monster defeated.
abbrev pub at_treasure : ProgressRow
at_treasure = record {
  user_id = 1;
  dungeon_id = 3;
  position = at 1 2;
  prev_row = some (pos 0);
  prev_col = some (pos 2);
  defeated = "skeleton" ∷ [];
  visited = corridor;
  completed = false;
}

abbrev pub goal : World
goal = world_of (at_treasure ∷ [])
