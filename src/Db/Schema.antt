-- ===== src/Db/Schema.antt =====
-- internal/database/migrations: the tables of users, images, dungeons and their progress. A UUID
-- is a number, the nil UUID is 0. Rows stand in the order of their creation. Columns that only
-- record when something happened are left out.
use magic_jigsaw.Prelude.{ℕ, ℤ, String, Bool, Option, List}

-- models.Cell
pub record Cell : Type 0 where
  pub row : ℤ
  pub col : ℤ

-- users
pub record UserRow : Type 0 where
  pub id : ℕ
  pub xp : ℤ
  pub unlock_points : ℤ
  pub expedition_bonus_stars : ℤ

-- images
pub record ImageRow : Type 0 where
  pub id : ℕ
  pub url : String

-- dungeons, with the NULL of treasure_image_id as `none`
pub record DungeonRow : Type 0 where
  pub id : ℕ
  pub title : String
  pub xp_reward : ℤ
  pub start : Cell
  pub treasure : Cell
  pub path : List Cell
  pub active : Bool
  pub treasure_image_id : Option ℕ
  pub treasure_grid_cols : ℤ
  pub treasure_grid_rows : ℤ
  pub treasure_play_seconds : ℤ

-- dungeon_monsters
pub record MonsterRow : Type 0 where
  pub id : ℕ
  pub dungeon_id : ℕ
  pub cell : Cell
  pub image_id : ℕ
  pub grid_cols : ℤ
  pub grid_rows : ℤ
  pub play_seconds : ℤ

-- dungeon_progress
pub record ProgressRow : Type 0 where
  pub user_id : ℕ
  pub dungeon_id : ℕ
  pub position : Cell
  pub prev_row : Option ℤ
  pub prev_col : Option ℤ
  pub defeated : List String
  pub visited : List Cell
  pub completed : Bool

-- dungeon_treasure_unlocks
pub record TreasureRow : Type 0 where
  pub user_id : ℕ
  pub dungeon_id : ℕ
  pub image_id : ℕ

-- hidden_secrets
pub record SecretRow : Type 0 where
  pub id : ℕ
  pub title : String
  pub subtitle : String
  pub image_id : ℕ
  pub xp_reward : ℤ
  pub tile_grid_cols : ℤ
  pub tile_grid_rows : ℤ
  pub tile_play_seconds : ℤ
  pub active : Bool

-- hidden_secret_progress
pub record RevealRow : Type 0 where
  pub user_id : ℕ
  pub secret_id : ℕ
  pub revealed : List ℤ
  pub completed : Bool

-- hidden_secret_unlocks
pub record PictureRow : Type 0 where
  pub user_id : ℕ
  pub secret_id : ℕ
  pub image_id : ℕ

-- checkins; a date is its day number
pub record CheckinRow : Type 0 where
  pub user_id : ℕ
  pub check_date : ℕ

-- expedition_progress
pub record LevelProgressRow : Type 0 where
  pub user_id : ℕ
  pub level_index : ℤ
  pub status : String
  pub elapsed_seconds : ℤ
  pub correct_pieces : ℤ

-- expedition_levels, with the NULL of a column as `none`; the first level has the index 1
pub record LevelRow : Type 0 where
  pub level_index : ℕ
  pub image_id : Option ℕ
  pub star : Option ℤ
  pub grid_cols : Option ℤ
  pub grid_rows : Option ℤ
  pub play_seconds : Option ℤ
  pub category : Option String
  pub xp_reward : Option ℤ
  pub show_on_main : Bool

-- purchases
pub record PurchaseRow : Type 0 where
  pub user_id : ℕ
  pub product_id : String
  pub platform : String
  pub transaction_id : String
  pub points_credited : ℤ
  pub stars_credited : ℤ

-- stories
pub record StoryRow : Type 0 where
  pub id : ℕ
  pub title : String
  pub category : String
  pub author : String
  pub description : String
  pub level_required : ℤ
  pub cover_image_id : Option ℕ
  pub created_by : Option ℕ

-- story_pages
pub record PageRow : Type 0 where
  pub id : ℕ
  pub story_id : ℕ
  pub page_index : ℤ
  pub image_id : ℕ
  pub title : String
  pub description : String
  pub grid_cols : ℤ
  pub grid_rows : ℤ
  pub play_seconds : ℤ
  pub xp_reward : ℤ

-- story_page_progress
pub record PageProgressRow : Type 0 where
  pub user_id : ℕ
  pub page_id : ℕ

pub record Db : Type 0 where
  pub users : List UserRow
  pub images : List ImageRow
  pub dungeons : List DungeonRow
  pub dungeon_monsters : List MonsterRow
  pub dungeon_progress : List ProgressRow
  pub dungeon_treasure_unlocks : List TreasureRow
  pub hidden_secrets : List SecretRow
  pub hidden_secret_progress : List RevealRow
  pub hidden_secret_unlocks : List PictureRow
  pub checkins : List CheckinRow
  pub expedition_progress : List LevelProgressRow
  pub expedition_levels : List LevelRow
  pub purchases : List PurchaseRow
  pub stories : List StoryRow
  pub story_pages : List PageRow
  pub story_page_progress : List PageProgressRow
