-- ===== src/Expedition/Levels/Statements.antt =====
-- The SQL of internal/repository/expedition.go on expedition_levels, and on a player's progress and
-- stars. A level index is a positive number.
use magic_jigsaw.Prelude.{
  ℕ, ◌+◌, Bool, true, ◌&&◌, Option, none, some, List, [], ◌∷◌, ◌++◌, ℤ, pos, int_eq, ◌==◌,
  if◌then◌else◌, leb, length,
}
use magic_jigsaw.Db.Table.{select, select_all, update, delete, exists}
use magic_jigsaw.Db.Schema.{LevelProgressRow, LevelRow, ImageRow, Db}
use magic_jigsaw.Db.Action.{Statement}
use magic_jigsaw.Points.Statements.{user_is, fits_int4}
use magic_jigsaw.Expedition.Tiers.{LevelConfig, or_default}
use magic_jigsaw.Expedition.Play.{has_status}

-- WHERE level_index = $1
abbrev pub index_is : ℕ → LevelRow → Bool
index_is i l = l.level_index == i

abbrev pub larger : ℕ → ℕ → ℕ
larger a b = if leb a b then b else a

-- COALESCE(MAX(level_index), 0)
abbrev pub max_index : List LevelRow → ℕ
max_index [] = 0
max_index (l ∷ ls) = larger l.level_index (max_index ls)

-- SELECT COALESCE(MAX(level_index), 0) FROM expedition_levels
unfoldable pub select_max_index : Statement ℕ
select_max_index d = some (max_index d.expedition_levels, d)

abbrev pub empty_level : ℕ → LevelRow
empty_level i = record {
  level_index = i;
  image_id = none;
  star = none;
  grid_cols = none;
  grid_rows = none;
  play_seconds = none;
  category = none;
  xp_reward = none;
  show_on_main = true;
}

abbrev pub with_level : LevelRow → Db → Db
with_level l d = record d { expedition_levels = d.expedition_levels ++ l ∷ [] }

-- INSERT INTO expedition_levels (level_index, ...) SELECT COALESCE(MAX(level_index), 0) + 1, ...
-- RETURNING level_index
unfoldable pub insert_next_level : Statement ℕ
insert_next_level d =
    let next = max_index d.expedition_levels + 1 in
    if fits_int4 (pos next) then some (next, with_level (empty_level next) d) else none

abbrev pub played_at : ℕ → LevelProgressRow → Bool
played_at i p = int_eq p.level_index (pos i)

-- SELECT COUNT(*) FROM expedition_progress WHERE level_index = $1
unfoldable pub count_played : ℕ → Statement ℕ
count_played i d = some (length (select_all (played_at i) d.expedition_progress), d)

-- DELETE FROM expedition_levels WHERE level_index = $1
unfoldable pub delete_level : ℕ → Statement (Unit {0})
delete_level i d =
    some (tt, record d { expedition_levels = delete (index_is i) d.expedition_levels })

abbrev pub with_image : ℕ → LevelRow → LevelRow
with_image image_id l = record l { image_id = some image_id }

abbrev pub image_is : ℕ → ImageRow → Bool
image_is id i = i.id == id

-- INSERT INTO expedition_levels (level_index, image_id, ...) ... ON CONFLICT (level_index) DO UPDATE
-- SET image_id = EXCLUDED.image_id. The image must exist, and an index is at least 1.
unfoldable pub upsert_image : ℕ → ℕ → Statement (Unit {0})
upsert_image i image_id d =
    if fits_int4 (pos i) && (leb 1 i && exists (image_is image_id) d.images)
    then (if exists (index_is i) d.expedition_levels
        then some (
          tt,
          record d {
            expedition_levels = update (index_is i) (with_image image_id) d.expedition_levels;
          },
        )
        else some (tt, with_level (with_image image_id (empty_level i)) d))
    else none

abbrev pub with_config : LevelConfig → LevelRow → LevelRow
with_config c l = record l {
  star = c.star;
  grid_cols = c.grid_cols;
  grid_rows = c.grid_rows;
  play_seconds = c.play_seconds;
  category = c.category;
  xp_reward = c.xp_reward;
  show_on_main = or_default c.show_on_main true;
}

abbrev pub column_fits : Option ℤ → Bool
column_fits none = true
column_fits (some z) = fits_int4 z

abbrev pub config_fits : LevelConfig → Bool
config_fits c =
    column_fits c.star
    && (column_fits c.grid_cols
        && (column_fits c.grid_rows && (column_fits c.play_seconds && column_fits c.xp_reward)))

-- INSERT INTO expedition_levels (level_index, star, ..., COALESCE($8, TRUE), ...) ... ON CONFLICT
-- (level_index) DO UPDATE SET star = EXCLUDED.star, ...
unfoldable pub upsert_config : ℕ → LevelConfig → Statement (Unit {0})
upsert_config i c d =
    if fits_int4 (pos i) && (leb 1 i && config_fits c)
    then (if exists (index_is i) d.expedition_levels
        then some (
          tt,
          record d { expedition_levels = update (index_is i) (with_config c) d.expedition_levels },
        )
        else some (tt, with_level (with_config c (empty_level i)) d))
    else none

-- SELECT level_index, star, ... FROM expedition_levels
unfoldable pub select_levels : Statement (List LevelRow)
select_levels d = some (d.expedition_levels, d)

-- SELECT image_id FROM expedition_levels WHERE level_index = $1
unfoldable pub select_level_image : ℕ → Statement (Option (Option ℕ))
select_level_image i d = elim (select (index_is i) d.expedition_levels) [
  | none ↦ some (none, d)
  | some l ↦ some (some l.image_id, d)
]

-- The image of a level, if both exist.
abbrev pub joined_image : List ImageRow → Option LevelRow → Option ImageRow
joined_image images none = none
joined_image images (some l) = elim l.image_id [
  | none ↦ none
  | some id ↦ select (image_is id) images
]

-- SELECT el.level_index, i.url, i.id FROM expedition_levels el JOIN images i ON i.id = el.image_id,
-- by the index
unfoldable pub select_level_images : Statement (ℕ → Option ImageRow)
select_level_images d =
    some (λ i. joined_image d.images (select (index_is i) d.expedition_levels), d)

abbrev pub progress_of_user : ℕ → LevelProgressRow → Bool
progress_of_user user_id p = p.user_id == user_id

-- SELECT level_index, status, ... FROM expedition_progress WHERE user_id = $1
unfoldable pub select_level_progress : ℕ → Statement (List LevelProgressRow)
select_level_progress user_id d =
    some (select_all (progress_of_user user_id) d.expedition_progress, d)

abbrev pub completed_by : ℕ → LevelProgressRow → Bool
completed_by user_id p = progress_of_user user_id p && has_status "completed" p

abbrev pub level_indices : List LevelProgressRow → List ℤ
level_indices [] = []
level_indices (p ∷ ps) = p.level_index ∷ level_indices ps

-- SELECT level_index FROM expedition_progress WHERE user_id = $1 AND status = 'completed'
unfoldable pub select_completed : ℕ → Statement (List ℤ)
select_completed user_id d =
    some (level_indices (select_all (completed_by user_id) d.expedition_progress), d)

-- SELECT expedition_bonus_stars FROM users WHERE id = $1
unfoldable pub select_bonus_stars : ℕ → Statement (Option ℤ)
select_bonus_stars user_id d = elim (select (user_is user_id) d.users) [
  | none ↦ some (none, d)
  | some u ↦ some (some u.expedition_bonus_stars, d)
]
