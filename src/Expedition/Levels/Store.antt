-- ===== src/Expedition/Levels/Store.antt =====
-- internal/repository/expedition.go: the methods on levels, tiers and stars. A map is a function, with
-- `none` or Go's zero value for a missing key; the primary key gives a level one row.
use magic_jigsaw.Expedition.Campaign.{LevelImage}
use magic_jigsaw.Expedition.Levels.Statements.{
  select_level_images, delete_level, played_at, select_level_progress, count_played, index_is,
  upsert_config, upsert_image, select_levels, select_max_index, select_completed,
  select_level_image, insert_next_level, select_bonus_stars,
}
use magic_jigsaw.Prelude.{
  int_add, ℕ, Bool, true, false, not, ◌&&◌, Option, none, some, List, [], ◌∷◌, String, ℤ, pos,
  negsuc, ◌==◌, if◌then◌else◌, leb, ltb,
}
use magic_jigsaw.Db.Table.{select}
use magic_jigsaw.Db.Schema.{ImageRow, LevelProgressRow, LevelRow}
use magic_jigsaw.Db.Action.{
  Env, Action, Ending, commit, rollback, failed, pure, or_raise, branch, ◌>>=◌, execute,
  transaction,
}
use magic_jigsaw.Expedition.Tiers.{ExpeditionTier, LevelConfig, effective_tier}

abbrev pub config_of : Option LevelRow → Option LevelConfig
config_of none = none
config_of (some l) = some (record {
  star = l.star;
  grid_cols = l.grid_cols;
  grid_rows = l.grid_rows;
  play_seconds = l.play_seconds;
  category = l.category;
  xp_reward = l.xp_reward;
  show_on_main = some l.show_on_main;
})

-- ExpeditionTier{}
abbrev pub zero_tier : ExpeditionTier
zero_tier = record {
  star = pos 0;
  grid_cols = pos 0;
  grid_rows = pos 0;
  play_seconds = pos 0;
  category = "";
  xp_reward = pos 0;
  show_on_main = false;
}

-- The loop of EffectiveTiers: the keys are 1 to `count`.
abbrev pub tiers_of : ℕ → (ℕ → Option LevelConfig) → ℕ → ExpeditionTier
tiers_of count cfgs i = if leb 1 i && leb i count then effective_tier i (cfgs i) else zero_tier

-- tiers[idx]
abbrev pub tier_at : (ℕ → ExpeditionTier) → ℤ → ExpeditionTier
tier_at tiers (pos i) = tiers i
tier_at tiers (negsuc i) = zero_tier

-- The loop of TotalExpeditionStars.
abbrev pub add_level_stars : (ℕ → ExpeditionTier) → ℤ → List ℤ → ℤ
add_level_stars tiers total [] = total
add_level_stars tiers total (i ∷ is) =
    add_level_stars tiers (int_add total (tier_at tiers i).star) is

-- Whether the level was deleted, and why not.
pub record LevelDeletion : Type 0 where
  pub deleted : Bool
  pub reason : String

abbrev pub kept_because : String → LevelDeletion
kept_because reason = record { deleted = false; reason = reason }

module _ (env : Env) where
  unfoldable pub expedition_level_count : Action ℕ
  unfolding execute
  expedition_level_count = execute env select_max_index

  unfoldable pub create_expedition_level : Action ℕ
  unfolding execute
  create_expedition_level = execute env insert_next_level

  unfoldable pub delete_level_transaction : ℕ → Action (Ending LevelDeletion)
  unfolding execute
  delete_level_transaction level = do
    max ← execute env select_max_index
    branch (not (level == max))
        (pure (rollback (kept_because "only the last level can be deleted")))
        do
          played ← execute env (count_played level)
          branch (ltb 0 played)
              (pure (rollback (kept_because "players have already started this level")))
              do
                _ ← execute env (delete_level level)
                pure (commit (record { deleted = true; reason = "" }))

  unfoldable pub delete_last_expedition_level : ℕ → Action LevelDeletion
  delete_last_expedition_level level = transaction env (delete_level_transaction level)

  unfoldable pub set_level_image : ℕ → ℕ → Action (Unit {0})
  unfolding execute
  set_level_image level image_id = execute env (upsert_image level image_id)

  unfoldable pub update_level_config : ℕ → LevelConfig → Action (Unit {0})
  unfolding execute
  update_level_config level c = execute env (upsert_config level c)

  unfoldable pub level_configs : Action (ℕ → Option LevelConfig)
  unfolding execute
  level_configs = do
    levels ← execute env select_levels
    pure (λ i. config_of (select (index_is i) levels))

  unfoldable pub effective_tiers : Action (ℕ → ExpeditionTier)
  effective_tiers = do
    count ← expedition_level_count
    cfgs ← level_configs
    pure (tiers_of count cfgs)

  abbrev pub level_image : Option ImageRow → LevelImage
  level_image none = record { url = ""; id = "" }
  level_image (some i) = record { url = i.url; id = env.uuid_string i.id }

  unfoldable pub level_images : Action (ℕ → LevelImage)
  unfolding execute
  level_images = do images ← execute env select_level_images; pure (λ i. level_image (images i))

  -- An error when the level has no row.
  unfoldable pub level_image_id : ℕ → Action (Option ℕ)
  unfolding execute
  level_image_id level = do row ← execute env (select_level_image level); or_raise row failed

  unfoldable pub get_expedition_progress : ℕ → Action (ℕ → Option LevelProgressRow)
  unfolding execute
  get_expedition_progress user_id = do
    rows ← execute env (select_level_progress user_id)
    pure (λ i. select (played_at i) rows)

  unfoldable pub completed_expedition_levels : ℕ → Action (List ℤ)
  unfolding execute
  completed_expedition_levels user_id = execute env (select_completed user_id)

  unfoldable pub expedition_bonus_stars : ℕ → Action ℤ
  unfolding execute
  expedition_bonus_stars user_id = do
    row ← execute env (select_bonus_stars user_id)
    or_raise row failed

  unfoldable pub total_expedition_stars : ℕ → Action ℤ
  total_expedition_stars user_id = do
    completed ← completed_expedition_levels user_id
    tiers ← effective_tiers
    bonus ← expedition_bonus_stars user_id
    pure (int_add (add_level_stars tiers (pos 0) completed) bonus)
