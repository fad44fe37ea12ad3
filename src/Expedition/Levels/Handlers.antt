-- ===== src/Expedition/Levels/Handlers.antt =====
-- internal/api/expedition.go: the admins' handlers that add, remove and configure levels, once the body
-- is parsed. The number of the path stands as strconv.Atoi leaves it, `none` for an error.
use magic_jigsaw.Expedition.Levels.Store.{
  LevelDeletion, level_images, create_expedition_level, update_level_config, expedition_level_count,
  delete_last_expedition_level,
}
use magic_jigsaw.Prelude.{
  ℕ, Bool, true, not, ◌||◌, Option, none, some, String, str_eq, ℤ, pos, negsuc, int_lt, ◌==◌, leb,
  ltb,
}
use magic_jigsaw.Db.Action.{Env}
use magic_jigsaw.Http.Handler.{attempt, Handler, respond, refuse, unless_refused, ◌>>=◌, calls}
use magic_jigsaw.Expedition.Tiers.{or_default, LevelConfig}

-- adminExpeditionConfigRequest
pub record ConfigRequest : Type 0 where
  pub star : ℤ
  pub grid_cols : ℤ
  pub grid_rows : ℤ
  pub play_seconds : ℤ
  pub category : String
  pub xp_reward : ℤ
  pub show_on_main : Option Bool

-- What Go's strings package says of a text: strings.TrimSpace, and len in bytes.
pub record Texts : Type 0 where
  pub trim_space : String → String
  pub len : String → ℕ

abbrev pub out_of_range : ℕ → ℕ → ℤ → Bool
out_of_range least most z = int_lt z (pos least) || int_lt (pos most) z

abbrev pub max_expedition_levels : ℕ
max_expedition_levels = 1000

abbrev pub bad_config : ConfigRequest → Bool
bad_config c =
    out_of_range 1 5 c.star
    || ((out_of_range 2 20 c.grid_cols || out_of_range 2 20 c.grid_rows)
        || (out_of_range 30 3600 c.play_seconds || out_of_range 0 100000 c.xp_reward))

abbrev pub bad_category : Texts → String → Bool
bad_category texts category = str_eq category "" || ltb 80 (texts.len category)

abbrev pub requested_config : String → ConfigRequest → LevelConfig
requested_config category c = record {
  star = some c.star;
  grid_cols = some c.grid_cols;
  grid_rows = some c.grid_rows;
  play_seconds = some c.play_seconds;
  category = some category;
  xp_reward = some c.xp_reward;
  show_on_main = some (or_default c.show_on_main true);
}

module _ (env : Env) where
  -- levelFromPath
  unfoldable pub level_from_path : Option ℤ → Handler ℕ
  level_from_path none = refuse 400 "bad_request"
  level_from_path (some (negsuc n)) = refuse 400 "bad_request"
  level_from_path (some (pos n)) = unless_refused (ltb n 1) 400 "bad_request" do
    count ← calls (expedition_level_count env) 500 "internal"
    unless_refused (ltb count n) 400 "bad_request" (respond n)

  abbrev pub create_after : ℕ → Handler ℕ
  create_after count =
      unless_refused (leb max_expedition_levels count) 409 "level_limit"
        (calls (create_expedition_level env) 500 "internal")

  unfoldable pub handle_admin_create_expedition_level : Handler ℕ
  handle_admin_create_expedition_level = do
    count ← calls (expedition_level_count env) 500 "internal"
    create_after count

  abbrev pub delete_refused : LevelDeletion → Handler (Unit {0})
  delete_refused v = unless_refused (not v.deleted) 409 "delete_refused" (respond tt)

  abbrev pub delete_at : ℕ → Handler (Unit {0})
  delete_at level = do
    deletion ← calls (delete_last_expedition_level env level) 500 "internal"
    delete_refused deletion

  abbrev pub delete_after : ℕ → Handler (Unit {0})
  delete_after level = unless_refused (level == 1) 409 "level_required" (delete_at level)

  unfoldable pub handle_admin_delete_expedition_level : Option ℤ → Handler (Unit {0})
  handle_admin_delete_expedition_level path = do level ← level_from_path path; delete_after level

  -- The answer shows the level as it is stored; its picture is read for it alone, and may fail to be.
  abbrev pub shown : ℕ → Handler ℕ
  shown level = do _ ← attempt (level_images env); respond level

  abbrev pub configure_at : ℕ → LevelConfig → Handler ℕ
  configure_at level c = do _ ← calls (update_level_config env level c) 500 "internal"; shown level

  abbrev pub configure_after : Texts → ConfigRequest → ℕ → Handler ℕ
  configure_after texts c level =
      let category = texts.trim_space c.category in
      unless_refused (bad_config c) 400 "bad_request" (
        unless_refused (bad_category texts category) 400 "bad_request"
          (configure_at level (requested_config category c)))

  unfoldable pub handle_admin_update_expedition_config :
      Texts → Option ℤ → ConfigRequest → Handler ℕ
  handle_admin_update_expedition_config texts path c = do
    level ← level_from_path path
    configure_after texts c level
