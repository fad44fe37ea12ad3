-- ===== src/Stories/Store.antt =====
-- internal/repository/stories.go: storyViewerLevel, CompleteStoryPage, and the admins' methods on pages.
use magic_jigsaw.Points.Levels.{level_from_xp, max_level}
use magic_jigsaw.Stories.Statements.{
  insert_page, update_level_required, select_gate, AddStoryPageParams, select_done_at,
  select_story_exists, PageGate, insert_done, update_page,
}
use magic_jigsaw.Prelude.{
  int_sub, ℕ, Bool, not, Option, String, ℤ, pos, int_lt, ◌==◌, if◌then◌else◌,
}
use magic_jigsaw.Db.Schema.{PageRow}
use magic_jigsaw.Db.Action.{
  raise, locked, level_too_low, Env, Action, not_found, pure, or_raise, branch, raise_if, ◌>>=◌,
  execute,
}
use magic_jigsaw.Points.Store.{get_xp}

-- models.MaxLevel and the first result of LevelFromXP
abbrev pub level_of : ℤ → ℕ
level_of xp = let (level, into, next) = level_from_xp xp in level

module _ (env : Env) where
  unfoldable pub story_viewer_level : ℕ → Action ℕ
  story_viewer_level user_id =
      branch (user_id == 0) (pure max_level) do xp ← get_xp env user_id; pure (level_of xp)

  -- `if idx > 0 { ... }`
  unfoldable pub check_previous : ℕ → ℕ → ℤ → Action (Unit {0})
  unfolding execute
  check_previous user_id story_id index =
      branch (int_lt (pos 0) index)
        (do
          done ← execute env (select_done_at user_id story_id (int_sub index (pos 1)))
          raise_if (not done) locked)
        (pure tt)

  abbrev pub awarded : ℤ → Bool → ℤ × Bool
  awarded xp newly = (if newly then xp else pos 0, newly)

  unfoldable pub mark_done : ℕ → ℕ → ℤ → Action (ℤ × Bool)
  unfolding execute
  mark_done user_id page_id xp = do
    newly ← execute env (insert_done user_id page_id)
    pure (awarded xp newly)

  -- CompleteStoryPage from the check of the previous page on, and from the check of the level on.
  abbrev pub complete_reached : ℕ → ℕ → ℕ → PageGate → Action (ℤ × Bool)
  complete_reached user_id story_id page_id gate = do
    _ ← check_previous user_id story_id gate.index
    mark_done user_id page_id gate.xp

  abbrev pub complete_at : ℕ → ℕ → ℕ → PageGate → ℕ → Action (ℤ × Bool)
  complete_at user_id story_id page_id gate level =
      branch (int_lt (pos level) gate.level_required) (raise level_too_low)
        (complete_reached user_id story_id page_id gate)

  abbrev pub complete_gated : ℕ → ℕ → ℕ → PageGate → Action (ℤ × Bool)
  complete_gated user_id story_id page_id gate = do
    level ← story_viewer_level user_id
    complete_at user_id story_id page_id gate level

  -- The XP to award, and whether the page is newly done.
  unfoldable pub complete_story_page : ℕ → ℕ → ℕ → Action (ℤ × Bool)
  unfolding execute
  complete_story_page user_id story_id page_id = do
    row ← execute env (select_gate page_id story_id)
    gate ← or_raise row not_found
    complete_gated user_id story_id page_id gate

  unfoldable pub add_story_page : AddStoryPageParams → Action PageRow
  unfolding execute
  add_story_page p w = execute env (insert_page (env.gen_random_uuid w.clock) p) w

  unfoldable pub update_story_page : ℕ → ℕ → String → String → Option ℕ → Action (Unit {0})
  unfolding execute
  update_story_page page_id story_id title description image = do
    found ← execute env (update_page page_id story_id title description image)
    raise_if (not found) not_found

  unfoldable pub update_story_level_required : ℕ → ℤ → Action (Unit {0})
  unfolding execute
  update_story_level_required story_id level = do
    found ← execute env (update_level_required story_id level)
    raise_if (not found) not_found

  unfoldable pub story_exists : ℕ → Action Bool
  unfolding execute
  story_exists id = execute env (select_story_exists id)
