-- ===== src/Expedition/Play.antt =====
-- internal/repository/expedition.go: StartExpeditionLevel, CompleteExpeditionLevel and
-- FailExpeditionLevel. Level, seconds and pieces are columns of 32 bits.
use magic_jigsaw.Prelude.{
  ℕ, Bool, not, ◌&&◌, none, some, [], ◌∷◌, ◌++◌, String, str_eq, ℤ, pos, int_lt, int_eq, ◌==◌,
  if◌then◌else◌,
}
use magic_jigsaw.Db.Table.{update, exists}
use magic_jigsaw.Db.Schema.{LevelProgressRow}
use magic_jigsaw.Db.Action.{Env, Action, Statement, execute}
use magic_jigsaw.Points.Statements.{user_is, fits_int4}

abbrev pub level_is : ℕ → ℤ → LevelProgressRow → Bool
level_is user_id level p = p.user_id == user_id && int_eq p.level_index level

abbrev pub has_status : String → LevelProgressRow → Bool
has_status s p = str_eq p.status s

abbrev pub started : LevelProgressRow → LevelProgressRow
started p = record p { status = "in_progress" }

abbrev pub fresh_level : ℕ → ℤ → LevelProgressRow
fresh_level user_id level = record {
  user_id = user_id;
  level_index = level;
  status = "in_progress";
  elapsed_seconds = pos 0;
  correct_pieces = pos 0;
}

-- ... WHERE expedition_progress.status <> 'completed'
abbrev pub restarts : ℕ → ℤ → LevelProgressRow → Bool
restarts user_id level p = level_is user_id level p && not (has_status "completed" p)

-- INSERT INTO expedition_progress ... ON CONFLICT (user_id, level_index) DO UPDATE ...
unfoldable pub upsert_started : ℕ → ℤ → Statement (Unit {0})
upsert_started user_id level d =
    if fits_int4 level
    then (if exists (level_is user_id level) d.expedition_progress
        then some (
          tt,
          record d {
            expedition_progress = update (restarts user_id level) started d.expedition_progress;
          },
        )
        else if exists (user_is user_id) d.users
        then some (
          tt,
          record d {
            expedition_progress = d.expedition_progress ++ fresh_level user_id level ∷ [];
          },
        )
        else none)
    else none

-- GREATEST(a, b)
abbrev pub greatest : ℤ → ℤ → ℤ
greatest a b = if int_lt a b then b else a

abbrev pub cleared : ℤ → ℤ → LevelProgressRow → LevelProgressRow
cleared elapsed correct p = record p {
  status = "completed";
  elapsed_seconds = elapsed;
  correct_pieces = greatest p.correct_pieces correct;
}

abbrev pub lost : ℤ → LevelProgressRow → LevelProgressRow
lost correct p = record p { status = "failed"; correct_pieces = greatest p.correct_pieces correct }

-- WHERE user_id = $1 AND level_index = $2 AND status = 'in_progress'
abbrev pub in_play : ℕ → ℤ → LevelProgressRow → Bool
in_play user_id level p = level_is user_id level p && has_status "in_progress" p

-- UPDATE expedition_progress SET status = 'completed' ...: whether a row was affected
unfoldable pub update_cleared : ℕ → ℤ → ℤ → ℤ → Statement Bool
update_cleared user_id level elapsed correct d =
    if fits_int4 level && (fits_int4 elapsed && fits_int4 correct)
    then some (
      exists (in_play user_id level) d.expedition_progress,
      record d {
        expedition_progress =
            update (in_play user_id level) (cleared elapsed correct) d.expedition_progress;
      },
    )
    else none

-- UPDATE expedition_progress SET status = 'failed' ...
unfoldable pub update_lost : ℕ → ℤ → ℤ → Statement (Unit {0})
update_lost user_id level correct d =
    if fits_int4 level && fits_int4 correct
    then some (
      tt,
      record d {
        expedition_progress = update (in_play user_id level) (lost correct) d.expedition_progress;
      },
    )
    else none

module _ (env : Env) where
  unfoldable pub start_expedition_level : ℕ → ℤ → Action (Unit {0})
  unfolding execute
  start_expedition_level user_id level = execute env (upsert_started user_id level)

  -- Whether this call completed the level.
  unfoldable pub complete_expedition_level : ℕ → ℤ → ℤ → ℤ → Action Bool
  unfolding execute
  complete_expedition_level user_id level elapsed correct =
      execute env (update_cleared user_id level elapsed correct)

  unfoldable pub fail_expedition_level : ℕ → ℤ → ℤ → Action (Unit {0})
  unfolding execute
  fail_expedition_level user_id level correct = execute env (update_lost user_id level correct)
