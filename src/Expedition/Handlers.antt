-- ===== src/Expedition/Handlers.antt =====
-- internal/api/expedition.go: the players' handlers, once the body is parsed. A body is `none` when it is
-- not the JSON of a request, and a request of zeros when it is empty.
use magic_jigsaw.Points.Levels.{level_from_xp}
use magic_jigsaw.Expedition.Levels.Store.{
  expedition_level_count, get_expedition_progress, effective_tiers, level_image_id, level_images,
  total_expedition_stars,
}
use magic_jigsaw.Expedition.Play.{
  start_expedition_level, fail_expedition_level, complete_expedition_level,
}
use magic_jigsaw.Expedition.Campaign.{build_expedition_state, is_locked, ExpeditionState}
use magic_jigsaw.Prelude.{
  int_mul, ℕ, Bool, true, false, not, ◌&&◌, Option, none, some, String, ℤ, pos, int_le, int_lt,
  if◌then◌else◌,
}
use magic_jigsaw.Db.Schema.{LevelProgressRow}
use magic_jigsaw.Db.Action.{Env, Result, ok, err}
use magic_jigsaw.Http.Handler.{
  Handler, answered, respond, refuse, unless_refused, attempt, calls, ◌>>=◌,
}
use magic_jigsaw.Expedition.Levels.Handlers.{level_from_path}
use magic_jigsaw.Expedition.Tiers.{ExpeditionTier}
use magic_jigsaw.Dungeon.Handler.{credit_xp}

pub record FinishRequest : Type 0 where
  pub elapsed_seconds : ℤ
  pub correct_pieces : Option ℤ

-- ExpeditionTier.Pieces
abbrev pub pieces : ExpeditionTier → ℤ
pieces t = int_mul t.grid_cols t.grid_rows

-- The number of correct pieces that handleCompleteExpedition stores.
abbrev pub at_most : ℤ → Option ℤ → ℤ
at_most all none = all
at_most all (some c) = if int_le (pos 0) c && int_lt c all then c else all

-- ... and handleFailExpedition.
abbrev pub at_least_zero : Option ℤ → ℤ
at_least_zero none = pos 0
at_least_zero (some c) = if int_lt (pos 0) c then c else pos 0

-- `_, has, _ := s.store.LevelImageID`
abbrev pub has_image : Result (Option ℕ) → Bool
has_image (ok (some id)) = true
has_image (ok none) = false
has_image (err e) = false

abbrev pub status_in : Option LevelProgressRow → Option String
status_in none = none
status_in (some p) = some p.status

pub record ExpeditionCompleteResponse : Type 0 where
  pub state : ExpeditionState
  pub xp_earned : ℤ
  pub xp : ℤ
  pub level : ℕ
  pub xp_into_level : ℤ
  pub xp_for_next_level : ℕ

abbrev pub complete_response : ℤ × ℤ → ExpeditionState → ExpeditionCompleteResponse
complete_response (total, earned) state =
    let (level, into, next) = level_from_xp total in
    record {
      state = state;
      xp_earned = earned;
      xp = total;
      level = level;
      xp_into_level = into;
      xp_for_next_level = next;
    }

module _ (env : Env) (user_id : ℕ) where
  -- What buildExpeditionState loads, and what it makes of it.
  unfoldable pub load_expedition_state : Handler ExpeditionState
  load_expedition_state = do
    images ← calls (level_images env) 500 "internal"
    progress ← calls (get_expedition_progress env user_id) 500 "internal"
    total_stars ← calls (total_expedition_stars env user_id) 500 "internal"
    tiers ← calls (effective_tiers env) 500 "internal"
    level_count ← calls (expedition_level_count env) 500 "internal"
    respond
        (build_expedition_state tiers images (λ i. status_in (progress i)) total_stars level_count)

  -- The level is open: it is stored as started.
  abbrev pub start_open : ℕ → Handler ExpeditionState
  start_open level = do
    image ← attempt (level_image_id env level)
    unless_refused (not (has_image image)) 403 "no_image" do
      _ ← calls (start_expedition_level env user_id (pos level)) 500 "internal"
      load_expedition_state

  -- The gate of the two handlers that play a level, and what follows it.
  module _ {A : Type 0} (k : ℕ → (ℕ → ExpeditionTier) → Handler A) (level : ℕ) where
    abbrev pub gated_with : ℤ → Handler A
    gated_with total_stars = do
      tiers ← calls (effective_tiers env) 500 "internal"
      unless_refused (is_locked tiers total_stars level) 403 "locked" (k level tiers)

    abbrev pub gated : Handler A
    gated = do
      total_stars ← calls (total_expedition_stars env user_id) 500 "internal"
      gated_with total_stars

  unfoldable pub handle_start_expedition : Option ℤ → Handler ExpeditionState
  handle_start_expedition path = do
    level ← level_from_path env path
    gated (λ l tiers. start_open l) level

  abbrev pub credited_xp : Bool → ℤ → Handler (ℤ × ℤ)
  credited_xp first xp w =
      let (t, w') = credit_xp env (first && int_lt (pos 0) xp) user_id xp w in (answered t, w')

  -- The XP of the first completion, and the state after it.
  abbrev pub complete_after : ExpeditionTier → Bool → Handler ExpeditionCompleteResponse
  complete_after tier first = do
    t ← credited_xp first tier.xp_reward
    state ← load_expedition_state
    respond (complete_response t state)

  abbrev pub complete_open :
      ℕ → ExpeditionTier → Option FinishRequest → Handler ExpeditionCompleteResponse
  complete_open level tier none = refuse 400 "bad_request"
  complete_open level tier (some req) = do
    first ←
        calls
          (complete_expedition_level env user_id (pos level) req.elapsed_seconds
            (at_most (pieces tier) req.correct_pieces))
          500 "internal"
    complete_after tier first

  unfoldable pub handle_complete_expedition :
      Option ℤ → Option FinishRequest → Handler ExpeditionCompleteResponse
  handle_complete_expedition path body = do
    level ← level_from_path env path
    gated (λ l tiers. complete_open l (tiers l) body) level

  abbrev pub fail_level : Option FinishRequest → ℕ → Handler ExpeditionState
  fail_level none level = refuse 400 "bad_request"
  fail_level (some req) level = do
    _ ←
        calls (fail_expedition_level env user_id (pos level) (at_least_zero req.correct_pieces)) 500
          "internal"
    load_expedition_state

  unfoldable pub handle_fail_expedition : Option ℤ → Option FinishRequest → Handler ExpeditionState
  handle_fail_expedition path body = do level ← level_from_path env path; fail_level body level
