-- ===== src/Expedition/Campaign.antt =====
-- internal/api/expedition.go: the campaign that buildExpeditionState makes of what the store returns,
-- and the gate of handleStartExpedition and handleCompleteExpedition. Of a map from levels to rows of
-- progress only the status is read; a map is a function, `none` for a missing key.
use magic_jigsaw.Prelude.{
  ℕ, zero, suc, ◌+◌, Bool, true, false, not, ◌&&◌, ◌||◌, Option, none, some, List, [], ◌∷◌, String,
  str_eq, ℤ, pos, int_add, int_lt, int_le, if◌then◌else◌,
}
use magic_jigsaw.Expedition.Tiers.{ExpeditionTier, with_star, required_stars_from_tiers}

-- repository.LevelImage
pub record LevelImage : Type 0 where
  pub url : String
  pub id : String

-- models.ExpeditionLevel
pub record ExpeditionLevel : Type 0 where
  pub index : ℕ
  pub tier : ExpeditionTier
  pub required_stars : ℤ
  pub image : LevelImage
  pub status : String
  pub unlocked : Bool
  pub stars_earned : ℤ

-- models.ExpeditionState
pub record ExpeditionState : Type 0 where
  pub total_stars : ℤ
  pub completed_count : ℤ
  pub current_level : ℤ
  pub levels : List ExpeditionLevel

abbrev pub status_of : Bool → Option String → String
status_of false p = "locked"
status_of true (some s) = s
status_of true none = "available"

abbrev pub is_completed : Option String → Bool
is_completed none = false
is_completed (some s) = str_eq s "completed"

module _ (tiers : ℕ → ExpeditionTier) (images : ℕ → LevelImage) (progress : ℕ → Option String)
    (total_stars : ℤ) where
  -- One round of the loop over the levels: the i-th level, with `req` the stars of the map so far.
  unfoldable pub level_view : ℕ → ℤ → ExpeditionLevel
  level_view i req =
      let unlocked = not (tiers i).show_on_main || int_le req total_stars in
      record {
        index = i;
        tier = tiers i;
        required_stars = if (tiers i).show_on_main then req else pos 0;
        image = images i;
        status = status_of unlocked (progress i);
        unlocked = unlocked;
        stars_earned = if is_completed (progress i) then (tiers i).star else pos 0;
      }

  -- The loop, `n` more levels from the i-th on: the levels.
  unfoldable pub levels_from : ℕ → ℤ → ℕ → List ExpeditionLevel
  levels_from i req zero = []
  levels_from i req (suc n) = level_view i req ∷ levels_from (i + 1) (with_star (tiers i) req) n

  -- The same loop: the completed levels of the map.
  unfoldable pub completed_from : ℕ → ℤ → ℕ → ℤ
  completed_from i completed zero = completed
  completed_from i completed (suc n) =
      completed_from (i + 1)
        (if is_completed (progress i) && (tiers i).show_on_main
          then int_add completed (pos 1)
          else completed)
        n

  -- The second loop: the levels of the map.
  unfoldable pub main_from : ℕ → ℤ → ℕ → ℤ
  main_from i main zero = main
  main_from i main (suc n) =
      main_from (i + 1) (if (tiers i).show_on_main then int_add main (pos 1) else main) n

  abbrev pub capped : ℤ → ℤ → ℤ
  capped current main = if int_lt main current then main else current

  unfoldable pub build_expedition_state : ℕ → ExpeditionState
  build_expedition_state level_count = record {
    total_stars = total_stars;
    completed_count = completed_from 1 (pos 0) level_count;
    current_level =
        capped (int_add (completed_from 1 (pos 0) level_count) (pos 1))
          (main_from 1 (pos 0) level_count);
    levels = levels_from 1 (pos 0) level_count;
  }

-- The gate of handleStartExpedition and handleCompleteExpedition: the answer is 403.
unfoldable pub is_locked : (ℕ → ExpeditionTier) → ℤ → ℕ → Bool
is_locked tiers total_stars level =
    (tiers level).show_on_main && int_lt total_stars (required_stars_from_tiers tiers level)
