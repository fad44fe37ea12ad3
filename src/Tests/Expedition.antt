-- ===== src/Tests/Expedition.antt =====
-- A campaign of two levels: an admin adds a third, and a player starts and completes the first.
use magic_jigsaw.Expedition.Completions.{Completes}
use magic_jigsaw.Expedition.Campaign.{is_locked}
use magic_jigsaw.Expedition.Levels.Bounds.{effective_tiers-Playable}
use magic_jigsaw.Expedition.Tiers.{
  tier_for_level, effective_tier, add_tiers, required_stars_from_tiers,
}
use magic_jigsaw.Expedition.Levels.Queries.{table_tiers}
use magic_jigsaw.Expedition.Completions.{handle_complete_expedition_outcome}
use magic_jigsaw.Expedition.Sessions.{handle_start_expedition_outcome, Starts}
use magic_jigsaw.Expedition.Levels.Statements.{
  delete_level, count_played, select_level_image, select_bonus_stars, select_levels,
  select_completed, insert_next_level, select_max_index, empty_level,
}
use magic_jigsaw.Expedition.Levels.Store.{
  delete_level_transaction, level_image_id, delete_last_expedition_level, expedition_bonus_stars,
  completed_expedition_levels, level_configs, total_expedition_stars, create_expedition_level,
  expedition_level_count, effective_tiers,
}
use magic_jigsaw.Expedition.Levels.Refinement.{level_request-Refines, level_requests}
use magic_jigsaw.Expedition.Levels.Changes.{
  created, deletes, level_request, level_rows, creates, is_played, Change,
}
use magic_jigsaw.Expedition.Handlers.{
  FinishRequest, handle_complete_expedition, handle_start_expedition,
}
use magic_jigsaw.Expedition.Levels.Playable.{PlayableTier, Campaign-append, Campaign}
use magic_jigsaw.Prelude.{ℕ, ◌+◌, ◌-◌, ◌*◌, ◌≡◌, ◌≤◌, ◌⊎◌, refl, none, some, [], ◌∷◌, pos, arith}
use magic_jigsaw.Db.Schema.{LevelRow}
use magic_jigsaw.Db.Action.{finish, World, ok, execute, transaction}
use magic_jigsaw.Points.Statements.{fits_int4}
use magic_jigsaw.Http.Handler.{answered, refused}
use magic_jigsaw.Tests.World.{env, tables}
use magic_jigsaw.Expedition.Levels.Handlers.{
  handle_admin_delete_expedition_level, level_from_path, handle_admin_create_expedition_level,
  Texts,
}

abbrev plain : Texts
plain = record { trim_space = λ t. t; len = λ t. 5 }

abbrev first_level : LevelRow
first_level = record (empty_level 1) { image_id = some 7; star = some (pos 2) }

abbrev two_levels : World
two_levels = record {
  db = record (tables []) { expedition_levels = first_level ∷ empty_level 2 ∷ [] };
  clock = 0;
}

no_levels : Campaign 0 []
no_levels = record {
  numbered = record {
    bounded = tt;
    present = λ i low high. absurd (omega (arith, low, high));
    each_once = λ i. tt;
  };
  playable = tt;
  capped = omega arith;
}

two_levels-Campaign : Campaign 2 (level_rows two_levels)
two_levels-Campaign =
    Campaign-append 1 (first_level ∷ []) (empty_level 2) (omega arith)
      (record { star = tt; cols = tt; rows = tt; seconds = tt; xp = tt }) (omega arith)
      (Campaign-append 0 [] first_level (omega arith)
        (record { star = (omega arith, omega arith); cols = tt; rows = tt; seconds = tt; xp = tt })
        (omega arith) no_levels)

added : (level_request env plain creates two_levels).0 ≡ answered (created 3)
unfolding handle_admin_create_expedition_level expedition_level_count create_expedition_level
    execute select_max_index insert_next_level fits_int4
added = refl

-- The second level has no image.
no_image :
    (handle_start_expedition env 1 (some (pos 1)) (record two_levels {
      db = record two_levels.db { expedition_levels = empty_level 1 ∷ [] };
    })).0
    ≡ refused 403 "no_image"
unfolding handle_start_expedition level_from_path expedition_level_count total_expedition_stars
    completed_expedition_levels select_completed execute expedition_bonus_stars select_bonus_stars
    effective_tiers level_configs select_max_index select_levels level_image_id select_level_image
    is_locked required_stars_from_tiers add_tiers effective_tier tier_for_level
no_image = refl

level_request-Refines_example :
    (n' : ℕ) × Change
      (is_played two_levels.db)
      2
      creates
      (level_request env plain creates two_levels).0
      n'
    × Campaign n' (level_rows (level_request env plain creates two_levels).1)
level_request-Refines_example =
    level_request-Refines env 2 two_levels two_levels-Campaign plain creates

abbrev grown_world : World
grown_world = level_requests env plain (creates ∷ deletes (some (pos 3)) ∷ []) two_levels

grown_tiers : (effective_tiers env grown_world).0 ≡ ok (table_tiers grown_world.db)
unfolding effective_tiers expedition_level_count level_configs execute select_max_index
    select_levels handle_admin_create_expedition_level create_expedition_level insert_next_level
    fits_int4 handle_admin_delete_expedition_level level_from_path delete_last_expedition_level
    transaction finish delete_level_transaction count_played delete_level
grown_tiers = refl

effective_tiers-Playable_example :
    (n' : ℕ) × Campaign n' (level_rows grown_world)
    × ((i : ℕ) → 1 ≤ i → i ≤ n' → PlayableTier (table_tiers grown_world.db i))
    × ((i : ℕ)
        → 1 ≤ i
        → i ≤ n' + 1
        → (b : ℕ) × (required_stars_from_tiers (table_tiers grown_world.db) i ≡ pos b)
          × (b ≤ 5 * (i - 1)))
effective_tiers-Playable_example =
    effective_tiers-Playable env plain (creates ∷ deletes (some (pos 3)) ∷ []) 2 two_levels
      (table_tiers grown_world.db) two_levels-Campaign grown_tiers

handle_start_expedition_outcome_example :
    let x = handle_start_expedition env 1 (some (pos 1)) two_levels in
    (x.1.db ≡ two_levels.db) ⊎ Starts 1 (some (pos 1)) two_levels.db x.1.db
handle_start_expedition_outcome_example =
    handle_start_expedition_outcome env 1 (some (pos 1)) two_levels

abbrev finished : FinishRequest
finished = record { elapsed_seconds = pos 90; correct_pieces = none }

abbrev started_world : World
started_world = (handle_start_expedition env 1 (some (pos 1)) two_levels).1

handle_complete_expedition_outcome_example :
    let x = handle_complete_expedition env 1 (some (pos 1)) (some finished) started_world in
    (x.1.db ≡ started_world.db)
    ⊎ ((req : FinishRequest) × (some finished ≡ some req)
        × Completes 1 (some (pos 1)) req started_world.db x.1.db)
handle_complete_expedition_outcome_example =
    handle_complete_expedition_outcome env 1 (some (pos 1)) (some finished) started_world
