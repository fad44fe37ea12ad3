-- ===== src/Purchases/Catalog.antt =====
-- internal/purchases/catalog.go: RewardFor; internal/purchases/purchases.go: IsKnownPlatform.
use magic_jigsaw.Prelude.{Bool, ◌||◌, Option, none, some, String, str_eq, ℤ, pos, if◌then◌else◌}

pub record Reward : Type 0 where
  pub points : ℤ
  pub expedition_stars : ℤ

-- The map productRewards, `none` for a missing key.
unfoldable pub reward_for : String → Option Reward
reward_for product_id =
    if str_eq product_id "unlock_points_50"
    then some (record { points = pos 50; expedition_stars = pos 0 })
    else if str_eq product_id "unlock_points_20"
    then some (record { points = pos 20; expedition_stars = pos 0 })
    else if str_eq product_id "expedition_stars_50"
    then some (record { points = pos 0; expedition_stars = pos 50 })
    else none

unfoldable pub is_known_platform : String → Bool
is_known_platform source = str_eq source "app_store" || str_eq source "google_play"
