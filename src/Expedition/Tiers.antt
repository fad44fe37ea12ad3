-- ===== src/Expedition/Tiers.antt =====
-- internal/models/expedition.go: the tier of a level, an admin's override, and the stars that a level
-- requires. A map from levels to tiers is a function, with Go's zero value for a missing key.
use magic_jigsaw.Prelude.{
  ℕ, zero, suc, ◌+◌, ◌-◌, ◌≡◌, Bool, true, Option, none, some, String, ℤ, pos, int_add, leb, refl,
  if◌then◌else◌, arith, ◌∙◌, ap, ◌≤◌,
}

pub record ExpeditionTier : Type 0 where
  pub star : ℤ
  pub grid_cols : ℤ
  pub grid_rows : ℤ
  pub play_seconds : ℤ
  pub category : String
  pub xp_reward : ℤ
  pub show_on_main : Bool

abbrev tier : ℕ → ℕ → ℕ → ℕ → String → ℕ → ExpeditionTier
tier star cols rows seconds category xp = record {
  star = pos star;
  grid_cols = pos cols;
  grid_rows = pos rows;
  play_seconds = pos seconds;
  category = category;
  xp_reward = pos xp;
  show_on_main = true;
}

unfoldable pub tier_for_level : ℕ → ExpeditionTier
tier_for_level index =
    if leb index 20
    then tier 1 4 6 120 "Abyss of Ruin" 100
    else if leb index 40
    then tier 2 6 10 300 "Shadow Vanguard" 200
    else if leb index 60
    then tier 3 8 8 480 "Eternal Dominion" 300
    else if leb index 80
    then tier 4 8 12 600 "Forsaken Citadel" 500
    else tier 5 10 16 720 "Crimson Eclipse" 1000

-- The loop of RequiredStars: `n` more levels from the i-th on.
unfoldable pub add_stars : ℤ → ℕ → ℕ → ℤ
add_stars total i zero = total
add_stars total i (suc n) = add_stars (int_add total (tier_for_level i).star) (i + 1) n

unfoldable pub required_stars : ℕ → ℤ
required_stars index = add_stars (pos 0) 1 (index - 1)

pub record LevelConfig : Type 0 where
  pub star : Option ℤ
  pub grid_cols : Option ℤ
  pub grid_rows : Option ℤ
  pub play_seconds : Option ℤ
  pub category : Option String
  pub xp_reward : Option ℤ
  pub show_on_main : Option Bool

-- `if o.Star != nil { t.Star = *o.Star }` and the like
abbrev pub or_default {ℓ} : {A : Type ℓ} → Option A → A → A
or_default none a = a
or_default (some b) a = b

abbrev pub overridden : ExpeditionTier → LevelConfig → ExpeditionTier
overridden t o = record {
  star = or_default o.star t.star;
  grid_cols = or_default o.grid_cols t.grid_cols;
  grid_rows = or_default o.grid_rows t.grid_rows;
  play_seconds = or_default o.play_seconds t.play_seconds;
  category = or_default o.category t.category;
  xp_reward = or_default o.xp_reward t.xp_reward;
  show_on_main = or_default o.show_on_main t.show_on_main;
}

unfoldable pub effective_tier : ℕ → Option LevelConfig → ExpeditionTier
effective_tier index none = tier_for_level index
effective_tier index (some o) = overridden (tier_for_level index) o

-- One round of the loop of RequiredStarsFromTiers.
abbrev pub with_star : ExpeditionTier → ℤ → ℤ
with_star t total = if t.show_on_main then int_add total t.star else total

-- The loop: `n` more levels from the i-th on.
unfoldable pub add_tiers : (ℕ → ExpeditionTier) → ℤ → ℕ → ℕ → ℤ
add_tiers tiers total i zero = total
add_tiers tiers total i (suc n) = add_tiers tiers (with_star (tiers i) total) (i + 1) n

unfoldable pub required_stars_from_tiers : (ℕ → ExpeditionTier) → ℕ → ℤ
required_stars_from_tiers tiers index = add_tiers tiers (pos 0) 1 (index - 1)

shown_tier : (index : ℕ) → (tier_for_level index).show_on_main ≡ true
unfolding tier_for_level
shown_tier index = ground arith

add_tiers-default :
    (total : ℤ) (i n : ℕ) → add_tiers (λ k. effective_tier k none) total i n ≡ add_stars total i n
unfolding add_tiers add_stars effective_tier
add_tiers-default total i zero = refl
add_tiers-default total i (suc n) =
    rw (shown_tier i) (add_tiers-default (int_add total (tier_for_level i).star) (i + 1) n)

-- Where no level has an override, RequiredStarsFromTiers gives what RequiredStars gives.
required_stars_from_tiers-default :
    (index : ℕ)
    → required_stars_from_tiers (λ i. effective_tier i none) index ≡ required_stars index
unfolding required_stars_from_tiers required_stars
required_stars_from_tiers-default index = add_tiers-default (pos 0) 1 (index - 1)

-- The last round of the loop, taken apart from the others.
add_tiers-last :
    (tiers : ℕ → ExpeditionTier) (total : ℤ) (i n : ℕ)
    → add_tiers tiers total i (suc n) ≡ with_star (tiers (i + n)) (add_tiers tiers total i n)
unfolding add_tiers
add_tiers-last tiers total i zero = ap (λ k. with_star (tiers k) total) (omega arith)
add_tiers-last tiers total i (suc n) =
    add_tiers-last tiers (with_star (tiers i) total) (i + 1) n
    ∙ ap (λ k. with_star (tiers k) (add_tiers tiers (with_star (tiers i) total) (i + 1) n))
        (omega arith)

-- What the next level requires.
pub required_stars_from_tiers-next :
    (tiers : ℕ → ExpeditionTier) (index : ℕ)
    → 1 ≤ index
    → required_stars_from_tiers tiers (index + 1)
      ≡ with_star (tiers index) (required_stars_from_tiers tiers index)
unfolding required_stars_from_tiers
required_stars_from_tiers-next tiers zero h = absurd (omega (arith, h))
required_stars_from_tiers-next tiers (suc k) h =
    ap (add_tiers tiers (pos 0) 1) (omega arith)
    ∙ add_tiers-last tiers (pos 0) 1 k
    ∙ ap (λ m. with_star (tiers m) (add_tiers tiers (pos 0) 1 k)) (omega arith)
    ∙ ap (λ m. with_star (tiers (suc k)) (add_tiers tiers (pos 0) 1 m)) (omega arith)
