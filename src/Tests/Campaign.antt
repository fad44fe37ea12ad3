-- ===== src/Tests/Campaign.antt =====
-- Levels, stars and pages.
use magic_jigsaw.Prelude.{
  ℕ, ◌≡◌, ◌+◌, refl, none, some, List, [], ◌∷◌, String, str_eq, ℤ, pos, All, length, arith,
  if◌then◌else◌, ◌^◌,
}
use magic_jigsaw.Expedition.Tiers.{
  ExpeditionTier, tier_for_level, add_stars, required_stars, effective_tier,
  required_stars_from_tiers, add_tiers,
}
use magic_jigsaw.Expedition.Campaign.{LevelImage, build_expedition_state}
use magic_jigsaw.Expedition.Gate.{Agrees, Numbered, build_expedition_state-Agrees}
use magic_jigsaw.Paging.Page.{parse_page, page_of, take, drop, requested}
use magic_jigsaw.Paging.Window.{page_of-parse_page}

-- The seeded campaign asks for 300 stars after its 100 levels.
seeded_stars : required_stars 101 ≡ pos 300
unfolding required_stars add_stars tier_for_level
seeded_stars = refl

-- The tiers without overrides ask for the same.
seeded_tiers : required_stars_from_tiers (λ i. effective_tier i none) 101 ≡ pos 300
unfolding required_stars_from_tiers add_tiers effective_tier tier_for_level
seeded_tiers = refl

abbrev tiers : ℕ → ExpeditionTier
tiers i = effective_tier i none

abbrev images : ℕ → LevelImage
images i = record { url = "level.jpg"; id = "7" }

build_expedition_state-Agrees_example :
    let ls = (build_expedition_state tiers images (λ i. none) (pos 3) 5).levels in
    Numbered 1 ls × (length ls ≡ 5) × All (Agrees tiers (pos 3)) ls
build_expedition_state-Agrees_example =
    build_expedition_state-Agrees tiers images (λ i. none) (pos 3) 5

abbrev atoi : String → ℤ
atoi s = if str_eq s "2" then pos 2 else if str_eq s "big" then pos (2 ^ 61 + 1) else pos 4

abbrev letters : List String
letters = "a" ∷ "b" ∷ "c" ∷ []

page_of-parse_page_example :
    page_of letters (parse_page atoi "2" "2" (pos 50)) ≡ some (take 2 (drop 2 letters))
page_of-parse_page_example =
    page_of-parse_page atoi "2" "2" 2 2 50 refl refl (omega arith) (omega arith) (omega arith)
      letters (omega arith) (omega arith)

-- A page so far away that its offset does not fit an int: the offset is negative, and pageOf panics.
far_page_panics : page_of letters (parse_page atoi "4" "big" (pos 50)) ≡ none
unfolding parse_page page_of requested
far_page_panics = refl
