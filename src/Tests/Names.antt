-- ===== src/Tests/Names.antt =====
-- A source that gives a biased byte first.
use magic_jigsaw.Names.Draw.{char_of, add_bytes, draw, random_display_name, display_name_cutoff}
use magic_jigsaw.Names.Finish.{random_display_name_lem, FromAlphabet, take, stream, chars}
use magic_jigsaw.Prelude.{
  ℕ, ◌≡◌, ◌≤◌, refl, some, List, [], ◌∷◌, ◌==◌, if◌then◌else◌, arith, length,
}

abbrev source : ℕ → List ℕ
source n =
    if n == 0
    then 255 ∷ 0 ∷ 61 ∷ 62 ∷ 248 ∷ 26 ∷ 52 ∷ 1 ∷ []
    else 2 ∷ 3 ∷ 4 ∷ 5 ∷ 6 ∷ 7 ∷ 8 ∷ 9 ∷ []

-- "a9aA0bcd"
drawn : random_display_name source 2 ≡ some (97 ∷ 57 ∷ 97 ∷ 65 ∷ 48 ∷ 98 ∷ 99 ∷ 100 ∷ [])
unfolding random_display_name draw add_bytes char_of display_name_cutoff
drawn = refl

enough_bytes : 8 ≤ length (chars (stream source 0 2))
unfolding display_name_cutoff
enough_bytes = omega arith

random_display_name_lem_example :
    (name : List ℕ) × (random_display_name source 2 ≡ some name)
    × (name ≡ take 8 (chars (stream source 0 2)))
    × (length name ≡ 8)
    × FromAlphabet name
random_display_name_lem_example = random_display_name_lem source 2 enough_bytes
