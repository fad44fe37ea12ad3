-- ===== src/Secret/Rules.antt =====
-- internal/models/hidden_secret.go: the shutters, and ValidateHiddenSecret.
use magic_jigsaw.Prelude.{
  refl, ap, ℕ, ◌+◌, ◌*◌, ◌/◌, ◌%◌, ◌<◌, ◌≡◌, ◌≢◌, ◌↔◌, Bool, true, ◌&&◌, ◌||◌, Option, none, some,
  String, str_eq, eq_iff, ℤ, pos, negsuc, ◌≤ℤ◌, ◌<ℤ◌, int_le, int_lt, int_neg, ◌==◌, if◌then◌else◌,
  arith, suc,
}

abbrev pub tile_count : ℕ
tile_count = 3 * 3

unfoldable pub tile_index_in_range : ℤ → Bool
tile_index_in_range i = int_le (pos 0) i && int_lt i (pos tile_count)

-- Go's `/` and `%` by 3: the quotient is rounded towards 0, the remainder has the sign of `i`.
abbrev pub tile_row : ℤ → ℤ
tile_row (pos n) = pos (n / 3)
tile_row (negsuc n) = int_neg (pos (suc n / 3))

abbrev pub tile_col : ℤ → ℤ
tile_col (pos n) = pos (n % 3)
tile_col (negsuc n) = int_neg (pos (suc n % 3))

unfoldable pub tile_row_col : ℤ → ℤ × ℤ
tile_row_col i = (tile_row i, tile_col i)

pub record HiddenSecretConfig : Type 0 where
  pub title : String
  pub subtitle : String
  pub image_id : ℕ
  pub xp_reward : ℤ
  pub tile_grid_cols : ℤ
  pub tile_grid_rows : ℤ
  pub tile_play_seconds : ℤ

pub data SecretError : Type 0 where
  title_required image_required xp_not_positive grid_out_of_range seconds_not_positive : SecretError

abbrev pub min_puzzle_grid : ℤ
min_puzzle_grid = pos 2

abbrev pub max_puzzle_grid : ℤ
max_puzzle_grid = pos 20

unfoldable pub validate_hidden_secret : HiddenSecretConfig → Option SecretError
validate_hidden_secret c =
    if str_eq c.title ""
    then some title_required
    else if c.image_id == 0
    then some image_required
    else if int_le c.xp_reward (pos 0)
    then some xp_not_positive
    else if int_lt c.tile_grid_cols min_puzzle_grid
        || (int_lt max_puzzle_grid c.tile_grid_cols
            || (int_lt c.tile_grid_rows min_puzzle_grid || int_lt max_puzzle_grid c.tile_grid_rows))
    then some grid_out_of_range
    else if int_le c.tile_play_seconds (pos 0)
    then some seconds_not_positive
    else none

-- A picture with a title, to be uncovered by puzzles of 2 to 20 columns and rows.
pub record IsPlayable (c : HiddenSecretConfig) : Type 0 where
  pub titled : c.title ≢ ""
  pub image : c.image_id ≢ 0
  pub pays : pos 0 <ℤ c.xp_reward
  pub cols : (pos 2 ≤ℤ c.tile_grid_cols) × (c.tile_grid_cols ≤ℤ pos 20)
  pub rows : (pos 2 ≤ℤ c.tile_grid_rows) × (c.tile_grid_rows ≤ℤ pos 20)
  pub seconds : pos 0 <ℤ c.tile_play_seconds

module _ (c : HiddenSecretConfig) where
  passes-IsPlayable : validate_hidden_secret c ≡ none → IsPlayable c
  unfolding validate_hidden_secret
  passes-IsPlayable h = record {
    titled = λ e. ground (arith, eq_iff c.title "");
    image = λ e. ground arith;
    pays = ground arith;
    cols = ground arith;
    rows = ground arith;
    seconds = ground arith;
  }

  IsPlayable-passes : IsPlayable c → validate_hidden_secret c ≡ none
  unfolding validate_hidden_secret
  IsPlayable-passes p =
      ground (arith, eq_iff c.title "", p.titled, p.image, p.pays, p.cols, p.rows, p.seconds)

  -- ValidateHiddenSecret returns nil exactly on the playable configurations: those with a title, a
  -- picture, a positive reward, puzzles of 2 to 20 columns and rows, and a positive time.
  pub validate_hidden_secret-IsPlayable : (validate_hidden_secret c ≡ none) ↔ IsPlayable c
  validate_hidden_secret-IsPlayable = (passes-IsPlayable, IsPlayable-passes)

-- The row and column of an index that TileIndexInRange accepts are those of a cell of the wall of
-- three rows and three columns, and give the index back as row * 3 + column.
pub tile_row_col_lem :
    (i : ℤ)
    → tile_index_in_range i ≡ true
    → (r : ℕ) × (c : ℕ) × (tile_row_col i ≡ (pos r, pos c))
      × (r < 3)
      × (c < 3)
      × (i ≡ pos (r * 3 + c))
unfolding tile_index_in_range tile_row_col
tile_row_col_lem (pos n) h =
    let small : n < 9 = ground arith in
    (n / 3, n % 3, refl, omega (arith, small), omega arith, ap pos (omega arith))
tile_row_col_lem (negsuc n) h = absurd (ground arith)
