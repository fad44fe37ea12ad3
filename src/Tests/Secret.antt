-- ===== src/Tests/Secret.antt =====
-- A board with eight open tiles, and the ninth.
use magic_jigsaw.Prelude.{
  ◌⊎◌, ◌&&◌, ◌==◌, some, false, ℕ, ◌≡◌, ◌↔◌, ◌<◌, ◌+◌, ◌*◌, refl, inl, inr, none, List, [], ◌∷◌,
  ◌++◌, ℤ, pos, true, false, All, In, arith,
}
use magic_jigsaw.Db.Schema.{SecretRow, RevealRow, PictureRow}
use magic_jigsaw.Db.Action.{World, ok, execute, transaction, finish}
use magic_jigsaw.Secret.Rules.{
  HiddenSecretConfig, IsPlayable, validate_hidden_secret, validate_hidden_secret-IsPlayable,
  tile_index_in_range, tile_row_col, tile_row_col_lem,
}
use magic_jigsaw.Secret.Statements.{
  secret_is, picture_is, select_secret, ensure_reveal, select_reveal, update_reveal, insert_picture,
}
use magic_jigsaw.Secret.Store.{
  Revealed, has_tile, get_hidden_secret_row, open_tile, reveal_transaction,
  reveal_hidden_secret_tile,
}
use magic_jigsaw.Secret.Outcome.{RevealOutcome, reveal_hidden_secret_tile-RevealOutcome}
use magic_jigsaw.Secret.Sound.{BoardSound, BoardsSound, all_tiles}
use magic_jigsaw.Secret.Board.{
  reveal_hidden_secret_tile-BoardsSound, reveal_hidden_secret_tile_completes,
}
use magic_jigsaw.Secret.Admin.{
  SaveHiddenSecretParams, Updates, update_hidden_secret, update_hidden_secret-Updates,
  update_transaction, update_secret, delete_reveals, select_secret_image,
}
use magic_jigsaw.Db.Action.{Error, err}
use magic_jigsaw.Tests.World.{env, tables, seven}
use magic_jigsaw.Points.Statements.{fits_int4}
use magic_jigsaw.Secret.Galleries.{
  SecretCall, reveals, updates, secret_calls, Entry, secret_calls-Entry,
}
use magic_jigsaw.Db.Table.{select, exists}

abbrev pub castle : SecretRow
castle = record {
  id = 4;
  title = "Castle";
  subtitle = "";
  image_id = 7;
  xp_reward = pos 100;
  tile_grid_cols = pos 3;
  tile_grid_rows = pos 3;
  tile_play_seconds = pos 120;
  active = true;
}

abbrev eight : List ℤ
eight = pos 8 ∷ pos 7 ∷ pos 6 ∷ pos 5 ∷ pos 4 ∷ pos 3 ∷ pos 2 ∷ pos 1 ∷ []

abbrev board : RevealRow
board = record { user_id = 1; secret_id = 4; revealed = eight; completed = false }

abbrev walled : World
walled = record {
  db = record (tables []) { hidden_secrets = castle ∷ []; hidden_secret_progress = board ∷ [] };
  clock = 0;
}

abbrev uncovered : Revealed
uncovered = record {
  tiles = pos 8 ∷ pos 7 ∷ pos 6 ∷ pos 5 ∷ pos 4 ∷ pos 3 ∷ pos 2 ∷ pos 1 ∷ pos 0 ∷ [];
  completed = true;
  xp_reward = pos 100;
}

last_tile : (reveal_hidden_secret_tile env 1 4 (pos 0) walled).0 ≡ ok uncovered
unfolding reveal_hidden_secret_tile tile_index_in_range get_hidden_secret_row select_secret execute
    transaction finish reveal_transaction ensure_reveal select_reveal has_tile open_tile
    update_reveal insert_picture
last_tile = refl

board-BoardSound : BoardSound walled.db board
board-BoardSound = record {
  tiles = (
    inr (inr (inr (inr (inr (inr (inr (inr (inl refl)))))))),
    (
      inr (inr (inr (inr (inr (inr (inr (inl refl))))))),
      (
        inr (inr (inr (inr (inr (inr (inl refl)))))),
        (
          inr (inr (inr (inr (inr (inl refl))))),
          (
            inr (inr (inr (inr (inl refl)))),
            (inr (inr (inr (inl refl))), (inr (inr (inl refl)), (inr (inl refl), tt))),
          ),
        ),
      ),
    ),
  );
  distinct = (
    (λ m. ground arith),
    (
      (λ m. ground arith),
      (
        (λ m. ground arith),
        (
          (λ m. ground arith),
          ((λ m. ground arith), ((λ m. ground arith), ((λ m. ground arith), ((λ m. m), tt)))),
        ),
      ),
    ),
  );
  completed = refl;
  gallery = λ e. absurd (ground arith);
}

walled-BoardsSound : BoardsSound walled.db
walled-BoardsSound = record {
  secrets = λ i. (inr refl, tt);
  pictures = tt;
  each = (board-BoardSound, tt);
  once = λ u s. (inr refl, tt);
}

reveal_hidden_secret_tile_completes_example :
    All (λ t. In t uncovered.tiles) all_tiles
    × All (λ t. In t all_tiles) uncovered.tiles
    × ((h : SecretRow) × (select (secret_is 4) walled.db.hidden_secrets ≡ some h)
        × (exists
              (λ g. picture_is 1 4 g && g.image_id == h.image_id)
              (reveal_hidden_secret_tile env 1 4 (pos 0) walled).1.db.hidden_secret_unlocks
            ≡ true))
reveal_hidden_secret_tile_completes_example =
    reveal_hidden_secret_tile_completes env 1 4 (pos 0) walled walled-BoardsSound uncovered
      last_tile refl

reveal_hidden_secret_tile-BoardsSound_example :
    BoardsSound (reveal_hidden_secret_tile env 1 4 (pos 0) walled).1.db
reveal_hidden_secret_tile-BoardsSound_example =
    reveal_hidden_secret_tile-BoardsSound env 1 4 (pos 0) walled walled-BoardsSound

reveal_hidden_secret_tile-RevealOutcome_example : RevealOutcome env 1 4 (pos 0) walled
reveal_hidden_secret_tile-RevealOutcome_example =
    reveal_hidden_secret_tile-RevealOutcome env 1 4 (pos 0) walled

abbrev config : HiddenSecretConfig
config = record {
  title = "Castle";
  subtitle = "";
  image_id = 7;
  xp_reward = pos 100;
  tile_grid_cols = pos 3;
  tile_grid_rows = pos 3;
  tile_play_seconds = pos 120;
}

config_passes : validate_hidden_secret config ≡ none
unfolding validate_hidden_secret
config_passes = refl

validate_hidden_secret-IsPlayable_example :
    (validate_hidden_secret config ≡ none) ↔ IsPlayable config
validate_hidden_secret-IsPlayable_example = validate_hidden_secret-IsPlayable config

five_in_range : tile_index_in_range (pos 5) ≡ true
unfolding tile_index_in_range
five_in_range = refl

tile_row_col_lem_example :
    (r : ℕ) × (c : ℕ) × (tile_row_col (pos 5) ≡ (pos r, pos c))
    × (r < 3)
    × (c < 3)
    × (pos 5 ≡ pos (r * 3 + c))
tile_row_col_lem_example = tile_row_col_lem (pos 5) five_in_range

-- The castle with another title, picture, reward and puzzle, and a second board.
abbrev repainted : SaveHiddenSecretParams
repainted = record {
  title = "Keep";
  subtitle = "";
  image_id = 8;
  xp_reward = pos 80;
  tile_grid_cols = pos 4;
  tile_grid_rows = pos 5;
  tile_play_seconds = pos 90;
  active = false;
}

abbrev gardens : World
gardens = record walled {
  db = record (walled.db) {
    images = seven ∷ record { id = 8; url = "eight.jpg" } ∷ [];
    hidden_secrets = castle ∷ record castle { id = 5 } ∷ [];
    hidden_secret_progress = board ∷ record board { secret_id = 5 } ∷ [];
  };
}

-- Of the two boards the other secret's stays.
one_board :
    (update_hidden_secret env 4 repainted gardens).1.db.hidden_secret_progress
    ≡ record board { secret_id = 5 } ∷ []
unfolding update_hidden_secret transaction finish update_transaction execute select_secret_image
    update_secret delete_reveals fits_int4
one_board = refl

update_hidden_secret-Updates_example :
    let (r, w') = update_hidden_secret env 4 repainted gardens in
    ((w'.db ≡ gardens.db) × ((e : Error) × (r ≡ err e)))
    ⊎ ((r ≡ ok tt) × Updates 4 repainted gardens.db w'.db)
update_hidden_secret-Updates_example = update_hidden_secret-Updates env 4 repainted gardens

-- The castle gets another picture, and the player, who has the old one, opens all its tiles again.
abbrev old_picture : PictureRow
old_picture = record { user_id = 1; secret_id = 4; image_id = 7 }

abbrev collected : World
collected = record gardens { db = record gardens.db { hidden_secret_unlocks = old_picture ∷ [] } }

abbrev reopened : List SecretCall
reopened =
    updates 4 (record repainted { active = true })
    ∷ reveals 1 4 (pos 0)
    ∷ reveals 1 4 (pos 1)
    ∷ reveals 1 4 (pos 2)
    ∷ reveals 1 4 (pos 3)
    ∷ reveals 1 4 (pos 4)
    ∷ reveals 1 4 (pos 5)
    ∷ reveals 1 4 (pos 6)
    ∷ reveals 1 4 (pos 7)
    ∷ []

-- The last tile pays the secret's reward.
paid_again :
    (reveal_hidden_secret_tile env 1 4 (pos 8) (secret_calls env reopened collected)).0
    ≡ ok (record { tiles = all_tiles; completed = true; xp_reward = pos 80 })
unfolding reveal_hidden_secret_tile tile_index_in_range get_hidden_secret_row select_secret execute
    transaction finish reveal_transaction ensure_reveal select_reveal has_tile open_tile
    update_reveal insert_picture update_hidden_secret update_transaction select_secret_image
    update_secret delete_reveals fits_int4
paid_again = refl

secret_calls-Entry_example :
    Entry env 1 4 old_picture (secret_calls env (reopened ++ reveals 1 4 (pos 8) ∷ []) collected).db
secret_calls-Entry_example =
    secret_calls-Entry env 1 4 old_picture (reopened ++ reveals 1 4 (pos 8) ∷ []) collected refl
