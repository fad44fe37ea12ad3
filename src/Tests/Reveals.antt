-- ===== src/Tests/Reveals.antt =====
-- The first tile of the castle.
use magic_jigsaw.Prelude.{◌≡◌, refl, [], ◌∷◌, pos, false}
use magic_jigsaw.Db.Action.{World, ok, execute, transaction, finish}
use magic_jigsaw.Secret.Rules.{tile_index_in_range}
use magic_jigsaw.Secret.Statements.{
  select_secret, ensure_reveal, select_reveal, update_reveal, insert_picture,
}
use magic_jigsaw.Secret.Store.{
  Revealed, has_tile, get_hidden_secret_row, open_tile, reveal_transaction,
  reveal_hidden_secret_tile,
}
use magic_jigsaw.Secret.Handler.{
  handle_reveal_hidden_secret_tile, handle_reveal_hidden_secret_tile_pays_last,
}
use magic_jigsaw.Tests.World.{env, tables}
use magic_jigsaw.Tests.Secret.{castle}

abbrev closed : World
closed = record { db = record (tables []) { hidden_secrets = castle ∷ [] }; clock = 0 }

abbrev one_tile : Revealed
one_tile = record { tiles = pos 2 ∷ []; completed = false; xp_reward = pos 0 }

first_tile : (reveal_hidden_secret_tile env 1 4 (pos 2) closed).0 ≡ ok one_tile
unfolding reveal_hidden_secret_tile tile_index_in_range get_hidden_secret_row select_secret execute
    transaction finish reveal_transaction ensure_reveal select_reveal has_tile open_tile
    update_reveal insert_picture
first_tile = refl

handle_reveal_hidden_secret_tile_pays_last_example :
    (handle_reveal_hidden_secret_tile env 1 4 (pos 2) closed).1.db
    ≡ (reveal_hidden_secret_tile env 1 4 (pos 2) closed).1.db
handle_reveal_hidden_secret_tile_pays_last_example =
    handle_reveal_hidden_secret_tile_pays_last env 1 4 (pos 2) closed one_tile first_tile refl
