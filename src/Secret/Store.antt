-- ===== src/Secret/Store.antt =====
-- internal/repository/hidden_secret.go: RevealHiddenSecretTile and what it reads.
use magic_jigsaw.Prelude.{
  ℕ, Bool, true, false, not, List, [], ◌∷◌, ◌++◌, ℤ, pos, int_eq, leb, length, if◌then◌else◌,
}
use magic_jigsaw.Db.Schema.{SecretRow}
use magic_jigsaw.Db.Action.{
  Env, Action, Ending, commit, not_found, failed, secret_inactive, secret_completed, tile_revealed,
  tile_out_of_range, pure, or_raise, raise_if, branch, ◌>>=◌, ◌>>◌, execute, transaction,
}
use magic_jigsaw.Secret.Rules.{tile_count, tile_index_in_range}
use magic_jigsaw.Secret.Statements.{
  select_secret, ensure_reveal, select_reveal, update_reveal, insert_picture,
}

-- The loop over revealed, which looks for the tile.
unfoldable pub has_tile : ℤ → List ℤ → Bool
has_tile t [] = false
has_tile t (x ∷ xs) = if int_eq x t then true else has_tile t xs

pub record Revealed : Type 0 where
  pub tiles : List ℤ
  pub completed : Bool
  pub xp_reward : ℤ

module _ (env : Env) where
  unfoldable pub get_hidden_secret_row : ℕ → Action SecretRow
  unfolding execute
  get_hidden_secret_row id = do row ← execute env (select_secret id); or_raise row not_found

  -- The statements once the row of progress is there: `revealed` with the tile, and whether that
  -- were all tiles.
  unfoldable pub open_tile : ℕ → ℕ → SecretRow → List ℤ → Bool → Action (Ending Revealed)
  unfolding execute
  open_tile user_id secret_id h revealed completed = do
    _ ← execute env (update_reveal user_id secret_id revealed completed)
    branch completed
        (do
          _ ← execute env (insert_picture user_id secret_id h.image_id)
          pure (
              commit (record { tiles = revealed; completed = completed; xp_reward = h.xp_reward })))
        (pure (commit (record { tiles = revealed; completed = completed; xp_reward = pos 0 })))

  unfoldable pub reveal_transaction : ℕ → ℕ → SecretRow → ℤ → Action (Ending Revealed)
  unfolding execute
  reveal_transaction user_id secret_id h tile = do
    _ ← execute env (ensure_reveal user_id secret_id)
    saved ← execute env (select_reveal user_id secret_id)
    p ← or_raise saved failed
    raise_if p.completed secret_completed
    raise_if (has_tile tile p.revealed) tile_revealed
    let revealed = p.revealed ++ tile ∷ []
    open_tile user_id secret_id h revealed (leb tile_count (length revealed))

  -- RevealHiddenSecretTile: the revealed tiles, whether these are all, and the XP to award.
  unfoldable pub reveal_hidden_secret_tile : ℕ → ℕ → ℤ → Action Revealed
  reveal_hidden_secret_tile user_id secret_id tile = do
    raise_if (not (tile_index_in_range tile)) tile_out_of_range
    h ← get_hidden_secret_row secret_id
    raise_if (not h.active) secret_inactive
    transaction env (reveal_transaction user_id secret_id h tile)
