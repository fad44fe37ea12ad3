-- ===== src/Secret/Handler.antt =====
-- internal/api/hidden_secrets.go: handleRevealHiddenSecretTile, once the request is parsed.
use magic_jigsaw.Prelude.{
  ℕ, ◌≡◌, Bool, true, false, List, String, ℤ, pos, int_lt, inl, inr, arith, ◌∙◌,
}
use magic_jigsaw.Db.Action.{
  Env, World, Error, Result, ok, err, not_found, tile_out_of_range, secret_inactive,
  secret_completed, tile_revealed, execute,
}
use magic_jigsaw.Points.Statements.{select_xp, select_unlock_points}
use magic_jigsaw.Points.Store.{get_xp, get_unlock_points, add_unlock_points}
use magic_jigsaw.Points.Levels.{level_from_xp}
use magic_jigsaw.Dungeon.Handler.{credit_xp}
use magic_jigsaw.Secret.Rules.{tile_count}
use magic_jigsaw.Secret.Store.{Revealed, reveal_hidden_secret_tile}
use magic_jigsaw.Secret.Outcome.{reveal_hidden_secret_tile-RevealOutcome}

abbrev pub points_reward : ℤ
points_reward = pos 5

-- hiddenSecretRevealResponse; the status is "completed" where `completed`, and empty elsewhere.
pub record RevealResponse : Type 0 where
  pub revealed : List ℤ
  pub tiles : ℕ
  pub completed : Bool
  pub xp_earned : ℤ
  pub xp : ℤ
  pub level : ℕ
  pub xp_into_level : ℤ
  pub xp_for_next_level : ℕ
  pub points_earned : ℤ
  pub unlock_points : ℤ

-- The status and the code of an error, or the body of a 200.
pub data RevealReply : Type 0 where
  reveal_refused : ℕ → String → RevealReply
  revealed_tile : RevealResponse → RevealReply

unfoldable pub reveal_status : Error → RevealReply
reveal_status not_found = reveal_refused 404 "not_found"
reveal_status tile_out_of_range = reveal_refused 400 "bad_request"
reveal_status secret_inactive = reveal_refused 409 "inactive"
reveal_status secret_completed = reveal_refused 409 "already_completed"
reveal_status tile_revealed = reveal_refused 409 "already_revealed"
reveal_status _ = reveal_refused 500 "internal"

-- The points earned and the balance, both 0 on an error.
abbrev pub points_or_zero : ℤ → Result ℤ → ℤ × ℤ
points_or_zero earned (ok balance) = (earned, balance)
points_or_zero earned (err e) = (pos 0, pos 0)

abbrev pub reveal_response : Revealed → ℤ × ℤ → ℤ × ℤ → RevealResponse
reveal_response v (total, earned) (points, balance) =
    let (level, into, next) = level_from_xp total in
    record {
      revealed = v.tiles;
      tiles = tile_count;
      completed = v.completed;
      xp_earned = earned;
      xp = total;
      level = level;
      xp_into_level = into;
      xp_for_next_level = next;
      points_earned = points;
      unlock_points = balance;
    }

module _ (env : Env) where
  -- `if completed { s.store.AddUnlockPoints } else { s.store.GetUnlockPoints }`
  unfoldable pub credit_points : Bool → ℕ → World → (ℤ × ℤ) × World
  credit_points true user_id w =
      let (r, w') = add_unlock_points env user_id points_reward w in
      (points_or_zero points_reward r, w')
  credit_points false user_id w =
      let (r, w') = get_unlock_points env user_id w in (points_or_zero (pos 0) r, w')

  abbrev pub after_reveal : ℕ → Result Revealed → World → RevealReply × World
  after_reveal user_id (err e) w = (reveal_status e, w)
  after_reveal user_id (ok v) w =
      let (t, w') = credit_xp env (int_lt (pos 0) v.xp_reward) user_id v.xp_reward w in
      let (p, w'') = credit_points v.completed user_id w' in
      (revealed_tile (reveal_response v t p), w'')

  unfoldable pub handle_reveal_hidden_secret_tile : ℕ → ℕ → ℤ → World → RevealReply × World
  handle_reveal_hidden_secret_tile user_id secret_id tile w =
      let (r, w') = reveal_hidden_secret_tile env user_id secret_id tile w in
      after_reveal user_id r w'

  credit_xp-keeps :
      (user_id : ℕ) (xp : ℤ) (w : World) → (credit_xp env false user_id xp w).1.db ≡ w.db
  unfolding credit_xp get_xp select_xp execute
  credit_xp-keeps user_id xp w = ground arith

  credit_points-keeps : (user_id : ℕ) (w : World) → (credit_points false user_id w).1.db ≡ w.db
  unfolding credit_points get_unlock_points select_unlock_points execute
  credit_points-keeps user_id w = ground arith

  -- When RevealHiddenSecretTile opens a tile that does not complete the secret, the handler pays
  -- nothing: it leaves the tables as RevealHiddenSecretTile left them, however its statements go.
  pub handle_reveal_hidden_secret_tile_pays_last :
      (user_id secret_id : ℕ) (tile : ℤ) (w : World) (v : Revealed)
      → (reveal_hidden_secret_tile env user_id secret_id tile w).0 ≡ ok v
      → v.completed ≡ false
      → (handle_reveal_hidden_secret_tile user_id secret_id tile w).1.db
        ≡ (reveal_hidden_secret_tile env user_id secret_id tile w).1.db
  unfolding handle_reveal_hidden_secret_tile
  handle_reveal_hidden_secret_tile_pays_last user_id secret_id tile w v h partly =
      elim (reveal_hidden_secret_tile-RevealOutcome env user_id secret_id tile w) [
        | inl (_, (e, r)) ↦ absurd (cc)
        | inr (s, v', _, _, _, r, o) ↦
            let w1 = (reveal_hidden_secret_tile env user_id secret_id tile w).1 in
            let same : v' ≡ v = cc in
            let free : v.xp_reward ≡ pos 0 = ground (arith, o.reward, same, partly) in
            rw (h, partly, free)
              (credit_points-keeps user_id (credit_xp env false user_id (pos 0) w1).1
                ∙ credit_xp-keeps user_id (pos 0) w1)
      ]
