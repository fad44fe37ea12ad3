-- ===== src/Dungeon/Handler.antt =====
-- internal/api/dungeons.go: handleCompleteDungeon, once the request is parsed. The same credit of XP
-- stands in handleRevealHiddenSecretTile of internal/api/hidden_secrets.go.
use magic_jigsaw.Prelude.{ℕ, ◌≡◌, Bool, true, false, String, ℤ, pos, int_lt, inl, inr, arith, refl}
use magic_jigsaw.Db.Action.{
  Env, World, Error, Result, ok, err, not_found, completed, wrong_cell, monsters_remain, execute,
}
use magic_jigsaw.Points.Store.{get_xp, add_xp}
use magic_jigsaw.Points.Levels.{level_from_xp}
use magic_jigsaw.Dungeon.Store.{complete_dungeon}
use magic_jigsaw.Dungeon.Quests.Complete.{complete_dungeon-CompleteOutcome}

-- dungeonCompleteResponse, whose other fields are constants
pub record DungeonCompleteResponse : Type 0 where
  pub xp_earned : ℤ
  pub xp : ℤ
  pub level : ℕ
  pub xp_into_level : ℤ
  pub xp_for_next_level : ℕ

-- The status and the code of an error, or the body of a 200.
pub data Reply : Type 0 where
  refused : ℕ → String → Reply
  done : DungeonCompleteResponse → Reply

unfoldable pub complete_status : Error → Reply
complete_status not_found = refused 404 "not_found"
complete_status completed = refused 409 "already_completed"
complete_status wrong_cell = refused 422 "not_at_treasure"
complete_status monsters_remain = refused 422 "monsters_remaining"
complete_status _ = refused 500 "internal"

-- The total and the earned XP of a call of the store: an error leaves both at 0.
abbrev pub total_or_zero : ℤ → Result ℤ → ℤ × ℤ
total_or_zero earned (ok t) = (t, earned)
total_or_zero earned (err e) = (pos 0, pos 0)

abbrev pub response : ℤ × ℤ → DungeonCompleteResponse
response (total, earned) =
    let (level, into, next) = level_from_xp total in
    record {
      xp_earned = earned;
      xp = total;
      level = level;
      xp_into_level = into;
      xp_for_next_level = next;
    }

module _ (env : Env) where
  -- `if awarded > 0 { s.store.AddXP } else { s.store.GetXP }`
  unfoldable pub credit_xp : Bool → ℕ → ℤ → World → (ℤ × ℤ) × World
  credit_xp true user_id awarded w =
      let (r, w') = add_xp env user_id awarded w in (total_or_zero awarded r, w')
  credit_xp false user_id awarded w =
      let (r, w') = get_xp env user_id w in (total_or_zero (pos 0) r, w')

  abbrev pub after_complete : ℕ → Result ℤ → World → Reply × World
  after_complete user_id (err e) w = (complete_status e, w)
  after_complete user_id (ok awarded) w =
      let (t, w') = credit_xp (int_lt (pos 0) awarded) user_id awarded w in (done (response t), w')

  unfoldable pub handle_complete_dungeon : ℕ → ℕ → World → Reply × World
  handle_complete_dungeon user_id dungeon_id w =
      let (r, w') = complete_dungeon env user_id dungeon_id w in after_complete user_id r w'

  module _ (user_id : ℕ) (awarded : ℤ) (w : World) (f : env.fails w.clock ≡ true) where
    failed_credit : (credit_xp true user_id awarded w).0 ≡ (pos 0, pos 0)
    unfolding credit_xp add_xp execute
    failed_credit = ground (arith, f)

    failed_credit-keeps : (credit_xp true user_id awarded w).1.db ≡ w.db
    unfolding credit_xp add_xp execute
    failed_credit-keeps = ground (arith, f)

  -- When CompleteDungeon returns a positive reward and the statement of AddXP after it fails, the
  -- handler still answers 200, with no XP earned and a total of 0, and no row of users has changed.
  pub handle_complete_dungeon_loses_reward :
      (user_id dungeon_id : ℕ) (w : World) (xp : ℤ)
      → (complete_dungeon env user_id dungeon_id w).0 ≡ ok xp
      → int_lt (pos 0) xp ≡ true
      → env.fails (complete_dungeon env user_id dungeon_id w).1.clock ≡ true
      → let (reply, w') = handle_complete_dungeon user_id dungeon_id w in
        (reply ≡ done (response (pos 0, pos 0))) × (w'.db.users ≡ w.db.users)
  unfolding handle_complete_dungeon
  handle_complete_dungeon_loses_reward user_id dungeon_id w xp h positive f =
      elim (complete_dungeon-CompleteOutcome env user_id dungeon_id w) [
        | inl (_, (e, r)) ↦ absurd (cc)
        | inr (row, _, _, c) ↦
            let w1 = (complete_dungeon env user_id dungeon_id w).1 in
            (
              rw (h, positive, failed_credit user_id xp w1 f) refl,
              rw (h, positive, failed_credit-keeps user_id xp w1 f) c.users,
            )
      ]
