-- ===== src/Points/Store.antt =====
-- internal/repository/users.go: GetXP, AddXP; internal/repository/checkin.go: AddUnlockPoints,
-- GetUnlockPoints, SpendUnlockPoints, CheckIn.
use magic_jigsaw.Prelude.{ℕ, Bool, true, false, ℤ, pos, int_le}
use magic_jigsaw.Db.Action.{Env, Action, failed, pure, or_raise, branch, on_row, ◌>>=◌, execute}
use magic_jigsaw.Points.Statements.{
  select_xp, update_xp, select_unlock_points, update_add_points, update_spend_points,
  insert_checkin,
}

module _ (env : Env) where
  unfoldable pub get_xp : ℕ → Action ℤ
  unfolding execute
  get_xp id = do row ← execute env (select_xp id); or_raise row failed

  unfoldable pub add_xp : ℕ → ℤ → Action ℤ
  unfolding execute
  add_xp id amount = do row ← execute env (update_xp id amount); or_raise row failed

  unfoldable pub get_unlock_points : ℕ → Action ℤ
  unfolding execute
  get_unlock_points user_id = do
    row ← execute env (select_unlock_points user_id)
    or_raise row failed

  unfoldable pub add_unlock_points : ℕ → ℤ → Action ℤ
  unfolding execute
  add_unlock_points user_id amount =
      branch (int_le amount (pos 0)) (get_unlock_points user_id)
        do row ← execute env (update_add_points user_id amount); or_raise row failed

  -- The balance, and whether there was enough.
  unfoldable pub spend_unlock_points : ℕ → ℤ → Action (ℤ × Bool)
  unfolding execute
  spend_unlock_points user_id amount =
      branch (int_le amount (pos 0)) (do n ← get_unlock_points user_id; pure (n, true))
        do
          row ← execute env (update_spend_points user_id amount)
          on_row row (pure (pos 0, false)) λ balance. pure (balance, true)

  -- Two statements, and no transaction around them.
  unfoldable pub check_in : ℕ → ℕ → Action Bool
  unfolding execute
  check_in user_id date = do
    inserted ← execute env (insert_checkin user_id date)
    branch inserted (do _ ← add_unlock_points user_id (pos 1); pure true) (pure false)
