-- ===== src/Points/Handler.antt =====
-- internal/api/points.go: handleGetPoints and handleSpendPoints, once the body is parsed: `none` when it is
-- not the JSON of a request, and an amount of 0 when it is empty.
use magic_jigsaw.Prelude.{ℕ, Bool, not, Option, none, some, ℤ, pos, int_le, if◌then◌else◌}
use magic_jigsaw.Db.Action.{Env}
use magic_jigsaw.Http.Handler.{Handler, respond, refuse, unless_refused, calls, ◌>>=◌}
use magic_jigsaw.Points.Store.{get_unlock_points, spend_unlock_points}

-- `if req.Amount <= 0 { req.Amount = 1 }`
abbrev pub at_least_one : ℤ → ℤ
at_least_one amount = if int_le amount (pos 0) then pos 1 else amount

module _ (env : Env) (user_id : ℕ) where
  -- The balance of pointsResponse.
  unfoldable pub handle_get_points : Handler ℤ
  handle_get_points = calls (get_unlock_points env user_id) 500 "internal"

  abbrev pub spent_or_refused : ℤ × Bool → Handler ℤ
  spent_or_refused (balance, enough) =
      unless_refused (not enough) 409 "insufficient_points" (respond balance)

  unfoldable pub handle_spend_points : Option ℤ → Handler ℤ
  handle_spend_points none = refuse 400 "bad_request"
  handle_spend_points (some amount) = do
    r ← calls (spend_unlock_points env user_id (at_least_one amount)) 500 "internal"
    spent_or_refused r
