-- ===== src/Purchases/Store.antt =====
-- internal/repository/purchases.go: CreditPurchase, with its SQL.
use magic_jigsaw.Prelude.{
  ℕ, Bool, true, false, ◌&&◌, Option, none, some, [], ◌∷◌, ◌++◌, String, str_eq, ℤ, ◌+ℤ◌,
  if◌then◌else◌,
}
use magic_jigsaw.Db.Table.{select, update, exists}
use magic_jigsaw.Db.Schema.{UserRow, PurchaseRow}
use magic_jigsaw.Db.Action.{
  Env, Action, Statement, Ending, commit, failed, pure, or_raise, branch, ◌>>=◌, execute,
  transaction,
}
use magic_jigsaw.Points.Statements.{user_is, fits_int4}

pub record PurchaseBalances : Type 0 where
  pub points : ℤ
  pub bonus_stars : ℤ

-- What the client bought, and what the store calls the purchase.
pub record Purchase : Type 0 where
  pub product_id : String
  pub platform : String
  pub transaction_id : String
  pub points : ℤ
  pub stars : ℤ

-- UNIQUE (platform, transaction_id)
abbrev pub purchase_is : String → String → PurchaseRow → Bool
purchase_is platform transaction_id p =
    str_eq p.platform platform && str_eq p.transaction_id transaction_id

abbrev pub purchase_row : ℕ → Purchase → PurchaseRow
purchase_row user_id p = record {
  user_id = user_id;
  product_id = p.product_id;
  platform = p.platform;
  transaction_id = p.transaction_id;
  points_credited = p.points;
  stars_credited = p.stars;
}

-- INSERT INTO purchases ... ON CONFLICT (platform, transaction_id) DO NOTHING: whether a row was
-- affected. The user must exist.
unfoldable pub insert_purchase : ℕ → Purchase → Statement Bool
insert_purchase user_id p d =
    if fits_int4 p.points && fits_int4 p.stars
    then (if exists (purchase_is p.platform p.transaction_id) d.purchases
        then some (false, d)
        else if exists (user_is user_id) d.users
        then some (true, record d { purchases = d.purchases ++ purchase_row user_id p ∷ [] })
        else none)
    else none

abbrev pub balances_of : UserRow → PurchaseBalances
balances_of u = record { points = u.unlock_points; bonus_stars = u.expedition_bonus_stars }

-- SELECT unlock_points, expedition_bonus_stars FROM users WHERE id = $1
unfoldable pub select_balances : ℕ → Statement (Option PurchaseBalances)
select_balances id d = elim (select (user_is id) d.users) [
  | none ↦ some (none, d)
  | some u ↦ some (some (balances_of u), d)
]

abbrev pub credited : ℤ → ℤ → UserRow → UserRow
credited points stars u = record u {
  unlock_points = u.unlock_points +ℤ points;
  expedition_bonus_stars = u.expedition_bonus_stars +ℤ stars;
}

-- UPDATE users SET unlock_points = unlock_points + $2,
--   expedition_bonus_stars = expedition_bonus_stars + $3 WHERE id = $1 RETURNING both
unfoldable pub update_credited : ℕ → ℤ → ℤ → Statement (Option PurchaseBalances)
update_credited id points stars d =
    if fits_int4 points && fits_int4 stars
    then (elim (select (user_is id) d.users) [
      | none ↦ some (none, d)
      | some u ↦
          if fits_int4 (u.unlock_points +ℤ points) && fits_int4 (u.expedition_bonus_stars +ℤ stars)
          then some (
            some (balances_of (credited points stars u)),
            record d { users = update (user_is id) (credited points stars) d.users },
          )
          else none
    ])
    else none

module _ (env : Env) where
  -- The transaction was already processed.
  unfoldable pub replay : ℕ → Action (Ending (PurchaseBalances × Bool))
  unfolding execute
  replay user_id = do
    row ← execute env (select_balances user_id)
    balances ← or_raise row failed
    pure (commit (balances, false))

  unfoldable pub credit : ℕ → Purchase → Action (Ending (PurchaseBalances × Bool))
  unfolding execute
  credit user_id p = do
    row ← execute env (update_credited user_id p.points p.stars)
    balances ← or_raise row failed
    pure (commit (balances, true))

  unfoldable pub purchase_transaction : ℕ → Purchase → Action (Ending (PurchaseBalances × Bool))
  unfolding execute
  purchase_transaction user_id p = do
    inserted ← execute env (insert_purchase user_id p)
    branch inserted (credit user_id p) (replay user_id)

  -- The balances, and whether this call credited the purchase.
  unfoldable pub credit_purchase : ℕ → Purchase → Action (PurchaseBalances × Bool)
  credit_purchase user_id p = transaction env (purchase_transaction user_id p)
