-- ===== src/Points/Balance.antt =====
-- internal/repository/checkin.go: what the point operations do to the balances.
use magic_jigsaw.Prelude.{
  ap, ℕ, ◌≡◌, refl, ◌≢◌, ◌⊎◌, inl, inr, true, false, Option, none, some, arith, ℤ, pos, ◌-ℤ◌, ◌≤ℤ◌,
  ◌<ℤ◌, int_le, Bool-cases,
}
use magic_jigsaw.Db.Table.{
  select, update, select-update_other, select-passes, Once, select-and, select-update_and,
}
use magic_jigsaw.Db.Schema.{Db, UserRow}
use magic_jigsaw.Db.Action.{Env, World, ok}
use magic_jigsaw.Points.Statements.{fits_int4, user_is, can_spend, lose_points, update_spend_points}
use magic_jigsaw.Points.Store.{spend_unlock_points}

-- The unlock points of a user that exists.
abbrev pub points_of : Option UserRow → Option ℤ
points_of none = none
points_of (some u) = some u.unlock_points

abbrev pub balance : ℕ → Db → Option ℤ
balance id d = points_of (select (user_is id) d.users)

module _ (id : ℕ) (amount : ℤ) (d : Db) (u : UserRow) (once : Once (user_is id) d.users)
    (e : select (user_is id) d.users ≡ some u) where
  abbrev spent : Db
  spent = record d { users = update (can_spend id amount) (lose_points amount) d.users }

  -- The difference of two columns fits, when it is not negative.
  difference_fits :
      pos 0 <ℤ amount
      → amount ≤ℤ u.unlock_points
      → fits_int4 u.unlock_points ≡ true
      → fits_int4 (u.unlock_points -ℤ amount) ≡ true
  unfolding fits_int4
  difference_fits p h f = ground arith

  update_spend_points_enough :
      pos 0 <ℤ amount
      → fits_int4 amount ≡ true
      → fits_int4 u.unlock_points ≡ true
      → int_le amount u.unlock_points ≡ true
      → update_spend_points id amount d ≡ some (some (u.unlock_points -ℤ amount), spent)
  unfolding update_spend_points
  update_spend_points_enough p fa fu h =
      rw
        (
          fa,
          select-and (user_is id) (λ x. int_le amount x.unlock_points) d.users u once e,
          h,
          difference_fits p (ground arith) fu,
        )
        refl

  update_spend_points_short :
      fits_int4 amount ≡ true
      → int_le amount u.unlock_points ≡ false
      → update_spend_points id amount d ≡ some (none, d)
  unfolding update_spend_points
  update_spend_points_short fa h =
      rw (fa, select-and (user_is id) (λ x. int_le amount x.unlock_points) d.users u once e, h) refl

  balance-spent :
      int_le amount u.unlock_points ≡ true → balance id spent ≡ some (u.unlock_points -ℤ amount)
  balance-spent h = ap points_of (
      select-update_and (user_is id) (λ x. int_le amount x.unlock_points) (lose_points amount)
        d.users u once
        (rw (select-and (user_is id) (λ x. int_le amount x.unlock_points) d.users u once e, h))
        (select-passes (user_is id) d.users u e))

  balance-spent_other : (j : ℕ) → j ≢ id → balance j spent ≡ balance j d
  balance-spent_other j ne = ap points_of (
      select-update_other (can_spend id amount) (user_is j) (lose_points amount) d.users
        (λ x h. ground arith) (λ x h. ground arith))

-- SpendUnlockPoints of a positive amount, for a user with one row, where the column holds the amount and
-- the balance and the statement does not fail: either the balance covers the amount, the call returns
-- what is left and stores it, or the balance is short, the call reports that and changes no table. In
-- both cases no other user's balance moves.
pub spend_unlock_points_lem :
    (env : Env) (w : World) (id j : ℕ) (amount : ℤ) (u : UserRow)
    → Once (user_is id) w.db.users
    → select (user_is id) w.db.users ≡ some u
    → pos 0 <ℤ amount
    → fits_int4 amount ≡ true
    → fits_int4 u.unlock_points ≡ true
    → env.fails w.clock ≡ false
    → j ≢ id
    → let (r, w') = spend_unlock_points env id amount w in
      (((amount ≤ℤ u.unlock_points)
          × (r ≡ ok (u.unlock_points -ℤ amount, true))
          × (balance id w'.db ≡ some (u.unlock_points -ℤ amount)))
        ⊎ ((u.unlock_points <ℤ amount) × (r ≡ ok (pos 0, false)) × (w'.db ≡ w.db)))
      × (balance j w'.db ≡ balance j w.db)
unfolding spend_unlock_points
spend_unlock_points_lem env w id j amount u once e positive fa fu f ne =
    elim (Bool-cases (int_le amount u.unlock_points)) [
      | inl h ↦ ground (
        arith,
        update_spend_points_enough id amount w.db u once e positive fa fu h,
        balance-spent id amount w.db u once e h,
        balance-spent_other id amount w.db u once e j ne,
      )
      | inr h ↦ ground (arith, update_spend_points_short id amount w.db u once e fa h)
    ]
