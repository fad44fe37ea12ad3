-- ===== src/Points/Statements.antt =====
-- The SQL of internal/repository/users.go and checkin.go. A column of type INT holds 32 bits:
-- the server refuses a parameter or a sum that does not fit.
use magic_jigsaw.Prelude.{
  ℕ, ◌^◌, Bool, true, false, ◌&&◌, Option, none, some, [], ◌∷◌, ◌++◌, ℤ, pos, negsuc, ◌-◌, ◌+ℤ◌,
  ◌-ℤ◌, int_le, ◌==◌, if◌then◌else◌,
}
use magic_jigsaw.Db.Table.{select, update, exists}
use magic_jigsaw.Db.Schema.{UserRow, CheckinRow}
use magic_jigsaw.Db.Action.{Statement}

unfoldable pub fits_int4 : ℤ → Bool
fits_int4 z = int_le (negsuc (2 ^ 31 - 1)) z && int_le z (pos (2 ^ 31 - 1))

-- WHERE id = $1
abbrev pub user_is : ℕ → UserRow → Bool
user_is id u = u.id == id

-- SELECT xp FROM users WHERE id = $1
unfoldable pub select_xp : ℕ → Statement (Option ℤ)
select_xp id d = elim (select (user_is id) d.users) [
  | none ↦ some (none, d)
  | some u ↦ some (some u.xp, d)
]

abbrev pub gain_xp : ℤ → UserRow → UserRow
gain_xp amount u = record u { xp = u.xp +ℤ amount }

-- UPDATE users SET xp = xp + $2 WHERE id = $1 RETURNING xp
unfoldable pub update_xp : ℕ → ℤ → Statement (Option ℤ)
update_xp id amount d =
    if fits_int4 amount
    then (elim (select (user_is id) d.users) [
      | none ↦ some (none, d)
      | some u ↦
          if fits_int4 (u.xp +ℤ amount)
          then some (
            some (u.xp +ℤ amount),
            record d { users = update (user_is id) (gain_xp amount) d.users },
          )
          else none
    ])
    else none

-- SELECT unlock_points FROM users WHERE id = $1
unfoldable pub select_unlock_points : ℕ → Statement (Option ℤ)
select_unlock_points id d = elim (select (user_is id) d.users) [
  | none ↦ some (none, d)
  | some u ↦ some (some u.unlock_points, d)
]

abbrev pub gain_points : ℤ → UserRow → UserRow
gain_points amount u = record u { unlock_points = u.unlock_points +ℤ amount }

-- UPDATE users SET unlock_points = unlock_points + $2 WHERE id = $1 RETURNING unlock_points
unfoldable pub update_add_points : ℕ → ℤ → Statement (Option ℤ)
update_add_points id amount d =
    if fits_int4 amount
    then (elim (select (user_is id) d.users) [
      | none ↦ some (none, d)
      | some u ↦
          if fits_int4 (u.unlock_points +ℤ amount)
          then some (
            some (u.unlock_points +ℤ amount),
            record d { users = update (user_is id) (gain_points amount) d.users },
          )
          else none
    ])
    else none

-- WHERE id = $1 AND unlock_points >= $2
abbrev pub can_spend : ℕ → ℤ → UserRow → Bool
can_spend id amount u = user_is id u && int_le amount u.unlock_points

abbrev pub lose_points : ℤ → UserRow → UserRow
lose_points amount u = record u { unlock_points = u.unlock_points -ℤ amount }

-- UPDATE users SET unlock_points = unlock_points - $2 WHERE id = $1 AND unlock_points >= $2
-- RETURNING unlock_points
unfoldable pub update_spend_points : ℕ → ℤ → Statement (Option ℤ)
update_spend_points id amount d =
    if fits_int4 amount
    then (elim (select (can_spend id amount) d.users) [
      | none ↦ some (none, d)
      | some u ↦
          if fits_int4 (u.unlock_points -ℤ amount)
          then some (
            some (u.unlock_points -ℤ amount),
            record d { users = update (can_spend id amount) (lose_points amount) d.users },
          )
          else none
    ])
    else none

abbrev pub checkin_is : ℕ → ℕ → CheckinRow → Bool
checkin_is user_id date c = c.user_id == user_id && c.check_date == date

-- INSERT INTO checkins (user_id, check_date) VALUES ($1, $2) ON CONFLICT DO NOTHING: whether a row
-- was affected. The user must exist.
unfoldable pub insert_checkin : ℕ → ℕ → Statement Bool
insert_checkin user_id date d =
    if exists (checkin_is user_id date) d.checkins
    then some (false, d)
    else if exists (user_is user_id) d.users
    then some (
      true,
      record d { checkins = d.checkins ++ record { user_id = user_id; check_date = date } ∷ [] },
    )
    else none
