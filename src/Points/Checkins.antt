-- ===== src/Points/Checkins.antt =====
-- internal/repository/checkin.go: the daily check-in pays once a day, and what a failure between
-- its two statements costs.
use magic_jigsaw.Prelude.{
  inr, inl, Option-cases, ℕ, ◌+◌, ◌≡◌, Bool, true, false, some, arith, ℤ, pos, ==_refl,
}
use magic_jigsaw.Points.Balance.{balance}
use magic_jigsaw.Prelude.{refl, ◌+ℤ◌}
use magic_jigsaw.Db.Table.{select-passes, select-update, select, exists, exists-append}
use magic_jigsaw.Db.Schema.{UserRow, Db}
use magic_jigsaw.Db.Action.{failed, Env, World, Result, ok, err}
use magic_jigsaw.Points.Statements.{
  gain_points, fits_int4, user_is, select_unlock_points, update_add_points, checkin_is,
  insert_checkin,
}
use magic_jigsaw.Points.Store.{add_unlock_points, get_unlock_points, check_in}

-- The user has a check-in of that day.
abbrev pub CheckedIn : ℕ → ℕ → Db → Type 0
CheckedIn user_id date d = exists (checkin_is user_id date) d.checkins ≡ true

abbrev answered : {A : Type 0} → Result A → Bool
answered (ok a) = true
answered (err e) = false

module _ (env : Env) (user_id date : ℕ) where
  insert_checkin-CheckedIn :
      (d : Db) (b : Bool) (d' : Db)
      → insert_checkin user_id date d ≡ some (b, d')
      → CheckedIn user_id date d'
  unfolding insert_checkin
  insert_checkin-CheckedIn d b d' h = ground (
    arith,
    ==_refl user_id,
    ==_refl date,
    exists-append (checkin_is user_id date) d.checkins
        (record { user_id = user_id; check_date = date }),
  )

  add_unlock_points-checkins :
      (w : World) (amount : ℤ)
      → (add_unlock_points env user_id amount w).1.db.checkins ≡ w.db.checkins
  unfolding add_unlock_points get_unlock_points update_add_points select_unlock_points
  add_unlock_points-checkins w amount = ground arith

  -- The second call of a day: it answers that nothing was new, and changes no table.
  check_in-CheckedIn :
      (w : World)
      → CheckedIn user_id date w.db
      → env.fails w.clock ≡ false
      → (check_in env user_id date w).0 ≡ ok false × ((check_in env user_id date w).1.db ≡ w.db)
  unfolding check_in insert_checkin
  check_in-CheckedIn w h f = ground arith

  check_in-answered :
      (w : World)
      → answered (check_in env user_id date w).0 ≡ true
      → CheckedIn user_id date (check_in env user_id date w).1.db
  unfolding check_in
  check_in-answered w h = elim (Option-cases (insert_checkin user_id date w.db)) [
    | inl n ↦ ground arith
    | inr ((b, d), n) ↦ ground (
      arith,
      insert_checkin-CheckedIn w.db b d n,
      add_unlock_points-checkins (record { db = d; clock = w.clock + 1 }) (pos 1),
    )
  ]

  -- After a check-in that did not return an error, in whatever way its statements went, the next
  -- check-in of the day reports nothing new and changes no table, unless its statement fails.
  pub check_in_twice :
      (w : World)
      → answered (check_in env user_id date w).0 ≡ true
      → env.fails (check_in env user_id date w).1.clock ≡ false
      → let w' = (check_in env user_id date w).1 in
        let (r, w'') = check_in env user_id date w' in (r ≡ ok false) × (w''.db ≡ w'.db)
  check_in_twice w h f =
      check_in-CheckedIn (check_in env user_id date w).1 (check_in-answered w h) f

one_fits : fits_int4 (pos 1) ≡ true
unfolding fits_int4
one_fits = refl

module _ (env : Env) (user_id date : ℕ) (w : World) (u : UserRow)
    (fresh : exists (checkin_is user_id date) w.db.checkins ≡ false)
    (known : select (user_is user_id) w.db.users ≡ some u)
    (inserted : env.fails w.clock ≡ false) where
  -- The first check-in of a day of a user that exists, when neither statement fails and the column holds
  -- the sum: it reports a new check-in, stores it, and the balance is one higher.
  pub check_in_pays :
      env.fails (w.clock + 1) ≡ false
      → fits_int4 (u.unlock_points +ℤ pos 1) ≡ true
      → let (r, w') = check_in env user_id date w in
        (r ≡ ok true)
        × CheckedIn user_id date w'.db
        × (balance user_id w'.db ≡ some (u.unlock_points +ℤ pos 1))
  unfolding check_in add_unlock_points insert_checkin update_add_points
  check_in_pays f fits = ground (
    arith,
    one_fits,
    ==_refl user_id,
    ==_refl date,
    exists-append (checkin_is user_id date) w.db.checkins
        (record { user_id = user_id; check_date = date }),
    select-update (user_is user_id) (gain_points (pos 1)) w.db.users u known
        (select-passes (user_is user_id) w.db.users u known),
  )

  -- When the second statement of the first check-in of a day of a user that exists fails, and the one
  -- before it and the next one do not, the call returns an error and
  -- no point is paid, yet the day is recorded, so that the next call answers that nothing is new
  -- and the balance stays as it was before.
  pub check_in_loses_point :
      env.fails (w.clock + 1) ≡ true
      → env.fails (w.clock + 2) ≡ false
      → let (r, w') = check_in env user_id date w in
        let (r', w'') = check_in env user_id date w' in
        (r ≡ err failed) × (r' ≡ ok false) × (balance user_id w''.db ≡ some u.unlock_points)
  unfolding check_in add_unlock_points insert_checkin
  check_in_loses_point f g = ground (
    arith,
    ==_refl user_id,
    ==_refl date,
    exists-append (checkin_is user_id date) w.db.checkins
        (record { user_id = user_id; check_date = date }),
  )
