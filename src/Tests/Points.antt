-- ===== src/Tests/Points.antt =====
-- Payments and check-ins.
use magic_jigsaw.Prelude.{
  ◌-◌, ◌≤◌, ◌%◌, [], ◌+◌, ◌∷◌, ℕ, ◌≡◌, ◌⊎◌, refl, inr, true, false, some, pos, ◌≤ℤ◌, ◌<ℤ◌, arith,
  ◌==◌,
}
use magic_jigsaw.Db.Action.{World, ok, err, failed, execute}
use magic_jigsaw.Points.Statements.{fits_int4, insert_checkin, update_add_points}
use magic_jigsaw.Points.Store.{spend_unlock_points, check_in, add_unlock_points}
use magic_jigsaw.Points.Balance.{balance, spend_unlock_points_lem}
use magic_jigsaw.Points.Checkins.{CheckedIn, check_in_twice, check_in_pays, check_in_loses_point}
use magic_jigsaw.Points.Calendar.{
  CheckinState, get_checkin_dates, select_checkin_dates, checkin_state, streak, count_back,
  client_day,
}
use magic_jigsaw.Points.Streaks.{Streak, checked_in, days_held, checkin_state_shows}
use magic_jigsaw.Tests.World.{driver, env, player, outset}

five_fits : fits_int4 (pos 5) ≡ true
unfolding fits_int4
five_fits = refl

six_fits : fits_int4 (pos 6) ≡ true
unfolding fits_int4
six_fits = refl

two_fits : fits_int4 (pos 2) ≡ true
unfolding fits_int4
two_fits = refl

spend_unlock_points_lem_example :
    let (r, w') = spend_unlock_points env 1 (pos 2) outset in
    (((pos 2 ≤ℤ pos 5) × (r ≡ ok (pos 3, true)) × (balance 1 w'.db ≡ some (pos 3)))
      ⊎ ((pos 5 <ℤ pos 2) × (r ≡ ok (pos 0, false)) × (w'.db ≡ outset.db)))
    × (balance 2 w'.db ≡ balance 2 outset.db)
spend_unlock_points_lem_example =
    spend_unlock_points_lem env outset 1 2 (pos 2) (player 1 5) (inr refl, (inr refl, tt)) refl
      (omega arith) two_fits five_fits refl (λ e. omega (arith, e))

first_check_in : (check_in env 1 20 outset).0 ≡ ok true
unfolding check_in execute insert_checkin add_unlock_points update_add_points fits_int4
first_check_in = refl

check_in_twice_example :
    let w' = (check_in env 1 20 outset).1 in
    let (r, w'') = check_in env 1 20 w' in (r ≡ ok false) × (w''.db ≡ w'.db)
check_in_twice_example = check_in_twice env 1 20 outset (rw first_check_in refl) refl

check_in_pays_example :
    let (r, w') = check_in env 1 20 outset in
    (r ≡ ok true) × CheckedIn 1 20 w'.db × (balance 1 w'.db ≡ some (pos 6))
check_in_pays_example = check_in_pays env 1 20 outset (player 1 5) refl refl refl refl six_fits

check_in_loses_point_example :
    let (r, w') = check_in (driver (λ n. n == 1)) 1 20 outset in
    let (r', w'') = check_in (driver (λ n. n == 1)) 1 20 w' in
    (r ≡ err failed) × (r' ≡ ok false) × (balance 1 w''.db ≡ some (pos 5))
check_in_loses_point_example =
    check_in_loses_point (driver (λ n. n == 1)) 1 20 outset (player 1 5) refl refl refl refl refl

-- Check-ins of player 1 on the days 298, 299 and 296, and one of player 2 on day 300.
abbrev checked : World
checked = record outset {
  db = record (outset.db) {
    checkins =
        record { user_id = 1; check_date = 299 }
        ∷ record { user_id = 2; check_date = 300 }
        ∷ record { user_id = 1; check_date = 296 }
        ∷ record { user_id = 1; check_date = 298 }
        ∷ [];
  };
}

abbrev from_thursday : ℕ → ℕ
from_thursday n = (n + 4) % 7

asked_for : (get_checkin_dates env 1 120 checked).0 ≡ ok (296 ∷ 298 ∷ 299 ∷ [])
unfolding get_checkin_dates select_checkin_dates execute
asked_for = refl

two_days : streak (296 ∷ 298 ∷ 299 ∷ []) 300 ≡ some 2
unfolding streak count_back
two_days = refl

clamped : client_day 300 (some 298) ≡ 300
unfolding client_day
clamped = refl

checkin_state_shows_example :
    (s : CheckinState) × (checkin_state from_thursday (pos 5) (296 ∷ 298 ∷ 299 ∷ []) [] 300
      ≡ some s)
    × Streak checked.db 1 300 s.streak
    × (s.checked_in_today ≡ checked_in checked.db 1 300)
    × ((o : ℕ) × (o ≤ 6)
        × ((1 + o) % 7 ≡ from_thursday 300 % 7)
        × (s.week_checked_in ≡ days_held checked.db 1 7 (300 - o)))
checkin_state_shows_example =
    checkin_state_shows env 1 300 checked (296 ∷ 298 ∷ 299 ∷ []) (omega arith) asked_for
      from_thursday (pos 5) []
