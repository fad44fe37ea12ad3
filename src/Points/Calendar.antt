-- ===== src/Points/Calendar.antt =====
-- The calendar of check-ins: GetCheckinDates of internal/repository/checkin.go, and clientDay and the state that
-- buildCheckinState of internal/api/checkin.go makes of what the store returns. A date is its day number, and
-- `weekday` is time.Weekday, from 0 for Sunday.
use magic_jigsaw.Prelude.{
  ℕ, zero, suc, ◌+◌, ◌-◌, ◌%◌, Bool, false, ◌&&◌, ◌||◌, Option, none, some, List, [], ◌∷◌, ◌==◌,
  leb, ℤ, if◌then◌else◌,
}
use magic_jigsaw.Db.Table.{select_all}
use magic_jigsaw.Db.Schema.{CheckinRow}
use magic_jigsaw.Db.Action.{Env, Action, Statement, execute}

-- ORDER BY check_date
abbrev pub insert_date : ℕ → List ℕ → List ℕ
insert_date d [] = d ∷ []
insert_date d (x ∷ xs) = if leb d x then d ∷ x ∷ xs else x ∷ insert_date d xs

abbrev pub by_date : List ℕ → List ℕ
by_date [] = []
by_date (x ∷ xs) = insert_date x (by_date xs)

abbrev pub dates_of : List CheckinRow → List ℕ
dates_of [] = []
dates_of (c ∷ cs) = c.check_date ∷ dates_of cs

-- WHERE user_id = $1 AND check_date >= $2
abbrev pub checked_in_since : ℕ → ℕ → CheckinRow → Bool
checked_in_since user_id since c = c.user_id == user_id && leb since c.check_date

unfoldable pub select_checkin_dates : ℕ → ℕ → Statement (List ℕ)
select_checkin_dates user_id since d =
    some (by_date (dates_of (select_all (checked_in_since user_id since) d.checkins)), d)

unfoldable pub get_checkin_dates : Env → ℕ → ℕ → Action (List ℕ)
unfolding execute
get_checkin_dates env user_id since = execute env (select_checkin_dates user_id since)

-- The day of the request, from today in UTC and the date that the client sends: `none` when it is missing or
-- malformed.
unfoldable pub client_day : ℕ → Option ℕ → ℕ
client_day today none = today
client_day today (some d) = if d == today || d == today - 1 then d else today

-- `set[d]`
abbrev pub day_in : ℕ → List ℕ → Bool
day_in d [] = false
day_in d (x ∷ xs) = x == d || day_in d xs

abbrev pub first_day : ℕ → List ℕ → ℕ
first_day now days = if day_in now days then now else now - 1

-- The loop that counts back from the cursor: `none` if more rounds are needed than the fuel.
unfoldable pub count_back : ℕ → List ℕ → ℕ → Option ℕ
count_back zero days cursor = if day_in cursor days then none else some 0
count_back (suc fuel) days cursor =
    let more = count_back fuel days (cursor - 1) in
    if day_in cursor days then (elim more [ none ↦ none | some n ↦ some (suc n) ]) else some 0

-- The days that are asked for, with the day itself: no more rounds are made than these.
abbrev pub window : ℕ
window = 181

unfoldable pub streak : List ℕ → ℕ → Option ℕ
streak days now = count_back window days (first_day now days)

-- How many of the n days from `first` on are in the set.
unfoldable pub count_days : ℕ → ℕ → List ℕ → ℕ
count_days zero first days = 0
count_days (suc n) first days =
    let rest = count_days n (first + 1) days in if day_in first days then suc rest else rest

pub record CheckinState : Type 0 where
  pub unlock_points : ℤ
  pub streak : ℕ
  pub checked_in_today : Bool
  pub week_checked_in : ℕ
  pub week_total : ℕ
  pub checkin_dates : List ℕ
  pub challenge_dates : List ℕ

module _ (weekday : ℕ → ℕ) where
  abbrev pub monday : ℕ → ℕ
  monday now = now - (weekday now + 6) % 7

  unfoldable pub checkin_state : ℤ → List ℕ → List ℕ → ℕ → Option CheckinState
  checkin_state points checkins challenges now = elim (streak checkins now) [
    | none ↦ none
    | some n ↦ some record {
      unlock_points = points;
      streak = n;
      checked_in_today = day_in now checkins;
      week_checked_in = count_days 7 (monday now) checkins;
      week_total = 7;
      checkin_dates = checkins;
      challenge_dates = challenges;
    }
  ]
