-- ===== src/Points/Streaks.antt =====
-- The streak that buildCheckinState of internal/api/checkin.go shows, and the check-ins that are saved.
use magic_jigsaw.Prelude.{
  ◌%◌, ℤ, ap, subst, if◌then◌else◌, ◌⊎◌, ℕ, zero, suc, ◌+◌, ◌-◌, ◌≡◌, ◌≤◌, ◌<◌, inl, inr, refl, sym,
  ◌∙◌, Bool, true, false, ◌&&◌, some, List, [], ◌∷◌, leb, arith, Bool-cases,
}
use magic_jigsaw.Db.Table.{select_all, exists}
use magic_jigsaw.Db.Schema.{Db, CheckinRow}
use magic_jigsaw.Db.Action.{execute_ok, Env, World, ok}
use magic_jigsaw.Points.Statements.{checkin_is}
use magic_jigsaw.Points.Calendar.{
  monday, CheckinState, checkin_state, count_days, insert_date, by_date, dates_of, checked_in_since,
  select_checkin_dates, get_checkin_dates, day_in, first_day, count_back, streak, window,
}

-- Sorting keeps the days.
day_in-insert_date : (d x : ℕ) (xs : List ℕ) → day_in d (insert_date x xs) ≡ day_in d (x ∷ xs)
day_in-insert_date d x [] = refl
day_in-insert_date d x (y ∷ ys) = ground (arith, day_in-insert_date d x ys)

day_in-by_date : (d : ℕ) (xs : List ℕ) → day_in d (by_date xs) ≡ day_in d xs
day_in-by_date d [] = refl
day_in-by_date d (x ∷ xs) = ground (arith, day_in-insert_date d x (by_date xs), day_in-by_date d xs)

-- The days that are returned are the days of the user's check-ins, from `since` on.
day_in-dates :
    (user_id since d : ℕ) (cs : List CheckinRow)
    → day_in d (dates_of (select_all (checked_in_since user_id since) cs))
      ≡ (leb since d && exists (checkin_is user_id d) cs)
day_in-dates user_id since d [] = ground arith
day_in-dates user_id since d (c ∷ cs) = ground (arith, day_in-dates user_id since d cs)

-- `n` days back from the cursor pass the test, and the day before them does not.
record Counted (test : ℕ → Bool) (cursor fuel n : ℕ) : Type 0 where
  enough : n ≤ fuel
  held : (i : ℕ) → i < n → test (cursor - i) ≡ true
  broken : test (cursor - n) ≡ false

count_back_lem :
    (fuel : ℕ) (days : List ℕ) (cursor : ℕ)
    → fuel ≤ cursor
    → day_in (cursor - fuel) days ≡ false
    → (n : ℕ) × (count_back fuel days cursor ≡ some n) × Counted (λ d. day_in d days) cursor fuel n
unfolding count_back
count_back_lem zero days cursor le out = (
  0,
  ground (arith, out),
  record { enough = omega arith; held = λ i h. absurd (omega (arith, h)); broken = out },
)
count_back_lem (suc fuel) days cursor le out = elim (Bool-cases (day_in cursor days)) [
  | inr away ↦ (
    0,
    ground (arith, away),
    record {
      enough = omega arith;
      held = λ i h. absurd (omega (arith, h));
      broken = subst (λ z. day_in z days ≡ false) (omega arith) away;
    },
  )
  | inl present ↦
      let (n, e, c) =
        count_back_lem fuel days (cursor - 1) (omega (arith, le)) (ground (arith, out)) in
      (
        suc n,
        ground (arith, present, e),
        record {
          enough = omega (arith, c.enough);
          held = one_more present c.held;
          broken = subst (λ z. day_in z days ≡ false) (omega arith) c.broken;
        },
      )
]
  where
    one_more :
        {n : ℕ}
        → day_in cursor days ≡ true
        → ((i : ℕ) → i < n → day_in (cursor - 1 - i) days ≡ true)
        → (i : ℕ) → i < suc n
        → day_in (cursor - i) days ≡ true
    one_more present h zero l = subst (λ z. day_in z days ≡ true) (omega arith) present
    one_more present h (suc i) l =
        subst (λ z. day_in z days ≡ true) (omega arith) (h i (omega (arith, l)))

-- The user has a check-in of that day.
abbrev pub checked_in : Db → ℕ → ℕ → Bool
checked_in d user_id day = exists (checkin_is user_id day) d.checkins

-- The streak counts back from today, or from yesterday when there is no check-in yet today.
abbrev pub streak_start : Db → ℕ → ℕ → ℕ
streak_start d user_id now = if checked_in d user_id now then now else now - 1

-- The saved check-ins that a streak stands for: one on each of its days, and none on the day before them,
-- which otherwise is more than 180 days ago.
pub record Streak (d : Db) (user_id now n : ℕ) : Type 0 where
  pub held : (i : ℕ) → i < n → checked_in d user_id (streak_start d user_id now - i) ≡ true
  pub broken :
      (streak_start d user_id now - n < now - 180)
      ⊎ (checked_in d user_id (streak_start d user_id now - n) ≡ false)

-- On how many of the n days from `first` on the user has a check-in.
abbrev pub days_held : Db → ℕ → ℕ → ℕ → ℕ
days_held d user_id zero first = 0
days_held d user_id (suc n) first =
    (if checked_in d user_id first then 1 else 0) + days_held d user_id n (first + 1)

module _ (env : Env) (user_id now : ℕ) (w : World) (days : List ℕ) (recent : 181 < now)
    (asked : (get_checkin_dates env user_id (now - 180) w).0 ≡ ok days) where
  day_in-asked : (d : ℕ) → day_in d days ≡ (leb (now - 180) d && checked_in w.db user_id d)
  unfolding get_checkin_dates select_checkin_dates
  day_in-asked d =
      let got = execute_ok env (select_checkin_dates user_id (now - 180)) w days asked in
      let same : by_date
            (dates_of (select_all (checked_in_since user_id (now - 180)) w.db.checkins))
          ≡ days =
        ground (arith, got) in
      rw (sym same) (
        day_in-by_date d
          (dates_of (select_all (checked_in_since user_id (now - 180)) w.db.checkins))
        ∙ day_in-dates user_id (now - 180) d w.db.checkins)

  first_day-streak_start : first_day now days ≡ streak_start w.db user_id now
  first_day-streak_start = ground (arith, day_in-asked now)

  -- A day of the set is one of the user's.
  day_in-checked_in : (d d' : ℕ) → d ≡ d' → day_in d days ≡ true → checked_in w.db user_id d' ≡ true
  day_in-checked_in d d' e h = ground (arith, day_in-asked d, e, h)

  day_out-checked_in :
      (d d' : ℕ)
      → d ≡ d'
      → day_in d days ≡ false
      → (d' < now - 180) ⊎ (checked_in w.db user_id d' ≡ false)
  day_out-checked_in d d' e h = ground (arith, day_in-asked d, e, h)

  too_old : day_in (first_day now days - window) days ≡ false
  too_old = ground (arith, day_in-asked (first_day now days - window))

  streak-Streak : (n : ℕ) × (streak days now ≡ some n) × Streak w.db user_id now n
  unfolding streak
  streak-Streak =
      let (n, e, c) =
        count_back_lem window days (first_day now days) (ground (arith, recent)) too_old in
      (
        n,
        e,
        record {
          held = λ i l.
              day_in-checked_in (first_day now days - i) (streak_start w.db user_id now - i)
                (ap (λ s. s - i) first_day-streak_start) (c.held i l);
          broken =
              day_out-checked_in (first_day now days - n) (streak_start w.db user_id now - n)
                (ap (λ s. s - n) first_day-streak_start) c.broken;
        },
      )

  count_days-days_held :
      (n first : ℕ) → now - 180 ≤ first → count_days n first days ≡ days_held w.db user_id n first
  unfolding count_days
  count_days-days_held zero first le = refl
  count_days-days_held (suc n) first le =
      ground (arith, le, day_in-asked first, count_days-days_held n (first + 1))

  today_lem : day_in now days ≡ checked_in w.db user_id now
  today_lem = ground (arith, day_in-asked now)

  module _ (weekday : ℕ → ℕ) (points : ℤ) (challenges : List ℕ) where
    -- When GetCheckinDates has returned the user's dates of the last 180 days and today, with at least 182 days
    -- before today to count back over, the state that buildCheckinState makes of them is made: the loop ends. Its
    -- streak is the number of the days in a row, back from today or else from yesterday, on which the user has a
    -- check-in, as far as these days reach; and it says whether there is a check-in today, and on how many of the
    -- seven days from the Monday on that is at most six days ago.
    pub checkin_state_shows :
        (s : CheckinState) × (checkin_state weekday points days challenges now ≡ some s)
        × Streak w.db user_id now s.streak
        × (s.checked_in_today ≡ checked_in w.db user_id now)
        × ((o : ℕ) × (o ≤ 6)
            × ((1 + o) % 7 ≡ weekday now % 7)
            × (s.week_checked_in ≡ days_held w.db user_id 7 (now - o)))
    unfolding checkin_state
    checkin_state_shows =
        let (n, e, shown) = streak-Streak in
        (
          record {
            unlock_points = points;
            streak = n;
            checked_in_today = day_in now days;
            week_checked_in = count_days 7 (monday weekday now) days;
            week_total = 7;
            checkin_dates = days;
            challenge_dates = challenges;
          },
          ground (arith, e),
          shown,
          today_lem,
          (
            (weekday now + 6) % 7,
            omega arith,
            omega arith,
            count_days-days_held 7 (monday weekday now) (omega arith),
          ),
        )
