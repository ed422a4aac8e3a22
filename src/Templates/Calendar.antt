-- ===== src/Templates/Calendar.antt =====
-- zero/template_jobs.py, `_next_run`: the wall times that a daily, a weekly and a monthly schedule
-- come to, in seconds of the wall clock since the start of 1970. A month is known by its number
-- since then; its length is that of `calendar.monthrange`.
use zero_agent.Base.{
  ℕ, zero, suc, ◌≤◌, ◌<◌, ◌≡◌, ◌≢◌, refl, arith, Bool-cases, inl, inr, ◌+◌, ◌-◌, ◌*◌, ◌/◌, ◌%◌, min,
  Bool, true, false, not, ◌&&◌, ◌||◌, ◌==◌, nat_eq, leb, ltb, if◌then◌else◌, Result, ok, err,
  value_error, Option, none, some,
}

-- `if candidate <= current: candidate += timedelta(days=n)`
abbrev pub pushed : ℕ → ℕ → ℕ → ℕ
pushed days candidate wall = if leb candidate wall then candidate + days * 86400 else candidate

-- `current.replace(hour=hour, minute=minute, second=0, microsecond=0)`
abbrev pub at_clock : ℕ → ℕ → ℕ → ℕ
at_clock hour minute wall = wall / 86400 * 86400 + hour * 3600 + minute * 60

abbrev pub next_daily : ℕ → ℕ → ℕ → ℕ
next_daily hour minute wall = pushed 1 (at_clock hour minute wall) wall

-- Monday is 0, and the first day of 1970 was a Thursday
abbrev pub weekday_of : ℕ → ℕ
weekday_of wall = (wall / 86400 + 3) % 7

abbrev pub next_weekly : ℕ → ℕ → ℕ → ℕ → ℕ
next_weekly weekday hour minute wall =
    pushed 7 (at_clock hour minute wall + (weekday + 7 - weekday_of wall) % 7 * 86400) wall

abbrev pub is_leap : ℕ → Bool
is_leap year = year % 4 == 0 && (not (year % 100 == 0) || year % 400 == 0)

-- the length of a month, by its number since the start of 1970
abbrev pub month_length : ℕ → ℕ
month_length k =
    let month = k % 12 + 1 in
    if month == 2
    then (if is_leap (1970 + k / 12) then 29 else 28)
    else if month == 4 || month == 6 || month == 9 || month == 11
    then 30
    else 31

-- the month of a day, with its first day, from a month that is not later
unfoldable pub month_at : ℕ → ℕ → ℕ → ℕ → ℕ × ℕ
month_at zero k first day = (k, first)
month_at (suc fuel) k first day = elim (ltb day (first + month_length k)) [
  | true ↦ (k, first)
  | false ↦ month_at fuel (k + 1) (first + month_length k) day
]

-- `in_month`: the day `target` of a month, or its last one where the month is shorter
abbrev pub in_month : Option ℕ → ℕ → ℕ → ℕ × ℕ → ℕ
in_month none hour minute (k, first) =
    (first + month_length k - 1) * 86400 + hour * 3600 + minute * 60
in_month (some day) hour minute (k, first) =
    (first + min day (month_length k) - 1) * 86400 + hour * 3600 + minute * 60

abbrev pub following : ℕ × ℕ → ℕ × ℕ
following (k, first) = (k + 1, first + month_length k)

-- the month of a wall time: enough fuel is the number of its day, since no month is empty
abbrev pub month_of_wall : ℕ → ℕ × ℕ
month_of_wall wall = month_at (wall / 86400 + 1) 0 0 (wall / 86400)

-- a day 0 is a `ValueError` of `replace`
abbrev pub next_monthly : Option ℕ → ℕ → ℕ → ℕ → Result ℕ
next_monthly (some zero) hour minute wall = err value_error
next_monthly target hour minute wall =
    let candidate = in_month target hour minute (month_of_wall wall) in
    ok (
      if leb candidate wall
      then in_month target hour minute (following (month_of_wall wall))
      else candidate)

month_length-bounds : (k : ℕ) → 28 ≤ month_length k
month_length-bounds k = ground arith

pub month_at-day :
    (fuel k first day : ℕ)
    → first ≤ day
    → day < first + fuel
    → day < (following (month_at fuel k first day)).1
unfolding month_at
month_at-day zero k first day from room = absurd (omega arith)
month_at-day (suc fuel) k first day from room =
    elim (Bool-cases (ltb day (first + month_length k))) [
      | inl e ↦ rw (e, month_at) (ground (arith, e))
      | inr e ↦
          rw (e, month_at)
            (month_at-day fuel (k + 1) (first + month_length k) day (ground (arith, e))
              (omega (arith, month_length-bounds k)))
    ]

pub next_daily-later : (hour minute wall : ℕ) → wall < next_daily hour minute wall
next_daily-later hour minute wall = ground arith

pub next_weekly-later : (weekday hour minute wall : ℕ) → wall < next_weekly weekday hour minute wall
next_weekly-later weekday hour minute wall = ground arith

in_month-first :
    (target : Option ℕ) (hour minute : ℕ) (m : ℕ × ℕ)
    → target ≢ some zero
    → m.1 * 86400 ≤ in_month target hour minute m
in_month-first none hour minute (k, first) h = omega (arith, month_length-bounds k)
in_month-first (some zero) hour minute (k, first) h = absurd (h refl)
in_month-first (some (suc n)) hour minute (k, first) h = ground (arith, month_length-bounds k)

before_following : (wall : ℕ) → wall < (following (month_of_wall wall)).1 * 86400
before_following wall =
    let day = wall / 86400 in
    let inside = month_at-day (day + 1) 0 0 day (omega arith) (omega arith) in omega (arith, inside)

module _ (target : Option ℕ) (hour minute wall : ℕ) where
  month_pushed-later :
      target ≢ some zero
      → wall < (
          let candidate = in_month target hour minute (month_of_wall wall) in
          if leb candidate wall
          then in_month target hour minute (following (month_of_wall wall))
          else candidate)
  month_pushed-later some_day =
      elim (Bool-cases (leb (in_month target hour minute (month_of_wall wall)) wall)) [
        | inr e ↦ rw e (ground (arith, e))
        | inl e ↦ rw e (
            omega (
              arith,
              before_following wall,
              in_month-first target hour minute (following (month_of_wall wall)) some_day,
            ))
      ]

ok-injective : {a b : ℕ} → Result.ok a ≡ ok b → a ≡ b
ok-injective h = ground arith

-- the time of a monthly schedule lies ahead
pub next_monthly-later :
    (target : Option ℕ) (hour minute wall later : ℕ)
    → next_monthly target hour minute wall ≡ ok later
    → wall < later
next_monthly-later (some zero) hour minute wall later h = absurd (ground arith)
next_monthly-later none hour minute wall later h =
    let same = ok-injective h in
    rw (← same) (month_pushed-later none hour minute wall (λ e. absurd (ground arith)))
next_monthly-later (some (suc n)) hour minute wall later h =
    let same = ok-injective h in
    rw (← same) (month_pushed-later (some (suc n)) hour minute wall (λ e. absurd (ground arith)))
