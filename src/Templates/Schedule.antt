-- ===== src/Templates/Schedule.antt =====
-- zero/template_jobs.py: `_next_run`. The time zones are `zoneinfo`'s: the parameter `zones` gives the
-- wall clock of a zone at a time, and the time of a wall clock.
use zero_agent.Base.{
  ℕ, ◌+◌, Bool, true, false, ◌&&◌, leb, if◌then◌else◌, Result, ok, err, job_security, ◌>>=◌, Option,
  String,
}
use zero_agent.Templates.Calendar.{next_daily, next_weekly, next_monthly}

-- a time zone: the seconds of its wall clock at a time, and the time at which its wall clock shows them
pub record Zone : Type 0 where
  pub wall : ℕ → ℕ
  pub stamp : ℕ → ℕ

-- a schedule by its kind, with its time zone where that counts; in `monthly`, no day is `last`. A number that is missing in the code is out of range there
pub data Schedule : Type 0 where
  interval : ℕ → Schedule
  daily : String → ℕ → ℕ → Schedule
  weekly : String → ℕ → ℕ → ℕ → Schedule
  monthly : String → Option ℕ → ℕ → ℕ → Schedule
  once : ℕ → Schedule
  unknown : Schedule

abbrev pub is_clock : ℕ → ℕ → Bool
is_clock hour minute = leb hour 23 && leb minute 59

abbrev pub is_once : Schedule → Bool
is_once (once at) = true
is_once _ = false

unfoldable pub next_run : (String → Zone) → Schedule → ℕ → Result ℕ
next_run zones (interval seconds) now =
    if leb 60 seconds && leb seconds 31536000 then ok (now + seconds) else err job_security
next_run zones (daily timezone hour minute) now =
    let zone = zones timezone in
    if is_clock hour minute
    then ok (zone.stamp (next_daily hour minute (zone.wall now)))
    else err job_security
next_run zones (weekly timezone weekday hour minute) now =
    let zone = zones timezone in
    if is_clock hour minute && leb weekday 6
    then ok (zone.stamp (next_weekly weekday hour minute (zone.wall now)))
    else err job_security
next_run zones (monthly timezone day hour minute) now =
    let zone = zones timezone in
    if is_clock hour minute
    then (next_monthly day hour minute (zone.wall now) >>= λ wall. ok (zone.stamp wall))
    else err job_security
next_run zones (once at) now = if leb 1 at then ok at else err job_security
next_run zones unknown now = err job_security
