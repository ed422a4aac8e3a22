-- ===== src/Templates/Tests.antt =====
-- Runs of the jobs from templates.
use zero_agent.Base.{
  true, false, ℕ, pos, ◌+◌, ◌-◌, ◌*◌, some, ◌<◌, ◌≡◌, refl, ◌&&◌, List, [], ◌∷◌, Option, none,
  String, Result, ok, err, arith, fetch_one, select, update_where, count_where, cut,
}
use zero_agent.Templates.Catalog.{template_registry, find_template, Input, text, has_field}
use zero_agent.Templates.Schedule.{interval, monthly, Zone, next_run}
use zero_agent.Templates.Calendar.{next_monthly, next_weekly, month_at}
use zero_agent.Templates.Jobs.{
  CronJob, Grant, has_id, role_for, grant_cron_admin, may, require, may_approve, validate,
  create_draft, approve_job, set_state, delete_job,
}
use zero_agent.Templates.Cron.{
  Cron, Draw, is_enabled, is_approved, is_past, is_due, retry_after_failure, count_success,
  count_failure,
}
use zero_agent.Templates.Runs.{
  open_run, moved, retried, succeed, fail, finish, run_job, run_each, run_due,
}
use zero_agent.Templates.Due.{run_job-moves}
use zero_agent.Templates.Grants.{granted, grant_cron_admin-role_for}
use zero_agent.Templates.Approval.{draft_job, approve, perform, is_approved_at}

program : Unit {0}
unfolding fetch_one select update_where count_where cut template_registry find_template has_field
    month_at next_run role_for may require may_approve validate create_draft approve_job set_state
    delete_job is_enabled is_approved is_past is_due retry_after_failure count_success count_failure
    open_run moved retried succeed fail finish run_job run_each run_due perform grant_cron_admin
    granted
program = tt

-- a clock that is three and a half hours ahead
abbrev tehran : String → Zone
tehran name = record { wall = λ t. t + 12600; stamp = λ w. w - 12600 }

tehran_forward : (z : String) (t w : ℕ) → (tehran z).wall t < w → t < (tehran z).stamp w
tehran_forward z t w h = omega arith

-- from the last of January 2024 to the last of February, which is the 29th
month_end : next_monthly (some 31) 9 0 (19753 * 86400 + 32400) ≡ ok (19782 * 86400 + 32400)
unfolding month_at
month_end = refl

-- Thursday to Wednesday
next_wednesday : next_weekly 2 0 0 0 ≡ 6 * 86400
next_wednesday = refl

abbrev rows_of : Result (List CronJob) → List CronJob
rows_of (ok rows) = rows
rows_of (err e) = []

abbrev inputs : List (String × Input)
inputs = ("text", text "water") ∷ []

abbrev drafted : List CronJob
drafted = rows_of (
    perform (pos 1) [] tehran
      (draft_job (pos 1) (pos 40) "Plants" "job_a" "reminder" inputs
        (monthly "Asia/Tehran" none 4 30) 100)
      [])

abbrev ready : List CronJob
ready = rows_of (perform (pos 1) [] tehran (approve (pos 1) "job_a" 200) drafted)

ready_is_approved : count_where (is_approved_at "job_a") ready ≡ 1
unfolding program
ready_is_approved = refl

abbrev some_job : List CronJob → CronJob
some_job [] = record {
  job_id = "";
  version = 0;
  template_id = "";
  template_version = "";
  created_by = pos 0;
  chat_id = pos 0;
  title = "";
  inputs = [];
  schedule = interval 60;
  risk_level = zero_agent.Templates.Catalog.Risk.low;
  approval_state = zero_agent.Templates.Jobs.Approval.awaiting;
  state = zero_agent.Templates.Jobs.JobState.draft;
  next_run_at = none;
  last_run_at = none;
  created_at = 0;
  updated_at = 0;
}
some_job (j ∷ js) = j

abbrev job : CronJob
job = some_job ready

-- the job, due at the end of January, whose template raises an exception then
abbrev start : Cron
start = record { jobs = ready; runs = []; metrics = [] }

abbrev at : Draw
at = record { fresh = "run_a"; started = 2596000; finished = 2596002 }

abbrev failing : CronJob → Option String
failing j = none

is_due_before : count_where (λ k. has_id job.job_id k && is_due 2596000 k) start.jobs ≡ 1
unfolding program
is_due_before = refl

run_job-moves_example :
    count_where
      (λ k. has_id job.job_id k && is_due 2596000 k)
      (run_job tehran failing 2596000 at job 2595600 start).0.jobs
    ≡ 0
unfolding program
run_job-moves_example =
    run_job-moves tehran tehran_forward failing job 2595600 2596000 at start (omega arith) refl

abbrev granted_rows : Result (List Grant) → List Grant
granted_rows (ok rows) = rows
granted_rows (err e) = []

abbrev one_admin : List Grant
one_admin = granted_rows (grant_cron_admin (pos 1) [] (pos 1) (pos 5) true)

grant_cron_admin-role_for_example :
    role_for
      (pos 1)
      (granted_rows (grant_cron_admin (pos 1) one_admin (pos 1) (pos 5) false))
      (pos 5)
    ≡ granted (pos 5) false (role_for (pos 1) one_admin) (pos 5)
unfolding program
grant_cron_admin-role_for_example =
    grant_cron_admin-role_for (pos 1) one_admin
      (granted_rows (grant_cron_admin (pos 1) one_admin (pos 1) (pos 5) false)) (pos 1) (pos 5)
      false refl (pos 5)
