-- ===== src/Templates/Runs.antt =====
-- zero/template_jobs.py: `run_due`. What a template returns and whether it was delivered is the parameter
-- `attempt`: none stands for an exception of either.
use zero_agent.Base.{
  ℕ, ◌-◌, ◌*◌, max, Bool, true, false, not, List, [], ◌∷◌, ◌++◌, Option, none, some, String, ◌==◌,
  string_eq, nat_eq, if◌then◌else◌, fetch_one, update_where, select, ok, err,
}
use zero_agent.Templates.Schedule.{Zone, next_run, is_once}
use zero_agent.Templates.Jobs.{CronJob, completed, failed, has_id}
use zero_agent.Templates.Cron.{
  CronRun, Cron, Draw, Delivered, is_due, is_run_of, has_run_id, retry_after_failure, count_success,
  count_failure, running, succeeded, broken,
}

-- the job's run: the row of an earlier attempt at this slot, or a new one
unfoldable pub open_run : Draw → CronJob → ℕ → List CronRun → Option CronRun → String × List CronRun
open_run d j slot runs (some r) = (
  r.run_id,
  update_where (has_run_id r.run_id)
      (λ s. record s {
        state = running;
        started_at = d.started;
        finished_at = none;
        exit_code = none;
      })
      runs,
)
open_run d j slot runs none = (
  d.fresh,
  record {
    run_id = d.fresh;
    job_id = j.job_id;
    job_version = j.version;
    scheduled_for = slot;
    state = running;
    started_at = d.started;
    finished_at = none;
    duration_ms = 0;
    exit_code = none;
    result_text = "";
  }
      ∷ runs,
)

-- the rows after a run that succeeded with a next slot, or none after a job that runs once
unfoldable pub moved : ℕ → Option ℕ → CronJob → CronJob
moved finished (some t) j = record j {
  last_run_at = some finished;
  next_run_at = some t;
  updated_at = finished;
}
moved finished none j = record j {
  state = completed;
  last_run_at = some finished;
  next_run_at = none;
  updated_at = finished;
}

unfoldable pub retried : ℕ → Option ℕ → CronJob → CronJob
retried finished (some t) j = record j {
  last_run_at = some finished;
  next_run_at = some t;
  updated_at = finished;
}
retried finished none j = record j {
  state = failed;
  last_run_at = some finished;
  next_run_at = none;
  updated_at = finished;
}

unfoldable pub succeed : CronJob → String → String → Option ℕ → Draw → Cron → Cron
unfolding moved count_success
succeed j run result next d c =
    let duration = (d.finished - d.started) * 1000 in
    record {
      jobs = update_where (has_id j.job_id) (moved d.finished next) c.jobs;
      runs =
          update_where (has_run_id run)
            (λ r. record r {
              state = succeeded;
              finished_at = some d.finished;
              duration_ms = duration;
              exit_code = some 0;
              result_text = result;
            })
            c.runs;
      metrics = count_success j.job_id duration d.finished c.metrics;
    }

unfoldable pub fail : CronJob → String → Option ℕ → Draw → Cron → Cron
unfolding retried count_failure
fail j run retry_at d c = record {
  jobs = update_where (has_id j.job_id) (retried d.finished retry_at) c.jobs;
  runs =
      update_where (has_run_id run)
        (λ r. record r { state = broken; finished_at = some d.finished; exit_code = some 1 })
        c.runs;
  metrics = count_failure j.job_id d.finished c.metrics;
}

abbrev pub is_done : Option CronRun → Bool
is_done none = false
is_done (some r) = elim r.state [ running ↦ false | succeeded ↦ true | broken ↦ false ]

abbrev pub is_text : String → Bool
is_text s = not (s == "")

module _ (zones : String → Zone) (attempt : CronJob → Option String) where
  -- what follows the run: a schedule that `_next_run` rejects fails a run that was delivered
  unfoldable pub finish :
      CronJob → ℕ → ℕ → Draw → String → Cron → Option String → Cron × List Delivered
  unfolding succeed fail next_run retry_after_failure
  finish j slot now d run c none =
      (fail j run (retry_after_failure zones j.schedule slot now d.finished) d c, [])
  finish j slot now d run c (some result) = elim (next_run zones j.schedule (max now slot)) [
    | err _ ↦ (fail j run (retry_after_failure zones j.schedule slot now d.finished) d c, [])
    | ok t ↦ (
      succeed j run result (if is_once j.schedule then none else some t) d c,
      if is_text result then record { job = j.job_id; run = run; text = result } ∷ [] else [],
    )
  ]

  -- the body of the loop, for a job that was selected with `next_run_at` = `slot`
  unfoldable pub run_job : ℕ → Draw → CronJob → ℕ → Cron → Cron × List Delivered
  unfolding open_run finish
  run_job now d j slot c =
      let row = fetch_one (is_run_of j.job_id slot) c.runs in
      if is_done row
      then (c, [])
      else let opened = open_run d j slot c.runs row in
        finish j slot now d opened.0 (record c { runs = opened.1 }) (attempt j)

  abbrev pub run_selected : ℕ → Draw → CronJob → Option ℕ → Cron → Cron × List Delivered
  run_selected now d j none c = (c, [])
  run_selected now d j (some slot) c = run_job now d j slot c

  unfoldable pub run_each : ℕ → (CronJob → Draw) → List CronJob → Cron → Cron × List Delivered
  unfolding run_job
  run_each now draw [] c = (c, [])
  run_each now draw (j ∷ js) c =
      let first = run_selected now (draw j) j j.next_run_at c in
      let rest = run_each now draw js first.0 in (rest.0, first.1 ++ rest.1)

  unfoldable pub run_due : ℕ → (CronJob → Draw) → Cron → Cron × List Delivered
  unfolding run_each is_due
  run_due now draw c = run_each now draw (select (is_due now) c.jobs) c
