-- ===== src/Templates/Cron.antt =====
-- zero/template_jobs.py: the tables `cron_runs` and `cron_metrics`, and the times of a job.
use zero_agent.Base.{
  ℕ, ◌+◌, max, Bool, true, false, ◌&&◌, List, [], ◌∷◌, ◌++◌, Option, none, some, String, ◌==◌,
  string_eq, nat_eq, if◌then◌else◌, leb, fetch_one, update_where, ok, err,
}
use zero_agent.Templates.Schedule.{Zone, Schedule, next_run, is_once}
use zero_agent.Templates.Jobs.{CronJob, JobState, enabled, Approval, approved, awaiting}

pub data RunState : Type 0 where
  running succeeded broken : RunState

pub record CronRun : Type 0 where
  pub run_id : String
  pub job_id : String
  pub job_version : ℕ
  pub scheduled_for : ℕ
  pub state : RunState
  pub started_at : ℕ
  pub finished_at : Option ℕ
  pub duration_ms : ℕ
  pub exit_code : Option ℕ
  pub result_text : String

pub record CronMetrics : Type 0 where
  pub job_id : String
  pub run_count : ℕ
  pub success_count : ℕ
  pub failure_count : ℕ
  pub total_duration_ms : ℕ
  pub last_duration_ms : ℕ
  pub updated_at : ℕ

-- the runs, at most one of a job and a slot
pub record Cron : Type 0 where
  pub jobs : List CronJob
  pub runs : List CronRun
  pub metrics : List CronMetrics

-- what `run_due` draws for a job: an id for its run, and its clock before and after it
pub record Draw : Type 0 where
  pub fresh : String
  pub started : ℕ
  pub finished : ℕ

pub record Delivered : Type 0 where
  pub job : String
  pub run : String
  pub text : String

unfoldable pub is_enabled : JobState → Bool
is_enabled enabled = true
is_enabled _ = false

unfoldable pub is_approved : Approval → Bool
is_approved approved = true
is_approved awaiting = false

-- `next_run_at<=?`, which is not true of NULL
unfoldable pub is_past : ℕ → Option ℕ → Bool
is_past now none = false
is_past now (some t) = leb t now

unfoldable pub is_due : ℕ → CronJob → Bool
unfolding is_enabled is_approved is_past
is_due now j = is_enabled j.state && is_approved j.approval_state && is_past now j.next_run_at

abbrev pub is_run_of : String → ℕ → CronRun → Bool
is_run_of i slot r = r.job_id == i && r.scheduled_for == slot

abbrev pub has_run_id : String → CronRun → Bool
has_run_id i r = r.run_id == i

abbrev pub is_metrics_of : String → CronMetrics → Bool
is_metrics_of i m = m.job_id == i

-- `self._retry_after_failure(job, now, finished)`, of a schedule that was stored by `create_draft`
unfoldable pub retry_after_failure : (String → Zone) → Schedule → ℕ → ℕ → ℕ → Option ℕ
unfolding next_run
retry_after_failure zones schedule slot now finished =
    if is_once schedule then none else elim (next_run zones schedule (max now slot)) [
      | ok t ↦ some t
      | err _ ↦ some (finished + 900)
    ]

-- INSERT … ON CONFLICT(job_id) DO UPDATE, for a run that succeeded and for one that failed
unfoldable pub count_success : String → ℕ → ℕ → List CronMetrics → List CronMetrics
count_success i duration now ms = elim (fetch_one (is_metrics_of i) ms) [
  | none ↦
      ms
      ++ record {
        job_id = i;
        run_count = 1;
        success_count = 1;
        failure_count = 0;
        total_duration_ms = duration;
        last_duration_ms = duration;
        updated_at = now;
      }
        ∷ []
  | some _ ↦
      update_where (is_metrics_of i)
        (λ m. record m {
          run_count = m.run_count + 1;
          success_count = m.success_count + 1;
          total_duration_ms = m.total_duration_ms + duration;
          last_duration_ms = duration;
          updated_at = now;
        })
        ms
]

unfoldable pub count_failure : String → ℕ → List CronMetrics → List CronMetrics
count_failure i now ms = elim (fetch_one (is_metrics_of i) ms) [
  | none ↦
      ms
      ++ record {
        job_id = i;
        run_count = 1;
        success_count = 0;
        failure_count = 1;
        total_duration_ms = 0;
        last_duration_ms = 0;
        updated_at = now;
      }
        ∷ []
  | some _ ↦
      update_where (is_metrics_of i)
        (λ m. record m {
          run_count = m.run_count + 1;
          failure_count = m.failure_count + 1;
          updated_at = now;
        })
        ms
]
