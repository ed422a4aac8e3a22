-- ===== src/Templates/Approval.antt =====
-- zero/template_jobs.py: the calls of `TemplateJobService` that change jobs, and who approves one.
use zero_agent.Base.{ℕ, ℤ, ◌≡◌, Bool, true, ◌&&◌, List, some, String, string_eq, fetch_one, Result}
use zero_agent.Templates.Catalog.{Input}
use zero_agent.Templates.Schedule.{Zone, Schedule}
use zero_agent.Templates.Jobs.{
  CronJob, JobState, Grant, has_id, may_approve, approve_job, create_draft, set_state, delete_job,
}
use zero_agent.Templates.Cron.{is_approved}

pub data Call : Type 0 where
  draft_job : ℤ → ℤ → String → String → String → List (String × Input) → Schedule → ℕ → Call
  approve : ℤ → String → ℕ → Call
  move : ℤ → String → JobState → ℕ → Call
  discard : ℤ → String → ℕ → Call

abbrev pub is_approved_at : String → CronJob → Bool
is_approved_at i j = has_id i j && is_approved j.approval_state

module _ (owner_id : ℤ) (grants : List Grant) (zones : String → Zone) where
  unfoldable pub perform : Call → List CronJob → Result (List CronJob)
  unfolding create_draft approve_job set_state delete_job
  perform (draft_job actor chat title i template inputs schedule now) jobs =
      create_draft owner_id grants zones actor chat title i template inputs schedule now jobs
  perform (approve actor i now) jobs = approve_job owner_id grants zones actor i now jobs
  perform (move actor i s now) jobs = set_state owner_id grants actor i s now jobs
  perform (discard actor i now) jobs = delete_job owner_id grants actor i now jobs

  -- the call is an approval of the job by someone who may approve it
  pub record Approves (i : String) (jobs : List CronJob) (c : Call) : Type 0 where
    pub actor : ℤ
    pub job : CronJob
    pub now : ℕ
    pub is_it : c ≡ approve actor i now
    pub stored : fetch_one (has_id i) jobs ≡ some job
    pub allowed : may_approve owner_id grants actor job ≡ true
