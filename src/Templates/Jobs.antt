-- ===== src/Templates/Jobs.antt =====
-- zero/template_jobs.py: `TemplateJobService`, without the audit trail, whose entries nothing reads.
use zero_agent.Base.{
  ℕ, ℤ, ◌+◌, Bool, true, false, not, ◌||◌, List, [], ◌∷◌, ◌++◌, Option, none, some, String, ◌==◌,
  string_eq, int_eq, if◌then◌else◌, cut, leb, fetch_one, update_where, count_where, Result, ok, err,
  ◌>>=◌, job_security, attribute_error,
}
use zero_agent.Templates.Catalog.{
  Risk, low, medium, high, critical, Template, find_template, Input, is_bad_input, is_extra,
}
use zero_agent.Templates.Schedule.{Zone, Schedule, next_run}

pub data Role : Type 0 where
  owner cron_admin normal_user : Role

pub data Capability : Type 0 where
  create delete pause resume logs metrics templates : Capability
  network workflow python approve role_grant role_revoke : Capability

-- SAFE_CAPABILITIES
abbrev pub safe_may : Capability → Bool
safe_may create = true
safe_may pause = true
safe_may resume = true
safe_may logs = true
safe_may metrics = true
safe_may _ = false

-- ADMIN_CAPABILITIES
abbrev pub admin_may : Capability → Bool
admin_may delete = true
admin_may templates = true
admin_may c = safe_may c

-- a row of `cron_permissions`; its capabilities are what `grant_cron_admin` writes for the role
pub record Grant : Type 0 where
  pub user_id : ℤ
  pub role : Role
  pub granted_by : ℤ
  pub version : ℕ

pub data JobState : Type 0 where
  draft enabled paused disabled deleted completed failed : JobState

pub data Approval : Type 0 where
  awaiting approved : Approval

pub record CronJob : Type 0 where
  pub job_id : String
  pub version : ℕ
  pub template_id : String
  pub template_version : String
  pub created_by : ℤ
  pub chat_id : ℤ
  pub title : String
  pub inputs : List (String × Input)
  pub schedule : Schedule
  pub risk_level : Risk
  pub approval_state : Approval
  pub state : JobState
  pub next_run_at : Option ℕ
  pub last_run_at : Option ℕ
  pub created_at : ℕ
  pub updated_at : ℕ

abbrev pub has_id : String → CronJob → Bool
has_id i j = j.job_id == i

abbrev pub is_grant : ℤ → Grant → Bool
is_grant u g = g.user_id == u

-- the service: the owner of the configuration, and the permissions
module _ (owner_id : ℤ) (grants : List Grant) where
  unfoldable pub role_for : ℤ → Role
  role_for u =
      if u == owner_id
      then owner
      else elim (fetch_one (is_grant u) grants) [ none ↦ normal_user | some g ↦ g.role ]

  -- `capability in await self.capabilities_for(user_id)`
  unfoldable pub may : ℤ → Capability → Bool
  unfolding role_for
  may u c = elim (role_for u) [
    | owner ↦ true
    | cron_admin ↦ admin_may c
    | normal_user ↦ elim (fetch_one (is_grant u) grants) [ none ↦ false | some g ↦ safe_may c ]
  ]

  unfoldable pub require : ℤ → Capability → Result (Unit {0})
  unfolding may
  require u c = if may u c then ok tt else err job_security

  unfoldable pub grant_cron_admin : ℤ → ℤ → Bool → Result (List Grant)
  grant_cron_admin actor target on =
      if not (actor == owner_id)
      then err job_security
      else if target == owner_id
      then err job_security
      else let role = if on then cron_admin else normal_user in
        elim (fetch_one (is_grant target) grants) [
          | some _ ↦ ok (
              update_where (is_grant target)
                (λ g. record g { role = role; granted_by = actor; version = g.version + 1 }) grants)
          | none ↦ ok (
              grants
              ++ record { user_id = target; role = role; granted_by = actor; version = 1 } ∷ [])
        ]

  -- who may approve a job of a risk
  unfoldable pub may_approve : ℤ → CronJob → Bool
  unfolding role_for
  may_approve actor job = elim job.risk_level [
    | low ↦ actor == job.created_by || actor == owner_id
    | medium ↦ elim (role_for actor) [ owner ↦ true | cron_admin ↦ true | normal_user ↦ false ]
    | high ↦ actor == owner_id
    | critical ↦ actor == owner_id
  ]

  module _ (zones : String → Zone) where
    -- an unknown template has no `reason` to read, which raises another exception
    unfoldable pub validate : String → List (String × Input) → Schedule → ℕ → Result Template
    unfolding next_run
    validate template_id inputs schedule now = elim (find_template template_id) [
      | none ↦ err attribute_error
      | some t ↦
          if not t.enabled
          then err job_security
          else if leb 1 (count_where (is_extra t) inputs)
          then err job_security
          else if leb 1 (count_where (λ i. is_bad_input i.1) inputs)
          then err job_security
          else (next_run zones schedule now >>= λ _. ok t)
    ]

    -- `job_id` is the `uuid4` drawn in it
    unfoldable pub create_draft :
        ℤ
        → ℤ
        → String
        → String
        → String
        → List (String × Input)
        → Schedule
        → ℕ
        → List CronJob
        → Result (List CronJob)
    unfolding require validate
    create_draft actor chat_id title job_id template_id inputs schedule now jobs =
        require actor create >>= λ _. validate template_id inputs schedule now >>= λ t. ok (
          jobs
          ++ record {
            job_id = job_id;
            version = 1;
            template_id = template_id;
            template_version = t.version;
            created_by = actor;
            chat_id = chat_id;
            title = cut 120 title;
            inputs = inputs;
            schedule = schedule;
            risk_level = t.risk;
            approval_state = awaiting;
            state = draft;
            next_run_at = none;
            last_run_at = none;
            created_at = now;
            updated_at = now;
          }
            ∷ [])

    abbrev pub approved_at : ℕ → ℕ → CronJob → CronJob
    approved_at next now j = record j {
      approval_state = approved;
      state = enabled;
      next_run_at = some next;
      updated_at = now;
      version = j.version + 1;
    }

    unfoldable pub approve_job : ℤ → String → ℕ → List CronJob → Result (List CronJob)
    unfolding may_approve next_run
    approve_job actor i now jobs = elim (fetch_one (has_id i) jobs) [
      | none ↦ err job_security
      | some j ↦
          if not (may_approve actor j)
          then err job_security
          else (next_run zones j.schedule now >>= λ next.
              ok (update_where (has_id i) (approved_at next now) jobs))
    ]

  abbrev pub with_state : JobState → ℕ → CronJob → CronJob
  with_state s now j = record j { state = s; updated_at = now; version = j.version + 1 }

  -- the states that `set_state` takes, and the capability for each
  abbrev pub capability_of : JobState → Option Capability
  capability_of paused = some pause
  capability_of enabled = some resume
  capability_of disabled = some resume
  capability_of _ = none

  unfoldable pub set_state : ℤ → String → JobState → ℕ → List CronJob → Result (List CronJob)
  unfolding require
  set_state actor i s now jobs = elim (capability_of s) [
    | none ↦ err job_security
    | some c ↦ require actor c >>= λ _. elim (fetch_one (has_id i) jobs) [
      | none ↦ err job_security
      | some j ↦ ok (update_where (has_id i) (with_state s now) jobs)
    ]
  ]

  unfoldable pub delete_job : ℤ → String → ℕ → List CronJob → Result (List CronJob)
  unfolding require
  delete_job actor i now jobs =
      require actor delete >>= λ _. ok (update_where (has_id i) (with_state deleted now) jobs)
