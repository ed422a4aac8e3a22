-- ===== src/Office/Ledger/Jobs.antt =====
-- The abstract view of the ledger: for each owner, the number and the size of its jobs by the state
-- of their quota.
use zero_agent.Base.{
  ℕ, ◌≤◌, ◌≡◌, refl, Bool, true, false, ◌&&◌, List, Option, none, some, String, if◌then◌else◌,
  fetch_one, update_where, count_where, sum_of, count_where-update,
}
use zero_agent.Office.Model.{
  QuotaState, committed, Owner, Job, Usage, Db, owner_beq, has_id, is_held,
}
use zero_agent.Office.Quota.{is_owner}

abbrev pub is_committed : QuotaState → Bool
is_committed committed = true
is_committed _ = false

-- at most one job has a given id
abbrev pub Unique : List Job → Type 0
Unique jobs = (i : String) → count_where (has_id i) jobs ≤ 1

abbrev pub contribution : (QuotaState → Bool) → (Job → ℕ) → Owner → Job → ℕ
contribution s w k j = if owner_beq j.owner k && s j.quota_state then w j else 0

-- the jobs of an owner whose quota is in a state, weighed by `w`
abbrev pub tally : (QuotaState → Bool) → (Job → ℕ) → Owner → List Job → ℕ
tally s w k = sum_of (contribution s w k)

abbrev pub column : (Usage → ℕ) → Option Usage → ℕ
column f none = 0
column f (some u) = f u

-- a column of the owner's row, 0 where there is none
abbrev pub usage_of : (Usage → ℕ) → Owner → List Usage → ℕ
usage_of f k rows = column f (fetch_one (is_owner k) rows)

abbrev pub Agrees : (Usage → ℕ) → (QuotaState → Bool) → (Job → ℕ) → List Usage → List Job → Type 0
Agrees f s w usage jobs = (k : Owner) → usage_of f k usage ≡ tally s w k jobs

abbrev pub one_job : Job → ℕ
one_job j = 1

abbrev pub size_of : Job → ℕ
size_of j = j.extracted_characters

-- every row of `office_quota_usage` counts exactly the jobs that it stands for
pub record Balanced (db : Db) : Type 0 where
  pub unique : Unique db.jobs
  pub keyed : (o : Owner) → count_where (is_owner o) db.usage ≤ 1
  pub jobs_reserved : Agrees (λ u. u.jobs_reserved) is_held one_job db.usage db.jobs
  pub jobs_committed : Agrees (λ u. u.jobs_committed) is_committed one_job db.usage db.jobs
  pub characters_reserved : Agrees (λ u. u.characters_reserved) is_held size_of db.usage db.jobs
  pub characters_committed :
      Agrees (λ u. u.characters_committed) is_committed size_of db.usage db.jobs

pub Unique-update :
    (q : Job → Bool) (f : Job → Job) (jobs : List Job)
    → ((j : Job) → (f j).id ≡ j.id)
    → Unique jobs
    → Unique (update_where q f jobs)
Unique-update q f jobs keep u i =
    rw (count_where-update (has_id i) q f jobs (λ j. rw (keep j) refl)) (u i)
