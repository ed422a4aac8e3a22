-- ===== src/Office/Ledger/Limit.antt =====
-- The daily limit on an owner's jobs, as the number of jobs and not of the counters.
use zero_agent.Base.{
  ℕ, suc, ◌+◌, ◌≤◌, ◌≡◌, refl, Bool, true, false, List, [], ◌∷◌, ◌++◌, none, some, String, ◌≢◌, ok,
  err, >>=-eq-ok, if◌then◌else◌, fetch_one, sum_of, arith, inl, inr, Option-cases, sum_of-append,
  daily_jobs, owner_empty, owner_forbidden, owner_candidate, is_blank, codes, fold_codes,
  has_prefix,
}
use zero_agent.Tenancy.Ids.{is_forbidden, candidate_prefix, id_fault, owner_fault}
use zero_agent.Office.Model.{Owner, Job, Db, owner_beq, owner_beq_iff, is_held}
use zero_agent.Office.Quota.{
  NewJob, same_message, reserve_usage, created_job, insert_job, admit_job, reserve_and_create,
}
use zero_agent.Office.Ledger.Jobs.{is_committed, contribution, tally, one_job, Balanced}
use zero_agent.Office.Ledger.Create.{reserve_usage-eq_ok, reserve_usage-eq_err, insert_job-eq_ok}

-- the jobs of an owner that count against the limit
abbrev pub jobs_of : Owner → List Job → ℕ
jobs_of k jobs = tally is_held one_job k jobs + tally is_committed one_job k jobs

jobs_of-created :
    (r : NewJob) (now : ℕ) (jobs : List Job)
    → r.unlimited_user ≡ false
    → jobs_of r.owner (jobs ++ created_job r now ∷ []) ≡ suc (jobs_of r.owner jobs)
unfolding created_job sum_of
jobs_of-created r now jobs limited =
    let j = created_job r now in
    let mine : owner_beq r.owner r.owner ≡ true = (owner_beq_iff r.owner r.owner).1 refl in
    let held : contribution is_held one_job r.owner j ≡ 1 = rw (limited, mine) in
    let committed : contribution is_committed one_job r.owner j ≡ 0 = rw (limited, mine) in
    omega (
      arith,
      sum_of-append (contribution is_held one_job r.owner) jobs (j ∷ []),
      sum_of-append (contribution is_committed one_job r.owner) jobs (j ∷ []),
    )

faults-ne-daily_jobs :
    (a b c : Bool)
    → (if a
        then some owner_empty
        else if b
        then some owner_forbidden
        else if c
        then some owner_candidate
        else none)
      ≢ some daily_jobs
faults-ne-daily_jobs a b c h = ground arith

id_fault-ne-daily_jobs : (v : String) → id_fault v ≢ some daily_jobs
unfolding id_fault
id_fault-ne-daily_jobs v h =
    faults-ne-daily_jobs (is_blank (codes v)) (is_forbidden (fold_codes (codes v)))
      (has_prefix candidate_prefix (codes v)) h

owner_fault-ne-daily_jobs : (i g : String) → owner_fault i g ≢ some daily_jobs
unfolding owner_fault
owner_fault-ne-daily_jobs i g h = elim (Option-cases (id_fault i)) [
  | inl fine ↦ ground (arith, id_fault-ne-daily_jobs g)
  | inr (e, fault) ↦ ground (arith, id_fault-ne-daily_jobs i)
]

module _ (r : NewJob) (now : ℕ) (db : Db) (bal : Balanced db)
    (fresh : fetch_one (same_message r.account_scope r.chat_id r.message_id) db.jobs ≡ none)
    (limited : r.unlimited_user ≡ false) where
  admitted_limit :
      (s : Job × Db) → admit_job r now db ≡ ok s → jobs_of r.owner s.1.jobs ≤ r.jobs_limit
  unfolding admit_job
  admitted_limit s h =
      let (usage, reserved, inserted) =
        >>=-eq-ok (if r.unlimited_user then ok db.usage else reserve_usage r now db.usage) _ h in
      let (missing, done) = insert_job-eq_ok r now db bal usage inserted in
      let grown : reserve_usage r now db.usage ≡ ok usage = rw limited at reserved in
      let (same, room) = reserve_usage-eq_ok r now db bal grown in
      rw done (
        omega (
          arith,
          jobs_of-created r now db.jobs limited,
          bal.jobs_reserved r.owner,
          bal.jobs_committed r.owner,
        ))

  refused_limit : admit_job r now db ≡ err daily_jobs → r.jobs_limit ≤ jobs_of r.owner db.jobs
  unfolding admit_job insert_job
  refused_limit h =
      let refused : reserve_usage r now db.usage ≡ err daily_jobs = ground (arith, limited) in
      omega (
        arith,
        reserve_usage-eq_err r now db bal refused,
        bal.jobs_reserved r.owner,
        bal.jobs_committed r.owner,
      )

  -- past the guards the outcome is that of the ledger
  admit_job_of_ok : (s : Job × Db) → reserve_and_create r now db ≡ ok s → admit_job r now db ≡ ok s
  unfolding reserve_and_create
  admit_job_of_ok s h = ground (arith, fresh)

  admit_job_of_err :
      reserve_and_create r now db ≡ err daily_jobs → admit_job r now db ≡ err daily_jobs
  unfolding reserve_and_create
  admit_job_of_err h =
      ground (arith, fresh, owner_fault-ne-daily_jobs r.owner.installation_id r.owner.group_id)

  -- The daily limit counts jobs. From a balanced ledger, a job that no earlier call created for its
  -- message and that is under a limit is admitted only if its owner's reserved and committed jobs,
  -- the new one included, are at most the limit.
  pub reserve_and_create-daily_limit :
      (s : Job × Db) → reserve_and_create r now db ≡ ok s → jobs_of r.owner s.1.jobs ≤ r.jobs_limit
  reserve_and_create-daily_limit s h = admitted_limit s (admit_job_of_ok s h)

  -- From a balanced ledger, where such a job is refused with `daily_jobs`, its owner's reserved and
  -- committed jobs have used the limit up.
  pub reserve_and_create-daily_jobs :
      reserve_and_create r now db ≡ err daily_jobs → r.jobs_limit ≤ jobs_of r.owner db.jobs
  reserve_and_create-daily_jobs h = refused_limit (admit_job_of_err h)
