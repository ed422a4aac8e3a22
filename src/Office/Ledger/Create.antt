-- ===== src/Office/Ledger/Create.antt =====
-- A new job enters the ledger together with its reservation, within the owner's daily limit.
use mathlib.Core.Path.{subst}
use zero_agent.Base.{
  not, ℕ, suc, ◌+◌, ◌≤◌, ◌≡◌, refl, sym, ◌∙◌, Bool, true, false, List, [], ◌∷◌, ◌++◌, none, some,
  ok, err, >>=-eq-ok, if◌then◌else◌, fetch_one, update_where, count_where, sum_of, arith,
  Bool-cases, inl, inr, Option-cases, count_where-update, count_where-append_one, sum_of-append,
  fetch_one-append, str_eq_iff, ltb, daily_jobs,
}
use zero_agent.Tenancy.Ids.{owner_fault}
use zero_agent.Office.Model.{
  QuotaState, Owner, Job, Usage, Db, owner_beq, owner_beq_iff, has_id, is_held,
}
use zero_agent.Office.Quota.{
  is_format, NewJob, creation_events, same_message, is_owner, fresh_usage, ensure_usage,
  with_reservation, jobs_used, reserve_usage, created_job, insert_job, admit_job,
  reserve_and_create,
}
use zero_agent.Office.Ledger.Jobs.{
  Unique, is_committed, contribution, usage_of, Agrees, one_job, size_of, Balanced,
}
use zero_agent.Office.Ledger.Settle.{usage_of_self, usage_of-other}

module _ (o : Owner) (now : ℕ) (rows : List Usage) where
  ensure-row : (u : Usage) × (fetch_one (is_owner o) (ensure_usage o now rows) ≡ some u)
  unfolding ensure_usage
  ensure-row = elim (Option-cases (fetch_one (is_owner o) rows)) [
    | inl missing ↦ (
      fresh_usage o now,
      rw (missing, ensure_usage)
          (rw (
            fetch_one-append (is_owner o) rows (fresh_usage o now),
            missing,
            (owner_beq_iff o o).1 refl,
          )),
    )
    | inr (u, row) ↦ (u, rw (row, ensure_usage) row)
  ]

  usage_of-ensure :
      (f : Usage → ℕ) (k : Owner)
      → f (fresh_usage o now) ≡ 0
      → usage_of f k (ensure_usage o now rows) ≡ usage_of f k rows
  unfolding ensure_usage
  usage_of-ensure f k empty = ground (arith, fetch_one-append (is_owner k) rows (fresh_usage o now))

  keyed-ensure :
      ((k : Owner) → count_where (is_owner k) rows ≤ 1)
      → (k : Owner) → count_where (is_owner k) (ensure_usage o now rows) ≤ 1
  unfolding ensure_usage
  keyed-ensure keyed k = elim (Option-cases (fetch_one (is_owner o) rows)) [
    | inl missing ↦
        rw (missing, ensure_usage)
          (count_where-append_one (is_owner k) rows (fresh_usage o now) (keyed k)
            (λ e. rw (← (owner_beq_iff o k).0 e) missing))
    | inr (u, row) ↦ rw (row, ensure_usage) (keyed k)
  ]

pub Unique-append :
    (jobs : List Job) (j : Job)
    → fetch_one (has_id j.id) jobs ≡ none
    → Unique jobs
    → Unique (jobs ++ j ∷ [])
Unique-append jobs j missing unique i =
    count_where-append_one (has_id i) jobs j (unique i)
      (λ e. subst (λ x. fetch_one (has_id x) jobs ≡ none) ((str_eq_iff j.id i).0 e) missing)

Agrees-append :
    (f : Usage → ℕ) (s : QuotaState → Bool) (w : Job → ℕ) (rows : List Usage) (jobs : List Job)
    (j : Job)
    → (s j.quota_state ≡ false)
    → Agrees f s w rows jobs
    → Agrees f s w rows (jobs ++ j ∷ [])
unfolding sum_of
Agrees-append f s w rows jobs j free agree k =
    rw (sum_of-append (contribution s w k) jobs (j ∷ [])) (ground (arith, agree k))

Agrees-add :
    (f : Usage → ℕ) (s : QuotaState → Bool) (w : Job → ℕ) (g : Usage → Usage) (rows : List Usage)
    (jobs : List Job) (j : Job) (u : Usage)
    → fetch_one (is_owner j.owner) rows ≡ some u
    → ((v : Usage) → (g v).owner ≡ v.owner)
    → f (g u) ≡ f u + (if s j.quota_state then w j else 0)
    → Agrees f s w rows jobs
    → Agrees f s w (update_where (is_owner j.owner) g rows) (jobs ++ j ∷ [])
unfolding sum_of
Agrees-add f s w g rows jobs j u row kept adds agree k =
    let sum = sum_of-append (contribution s w k) jobs (j ∷ []) in
    elim (Bool-cases (owner_beq j.owner k)) [
      | inl mine ↦
          let same : j.owner ≡ k = (owner_beq_iff j.owner k).0 mine in
          let before : usage_of f k rows ≡ f u = rw (← same, row) in
          let after : usage_of f k (update_where (is_owner j.owner) g rows) ≡ f (g u) =
            rw (← same) (usage_of_self f g j.owner kept rows u row) in
          let new : contribution s w k j ≡ (if s j.quota_state then w j else 0) = rw mine in
          omega (arith, agree k)
      | inr other ↦
          let same =
            usage_of-other f g j.owner kept k rows (λ e. cc ((owner_beq_iff j.owner k).1 e)) in
          let new : contribution s w k j ≡ 0 = rw other in omega (arith, agree k)
    ]

module _ (r : NewJob) (now : ℕ) (db : Db) (bal : Balanced db) where
  abbrev pub grown_usage : List Usage
  grown_usage =
      update_where (is_owner r.owner) (with_reservation r now) (ensure_usage r.owner now db.usage)

  -- the counters of the owner's row, as the guard reads them
  used-eq :
      jobs_used (fetch_one (is_owner r.owner) (ensure_usage r.owner now db.usage))
      ≡ usage_of (λ u. u.jobs_reserved) r.owner db.usage
        + usage_of (λ u. u.jobs_committed) r.owner db.usage
  used-eq =
      let (u, row) = ensure-row r.owner now db.usage in
      let reserved = usage_of-ensure r.owner now db.usage (λ v. v.jobs_reserved) r.owner refl in
      let committed = usage_of-ensure r.owner now db.usage (λ v. v.jobs_committed) r.owner refl in
      let used : jobs_used (fetch_one (is_owner r.owner) (ensure_usage r.owner now db.usage))
          ≡ u.jobs_reserved + u.jobs_committed =
        rw row in
      let now_reserved : u.jobs_reserved ≡ usage_of (λ v. v.jobs_reserved) r.owner db.usage =
        rw row at reserved in
      let now_committed : u.jobs_committed ≡ usage_of (λ v. v.jobs_committed) r.owner db.usage =
        rw row at committed in
      omega arith

  pub reserve_usage-eq_ok :
      {rows : List Usage}
      → reserve_usage r now db.usage ≡ ok rows
      → (rows ≡ grown_usage)
        × (suc (
              usage_of (λ u. u.jobs_reserved) r.owner db.usage
              + usage_of (λ u. u.jobs_committed) r.owner db.usage)
            ≤ r.jobs_limit)
  unfolding reserve_usage
  reserve_usage-eq_ok {rows} h = ground (arith, used-eq)

  pub reserve_usage-eq_err :
      reserve_usage r now db.usage ≡ err daily_jobs
      → r.jobs_limit
        ≤ usage_of (λ u. u.jobs_reserved) r.owner db.usage
          + usage_of (λ u. u.jobs_committed) r.owner db.usage
  unfolding reserve_usage
  reserve_usage-eq_err h = ground (arith, used-eq)

  abbrev pub with_job : List Usage → Db
  with_job usage = record db {
    jobs = db.jobs ++ created_job r now ∷ [];
    usage = usage;
    events = db.events ++ creation_events r.job_id now;
  }

  module _ (missing : fetch_one (has_id r.job_id) db.jobs ≡ none) where
    -- the ledger with the new job and its reservation
    reserved_Balanced : r.unlimited_user ≡ false → Balanced (with_job grown_usage)
    unfolding created_job
    reserved_Balanced limited =
        let j = created_job r now in
        let g = with_reservation r now in
        let rows = ensure_usage r.owner now db.usage in
        let (u, row) = ensure-row r.owner now db.usage in
        let add =
          λ (f : Usage → ℕ) (s : QuotaState → Bool) (w : Job → ℕ)
              (empty : f (fresh_usage r.owner now) ≡ 0)
              (adds : f (g u) ≡ f u + (if s j.quota_state then w j else 0))
              (agree : Agrees f s w db.usage db.jobs).
            Agrees-add f s w g rows db.jobs j u row (λ v. refl) adds
              (λ k. usage_of-ensure r.owner now db.usage f k empty ∙ agree k) in
        record {
          unique = Unique-append db.jobs j missing bal.unique;
          keyed = λ o.
              rw (count_where-update (is_owner o) (is_owner r.owner) g rows (λ v. refl))
                (keyed-ensure r.owner now db.usage bal.keyed o);
          jobs_reserved =
              add (λ v. v.jobs_reserved) is_held one_job refl (rw limited) bal.jobs_reserved;
          jobs_committed =
              add (λ v. v.jobs_committed) is_committed one_job refl (rw limited (omega arith))
                bal.jobs_committed;
          characters_reserved =
              add (λ v. v.characters_reserved) is_held size_of refl (rw limited)
                bal.characters_reserved;
          characters_committed =
              add (λ v. v.characters_committed) is_committed size_of refl (rw limited (omega arith))
                bal.characters_committed;
        }

    -- a job without a limit is in no owner's row
    unlimited_Balanced : r.unlimited_user ≡ true → Balanced (with_job db.usage)
    unfolding created_job
    unlimited_Balanced free =
        let j = created_job r now in
        let held : is_held j.quota_state ≡ false = rw free in
        let committed : is_committed j.quota_state ≡ false = rw free in
        record {
          unique = Unique-append db.jobs j missing bal.unique;
          keyed = bal.keyed;
          jobs_reserved =
              Agrees-append (λ v. v.jobs_reserved) is_held one_job db.usage db.jobs j held
                bal.jobs_reserved;
          jobs_committed =
              Agrees-append (λ v. v.jobs_committed) is_committed one_job db.usage db.jobs j
                committed bal.jobs_committed;
          characters_reserved =
              Agrees-append (λ v. v.characters_reserved) is_held size_of db.usage db.jobs j held
                bal.characters_reserved;
          characters_committed =
              Agrees-append (λ v. v.characters_committed) is_committed size_of db.usage db.jobs j
                committed bal.characters_committed;
        }

  pub insert_job-eq_ok :
      (usage : List Usage) {s : Job × Db}
      → insert_job r now usage db ≡ ok s
      → (fetch_one (has_id r.job_id) db.jobs ≡ none) × (s ≡ (created_job r now, with_job usage))
  unfolding insert_job
  insert_job-eq_ok usage {s} h = elim (Bool-cases (not (is_format r.office_format))) [
    | inl other ↦ absurd (ground (arith, (rw other at h)))
    | inr good ↦
        let inserted = rw good at h in
        elim (Option-cases (fetch_one (has_id r.job_id) db.jobs)) [
          | inl missing ↦ (missing, ground (arith, missing, inserted))
          | inr (j, found) ↦ absurd (ground (arith, found, inserted))
        ]
  ]

  admit_job-Balanced : (s : Job × Db) → admit_job r now db ≡ ok s → Balanced s.1
  unfolding admit_job
  admit_job-Balanced s h =
      let (usage, reserved, inserted) =
        >>=-eq-ok (if r.unlimited_user then ok db.usage else reserve_usage r now db.usage) _ h in
      let (missing, done) = insert_job-eq_ok usage inserted in
      rw done (elim (Bool-cases r.unlimited_user) [
        | inl free ↦
            let same : db.usage ≡ usage = ground (arith, free) in
            subst (λ us. Balanced (with_job us)) same (unlimited_Balanced missing free)
        | inr limited ↦
            let grown : reserve_usage r now db.usage ≡ ok usage = rw limited at reserved in
            subst (λ us. Balanced (with_job us)) (sym (reserve_usage-eq_ok grown).0)
              (reserved_Balanced missing limited)
      ])

-- A successful `reserve_and_create` leaves a balanced ledger balanced, whichever way it returns.
pub reserve_and_create-Balanced :
    (r : NewJob) (now : ℕ) (db : Db) (s : Job × Db)
    → Balanced db
    → reserve_and_create r now db ≡ ok s
    → Balanced s.1
unfolding reserve_and_create
reserve_and_create-Balanced r now db s bal h =
    elim (Option-cases (owner_fault r.owner.installation_id r.owner.group_id)) [
      | inr (e, fault) ↦ absurd (ground (arith, fault))
      | inl sound ↦ elim (Bool-cases (ltb r.max_characters r.extracted_characters)) [
        | inl long ↦ absurd (ground (arith, sound, long))
        | inr short ↦
            elim (Option-cases
              (fetch_one (same_message r.account_scope r.chat_id r.message_id) db.jobs)) [
                | inr (j, twice) ↦
                    let same : db ≡ s.1 = ground (arith, sound, short, twice) in rw (← same) bal
                | inl fresh ↦
                    admit_job-Balanced r now db bal s (ground (arith, sound, short, fresh))
              ]
      ]
    ]
