-- ===== src/Office/Commands/Accounts.antt =====
-- The quota ledger stays in balance with the jobs under every operation but the recovery of leases.
use zero_agent.Base.{
  ℕ, ◌+◌, ℤ, ◌≡◌, refl, Bool, ◌&&◌, List, [], ◌∷◌, Option, String, ◌==◌, string_eq, nat_eq, ok,
  >>=-eq-ok, if◌then◌else◌, fetch_one, select, update_where, count_where, arith, Bool-cases, inl,
  inr, Option-cases, take, leb,
}
use zero_agent.Office.Model.{
  Status, queued, quota_reserved, QuotaState, Owner, Usage, Delivery, Job, Outbox, Db, is_held,
  is_active, is_queued, is_quota_reserved, has_id,
}
use zero_agent.Office.Transitions.{
  Note, is_allowed, is_expected, moved, move_job, transition, transition_text, parse_status,
}
use zero_agent.Office.Quota.{
  Artifacts, with_artifacts, has_artifacts, update_job_artifacts, commit_quota_locked,
}
use zero_agent.Office.Lease.{
  sort_jobs, is_leased, has_room, queue_of, claimed, claim_row, claim_next, claim_for_planning,
  is_owned, beating, heartbeat,
}
use zero_agent.Office.Delivery.{
  for_job, has_key, reserve_again, reserve_delivery, receive_delivery,
  complete_delivery_and_commit_quota, is_unsettled, commit_each, reconcile_sent_delivery_quotas,
}
use zero_agent.Office.Ledger.{
  Unique-update, Agrees, Agrees-jobs, Balanced, is_committed, one_job, size_of, contribution,
}
use zero_agent.Office.Ledger.Finish.{commit_quota_locked-Balanced}

-- what the ledger reads of a job
pub record SameAccount (j k : Job) : Type 0 where
  pub id : k.id ≡ j.id
  pub owner : k.owner ≡ j.owner
  pub quota : k.quota_state ≡ j.quota_state
  pub size : k.extracted_characters ≡ j.extracted_characters

pub SameAccount-contribution :
    (s : QuotaState → Bool) (w : Job → ℕ) (j k : Job) (o : Owner)
    → SameAccount j k
    → w k ≡ w j
    → contribution s w o k ≡ contribution s w o j
SameAccount-contribution s w j k o same weight = cc (same.owner, same.quota, weight)

-- a write of jobs that leaves their accounts alone
pub Balanced-update :
    (q : Job → Bool) (h : Job → Job) (db db' : Db)
    → ((j : Job) → SameAccount j (h j))
    → db'.jobs ≡ update_where q h db.jobs
    → db'.usage ≡ db.usage
    → Balanced db
    → Balanced db'
Balanced-update q h db db' same jobs usage bal =
    let move =
      λ (f : Usage → ℕ) (s : QuotaState → Bool) (w : Job → ℕ) (weight : (j : Job) → w (h j) ≡ w j)
          (agree : Agrees f s w db.usage db.jobs).
        Agrees-jobs f s w q h db.usage db.jobs
          (λ j o. SameAccount-contribution s w j (h j) o (same j) (weight j)) agree in
    record {
      unique = rw jobs (Unique-update q h db.jobs (λ j. (same j).id) bal.unique);
      keyed = rw usage bal.keyed;
      jobs_reserved =
          rw (jobs, usage)
            (move (λ u. u.jobs_reserved) is_held one_job (λ j. refl) bal.jobs_reserved);
      jobs_committed =
          rw (jobs, usage)
            (move (λ u. u.jobs_committed) is_committed one_job (λ j. refl) bal.jobs_committed);
      characters_reserved =
          rw (jobs, usage)
            (move (λ u. u.characters_reserved) is_held size_of (λ j. (same j).size)
              bal.characters_reserved);
      characters_committed =
          rw (jobs, usage)
            (move (λ u. u.characters_committed) is_committed size_of (λ j. (same j).size)
              bal.characters_committed);
    }

pub Balanced-same :
    (db db' : Db) → db'.jobs ≡ db.jobs → db'.usage ≡ db.usage → Balanced db → Balanced db'
Balanced-same db db' jobs usage bal = record {
  unique = rw jobs bal.unique;
  keyed = rw usage bal.keyed;
  jobs_reserved = rw (jobs, usage) bal.jobs_reserved;
  jobs_committed = rw (jobs, usage) bal.jobs_committed;
  characters_reserved = rw (jobs, usage) bal.characters_reserved;
  characters_committed = rw (jobs, usage) bal.characters_committed;
}

unchanged : (j : Job) → SameAccount j j
unchanged j = record { id = refl; owner = refl; quota = refl; size = refl }

move_job-Balanced :
    (i : String) (to : Status) (note : Note) (now : ℕ) (j : Job) (db : Db) (s : Bool × Db)
    → Balanced db
    → move_job i to note now j db ≡ ok s
    → Balanced s.1
unfolding move_job
move_job-Balanced i to note now j db s bal h = elim (Bool-cases (is_allowed j.status to)) [
  | inr no_edge ↦ absurd (ground (arith, no_edge))
  | inl edge ↦
      Balanced-update (has_id i) (moved to note now) db s.1
        (λ k. record { id = refl; owner = refl; quota = refl; size = refl }) (ground (arith, edge))
        (ground (arith, edge)) bal
]

pub move-Balanced :
    (i to : String) (e : Option Status) (note : Note) (now : ℕ) (db : Db) (s : Bool × Db)
    → Balanced db
    → transition_text i to e note now db ≡ ok s
    → Balanced s.1
unfolding transition_text transition
move-Balanced i to e note now db s bal h = elim (Option-cases (parse_status to)) [
  | inl unknown ↦ absurd (ground (arith, unknown))
  | inr (st, known) ↦ elim (Option-cases (fetch_one (has_id i) db.jobs)) [
    | inl missing ↦ absurd (ground (arith, known, missing))
    | inr (j, found) ↦ elim (Bool-cases (is_expected e j.status)) [
      | inl expected ↦
          move_job-Balanced i st note now j db s bal (ground (arith, known, found, expected))
      | inr other ↦ let same : db ≡ s.1 = ground (arith, known, found, other) in rw (← same) bal
    ]
  ]
]

claim_row-Balanced :
    (ready : Status → Bool) (from : Status) (event worker owner : String) (lease now : ℕ) (j : Job)
    (db : Db)
    → Balanced db
    → Balanced (claim_row ready from event worker owner lease now j db).1
unfolding claim_row
claim_row-Balanced ready from event worker owner lease now j db bal =
    let hit = λ (k : Job). has_id j.id k && ready k.status in
    elim (Bool-cases (count_where hit db.jobs == 1)) [
      | inr none_hit ↦ rw none_hit bal
      | inl one_hit ↦ rw one_hit (
          Balanced-update hit (claimed owner lease now) db _
            (λ k. record { id = refl; owner = refl; quota = refl; size = refl }) refl refl bal)
    ]

pub claim-Balanced :
    (w : String) (lease global user now : ℕ) (db : Db)
    → Balanced db
    → Balanced (claim_next w lease global user now db).1
unfolding claim_next
claim-Balanced w lease global user now db bal =
    elim (Bool-cases (leb global (count_where (is_leased now) db.jobs))) [
      | inl full ↦ rw full bal
      | inr room ↦ elim (Option-cases (fetch_one (has_room now user db.jobs) (queue_of db.jobs))) [
        | inl idle ↦ rw (room, idle) bal
        | inr (j, next) ↦
            rw (room, next)
              (claim_row-Balanced is_queued queued "job_claimed" w w lease now j db bal)
      ]
    ]

pub plan-Balanced :
    (w p : String) (lease now : ℕ) (db : Db)
    → Balanced db
    → Balanced (claim_for_planning w p lease now db).1
unfolding claim_for_planning
plan-Balanced w p lease now db bal =
    go (take 1 (sort_jobs (select (λ j. is_quota_reserved j.status) db.jobs))) refl
  where
    go :
        (next : List Job)
        → take 1 (sort_jobs (select (λ j. is_quota_reserved j.status) db.jobs)) ≡ next
        → Balanced (claim_for_planning w p lease now db).1
    go [] e = rw (e, claim_for_planning) bal
    go (j ∷ js) e =
        rw (e, claim_for_planning)
          (claim_row-Balanced is_quota_reserved quota_reserved "planning_claimed" w p lease now j db
            bal)

pub beat-Balanced :
    (i w : String) (lease now : ℕ) (db : Db) → Balanced db → Balanced (heartbeat i w lease now db).1
unfolding heartbeat
beat-Balanced i w lease now db =
    Balanced-update (λ j. has_id i j && is_owned w j.lease_owner && is_active j.status)
      (beating lease now) db _ (λ k. record { id = refl; owner = refl; quota = refl; size = refl })
      refl refl

pub annotate-Balanced :
    (i : String) (a : Artifacts) (now : ℕ) (db : Db)
    → Balanced db
    → Balanced (update_job_artifacts i a now db)
unfolding update_job_artifacts
annotate-Balanced i a now db bal = elim (Bool-cases (has_artifacts a)) [
  | inl some_value ↦ rw some_value (
      Balanced-update (has_id i) (with_artifacts a now) db _
        (λ k. record { id = refl; owner = refl; quota = refl; size = refl }) refl refl bal)
  | inr nothing ↦ rw nothing bal
]

pub usage-reserve_delivery :
    (row i w : String) (lease now : ℕ) (db : Db)
    → (reserve_delivery row i w lease now db).1.usage ≡ db.usage
unfolding reserve_delivery
usage-reserve_delivery row i w lease now db =
    elim (Option-cases (fetch_one (for_job i) db.outbox)) [
      | inr (o, old) ↦ rw (old, reserve_delivery) (again o.status o)
      | inl new ↦ elim (Option-cases (fetch_one (has_id i) db.jobs)) [
        | inr (j, found) ↦ rw (new, found, reserve_delivery)
        | inl missing ↦ rw (new, missing, reserve_delivery)
      ]
    ]
  where
    again : (d : Delivery) (o : Outbox) → (reserve_again d i w lease now o db).1.usage ≡ db.usage
    again d o = ground arith

commit-Balanced :
    (i : String) (now : ℕ) (db : Db) (s : Bool × Db)
    → Balanced db
    → commit_quota_locked i now db ≡ ok s
    → Balanced s.1
commit-Balanced i now db s bal h =
    let (t, done, good) = commit_quota_locked-Balanced i now db bal in
    let same : t ≡ s = cc in rw (← same) good

receive_delivery-Balanced :
    (d : Delivery) (key : String) (o : Outbox) (message : ℤ) (now : ℕ) (db : Db) (s : Bool × Db)
    → Balanced db
    → receive_delivery d key o message now db ≡ ok s
    → Balanced s.1
unfolding receive_delivery
receive_delivery-Balanced Delivery.reserved key o message now db s bal h =
    commit-Balanced o.job_id now _ s (Balanced-same db _ refl refl bal) h
receive_delivery-Balanced Delivery.sent key o message now db s bal h =
    let (t, done, last) = >>=-eq-ok (commit_quota_locked o.job_id now db) _ h in
    let same : t.1 ≡ s.1 = ground arith in rw (← same) (commit-Balanced o.job_id now db t bal done)
receive_delivery-Balanced _ key o message now db s bal h =
    let same : db ≡ s.1 = ground arith in rw (← same) bal

pub receive-Balanced :
    (key : String) (message : ℤ) (now : ℕ) (db : Db) (s : Bool × Db)
    → Balanced db
    → complete_delivery_and_commit_quota key message now db ≡ ok s
    → Balanced s.1
unfolding complete_delivery_and_commit_quota
receive-Balanced key message now db s bal h =
    elim (Option-cases (fetch_one (has_key key) db.outbox)) [
      | inl missing ↦ let same : db ≡ s.1 = ground (arith, missing) in rw (← same) bal
      | inr (o, found) ↦
          receive_delivery-Balanced o.status key o message now db s bal
            (rw (found, complete_delivery_and_commit_quota) at h)
    ]

commit_each-Balanced :
    (now : ℕ) (os : List Outbox) (s t : ℕ × Db)
    → Balanced s.1
    → commit_each now os s ≡ ok t
    → Balanced t.1
unfolding commit_each
commit_each-Balanced now [] s t bal h = let same : s ≡ t = cc in rw (← same) bal
commit_each-Balanced now (o ∷ os) (n, db) t bal h =
    let (mid, one, rest) = >>=-eq-ok (commit_quota_locked o.job_id now db) _ h in
    commit_each-Balanced now os (if mid.0 then n + 1 else n, mid.1) t
      (commit-Balanced o.job_id now db mid bal one) rest

pub reconcile-Balanced :
    (now : ℕ) (db : Db) (s : ℕ × Db)
    → Balanced db
    → reconcile_sent_delivery_quotas now db ≡ ok s
    → Balanced s.1
unfolding reconcile_sent_delivery_quotas
reconcile-Balanced now db s bal h =
    commit_each-Balanced now (select (is_unsettled db.jobs) db.outbox) (0, db) s bal h
