-- ===== src/Office/Lease.antt =====
-- The queue of zero/office/db.py: claims under a lease, heartbeats and the recovery of lost leases.
use Prim.Native.Nat.{compare, Ordering}
use Prim.Native.String.{compare as compare_text}
use zero_agent.Base.{
  ℕ, ◌+◌, ℤ, Bool, true, false, ◌&&◌, not, List, [], ◌∷◌, ◌++◌, Option, none, some, String, ◌==◌,
  string_eq, int_eq, nat_eq, cut, ltb, leb, if◌then◌else◌, fetch_one, select, update_where,
  count_where, take, Result, ok, ◌>>=◌, min, max,
}
use zero_agent.Office.Model.{
  Status, quota_reserved, queued, planning, failed, refunded, Owner, Job, Usage, Event, Db, has_id,
  is_active, is_queued, is_quota_reserved, is_held, or_zero,
}
use zero_agent.Office.Transitions.{status_event}
use zero_agent.Office.Quota.{can_release, released, update_checked}

-- ORDER BY created_at,id
unfoldable pub is_before : Job → Job → Bool
is_before a b = elim (compare a.created_at b.created_at) [
  | Ordering.lt ↦ true
  | Ordering.gt ↦ false
  | Ordering.eq ↦ elim (compare_text a.id b.id) [ Ordering.gt ↦ false | _ ↦ true ]
]

unfoldable pub insert_sorted : Job → List Job → List Job
unfolding is_before
insert_sorted j [] = j ∷ []
insert_sorted j (k ∷ ks) = if is_before j k then j ∷ k ∷ ks else k ∷ insert_sorted j ks

unfoldable pub sort_jobs : List Job → List Job
unfolding insert_sorted
sort_jobs [] = []
sort_jobs (j ∷ js) = insert_sorted j (sort_jobs js)

-- an active status under a lease that has not run out
abbrev pub is_leased : ℕ → Job → Bool
is_leased now j = is_active j.status && ltb now (or_zero j.lease_expires_at)

abbrev pub is_leased_by : ℕ → ℤ → Job → Bool
is_leased_by now user j = is_leased now j && j.owner.user_id == user

abbrev pub claimed : String → ℕ → ℕ → Job → Job
claimed worker lease_seconds now j = record j {
  status = planning;
  lease_owner = some worker;
  lease_expires_at = some (now + lease_seconds);
  heartbeat_at = some now;
  attempt_count = j.attempt_count + 1;
  updated_at = now;
}

-- the UPDATE of a claim, its `rowcount`, the event and the row that is read back
unfoldable pub claim_row :
    (Status → Bool) → Status → String → String → String → ℕ → ℕ → Job → Db → Option Job × Db
claim_row ready from event worker owner lease_seconds now j db =
    let hit = λ (k : Job). has_id j.id k && ready k.status in
    let jobs = update_where hit (claimed owner lease_seconds now) db.jobs in
    if not (count_where hit db.jobs == 1) then (none, db) else (
      fetch_one (has_id j.id) jobs,
      record db {
        jobs = jobs;
        events = db.events ++ status_event j.id event from planning (cut 80 worker) "{}" now ∷ [];
      },
    )

-- `busy_users.get(user, 0) < per_user_limit`
abbrev pub has_room : ℕ → ℕ → List Job → Job → Bool
has_room now per_user_limit jobs j =
    ltb (count_where (is_leased_by now j.owner.user_id) jobs) per_user_limit

abbrev pub queue_of : List Job → List Job
queue_of jobs = take 100 (sort_jobs (select (λ j. is_queued j.status) jobs))

unfoldable pub claim_next : String → ℕ → ℕ → ℕ → ℕ → Db → Option Job × Db
unfolding sort_jobs claim_row
claim_next worker lease_seconds global_limit per_user_limit now db =
    if leb global_limit (count_where (is_leased now) db.jobs)
    then (none, db)
    else elim (fetch_one (has_room now per_user_limit db.jobs) (queue_of db.jobs)) [
      | none ↦ (none, db)
      | some j ↦ claim_row is_queued queued "job_claimed" worker worker lease_seconds now j db
    ]

-- the lease is held by f"planner:{worker}"
unfoldable pub claim_for_planning : String → String → ℕ → ℕ → Db → Option Job × Db
unfolding sort_jobs claim_row
claim_for_planning worker planner lease_seconds now db =
    elim (take 1 (sort_jobs (select (λ j. is_quota_reserved j.status) db.jobs))) [
      | [] ↦ (none, db)
      | j ∷ _ ↦
          claim_row is_quota_reserved quota_reserved "planning_claimed" worker planner lease_seconds
            now j db
    ]

abbrev pub is_owned : String → Option String → Bool
is_owned worker none = false
is_owned worker (some o) = o == worker

abbrev pub beating : ℕ → ℕ → Job → Job
beating lease_seconds now j = record j {
  heartbeat_at = some now;
  lease_expires_at = some (now + lease_seconds);
  updated_at = now;
}

unfoldable pub heartbeat : String → String → ℕ → ℕ → Db → Bool × Db
heartbeat job_id worker lease_seconds now db =
    let hit = λ (j : Job). has_id job_id j && is_owned worker j.lease_owner && is_active j.status in
    (
      count_where hit db.jobs == 1,
      record db { jobs = update_where hit (beating lease_seconds now) db.jobs },
    )

-- an active status whose lease has run out
abbrev pub is_lost : ℕ → Job → Bool
is_lost now j = is_active j.status && leb (or_zero j.lease_expires_at) now

-- WHERE user_id=? AND quota_date=?
abbrev pub is_user_day : Owner → Usage → Bool
is_user_day o u = u.owner.user_id == o.user_id && u.owner.quota_date == o.quota_date

abbrev pub dropped : Status → ℕ → Option ℕ → Job → Job
dropped status now completed j = record j {
  status = status;
  lease_owner = none;
  lease_expires_at = none;
  heartbeat_at = none;
  updated_at = now;
  completed_at = completed;
}

abbrev pub recovery_event : Job → String → Status → ℕ → Event
recovery_event j event to now = status_event j.id event j.status to "expired_lease" "{}" now

-- the refund of an exhausted job, `quota_state='refunded'` included
unfoldable pub refund_lost : Job → ℕ → Db → Result Db
unfolding update_checked
refund_lost j now db =
    if not (is_held j.quota_state)
    then ok db
    else update_checked (is_user_day j.owner) (can_release j.extracted_characters)
        (released j.extracted_characters now) db.usage
      >>= λ usage. ok (record db {
        jobs = update_where (has_id j.id) (λ k. record k { quota_state = refunded }) db.jobs;
        usage = usage;
      })

-- the common end of a round: the row is released, and the event written
unfoldable pub drop_lease : Job → Status → String → Option ℕ → ℕ → Db → Db
drop_lease j to event completed now db = record db {
  jobs = update_where (has_id j.id) (dropped to now completed) db.jobs;
  events = db.events ++ recovery_event j event to now ∷ [];
}

pub record Recovered : Type 0 where
  pub requeued : ℕ
  pub failed : ℕ

-- one round of the loop over the lost rows
unfoldable pub recover_row : ℕ → ℕ → Job → Recovered × Db → Result (Recovered × Db)
unfolding refund_lost drop_lease
recover_row max_attempts now j (n, db) =
    if leb max_attempts j.attempt_count
    then (refund_lost j now db >>= λ db'. ok (
      record n { failed = n.failed + 1 },
      drop_lease j failed "lease_exhausted" (some now) now db',
    ))
    else ok
        (record n { requeued = n.requeued + 1 }, drop_lease j queued "lease_recovered" none now db)

unfoldable pub recover_rows : ℕ → ℕ → List Job → Recovered × Db → Result (Recovered × Db)
unfolding recover_row
recover_rows max_attempts now [] s = ok s
recover_rows max_attempts now (j ∷ js) s =
    recover_row max_attempts now j s >>= λ s'. recover_rows max_attempts now js s'

unfoldable pub recover_expired_leases : ℕ → ℕ → Db → Result (Recovered × Db)
unfolding recover_rows
recover_expired_leases max_attempts now db =
    recover_rows max_attempts now (select (is_lost now) db.jobs)
      (record { requeued = 0; failed = 0 }, db)

-- `list_jobs`: WHERE status IN (…), LIMIT min(1000, max(1, limit))
unfoldable pub list_jobs : (Status → Bool) → ℕ → Db → List Job
unfolding sort_jobs
list_jobs wanted limit db =
    take (min 1000 (max 1 limit)) (sort_jobs (select (λ j. wanted j.status) db.jobs))
