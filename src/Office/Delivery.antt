-- ===== src/Office/Delivery.antt =====
-- The delivery outbox of zero/office/db.py.
use zero_agent.Base.{
  ℕ, ◌+◌, ℤ, Bool, true, false, ◌&&◌, List, [], ◌∷◌, ◌++◌, Option, none, some, String, ◌==◌,
  string_eq, cut, ltb, if◌then◌else◌, fetch_one, select, update_where, Result, ok, err, ◌>>=◌,
  invalid_delivery_status,
}
use Prim.Native.String
use zero_agent.Office.Model.{Delivery, Job, Outbox, Db, has_id, is_held, or_zero}
use zero_agent.Office.Quota.{commit_quota_locked}

abbrev pub for_job : String → Outbox → Bool
for_job i o = o.job_id == i

abbrev pub has_key : String → Outbox → Bool
has_key k o = o.outbound_key == k

-- f"office:{job_id}"
abbrev pub office_key : String → String
office_key i = String.◌++◌ "office:" i

abbrev pub crashed : ℕ → Outbox → Outbox
crashed now o = record o {
  status = Delivery.ambiguous;
  lease_owner = none;
  lease_expires_at = none;
  error_code = "crash_window";
  updated_at = now;
}

abbrev pub taken_again : String → ℕ → ℕ → Outbox → Outbox
taken_again worker lease_seconds now o = record o {
  status = Delivery.reserved;
  attempt_count = o.attempt_count + 1;
  lease_owner = some worker;
  lease_expires_at = some (now + lease_seconds);
  updated_at = now;
}

-- `reserve_delivery` where the job has a row
unfoldable pub reserve_again : Delivery → String → String → ℕ → ℕ → Outbox → Db → Option String × Db
reserve_again Delivery.reserved job_id worker lease_seconds now o db =
    if ltb now (or_zero o.lease_expires_at)
    then (none, db)
    else (none, record db { outbox = update_where (for_job job_id) (crashed now) db.outbox })
reserve_again Delivery.retryable_failed job_id worker lease_seconds now o db = (
  some o.outbound_key,
  record db {
    outbox = update_where (for_job job_id) (taken_again worker lease_seconds now) db.outbox;
  },
)
reserve_again _ job_id worker lease_seconds now o db = (none, db)

unfoldable pub new_delivery : String → String → ℕ → ℕ → Job → Outbox
new_delivery row_id worker lease_seconds now j = record {
  id = row_id;
  job_id = j.id;
  outbound_key = office_key j.id;
  installation_id = j.owner.installation_id;
  group_id = j.owner.group_id;
  thread_id = j.thread_id;
  destination_chat_id = j.chat_id;
  status = Delivery.reserved;
  attempt_count = 1;
  lease_owner = some worker;
  lease_expires_at = some (now + lease_seconds);
  telegram_message_id = none;
  error_code = "";
  created_at = now;
  updated_at = now;
}

-- `reserve_delivery`; `row_id` is the `uuid4` drawn in it
unfoldable pub reserve_delivery : String → String → String → ℕ → ℕ → Db → Option String × Db
unfolding reserve_again new_delivery
reserve_delivery row_id job_id worker lease_seconds now db =
    elim (fetch_one (for_job job_id) db.outbox) [
      | some o ↦ reserve_again o.status job_id worker lease_seconds now o db
      | none ↦ elim (fetch_one (has_id job_id) db.jobs) [
        | none ↦ (none, db)
        | some j ↦ (
          some (office_key job_id),
          record db { outbox = db.outbox ++ new_delivery row_id worker lease_seconds now j ∷ [] },
        )
      ]
    ]

-- a delivery that the sender reports
abbrev pub is_report : Delivery → Bool
is_report Delivery.reserved = false
is_report _ = true

abbrev pub reported : Delivery → String → Option ℤ → ℕ → Outbox → Outbox
reported status error message now o = record o {
  status = status;
  error_code = cut 80 error;
  telegram_message_id = message;
  lease_owner = none;
  lease_expires_at = none;
  updated_at = now;
}

unfoldable pub complete_delivery : String → Delivery → String → Option ℤ → ℕ → Db → Result Db
complete_delivery key status error message now db =
    if is_report status
    then ok (record db {
      outbox = update_where (has_key key) (reported status error message now) db.outbox;
    })
    else err invalid_delivery_status

-- the receipt is written before the quota is committed, in one transaction
unfoldable pub receive_delivery : Delivery → String → Outbox → ℤ → ℕ → Db → Result (Bool × Db)
unfolding commit_quota_locked
receive_delivery Delivery.reserved key o message now db =
    commit_quota_locked o.job_id now (record db {
      outbox = update_where (has_key key) (reported Delivery.sent "" (some message) now) db.outbox;
    })
receive_delivery Delivery.sent key o message now db =
    commit_quota_locked o.job_id now db >>= λ s. ok (true, s.1)
receive_delivery _ key o message now db = ok (false, db)

unfoldable pub complete_delivery_and_commit_quota : String → ℤ → ℕ → Db → Result (Bool × Db)
unfolding receive_delivery
complete_delivery_and_commit_quota key message now db = elim (fetch_one (has_key key) db.outbox) [
  | none ↦ ok (false, db)
  | some o ↦ receive_delivery o.status key o message now db
]

abbrev pub is_sent : Delivery → Bool
is_sent Delivery.sent = true
is_sent _ = false

abbrev pub is_unsettled : List Job → Outbox → Bool
is_unsettled jobs o =
    is_sent o.status
    && elim (fetch_one (has_id o.job_id) jobs) [ none ↦ false | some j ↦ is_held j.quota_state ]

unfoldable pub commit_each : ℕ → List Outbox → ℕ × Db → Result (ℕ × Db)
unfolding commit_quota_locked
commit_each now [] s = ok s
commit_each now (o ∷ os) (n, db) = commit_quota_locked o.job_id now db >>= λ s.
    commit_each now os ((if s.0 then n + 1 else n), s.1)

unfoldable pub reconcile_sent_delivery_quotas : ℕ → Db → Result (ℕ × Db)
unfolding commit_each
reconcile_sent_delivery_quotas now db =
    commit_each now (select (is_unsettled db.jobs) db.outbox) (0, db)
