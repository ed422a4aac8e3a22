-- ===== src/Office/Coordinator.antt =====
-- zero/office/delivery.py: `DeliveryCoordinator.tick`. The look at the output file, the summary by
-- the model and the send to Telegram are one parameter, `Sending`: the id of the message that was
-- sent (none where the client returned no id), or the name of the caught exception that was raised.
-- The clock is read once for a delivery.
use zero_agent.Base.{
  ℕ, ℤ, ◌≡◌, refl, Bool, true, false, List, [], ◌∷◌, Option, none, some, String, Result, ok, err,
  if◌then◌else◌, fetch_one, update_where, ◌>>=◌, reservation_missing, fetch_one-update,
  fetch_one_sound, leb,
}
use zero_agent.Tenancy.Ids.{owner_fault}
use zero_agent.Office.Model.{Status, completed, Delivery, Job, Outbox, Db, has_id, is_held}
use zero_agent.Office.Quota.{add_metric, commit_quota_locked}
use zero_agent.Office.Delivery.{
  has_key, reported, complete_delivery, reserve_delivery, receive_delivery,
  complete_delivery_and_commit_quota, reconcile_sent_delivery_quotas,
}
use zero_agent.Office.Lease.{list_jobs}

-- what the loop returns for a job
pub record Delivered : Type 0 where
  pub job_id : String
  pub status : Delivery
  pub receipt : Option ℤ

pub data Sending : Type 0 where
  returned : Option ℤ → Sending
  raised : String → Sending

abbrev pub is_completed : Status → Bool
is_completed completed = true
is_completed _ = false

-- the handler of the caught exceptions
unfoldable pub delivery_failed : String → String → Bool → String → ℕ → Db → Result (Delivered × Db)
unfolding complete_delivery
delivery_failed key job_id send_returned error now db =
    let status = if send_returned then Delivery.ambiguous else Delivery.retryable_failed in
    complete_delivery key status error none now
      (record db { metrics = add_metric "office_delivery_failures_total" 1 now db.metrics })
    >>= λ db'. ok (record { job_id = job_id; status = status; receipt = none }, db')

-- after the send returned: a `False` and a missing reservation are a RuntimeError, which is caught
unfoldable pub settle_delivery :
    String → String → ℤ → ℕ → Db → Result (Bool × Db) → Result (Delivered × Db)
unfolding delivery_failed
settle_delivery key job_id message now db (ok (true, db')) =
    ok (record { job_id = job_id; status = Delivery.sent; receipt = some message }, db')
settle_delivery key job_id message now db (ok (false, db')) =
    delivery_failed key job_id true "RuntimeError" now db'
settle_delivery key job_id message now db (err reservation_missing) =
    delivery_failed key job_id true "RuntimeError" now db
settle_delivery key job_id message now db (err e) = err e

-- the body of the loop, once `reserve_delivery` gave the key; `_verify_job_scope` comes first
unfoldable pub deliver : String → Job → Sending → ℕ → Db → Result (Delivered × Db)
unfolding settle_delivery
deliver key j send now db = elim (owner_fault j.owner.installation_id j.owner.group_id) [
  | some e ↦ delivery_failed key j.id false "RuntimeError" now db
  | none ↦ elim send [
    | raised error ↦ delivery_failed key j.id false error now db
    | returned receipt ↦ elim receipt [
      | none ↦ delivery_failed key j.id true "RuntimeError" now db
      | some message ↦
          settle_delivery key j.id message now db
            (complete_delivery_and_commit_quota key message now db)
    ]
  ]
]

-- what `tick` returns
pub data Ticked : Type 0 where
  idle : Ticked
  reconciled : ℕ → Ticked
  delivered : Delivered → Ticked

module _ (row_of : Job → String) (send : Job → Sending) (worker : String) (now : ℕ) where
  -- the loop over the completed jobs; `row_of` is the `uuid4` drawn for a new outbox row
  unfoldable pub offer : List Job → Db → Result (Ticked × Db)
  unfolding deliver
  offer [] db = ok (idle, db)
  offer (j ∷ js) db =
      let (reserved, db') = reserve_delivery (row_of j) j.id worker 300 now db in
      elim reserved [
        | none ↦ offer js db'
        | some key ↦ deliver key j (send j) now db' >>= λ r. ok (delivered r.0, r.1)
      ]

  unfoldable pub tick : Db → Result (Ticked × Db)
  unfolding offer
  tick db = reconcile_sent_delivery_quotas now db >>= λ r.
      if leb 1 r.0 then ok (reconciled r.0, r.1) else offer (list_jobs is_completed 100 r.1) r.1

module _ (key : String) (j : Job) (message : ℤ) (now : ℕ) (db : Db) (o : Outbox)
    (sound : owner_fault j.owner.installation_id j.owner.group_id ≡ none)
    (row : fetch_one (has_key key) db.outbox ≡ some o) (mine : o.job_id ≡ j.id)
    (reserved : o.status ≡ Delivery.reserved) (stored : fetch_one (has_id j.id) db.jobs ≡ some j)
    (free : is_held j.quota_state ≡ false) where
  receive-false :
      complete_delivery_and_commit_quota key message now db
      ≡ ok (
        false,
        record db {
          outbox =
              update_where (has_key key) (reported Delivery.sent "" (some message) now) db.outbox;
        },
      )
  unfolding complete_delivery_and_commit_quota receive_delivery commit_quota_locked
  receive-false =
      rw (row, complete_delivery_and_commit_quota)
        (rw (reserved, receive_delivery) (rw mine (rw (stored, commit_quota_locked) (rw free))))

  abbrev first_rows : List Outbox
  first_rows = update_where (has_key key) (reported Delivery.sent "" (some message) now) db.outbox

  abbrev last_rows : List Outbox
  last_rows =
      update_where (has_key key) (reported Delivery.ambiguous "RuntimeError" none now) first_rows

  last_row :
      fetch_one (has_key key) last_rows
      ≡ some (
          reported Delivery.ambiguous "RuntimeError" none now
            (reported Delivery.sent "" (some message) now o))
  last_row =
      let hit = fetch_one_sound (has_key key) db.outbox o row in
      let first =
        fetch_one-update (has_key key) (has_key key) (reported Delivery.sent "" (some message) now)
          db.outbox (λ p. refl) in
      let last =
        fetch_one-update (has_key key) (has_key key)
          (reported Delivery.ambiguous "RuntimeError" none now) first_rows (λ p. refl) in
      rw (last, first, row, hit, hit)

  -- A delivery that Telegram accepted is recorded as `ambiguous`, its receipt erased, if the job's
  -- quota is not reserved: so with every job of an unlimited user.
  pub deliver-unlimited :
      (d : Delivered × Db) × (deliver key j (returned (some message)) now db ≡ ok d)
      × (d.0.status ≡ Delivery.ambiguous)
      × ((p : Outbox) × (fetch_one (has_key key) d.1.outbox ≡ some p)
          × (p.status ≡ Delivery.ambiguous)
          × (p.telegram_message_id ≡ none))
  unfolding deliver settle_delivery delivery_failed complete_delivery
  deliver-unlimited = (
    (
      record { job_id = j.id; status = Delivery.ambiguous; receipt = none },
      record db {
        outbox = last_rows;
        metrics = add_metric "office_delivery_failures_total" 1 now db.metrics;
      },
    ),
    rw (sound, deliver) (rw (receive-false, settle_delivery)),
    refl,
    (
      reported Delivery.ambiguous "RuntimeError" none now
          (reported Delivery.sent "" (some message) now o),
      last_row,
      refl,
      refl,
    ),
  )
