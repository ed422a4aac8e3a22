-- ===== src/Office/Once.antt =====
-- A finished job is sent to its chat at most once, whatever senders come and crash.
use mathlib.Core.Path.{subst}
use zero_agent.Base.{
  ℕ, ℤ, ◌≡◌, refl, sym, Bool, true, false, List, [], ◌∷◌, Option, none, some, String, string_eq,
  fetch_one, update_where, arith, Bool-cases, inl, inr, ◌⊎◌, Option-cases, ltb, length, ◌≤◌,
  fetch_one-update, fetch_one-append, fetch_one_sound, str_eq_iff, ok,
}
use zero_agent.Office.Model.{Delivery, Outbox, Db, has_id, or_zero}
use zero_agent.Office.Delivery.{
  for_job, has_key, crashed, taken_again, new_delivery, reserve_again, reserve_delivery, reported,
  complete_delivery,
}

-- an attempt to reserve the delivery of a job: the row's id, the worker, the lease and the clock
pub record Attempt : Type 0 where
  pub row_id : String
  pub worker : String
  pub lease_seconds : ℕ
  pub now : ℕ

abbrev pub is_retryable : Delivery → Bool
is_retryable Delivery.retryable_failed = true
is_retryable _ = false

-- the job has an outbox row from which no sender may start
abbrev pub IsClosed : String → List Outbox → Type 0
IsClosed i rows =
    (o : Outbox) × (fetch_one (for_job i) rows ≡ some o) × (is_retryable o.status ≡ false)

abbrev pub with_key : Option String → List String → List String
with_key none keys = keys
with_key (some k) keys = k ∷ keys

abbrev pub attempt : String → Attempt → Db → Option String × Db
attempt i a db = reserve_delivery a.row_id i a.worker a.lease_seconds a.now db

-- the attempts in turn, and the keys handed to senders
unfoldable pub attempts : String → List Attempt → Db → List String × Db
attempts i [] db = ([], db)
attempts i (a ∷ more) db =
    let rest = attempts i more (attempt i a db).1 in (with_key (attempt i a db).0 rest.0, rest.1)

-- an update of the job's row to a status that is not retryable closes it
update-IsClosed :
    (i : String) (f : Outbox → Outbox) (rows : List Outbox) (o : Outbox)
    → fetch_one (for_job i) rows ≡ some o
    → ((p : Outbox) → (f p).job_id ≡ p.job_id)
    → is_retryable (f o).status ≡ false
    → IsClosed i (update_where (for_job i) f rows)
update-IsClosed i f rows o found keep closed =
    let read = fetch_one-update (for_job i) (for_job i) f rows (λ p. rw (keep p) refl) in
    (f o, rw (read, found, fetch_one_sound (for_job i) rows o found), closed)

reserve_again-IsClosed :
    (d : Delivery) (i w : String) (lease now : ℕ) (o : Outbox) (db : Db)
    → fetch_one (for_job i) db.outbox ≡ some o
    → o.status ≡ d
    → IsClosed i (reserve_again d i w lease now o db).1.outbox
unfolding reserve_again
reserve_again-IsClosed Delivery.reserved i w lease now o db found same =
    elim (Bool-cases (ltb now (or_zero o.lease_expires_at))) [
      | inl live ↦ rw live (o, found, rw same)
      | inr lost ↦ rw lost (update-IsClosed i (crashed now) db.outbox o found (λ p. refl) refl)
    ]
reserve_again-IsClosed Delivery.retryable_failed i w lease now o db found same =
    update-IsClosed i (taken_again w lease now) db.outbox o found (λ p. refl) refl
reserve_again-IsClosed _ i w lease now o db found same = (o, found, rw same)

reserve_again-refuses :
    (d : Delivery) (i w : String) (lease now : ℕ) (o : Outbox) (db : Db)
    → is_retryable d ≡ false
    → (reserve_again d i w lease now o db).0 ≡ none
unfolding reserve_again
reserve_again-refuses d i w lease now o db h = ground arith

module _ (row i w : String) (lease now : ℕ) (db : Db) where
  abbrev outcome : Option String × Db
  outcome = reserve_delivery row i w lease now db

  -- a closed row refuses every sender, and stays closed
  IsClosed-refuses : IsClosed i db.outbox → (outcome.0 ≡ none) × IsClosed i outcome.1.outbox
  unfolding reserve_delivery
  IsClosed-refuses (o, found, shut) = (
    rw (found, reserve_delivery) (reserve_again-refuses o.status i w lease now o db shut),
    rw (found, reserve_delivery) (reserve_again-IsClosed o.status i w lease now o db found refl),
  )

  -- an attempt leaves a closed row, unless there is no such job
  one_attempt : ((outcome.0 ≡ none) × (outcome.1 ≡ db)) ⊎ IsClosed i outcome.1.outbox
  unfolding reserve_delivery new_delivery
  one_attempt = elim (Option-cases (fetch_one (for_job i) db.outbox)) [
    | inr (o, found) ↦ inr (
        rw (found, reserve_delivery)
          (reserve_again-IsClosed o.status i w lease now o db found refl))
    | inl new ↦ elim (Option-cases (fetch_one (has_id i) db.jobs)) [
      | inl missing ↦ inl (rw (new, missing, reserve_delivery), rw (new, missing, reserve_delivery))
      | inr (j, stored) ↦
          let same : j.id ≡ i =
            (str_eq_iff j.id i).0 (fetch_one_sound (has_id i) db.jobs j stored) in
          let d = new_delivery row w lease now j in
          let mine : for_job i d ≡ true = (str_eq_iff j.id i).1 same in
          inr (
            rw (new, stored, reserve_delivery)
              (d, rw (fetch_one-append (for_job i) db.outbox d, new, mine), refl))
    ]
  ]

attempts-IsClosed :
    (i : String) (more : List Attempt) (db : Db)
    → IsClosed i db.outbox
    → ((attempts i more db).0 ≡ []) × IsClosed i (attempts i more db).1.outbox
unfolding attempts
attempts-IsClosed i [] db c = (refl, c)
attempts-IsClosed i (a ∷ more) db c =
    let (refused, still) = IsClosed-refuses a.row_id i a.worker a.lease_seconds a.now db c in
    let rest =
      attempts-IsClosed i more (reserve_delivery a.row_id i a.worker a.lease_seconds a.now db).1
        still in
    (
      subst (λ key. with_key key (attempts i more (attempt i a db).1).0 ≡ []) (sym refused) rest.0,
      rest.1,
    )

length-with_key : (k : Option String) → length (with_key k []) ≤ 1
length-with_key none = omega arith
length-with_key (some k) = omega arith

-- Between two reports of a sender, however many senders try to reserve the delivery of a job, with
-- whatever leases and clocks, at most one of them is given the key.
pub attempts_once : (i : String) (more : List Attempt) (db : Db) → length (attempts i more db).0 ≤ 1
unfolding attempts
attempts_once i [] db = omega arith
attempts_once i (a ∷ more) db =
    let next = (reserve_delivery a.row_id i a.worker a.lease_seconds a.now db).1 in
    elim (one_attempt a.row_id i a.worker a.lease_seconds a.now db) [
      | inl (refused, same) ↦
          subst (λ key. length (with_key key (attempts i more next).0) ≤ 1) (sym refused)
            (attempts_once i more next)
      | inr closed ↦
          subst
            (λ keys.
              length
                (with_key (reserve_delivery a.row_id i a.worker a.lease_seconds a.now db).0 keys)
              ≤ 1)
            (sym (attempts-IsClosed i more next closed).0) (length-with_key _)
    ]

-- After a sender reports anything but a failure that may be retried (a receipt, a permanent
-- failure, an unknown outcome), no later attempt is ever given the key of the job's delivery.
pub reported-final :
    (i key : String) (d : Delivery) (e : String) (message : Option ℤ) (now : ℕ) (db db' : Db)
    (o : Outbox) (more : List Attempt)
    → fetch_one (for_job i) db.outbox ≡ some o
    → o.outbound_key ≡ key
    → is_retryable d ≡ false
    → complete_delivery key d e message now db ≡ ok db'
    → (attempts i more db').0 ≡ []
unfolding complete_delivery
reported-final i key d e message now db db' o more found mine final h =
    let done : db'.outbox ≡ update_where (has_key key) (reported d e message now) db.outbox =
      ground arith in
    let read =
      fetch_one-update (for_job i) (has_key key) (reported d e message now) db.outbox (λ p. refl) in
    let hit : has_key key o ≡ true = (str_eq_iff o.outbound_key key).1 mine in
    (attempts-IsClosed i more db'
      (reported d e message now o, rw (done, read, found, hit), final)).0
