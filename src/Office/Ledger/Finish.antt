-- ===== src/Office/Ledger/Finish.antt =====
-- Commit and refund keep the ledger in balance, and no CHECK of the table refuses them.
use mathlib.Core.Path.{subst}
use zero_agent.Base.{
  ℕ, ◌+◌, ◌≤◌, ◌≡◌, refl, sym, Bool, true, false, List, [], ◌∷◌, ◌++◌, some, String, ok,
  if◌then◌else◌, fetch_one, update_where, arith, Bool-cases, inl, inr, Option-cases, narrow, ltb,
  le-sum_of, fetch_one_sound, count_where-update, str_eq_iff,
}
use zero_agent.Office.Model.{
  QuotaState, committed, refunded, Job, Usage, Event, Metric, Outbox, Db, owner_beq, owner_beq_iff,
  has_id, is_held,
}
use zero_agent.Office.Quota.{
  is_owner, can_release, released, settled, with_quota, settle_quota, finish_quota, quota_event,
  add_metric, commit_held, commit_quota_locked, is_reserved_owner,
}
use zero_agent.Office.Ledger.Jobs.{
  Unique-update, is_committed, contribution, tally, usage_of, one_job, size_of, Balanced,
}
use zero_agent.Office.Ledger.Settle.{Agrees-settle, update_checked_one}

-- a held reservation is on its owner's row
pub record HeldRow (j : Job) (usage : List Usage) : Type 0 where
  pub row : Usage
  pub found : fetch_one (is_owner j.owner) usage ≡ some row
  pub one : 1 ≤ row.jobs_reserved
  pub size : j.extracted_characters ≤ row.characters_reserved

pub found_by_own_id :
    (i : String) (jobs : List Job) (j : Job)
    → fetch_one (has_id i) jobs ≡ some j
    → fetch_one (has_id j.id) jobs ≡ some j
found_by_own_id i jobs j h =
    let same : j.id ≡ i = (str_eq_iff j.id i).0 (fetch_one_sound (has_id i) jobs j h) in
    subst (λ x. fetch_one (has_id x) jobs ≡ some j) (sym same) h

-- the database in which the job's quota is `st` and its owner's row went through `g`
abbrev after_settle :
    Db → Job → (Usage → Usage) → QuotaState → ℕ → List Event → List Outbox → List Metric → Db
after_settle db j g st now events outbox metrics = record {
  jobs = update_where (has_id j.id) (with_quota st now) db.jobs;
  usage = update_where (is_owner j.owner) g db.usage;
  events = events;
  outbox = outbox;
  metrics = metrics;
}

module _ (db : Db) (bal : Balanced db) (j : Job) (found : fetch_one (has_id j.id) db.jobs ≡ some j)
    (held : is_held j.quota_state ≡ true) where
  pub held_row : HeldRow j db.usage
  held_row =
      let mine : owner_beq j.owner j.owner ≡ true = (owner_beq_iff j.owner j.owner).1 refl in
      let one : 1 ≤ tally is_held one_job j.owner db.jobs =
        rw (mine, held) at
          (le-sum_of (contribution is_held one_job j.owner) (has_id j.id) db.jobs j found) in
      let size : j.extracted_characters ≤ tally is_held size_of j.owner db.jobs =
        rw (mine, held) at
          (le-sum_of (contribution is_held size_of j.owner) (has_id j.id) db.jobs j found) in
      elim (Option-cases (fetch_one (is_owner j.owner) db.usage)) [
        | inl nothing ↦
            let empty : usage_of (λ u. u.jobs_reserved) j.owner db.usage ≡ 0 = rw nothing in
            absurd (omega (arith, bal.jobs_reserved j.owner))
        | inr (u, row) ↦
            let jobs : usage_of (λ u. u.jobs_reserved) j.owner db.usage ≡ u.jobs_reserved =
              rw row in
            let chars : usage_of (λ u. u.characters_reserved) j.owner db.usage
                ≡ u.characters_reserved =
              rw row in
            record {
              row = u;
              found = row;
              one = omega (arith, bal.jobs_reserved j.owner);
              size = omega (arith, bal.characters_reserved j.owner);
            }
      ]

  balance_after :
      (g : Usage → Usage) (st : QuotaState) (now : ℕ) (r : HeldRow j db.usage) (events : List Event)
      (outbox : List Outbox) (metrics : List Metric)
      → ((v : Usage) → (g v).owner ≡ v.owner)
      → (g r.row).jobs_reserved + 1 ≡ r.row.jobs_reserved + (if is_held st then 1 else 0)
      → (g r.row).jobs_committed + (if is_committed j.quota_state then 1 else 0)
        ≡ r.row.jobs_committed + (if is_committed st then 1 else 0)
      → (g r.row).characters_reserved + j.extracted_characters
        ≡ r.row.characters_reserved + (if is_held st then j.extracted_characters else 0)
      → (g r.row).characters_committed
          + (if is_committed j.quota_state then j.extracted_characters else 0)
        ≡ r.row.characters_committed + (if is_committed st then j.extracted_characters else 0)
      → Balanced (after_settle db j g st now events outbox metrics)
  balance_after g st now r events outbox metrics kept jr jc cr cc' =
      let move = λ (f : Usage → ℕ) (s : QuotaState → Bool) (w : Job → ℕ).
        Agrees-settle f s w g (with_quota st now) db.usage db.jobs j r.row bal.unique found r.found
          refl kept in
      record {
        unique = Unique-update (has_id j.id) (with_quota st now) db.jobs (λ k. refl) bal.unique;
        keyed = λ o.
            rw
              (count_where-update (is_owner o) (is_owner j.owner) g db.usage
                (λ v. rw (kept v) refl))
              (bal.keyed o);
        jobs_reserved = move (λ u. u.jobs_reserved) is_held one_job (rw held jr) bal.jobs_reserved;
        jobs_committed = move (λ u. u.jobs_committed) is_committed one_job jc bal.jobs_committed;
        characters_reserved =
            move (λ u. u.characters_reserved) is_held size_of (rw held cr) bal.characters_reserved;
        characters_committed =
            move (λ u. u.characters_committed) is_committed size_of cc' bal.characters_committed;
      }

  not_committed : is_committed j.quota_state ≡ false
  not_committed = ground arith

  releasable : (r : HeldRow j db.usage) → can_release j.extracted_characters r.row ≡ true
  releasable r = ground (arith, r.one, r.size)

  settle-Balanced :
      (commit : Bool) (reason : String) (now : ℕ)
      → (s : Bool × Db) × (settle_quota commit reason now j db ≡ ok s) × Balanced s.1
  unfolding settle_quota
  settle-Balanced true reason now =
      let r = held_row in
      let g = settled j.extracted_characters now in
      let events = db.events ++ quota_event j "quota_committed" reason now ∷ [] in
      (
        (true, after_settle db j g committed now events db.outbox db.metrics),
        rw (
            update_checked_one (is_owner j.owner) (can_release j.extracted_characters) g db.usage
              r.row (bal.keyed j.owner) r.found (releasable r)),
        balance_after g committed now r events db.outbox db.metrics (λ v. refl)
            (omega (arith, r.one)) (rw not_committed (omega arith)) (omega (arith, r.size))
            (rw not_committed (omega arith)),
      )
  settle-Balanced false reason now =
      let r = held_row in
      let g = released j.extracted_characters now in
      let events = db.events ++ quota_event j "quota_refunded" reason now ∷ [] in
      let metrics = add_metric "office_quota_refunds_total" 1 now db.metrics in
      (
        (true, after_settle db j g refunded now events db.outbox metrics),
        rw (
            update_checked_one (is_owner j.owner) (can_release j.extracted_characters) g db.usage
              r.row (bal.keyed j.owner) r.found (releasable r)),
        balance_after g refunded now r events db.outbox metrics (λ v. refl) (omega (arith, r.one))
            (rw not_committed (omega arith)) (omega (arith, r.size))
            (rw not_committed (omega arith)),
      )

  commit_held-Balanced : (now : ℕ) → (s : Bool × Db) × (commit_held j now db ≡ ok s) × Balanced s.1
  unfolding commit_held
  commit_held-Balanced now =
      let r = held_row in
      let g = settled j.extracted_characters now in
      let events = db.events ++ quota_event j "quota_committed" "delivery_receipt" now ∷ [] in
      let (one, row, same) =
        narrow (is_owner j.owner) (λ u. ltb 0 u.jobs_reserved) g db.usage r.row (bal.keyed j.owner)
          r.found (ground (arith, r.one)) in
      (
        (true, after_settle db j g committed now events db.outbox db.metrics),
        rw
            (update_checked_one (is_reserved_owner j.owner) (can_release j.extracted_characters) g
              db.usage r.row (omega arith) row (releasable r))
            (rw (one, same)),
        balance_after g committed now r events db.outbox db.metrics (λ v. refl)
            (omega (arith, r.one)) (rw not_committed (omega arith)) (omega (arith, r.size))
            (rw not_committed (omega arith)),
      )

-- Commit or refund of any job: no CHECK is broken, and a balanced ledger stays balanced.
pub finish_quota-Balanced :
    (job_id : String) (commit : Bool) (reason : String) (now : ℕ) (db : Db)
    → Balanced db
    → (s : Bool × Db) × (finish_quota job_id commit reason now db ≡ ok s) × Balanced s.1
unfolding finish_quota
finish_quota-Balanced job_id commit reason now db bal =
    elim (Option-cases (fetch_one (has_id job_id) db.jobs)) [
      | inl missing ↦ ((false, db), rw (missing, finish_quota), bal)
      | inr (j, found) ↦ elim (Bool-cases (is_held j.quota_state)) [
        | inl held ↦
            let (s, done, good) =
              settle-Balanced db bal j (found_by_own_id job_id db.jobs j found) held commit reason
                now in
            (s, rw (found, finish_quota) (rw held done), good)
        | inr free ↦ ((false, db), rw (found, finish_quota) (rw free), bal)
      ]
    ]

-- The same of the commit that goes with a delivery receipt: its check of `rowcount` never raises.
pub commit_quota_locked-Balanced :
    (job_id : String) (now : ℕ) (db : Db)
    → Balanced db
    → (s : Bool × Db) × (commit_quota_locked job_id now db ≡ ok s) × Balanced s.1
unfolding commit_quota_locked
commit_quota_locked-Balanced job_id now db bal =
    elim (Option-cases (fetch_one (has_id job_id) db.jobs)) [
      | inl missing ↦ ((false, db), rw (missing, commit_quota_locked), bal)
      | inr (j, found) ↦ elim (Bool-cases (is_held j.quota_state)) [
        | inl held ↦
            let (s, done, good) =
              commit_held-Balanced db bal j (found_by_own_id job_id db.jobs j found) held now in
            (s, rw (found, commit_quota_locked) (rw held done), good)
        | inr free ↦ ((false, db), rw (found, commit_quota_locked) (rw free), bal)
      ]
    ]
