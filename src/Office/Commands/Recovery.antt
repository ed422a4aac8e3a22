-- ===== src/Office/Commands/Recovery.antt =====
-- `recover_expired_leases` touches no row but those that it selects.
use zero_agent.Base.{
  ℕ, ◌≤◌, ◌≡◌, ◌≢◌, refl, ap, ◌∙◌, Bool, true, false, List, [], ◌∷◌, none, some, String, ◌==◌,
  string_eq, ok, >>=-eq-ok, fetch_one, select, update_where, count_where, All, All-select, ◌⊎◌,
  arith, Bool-cases, inl, inr, str_eq_iff, leb,
}
use zero_agent.Office.Model.{queued, failed, Job, Db, is_terminal, is_held, has_id, refunded}
use zero_agent.Office.Lease.{
  is_user_day, is_lost, dropped, refund_lost, drop_lease, Recovered, recover_row, recover_rows,
  recover_expired_leases,
}
use zero_agent.Office.Quota.{can_release, released, update_checked}
use zero_agent.Office.Ledger.{Unique, Unique-update}
use zero_agent.Office.Commands.Sound.{Sound}

-- a row with another id is not changed by an update of one row
fetch_one-update_other :
    (i k : String) (h : Job → Job) (jobs : List Job)
    → k ≢ i
    → ((j : Job) → (h j).id ≡ j.id)
    → fetch_one (has_id i) (update_where (has_id k) h jobs) ≡ fetch_one (has_id i) jobs
unfolding fetch_one update_where
fetch_one-update_other i k h [] ne keep = refl
fetch_one-update_other i k h (j ∷ js) ne keep = ground (
  arith,
  keep j,
  str_eq_iff j.id i,
  str_eq_iff j.id k,
  str_eq_iff (h j).id i,
  fetch_one-update_other i k h js ne keep,
)

-- under `P` nothing about the row `i` changes, and ids stay unique
abbrev Others : Type 0 → String → List Job → List Job → Type 0
Others P i jobs jobs' =
    (P → fetch_one (has_id i) jobs' ≡ fetch_one (has_id i) jobs) × (Unique jobs → Unique jobs')

Others-update :
    (i k : String) (h : Job → Job) (jobs : List Job)
    → ((j : Job) → (h j).id ≡ j.id)
    → Others (k ≢ i) i jobs (update_where (has_id k) h jobs)
Others-update i k h jobs keep =
    (λ ne. fetch_one-update_other i k h jobs ne keep, Unique-update (has_id k) h jobs keep)

refund_lost-jobs :
    (j : Job) (now : ℕ) (db db' : Db)
    → refund_lost j now db ≡ ok db'
    → (db'.jobs ≡ db.jobs)
      ⊎ (db'.jobs ≡ update_where (has_id j.id) (λ k. record k { quota_state = refunded }) db.jobs)
unfolding refund_lost
refund_lost-jobs j now db db' h = elim (Bool-cases (is_held j.quota_state)) [
  | inl held ↦
      let charge =
        update_checked (is_user_day j.owner) (can_release j.extracted_characters)
          (released j.extracted_characters now) db.usage in
      let (usage, paid, last) = >>=-eq-ok charge _ (rw held at h) in inr (ground arith)
  | inr free ↦ inl (ground (arith, free))
]

refund_lost-Others :
    (i : String) (j : Job) (now : ℕ) (db db' : Db)
    → refund_lost j now db ≡ ok db'
    → Others (j.id ≢ i) i db.jobs db'.jobs
refund_lost-Others i j now db db' h = elim (refund_lost-jobs j now db db' h) [
  | inl same ↦ rw same (λ ne. refl, λ u. u)
  | inr new ↦
      rw new (Others-update i j.id (λ k. record k { quota_state = refunded }) db.jobs (λ k. refl))
]

recover_row-Others :
    (i : String) (max_attempts now : ℕ) (j : Job) (s s' : Recovered × Db)
    → recover_row max_attempts now j s ≡ ok s'
    → Others (j.id ≢ i) i s.1.jobs s'.1.jobs
unfolding recover_row drop_lease
recover_row-Others i max_attempts now j (n, db) s' h =
    elim (Bool-cases (leb max_attempts j.attempt_count)) [
      | inl spent ↦
          let (db', refunded_db, last) = >>=-eq-ok (refund_lost j now db) _ (rw spent at h) in
          let first = refund_lost-Others i j now db db' refunded_db in
          let second = Others-update i j.id (dropped failed now (some now)) db'.jobs (λ k. refl) in
          let done : s'.1.jobs
              ≡ update_where (has_id j.id) (dropped failed now (some now)) db'.jobs =
            ground arith in
          rw done (λ ne. second.0 ne ∙ first.0 ne, λ u. second.1 (first.1 u))
      | inr left ↦
          let done : s'.1.jobs ≡ update_where (has_id j.id) (dropped queued now none) db.jobs =
            ground (arith, left) in
          rw done (Others-update i j.id (dropped queued now none) db.jobs (λ k. refl))
    ]

recover_rows-Others :
    (i : String) (max_attempts now : ℕ) (rows : List Job) (s s' : Recovered × Db)
    → recover_rows max_attempts now rows s ≡ ok s'
    → Others (All (λ k. k.id ≢ i) rows) i s.1.jobs s'.1.jobs
unfolding recover_rows
recover_rows-Others i max_attempts now [] s s' h =
    let same : s ≡ s' = cc in rw (← same) (λ ne. refl, λ u. u)
recover_rows-Others i max_attempts now (j ∷ js) s s' h =
    let (mid, one, rest) = >>=-eq-ok (recover_row max_attempts now j s) _ h in
    let first = recover_row-Others i max_attempts now j s mid one in
    let second = recover_rows-Others i max_attempts now js mid s' rest in
    (λ ne. second.0 ne.1 ∙ first.0 ne.0, λ u. second.1 (first.1 u))

ids-other :
    (i : String) (jobs : List Job) → count_where (has_id i) jobs ≡ 0 → All (λ k. k.id ≢ i) jobs
unfolding count_where
ids-other i [] h = tt
ids-other i (x ∷ xs) h = ((λ e. ground (arith, str_eq_iff x.id i)), ids-other i xs (ground arith))

-- the rows of a selection differ from a row that it leaves out
select-other :
    (p : Job → Bool) (i : String) (jobs : List Job) (j : Job)
    → count_where (has_id i) jobs ≤ 1
    → fetch_one (has_id i) jobs ≡ some j
    → p j ≡ false
    → All (λ k. k.id ≢ i) (select p jobs)
unfolding select fetch_one count_where
select-other p i [] j unique found out = tt
select-other p i (x ∷ xs) j unique found out = elim (Bool-cases (x.id == i)) [
  | inl here ↦
      let same : x ≡ j = ground arith in
      rw (ap p same, out) (All-select (λ k. k.id ≢ i) p xs (ids-other i xs (ground arith)))
  | inr there ↦
      let rest = select-other p i xs j (ground arith) (ground arith) out in
      elim (Bool-cases (p x)) [
        | inl hit ↦ rw hit ((λ e. ground (arith, str_eq_iff x.id i)), rest)
        | inr miss ↦ rw miss rest
      ]
]

-- a terminal job is not among the lost ones
terminal-kept : (now : ℕ) (j : Job) → is_terminal j.status ≡ true → is_lost now j ≡ false
terminal-kept now j h = ground arith

pub recover-Sound :
    (max_attempts now : ℕ) (db : Db) (s : Recovered × Db)
    → Unique db.jobs
    → recover_expired_leases max_attempts now db ≡ ok s
    → Sound db.jobs s.1.jobs
unfolding recover_expired_leases
recover-Sound max_attempts now db s unique h =
    let start : Recovered × Db = (record { requeued = 0; failed = 0 }, db) in
    let rows = select (is_lost now) db.jobs in
    record {
      terminal = λ i j found t.
          let apart =
            select-other (is_lost now) i db.jobs j (unique i) found (terminal-kept now j t) in
          (j, (recover_rows-Others i max_attempts now rows start s h).0 apart ∙ found, refl);
      unique = (recover_rows-Others "" max_attempts now rows start s h).1;
    }
