-- ===== src/Office/Commands/Terminal.antt =====
-- A job that is completed, failed, cancelled or expired stays so, and ids stay unique, whatever the
-- order in which the operations of the repository are called.
use zero_agent.Base.{
  ℕ, ◌+◌, ℤ, ◌≡◌, refl, Bool, true, ◌&&◌, List, [], ◌∷◌, Option, some, String, string_eq, nat_eq,
  Result, ok, err, >>=-eq-ok, if◌then◌else◌, fetch_one, select, arith, Bool-cases, inl, inr,
  Option-cases, take,
}
use zero_agent.Office.Model.{
  Status, quota_reserved, Delivery, Job, Outbox, Db, is_terminal, is_active, is_quota_reserved,
  has_id,
}
use zero_agent.Office.Transitions.{Note, transition_text, parse_status}
use zero_agent.Office.Quota.{
  reserve_and_create, finish_quota, Artifacts, with_artifacts, has_artifacts, update_job_artifacts,
  commit_quota_locked,
}
use zero_agent.Office.Lease.{
  sort_jobs, claim_next, recover_expired_leases, claim_for_planning, is_owned, beating, heartbeat,
}
use zero_agent.Office.Delivery.{
  for_job, has_key, reserve_again, reserve_delivery, complete_delivery, receive_delivery,
  complete_delivery_and_commit_quota, is_unsettled, commit_each, reconcile_sent_delivery_quotas,
}
use zero_agent.Office.Ledger.{Unique}
use zero_agent.Office.Commands.Steps.{
  Command, create, move, settle, annotate, claim, plan, beat, recover, reserve, complete, receive,
  reconcile, state_of, exec, settled_state, run,
}
use zero_agent.Office.Commands.Sound.{Sound, Sound-refl, Sound-trans, Sound-quiet}
use zero_agent.Office.Commands.Recovery.{recover-Sound}
use zero_agent.Office.Commands.Ops.{
  transition-Sound, create-Sound, settle-Sound, commit-Sound, claim_row-Sound, claim-Sound,
}

move-Sound :
    (i to : String) (e : Option Status) (note : Note) (now : ℕ) (db : Db) (s : Bool × Db)
    → transition_text i to e note now db ≡ ok s
    → Sound db.jobs s.1.jobs
unfolding transition_text
move-Sound i to e note now db s h = elim (Option-cases (parse_status to)) [
  | inl unknown ↦ absurd (ground (arith, unknown))
  | inr (st, known) ↦ transition-Sound i st e note now db s (ground (arith, known))
]

plan-Sound :
    (w p : String) (lease now : ℕ) (db : Db)
    → Sound db.jobs (claim_for_planning w p lease now db).1.jobs
unfolding claim_for_planning
plan-Sound w p lease now db =
    go (take 1 (sort_jobs (select (λ j. is_quota_reserved j.status) db.jobs))) refl
  where
    go :
        (next : List Job)
        → take 1 (sort_jobs (select (λ j. is_quota_reserved j.status) db.jobs)) ≡ next
        → Sound db.jobs (claim_for_planning w p lease now db).1.jobs
    go [] e = rw (e, claim_for_planning) (Sound-refl db.jobs)
    go (j ∷ js) e =
        rw (e, claim_for_planning)
          (claim_row-Sound is_quota_reserved quota_reserved "planning_claimed" w p lease now j db
            (λ st t. ground arith))

beat-Sound :
    (i w : String) (lease now : ℕ) (db : Db) → Sound db.jobs (heartbeat i w lease now db).1.jobs
unfolding heartbeat
beat-Sound i w lease now db =
    Sound-quiet (λ j. has_id i j && is_owned w j.lease_owner && is_active j.status)
      (beating lease now) db.jobs (λ k. refl) (λ k. refl)

annotate-Sound :
    (i : String) (a : Artifacts) (now : ℕ) (db : Db)
    → Sound db.jobs (update_job_artifacts i a now db).jobs
unfolding update_job_artifacts
annotate-Sound i a now db = elim (Bool-cases (has_artifacts a)) [
  | inl some_value ↦
      rw some_value (Sound-quiet (has_id i) (with_artifacts a now) db.jobs (λ k. refl) (λ k. refl))
  | inr nothing ↦ rw nothing (Sound-refl db.jobs)
]

-- `reserve_delivery` writes to the outbox only
jobs-reserve_again :
    (d : Delivery) (i w : String) (lease now : ℕ) (o : Outbox) (db : Db)
    → (reserve_again d i w lease now o db).1.jobs ≡ db.jobs
unfolding reserve_again
jobs-reserve_again d i w lease now o db = ground arith

pub jobs-reserve_delivery :
    (row i w : String) (lease now : ℕ) (db : Db)
    → (reserve_delivery row i w lease now db).1.jobs ≡ db.jobs
unfolding reserve_delivery
jobs-reserve_delivery row i w lease now db = elim (Option-cases (fetch_one (for_job i) db.outbox)) [
  | inr (o, old) ↦ rw (old, reserve_delivery) (jobs-reserve_again o.status i w lease now o db)
  | inl new ↦ elim (Option-cases (fetch_one (has_id i) db.jobs)) [
    | inr (j, found) ↦ rw (new, found, reserve_delivery)
    | inl missing ↦ rw (new, missing, reserve_delivery)
  ]
]

receive_delivery-Sound :
    (d : Delivery) (key : String) (o : Outbox) (message : ℤ) (now : ℕ) (db : Db) (s : Bool × Db)
    → receive_delivery d key o message now db ≡ ok s
    → Sound db.jobs s.1.jobs
unfolding receive_delivery
receive_delivery-Sound Delivery.reserved key o message now db s h = commit-Sound o.job_id now _ s h
receive_delivery-Sound Delivery.sent key o message now db s h =
    let (t, done, last) = >>=-eq-ok (commit_quota_locked o.job_id now db) _ h in
    let same : t.1 ≡ s.1 = ground arith in rw (← same) (commit-Sound o.job_id now db t done)
receive_delivery-Sound _ key o message now db s h =
    let same : db ≡ s.1 = ground arith in rw (← same) (Sound-refl db.jobs)

commit_each-Sound :
    (now : ℕ) (os : List Outbox) (s t : ℕ × Db)
    → commit_each now os s ≡ ok t
    → Sound s.1.jobs t.1.jobs
unfolding commit_each
commit_each-Sound now [] s t h = let same : s ≡ t = cc in rw (← same) (Sound-refl s.1.jobs)
commit_each-Sound now (o ∷ os) (n, db) t h =
    let (mid, one, rest) = >>=-eq-ok (commit_quota_locked o.job_id now db) _ h in
    Sound-trans db.jobs mid.1.jobs t.1.jobs (commit-Sound o.job_id now db mid one)
      (commit_each-Sound now os (if mid.0 then n + 1 else n, mid.1) t rest)

receive-Sound :
    (key : String) (message : ℤ) (now : ℕ) (db : Db) (s : Bool × Db)
    → complete_delivery_and_commit_quota key message now db ≡ ok s
    → Sound db.jobs s.1.jobs
unfolding complete_delivery_and_commit_quota
receive-Sound key message now db s h = elim (Option-cases (fetch_one (has_key key) db.outbox)) [
  | inl missing ↦ let same : db ≡ s.1 = ground (arith, missing) in rw (← same) (Sound-refl db.jobs)
  | inr (o, found) ↦
      receive_delivery-Sound o.status key o message now db s
        (rw (found, complete_delivery_and_commit_quota) at h)
]

complete-Sound :
    (key : String) (d : Delivery) (e : String) (message : Option ℤ) (now : ℕ) (db db' : Db)
    → complete_delivery key d e message now db ≡ ok db'
    → Sound db.jobs db'.jobs
unfolding complete_delivery
complete-Sound key d e message now db db' h =
    let same : db.jobs ≡ db'.jobs = ground arith in rw (← same) (Sound-refl db.jobs)

reconcile-Sound :
    (now : ℕ) (db : Db) (s : ℕ × Db)
    → reconcile_sent_delivery_quotas now db ≡ ok s
    → Sound db.jobs s.1.jobs
unfolding reconcile_sent_delivery_quotas
reconcile-Sound now db s h =
    commit_each-Sound now (select (is_unsettled db.jobs) db.outbox) (0, db) s h

pub state_of-eq_ok {ℓ} :
    {A : Type ℓ} (r : Result (A × Db)) (db : Db)
    → state_of r ≡ ok db
    → (s : A × Db) × (r ≡ ok s) × (s.1 ≡ db)
state_of-eq_ok (ok (a, db')) db h = ((a, db'), refl, cc)
state_of-eq_ok (err e) db h = absurd (ground arith)

module _ (db db' : Db) where
  by_state :
      {A : Type 0} (r : Result (A × Db))
      → ((s : A × Db) → r ≡ ok s → Sound db.jobs s.1.jobs)
      → state_of r ≡ ok db'
      → Sound db.jobs db'.jobs
  by_state r sound h = let (s, done, same) = state_of-eq_ok r db' h in rw (← same) (sound s done)

  by_value :
      (end : Db)
      → Sound db.jobs end.jobs
      → ◌≡◌ {A = Result Db} (ok end) (ok db')
      → Sound db.jobs db'.jobs
  by_value end sound h = let same : end ≡ db' = cc in rw (← same) sound

  exec-Sound : (c : Command) → Unique db.jobs → exec c db ≡ ok db' → Sound db.jobs db'.jobs
  unfolding exec
  exec-Sound (create r now) u h = by_state (reserve_and_create r now db) (create-Sound r now db) h
  exec-Sound (move i to e note now) u h =
      by_state (transition_text i to e note now db) (move-Sound i to e note now db) h
  exec-Sound (settle i commit reason now) u h =
      by_state (finish_quota i commit reason now db) (settle-Sound i commit reason now db) h
  exec-Sound (annotate i a now) u h =
      by_value (update_job_artifacts i a now db) (annotate-Sound i a now db) h
  exec-Sound (claim w lease global user now) u h =
      by_value (claim_next w lease global user now db).1 (claim-Sound w lease global user now db) h
  exec-Sound (plan w p lease now) u h =
      by_value (claim_for_planning w p lease now db).1 (plan-Sound w p lease now db) h
  exec-Sound (beat i w lease now) u h =
      by_value (heartbeat i w lease now db).1 (beat-Sound i w lease now db) h
  exec-Sound (recover attempts now) u h =
      by_state (recover_expired_leases attempts now db)
        (λ s done. recover-Sound attempts now db s u done) h
  exec-Sound (reserve row i w lease now) u h =
      by_value (reserve_delivery row i w lease now db).1
        (rw (jobs-reserve_delivery row i w lease now db) (Sound-refl db.jobs)) h
  exec-Sound (complete key d e message now) u h = complete-Sound key d e message now db db' h
  exec-Sound (receive key message now) u h =
      by_state (complete_delivery_and_commit_quota key message now db)
        (receive-Sound key message now db) h
  exec-Sound (reconcile now) u h =
      by_state (reconcile_sent_delivery_quotas now db) (reconcile-Sound now db) h

settled-Sound :
    (c : Command) (db : Db) → Unique db.jobs → Sound db.jobs (settled_state db (exec c db)).jobs
settled-Sound c db u = go (exec c db) refl
  where
    go : (r : Result Db) → exec c db ≡ r → Sound db.jobs (settled_state db r).jobs
    go (ok db') e = exec-Sound db db' c u e
    go (err x) e = Sound-refl db.jobs

run-Sound : (cs : List Command) (db : Db) → Unique db.jobs → Sound db.jobs (run cs db).jobs
unfolding run
run-Sound [] db u = Sound-refl db.jobs
run-Sound (c ∷ cs) db u =
    let one = settled-Sound c db u in
    Sound-trans db.jobs (settled_state db (exec c db)).jobs
      (run cs (settled_state db (exec c db))).jobs one
      (run-Sound cs (settled_state db (exec c db)) (one.unique u))

-- Whatever operations are called, in whatever order, with whatever arguments and clocks, some of
-- which may raise: job ids stay unique, and a job that is completed, failed, cancelled or expired
-- keeps its row and that status.
pub run-terminal :
    (cs : List Command) (db : Db) (i : String) (j : Job)
    → Unique db.jobs
    → fetch_one (has_id i) db.jobs ≡ some j
    → is_terminal j.status ≡ true
    → Unique (run cs db).jobs
      × ((k : Job) × (fetch_one (has_id i) (run cs db).jobs ≡ some k) × (k.status ≡ j.status))
run-terminal cs db i j u found t =
    let sound = run-Sound cs db u in (sound.unique u, sound.terminal i j found t)
