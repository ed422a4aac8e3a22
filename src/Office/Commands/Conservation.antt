-- ===== src/Office/Commands/Conservation.antt =====
-- Conservation of quota along any run of the repository without lease recovery.
use zero_agent.Base.{
  ℕ, ℤ, ◌≡◌, refl, Bool, true, false, List, [], ◌∷◌, Option, String, Result, ok, err, All, arith,
}
use zero_agent.Office.Model.{Delivery, Db}
use zero_agent.Office.Quota.{reserve_and_create, finish_quota, update_job_artifacts}
use zero_agent.Office.Transitions.{transition_text}
use zero_agent.Office.Lease.{claim_next, claim_for_planning, heartbeat}
use zero_agent.Office.Delivery.{
  reserve_delivery, complete_delivery, complete_delivery_and_commit_quota,
  reconcile_sent_delivery_quotas,
}
use zero_agent.Office.Ledger.{Balanced}
use zero_agent.Office.Ledger.Finish.{finish_quota-Balanced}
use zero_agent.Office.Ledger.Create.{reserve_and_create-Balanced}
use zero_agent.Office.Commands.Steps.{
  Command, create, move, settle, annotate, claim, plan, beat, recover, reserve, complete, receive,
  reconcile, state_of, exec, settled_state, run,
}
use zero_agent.Office.Commands.Terminal.{state_of-eq_ok, jobs-reserve_delivery}
use zero_agent.Office.Commands.Accounts.{
  Balanced-same, move-Balanced, claim-Balanced, plan-Balanced, beat-Balanced, annotate-Balanced,
  usage-reserve_delivery, receive-Balanced, reconcile-Balanced,
}

abbrev pub is_recovery : Command → Bool
is_recovery (recover attempts now) = true
is_recovery _ = false

complete-Balanced :
    (key : String) (d : Delivery) (e : String) (message : Option ℤ) (now : ℕ) (db db' : Db)
    → Balanced db
    → complete_delivery key d e message now db ≡ ok db'
    → Balanced db'
unfolding complete_delivery
complete-Balanced key d e message now db db' bal h =
    Balanced-same db db' (ground arith) (ground arith) bal

module _ (db db' : Db) (bal : Balanced db) where
  by_state :
      {A : Type 0} (r : Result (A × Db))
      → ((s : A × Db) → r ≡ ok s → Balanced s.1)
      → state_of r ≡ ok db'
      → Balanced db'
  by_state r good h = let (s, done, same) = state_of-eq_ok r db' h in rw (← same) (good s done)

  by_value : (end : Db) → Balanced end → ◌≡◌ {A = Result Db} (ok end) (ok db') → Balanced db'
  by_value end good h = let same : end ≡ db' = cc in rw (← same) good

  exec-Balanced : (c : Command) → is_recovery c ≡ false → exec c db ≡ ok db' → Balanced db'
  unfolding exec
  exec-Balanced (create r now) p h =
      by_state (reserve_and_create r now db) (λ s e. reserve_and_create-Balanced r now db s bal e) h
  exec-Balanced (move i to e note now) p h =
      by_state (transition_text i to e note now db)
        (λ s k. move-Balanced i to e note now db s bal k) h
  exec-Balanced (settle i commit reason now) p h =
      let (t, done, good) = finish_quota-Balanced i commit reason now db bal in
      by_state (finish_quota i commit reason now db)
        (λ s e. let same : t ≡ s = cc in rw (← same) good) h
  exec-Balanced (annotate i a now) p h =
      by_value (update_job_artifacts i a now db) (annotate-Balanced i a now db bal) h
  exec-Balanced (claim w lease global user now) p h =
      by_value (claim_next w lease global user now db).1
        (claim-Balanced w lease global user now db bal) h
  exec-Balanced (plan w planner lease now) p h =
      by_value (claim_for_planning w planner lease now db).1
        (plan-Balanced w planner lease now db bal) h
  exec-Balanced (beat i w lease now) p h =
      by_value (heartbeat i w lease now db).1 (beat-Balanced i w lease now db bal) h
  exec-Balanced (recover attempts now) p h = absurd (ground arith)
  exec-Balanced (reserve row i w lease now) p h =
      by_value (reserve_delivery row i w lease now db).1
        (Balanced-same db _ (jobs-reserve_delivery row i w lease now db)
          (usage-reserve_delivery row i w lease now db) bal)
        h
  exec-Balanced (complete key d e message now) p h =
      complete-Balanced key d e message now db db' bal h
  exec-Balanced (receive key message now) p h =
      by_state (complete_delivery_and_commit_quota key message now db)
        (λ s e. receive-Balanced key message now db s bal e) h
  exec-Balanced (reconcile now) p h =
      by_state (reconcile_sent_delivery_quotas now db) (λ s e. reconcile-Balanced now db s bal e) h

settled-Balanced :
    (c : Command) (db : Db)
    → is_recovery c ≡ false
    → Balanced db
    → Balanced (settled_state db (exec c db))
settled-Balanced c db p bal = go (exec c db) refl
  where
    go : (r : Result Db) → exec c db ≡ r → Balanced (settled_state db r)
    go (ok db') e = exec-Balanced db db' bal c p e
    go (err x) e = bal

-- Along any sequence of calls without `recover_expired_leases`, some of which may raise, every
-- quota row counts exactly its owner's reserved and committed jobs and their characters.
pub run-Balanced :
    (cs : List Command) (db : Db)
    → All (λ c. is_recovery c ≡ false) cs
    → Balanced db
    → Balanced (run cs db)
unfolding run
run-Balanced [] db p bal = bal
run-Balanced (c ∷ cs) db p bal =
    run-Balanced cs (settled_state db (exec c db)) p.1 (settled-Balanced c db p.0 bal)
