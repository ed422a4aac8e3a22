-- ===== src/Office/Commands/Steps.antt =====
-- A command carries the arguments of the call and the clock that the call reads.
use zero_agent.Base.{ℕ, ℤ, Bool, List, [], ◌∷◌, Option, String, Result, ok, err}
use zero_agent.Office.Model.{Status, Delivery, Db}
use zero_agent.Office.Transitions.{Note, transition_text}
use zero_agent.Office.Quota.{
  NewJob, Artifacts, reserve_and_create, finish_quota, update_job_artifacts,
}
use zero_agent.Office.Lease.{claim_next, claim_for_planning, heartbeat, recover_expired_leases}
use zero_agent.Office.Delivery.{
  reserve_delivery, complete_delivery, complete_delivery_and_commit_quota,
  reconcile_sent_delivery_quotas,
}

pub data Command : Type 0 where
  create : NewJob → ℕ → Command
  move : String → String → Option Status → Note → ℕ → Command
  settle : String → Bool → String → ℕ → Command
  annotate : String → Artifacts → ℕ → Command
  claim : String → ℕ → ℕ → ℕ → ℕ → Command
  plan : String → String → ℕ → ℕ → Command
  beat : String → String → ℕ → ℕ → Command
  recover : ℕ → ℕ → Command
  reserve : String → String → String → ℕ → ℕ → Command
  complete : String → Delivery → String → Option ℤ → ℕ → Command
  receive : String → ℤ → ℕ → Command
  reconcile : ℕ → Command

-- the database after a call that returned
abbrev pub state_of {ℓ} : {A : Type ℓ} → Result (A × Db) → Result Db
state_of (ok (_, db)) = ok db
state_of (err e) = err e

unfoldable pub exec : Command → Db → Result Db
exec (create r now) db = state_of (reserve_and_create r now db)
exec (move i to expected note now) db = state_of (transition_text i to expected note now db)
exec (settle i commit reason now) db = state_of (finish_quota i commit reason now db)
exec (annotate i a now) db = ok (update_job_artifacts i a now db)
exec (claim w lease global user now) db = ok (claim_next w lease global user now db).1
exec (plan w p lease now) db = ok (claim_for_planning w p lease now db).1
exec (beat i w lease now) db = ok (heartbeat i w lease now db).1
exec (recover attempts now) db = state_of (recover_expired_leases attempts now db)
exec (reserve row i w lease now) db = ok (reserve_delivery row i w lease now db).1
exec (complete key status error message now) db = complete_delivery key status error message now db
exec (receive key message now) db = state_of (complete_delivery_and_commit_quota key message now db)
exec (reconcile now) db = state_of (reconcile_sent_delivery_quotas now db)

-- the caller goes on after an exception, from the database that the rollback left
abbrev pub settled_state : Db → Result Db → Db
settled_state db (ok db') = db'
settled_state db (err e) = db

unfoldable pub run : List Command → Db → Db
run [] db = db
run (c ∷ cs) db = run cs (settled_state db (exec c db))
