-- ===== src/Proactive/Retries.antt =====
-- zero/proactive_scheduler.py: `policy_postpone`, `technical_failure`, `cancel`, `cancel_all_active` and
-- `propagate_disabled`. A cycle of parents, with which `cancel` does not end, is left out: the levels of
-- its tree are at most as many as the rows. The hash that spreads the retries is the parameter `digest`.
use zero_agent.Base.{
  ℕ, zero, suc, ◌+◌, ◌-◌, ◌/◌, ◌%◌, min, max, ℤ, Bool, false, not, ◌&&◌, ◌||◌, List, [], ◌∷◌, ◌++◌,
  Option, none, some, String, ◌==◌, string_eq, nat_eq, int_eq, if◌then◌else◌, leb, length, cut,
  fetch_one, select, update_where, count_where,
}
use zero_agent.Proactive.Selection.{
  Status, postponed, retryable, cancelled, expired, failed, is_terminal, is_delivered, is_fixed,
  Followup, Tables, has_id,
}
use zero_agent.Proactive.Scheduler.{stop_outbox, is_at_or_before}

-- UPDATE … WHERE id=? AND status!='sent', of a deadline that is over
abbrev pub deadline_over : ℕ → Followup → Followup
deadline_over now r = record r {
  status = expired;
  terminal_reason = some "deadline_expired";
  cancel_reason = some "deadline_expired";
  resolved_at = some now;
  lease_until = none;
  worker_id = none;
  next_retry_at = none;
}

abbrev pub postponed_to : ℕ → String → Followup → Followup
postponed_to due reason r = record r {
  status = postponed;
  due_at = due;
  postpone_count = r.postpone_count + 1;
  terminal_reason = none;
  cancel_reason = some (cut 80 reason);
  lease_until = none;
  worker_id = none;
}

abbrev pub before_deadline : Option ℕ → ℕ → ℕ
before_deadline none at = at
before_deadline (some t) at = min at (t - 1)

unfoldable pub policy_postpone : String → ℕ → String → ℕ → Tables → Bool × Tables
policy_postpone i requested reason now t = elim (fetch_one (has_id i) t.followups) [
  | none ↦ (false, t)
  | some r ↦
      if is_at_or_before r.deadline_at now
      then (
        false,
        record {
          followups =
              update_where (λ x. has_id i x && not (is_delivered x.status)) (deadline_over now)
                t.followups;
          outbox = stop_outbox i "deadline_expired" now t.outbox;
        },
      )
      else let own : Followup → Bool = λ x. has_id i x && not (is_fixed x.status) in
        (
          leb 1 (count_where own t.followups),
          record t {
            followups =
                update_where own
                  (postponed_to (max (now + 1) (before_deadline r.deadline_at requested)) reason)
                  t.followups;
          },
        )
]

abbrev pub known_reason : String → String
known_reason s =
    if s == "provider_transient"
      || s == "generation_transient"
      || s == "transport_transient"
      || s == "database_transient"
      || s == "scheduler_item_failure"
    then s
    else "transport_transient"

-- `max(1, int(max_retries or 3))`
abbrev pub budget_of : ℕ → ℕ
budget_of m = if m == 0 then 3 else m

abbrev pub base_delay : ℕ → ℕ
base_delay count = if leb count 1 then 900 else (if count == 2 then 3600 else 21600)

abbrev pub given_up : ℕ → String → ℕ → Followup → Followup
given_up count reason now r = record r {
  status = failed;
  retry_count = count;
  last_failure_reason = some reason;
  last_attempt_at = some now;
  next_retry_at = none;
  lease_until = none;
  worker_id = none;
  terminal_reason = some "retry_budget_exhausted";
}

abbrev pub retried_at : ℕ → ℕ → String → ℕ → Followup → Followup
retried_at at count reason now r = record r {
  status = retryable;
  retry_count = count;
  last_failure_reason = some reason;
  last_attempt_at = some now;
  next_retry_at = some at;
  due_at = at;
  lease_until = none;
  worker_id = none;
}

-- the time of the next attempt, by the hash of the candidate and the count
unfoldable pub retry_time : (String → ℕ → ℕ) → String → ℕ → ℕ → ℕ
retry_time digest i count now =
    now + min 21600 (base_delay count + digest i count % (base_delay count / 10 + 1))

unfoldable pub technical_failure :
    (String → ℕ → ℕ) → String → String → ℕ → Tables → Option ℕ × Tables
unfolding retry_time
technical_failure digest i reason now t = elim (fetch_one (has_id i) t.followups) [
  | none ↦ (none, t)
  | some r ↦
      let count = r.retry_count + 1 in
      let why = known_reason reason in
      if is_terminal r.status
      then (none, t)
      else if leb (budget_of r.max_retries) count
      then (
        none,
        record {
          followups = update_where (has_id i) (given_up count why now) t.followups;
          outbox = stop_outbox i "retry_budget_exhausted" now t.outbox;
        },
      )
      else let at = retry_time digest i count now in
        (
          some at,
          record t {
            followups = update_where (has_id i) (retried_at at count why now) t.followups;
          },
        )
]

abbrev pub is_child_of : String → Followup → Bool
is_child_of i r = elim r.parent_candidate_id [ none ↦ false | some p ↦ p == i ]

abbrev pub ids_of : List Followup → List String
ids_of [] = []
ids_of (r ∷ rs) = r.id ∷ ids_of rs

unfoldable pub children : List String → List Followup → List String
children [] rows = []
children (i ∷ is) rows = ids_of (select (is_child_of i) rows) ++ children is rows

-- WITH RECURSIVE tree(id), level by level
unfoldable pub tree : ℕ → List String → List Followup → List String
unfolding children
tree zero level rows = level
tree (suc n) level rows = level ++ tree n (children level rows) rows

abbrev pub cancelled_as : Status → String → ℕ → Followup → Followup
cancelled_as status reason now r = record r {
  status = status;
  terminal_reason = some reason;
  cancel_reason = some reason;
  resolved_at = some now;
  lease_until = none;
  worker_id = none;
  next_retry_at = none;
}

unfoldable pub cancel_each : List String → Status → String → ℕ → Tables → Tables
cancel_each [] status reason now t = t
cancel_each (i ∷ is) status reason now t = cancel_each is status reason now (record {
  followups =
      update_where (λ x. has_id i x && not (is_delivered x.status)) (cancelled_as status reason now)
        t.followups;
  outbox = stop_outbox i reason now t.outbox;
})

unfoldable pub cancel : String → String → Status → ℕ → Tables → ℕ × Tables
unfolding tree cancel_each
cancel i reason status now t =
    let ids = tree (length t.followups) (i ∷ []) t.followups in
    (length ids, cancel_each ids status (cut 80 reason) now t)

unfoldable pub cancel_items : List String → String → ℕ → Tables → Tables
unfolding cancel
cancel_items [] reason now t = t
cancel_items (i ∷ is) reason now t = cancel_items is reason now (cancel i reason cancelled now t).1

unfoldable pub cancel_all_active : String → ℕ → Tables → ℕ × Tables
unfolding cancel_items
cancel_all_active reason now t =
    let ids = ids_of (select (λ r. not (is_terminal r.status)) t.followups) in
    (length ids, cancel_items ids reason now t)

-- `is_off` says whether a user switched follow-ups off in a chat
unfoldable pub propagate_disabled : (ℤ → ℤ → Bool) → ℕ → Tables → ℕ × Tables
unfolding cancel_items
propagate_disabled is_off now t =
    let ids = ids_of (
      select (λ r. is_off r.chat_id r.subject_user_id && not (is_terminal r.status)) t.followups) in
    (length ids, cancel_items ids "user_opt_out" now t)
