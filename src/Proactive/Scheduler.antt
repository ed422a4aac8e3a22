-- ===== src/Proactive/Scheduler.antt =====
-- zero/proactive_scheduler.py: `claim_due`, without its metrics.
use zero_agent.Base.{
  ℕ, ◌+◌, min, max, Bool, true, false, not, ◌&&◌, List, [], ◌∷◌, Option, none, some, String, ◌==◌,
  string_eq, nat_eq, int_eq, if◌then◌else◌, ltb, leb, take, cut, select, update_where, count_where,
}
use zero_agent.Proactive.Outbox.{permanent_failed, Row, is_over}
use zero_agent.Proactive.Selection.{
  is_terminal, Followup, Tables, has_id, is_earlier, fair_select, sort, evaluating, expired,
}

-- `_stop_outbox`
abbrev pub stop_outbox : String → String → ℕ → List Row → List Row
stop_outbox i reason now =
    update_where (λ o. o.candidate_id == i && not (is_over o.send_state))
      (λ o. record o {
        send_state = permanent_failed;
        last_error = some (cut 80 reason);
        lease_until = none;
        worker_id = none;
        updated_at = now;
      })

abbrev pub is_at_or_before : Option ℕ → ℕ → Bool
is_at_or_before none now = false
is_at_or_before (some t) now = leb t now

abbrev pub is_free : ℕ → Followup → Bool
is_free now r = elim r.lease_until [ none ↦ true | some t ↦ ltb t now ]

abbrev pub is_overdue : ℕ → Followup → Bool
is_overdue now r = not (is_terminal r.status) && is_at_or_before r.deadline_at now

abbrev pub expire_row : Followup → Followup
expire_row r = record r {
  status = expired;
  terminal_reason = some "deadline_expired";
  lease_until = none;
  worker_id = none;
  next_retry_at = none;
}

unfoldable pub stop_each : List Followup → String → ℕ → List Row → List Row
stop_each [] reason now outbox = outbox
stop_each (r ∷ rs) reason now outbox = stop_each rs reason now (stop_outbox r.id reason now outbox)

unfoldable pub expire_due : ℕ → Tables → Tables
unfolding stop_each
expire_due now t = record {
  followups = update_where (is_overdue now) expire_row t.followups;
  outbox = stop_each (select (is_overdue now) t.followups) "deadline_expired" now t.outbox;
}

-- the rows of the selection
abbrev pub is_ready : ℕ → Followup → Bool
is_ready now r =
    not (is_terminal r.status)
    && leb r.due_at now
    && elim r.next_retry_at [ none ↦ true | some t ↦ leb t now ]
    && is_free now r

abbrev pub is_claimable : ℕ → Followup → Bool
is_claimable now r = not (is_terminal r.status) && is_free now r

abbrev pub claimed_row : String → ℕ → Followup → Followup
claimed_row worker now r = record r {
  status = evaluating;
  claim_at = some now;
  lease_until = some (now + 900);
  worker_id = some worker;
  last_attempt_at = some now;
  version = r.version + 1;
}

-- the rows that are given out keep the version that was read
unfoldable pub claim_each :
    String → ℕ → List Followup → List Followup → List Followup × List Followup
claim_each worker now [] rows = ([], rows)
claim_each worker now (r ∷ rs) rows =
    let own : Followup → Bool = λ x. has_id r.id x && is_claimable now x in
    let rest = claim_each worker now rs (update_where own (claimed_row worker now) rows) in
    (
      (if leb 1 (count_where own rows)
          then record (claimed_row worker now r) { version = r.version } ∷ rest.0
          else rest.0),
      rest.1,
    )

-- at most 256 rows are read
unfoldable pub chosen_of : ℕ → ℕ → List Followup → List Followup
unfolding fair_select sort
chosen_of limit now rows =
    fair_select (take 256 (sort is_earlier (select (is_ready now) rows))) (max 1 (min limit 64)) now

unfoldable pub claim_due : String → ℕ → ℕ → Tables → List Followup × Tables
unfolding expire_due chosen_of claim_each
claim_due worker limit now t =
    let open_tables = expire_due now t in
    let done =
      claim_each worker now (chosen_of limit now open_tables.followups) open_tables.followups in
    (done.0, record open_tables { followups = done.1 })
