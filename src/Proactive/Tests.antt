-- ===== src/Proactive/Tests.antt =====
-- Runs of the scheduler of follow-ups.
use zero_agent.Base.{
  ℕ, ◌≤◌, ◌≡◌, refl, true, false, ◌&&◌, List, [], ◌∷◌, none, some, String, pos, arith, length, All,
  ◌≢◌, ◌==◌, string_eq, str_eq_iff, fetch_one, select, update_where, count_where, cut,
}
use zero_agent.Proactive.Selection.{
  Followup, Tables, Status, is_terminal, has_id, priority_of, age_boost, deadline_boost, score,
  codes_ltb, is_earlier, is_before, insert, sort, append_to, queues_of, sort_each, pop_heads,
  rounds, fair_select,
}
use zero_agent.Proactive.Scheduler.{
  is_claimable, stop_each, expire_due, claim_each, chosen_of, claim_due,
}
use zero_agent.Proactive.Retries.{retry_time, technical_failure}
use zero_agent.Proactive.Fairness.{length-fair_select}
use zero_agent.Proactive.Budget.{fail_times, fail_times-terminal}
use zero_agent.Proactive.Claims.{claim_due-closed}

program : Unit {0}
unfolding fetch_one select update_where count_where cut priority_of age_boost deadline_boost score
    codes_ltb is_earlier is_before insert sort append_to queues_of sort_each pop_heads rounds
    fair_select stop_each expire_due claim_each chosen_of claim_due retry_time technical_failure
    fail_times
program = tt

abbrev followup : String → ℕ → String → Followup
followup i user priority = record {
  id = i;
  chat_id = pos 40;
  subject_user_id = pos user;
  created_at = 100;
  due_at = 200;
  priority = priority;
  status = Status.pending;
  postpone_count = 0;
  retry_count = 0;
  max_retries = 2;
  deadline_at = none;
  next_retry_at = none;
  lease_until = none;
  worker_id = none;
  claim_at = none;
  last_attempt_at = none;
  last_failure_reason = none;
  terminal_reason = none;
  cancel_reason = none;
  resolved_at = none;
  parent_candidate_id = none;
  version = 1;
}

abbrev rows : List Followup
rows = followup "a" 1 "high" ∷ followup "b" 1 "critical" ∷ followup "c" 2 "low" ∷ []

abbrev ids : List Followup → List String
ids [] = []
ids (r ∷ rs) = r.id ∷ ids rs

-- the other user comes before the second row of the first
fair_ids : ids (fair_select rows 2 300) ≡ "b" ∷ "c" ∷ []
unfolding program
fair_ids = refl

length-fair_select_example : length (fair_select rows 2 300) ≡ 2
unfolding program
length-fair_select_example = length-fair_select rows 2 300

abbrev tables : Tables
tables = record { followups = rows; outbox = [] }

abbrev digest : String → ℕ → ℕ
digest i n = 40

abbrev failures : List (String × ℕ)
failures = ("provider_transient", 300) ∷ ("strange", 5000) ∷ []

fail_times-terminal_example :
    (end : Followup) × (fetch_one (has_id "b") (fail_times digest "b" failures tables).followups
      ≡ some end)
    × (is_terminal end.status ≡ true)
unfolding program
fail_times-terminal_example =
    fail_times-terminal digest "b" failures tables (followup "b" 1 "critical") refl (omega arith)
      (omega arith)

differ : (s t : String) → (s == t) ≡ false → s ≢ t
differ s t h e = ground (arith, h, (str_eq_iff s t).1 e)

unique_ids : (i : String) → count_where (has_id i) rows ≤ 1
unfolding program
unique_ids i = ground (
  arith,
  str_eq_iff "a" i,
  str_eq_iff "b" i,
  str_eq_iff "c" i,
  differ "a" "b" refl,
  differ "a" "c" refl,
  differ "b" "c" refl,
)

claim_due-closed_example :
    All
      (λ r.
        count_where
          (λ x. has_id r.id x && is_claimable 1200 x)
          (claim_due "w" 2 300 tables).1.followups
        ≡ 0)
      (claim_due "w" 2 300 tables).0
claim_due-closed_example = claim_due-closed "w" 300 1200 (omega arith) 2 tables unique_ids
