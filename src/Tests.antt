-- ===== src/Tests.antt =====
-- Runs of the registry of groups, of the proactive outbox and policy, and of the rate limiter.
use zero_agent.Base.{
  ℕ, false, Result, err, ◌<◌, All, pos, ◌+◌, ◌≡◌, ◌≢◌, ◌≤◌, refl, List, [], ◌∷◌, ◌++◌, none, some,
  ok, fetch_one, select, update_where, count_where, has_prefix, is_blank, cut, arith,
}
use zero_agent.Tenancy.Ids.{id_fault, owner_fault}
use zero_agent.Tenancy.Roles.{
  pending, active, archived, GroupState-discrete, can_transition, owner, permits, Scope,
  all_id_codes, is_id, check_id, make_scope, for_user,
}
use zero_agent.Tenancy.Registry.{
  Group, GroupRow, Registry, is_group, create_installation, insert_group, discover_group, get_group,
  role_of, has, require, add_member, remove_member, write_state, move_group, set_group_state,
}
use zero_agent.Tenancy.Moves.{Changed}
use zero_agent.Tenancy.Lifecycle.{
  Call, set_state, add, discover, perform, run, Reaches, run-lifecycle, run-archived,
  set_group_state-authorized,
}
use zero_agent.Proactive.Outbox.{SendState, Row, key_of, new_row, reserve, recover, complete}
use zero_agent.Proactive.Attempts.{take, sweep, handed, keys_of, handed-over, reserve-recovered}
use zero_agent.Proactive.Policy.{
  allow, Candidate, hours_of, is_allowed_hour, hours_until, opted_out, latest, is_topic_open,
  decide_events, decide_hours, decide, insert_event, record_event,
}
use zero_agent.Proactive.Limits.{decide-after_sent}
use zero_agent.Tenancy.Quotas.{
  is_limit, Period, hour, day, Limit, UsageRecord, QuotaDecision, month_of, bucket_of, limits_in,
  quotas, used_of, write_used, charge, consume_limits, consume_quotas,
}
use zero_agent.Tenancy.Spending.{consume_quotas-allowed, consume_quotas-refused}
use zero_agent.WebSearch.Cache.{TtlCache, new_cache, remove, put_last, evict, get, set, invalidate}
use zero_agent.WebSearch.Bounds.{read, write, IsValid, run as cache_run, run-IsValid}
use zero_agent.WebSearch.Recent.{get-run}
use zero_agent.Providers.Limiter.{new_limiter, drop_old, allow_under}
use zero_agent.Providers.Rate.{admitted, is_within_minute, admitted-per_minute}

program : Unit {0}
unfolding fetch_one select update_where count_where has_prefix is_blank cut id_fault owner_fault
    GroupState-discrete can_transition permits all_id_codes is_id check_id make_scope for_user
    create_installation insert_group discover_group get_group role_of has require add_member
    remove_member write_state move_group set_group_state perform run new_row reserve recover
    complete handed hours_of is_allowed_hour hours_until opted_out latest is_topic_open
    decide_events decide_hours decide insert_event drop_old allow_under admitted remove put_last
    evict get set invalidate cache_run month_of bucket_of limits_in quotas used_of write_used charge
    consume_limits consume_quotas
program = tt

abbrev readers : Group
readers = record {
  installation_id = "home";
  group_id = "readers";
  platform = "telegram";
  platform_chat_id = some (pos 40);
  title = "Readers";
  state = pending;
}

abbrev scope : Scope
scope = record {
  installation_id = "home";
  group_id = "readers";
  user_id = some (pos 7);
  thread_id = none;
  request_id = "";
  trace_id = "-";
}

abbrev no_groups : Registry
no_groups = record { installations = []; groups = []; memberships = [] }

abbrev found_group : Registry
found_group = run (discover readers 10 ∷ add scope (pos 7) owner 11 ∷ []) no_groups

abbrev pending_row : GroupRow
pending_row = record { group = readers; discovered_at = 10; approved_at = none }

-- the owner archives the group and tries to take that back
abbrev calls : List Call
calls =
    set_state scope active none 12
    ∷ set_state scope archived none 13
    ∷ set_state scope active none 14
    ∷ discover readers 15
    ∷ []

run-lifecycle_example :
    (after : GroupRow) × (fetch_one (is_group "home" "readers") (run calls found_group).groups
      ≡ some after)
    × Reaches 4 pending after.group.state
unfolding program
run-lifecycle_example = run-lifecycle calls found_group "home" "readers" pending_row refl

abbrev old_group : Registry
old_group = run (set_state scope archived none 12 ∷ []) found_group

abbrev old_row : GroupRow
old_row = record pending_row { group = record readers { state = archived } }

run-archived_example :
    (after : GroupRow) × (fetch_one (is_group "home" "readers") (run calls old_group).groups
      ≡ some after)
    × (after.group.state ≡ archived)
unfolding program
run-archived_example = run-archived calls old_group "home" "readers" old_row refl refl

abbrev approved_group : Registry
approved_group = run (set_state scope active none 12 ∷ []) found_group

set_group_state-authorized_example :
    (role_of scope none found_group ≡ some owner)
    × ((current : Group) × (get_group "home" "readers" found_group ≡ ok current)
        × Changed current.state active)
unfolding program
set_group_state-authorized_example =
    set_group_state-authorized scope active none 12 found_group
      (record readers { state = active }, approved_group) refl

abbrev follow_up : Row
follow_up = new_row "c1" "w" "home" "readers" 100

abbrev sent_row : Row
sent_row = record follow_up { send_state = SendState.sent; lease_until = none }

handed-over_example :
    handed "c1"
      (take "w" "home" "readers" 2000 ∷ sweep 3000 ∷ take "v" "home" "readers" 4000 ∷ [])
      (sent_row ∷ [])
    ≡ []
unfolding program
handed-over_example =
    handed-over "c1"
      (take "w" "home" "readers" 2000 ∷ sweep 3000 ∷ take "v" "home" "readers" 4000 ∷ [])
      (sent_row ∷ []) sent_row refl refl

-- the lease ends between the two
reserve-recovered_example :
    keys_of (reserve "c1" "v" "home" "readers" 1001 (recover 1000 (follow_up ∷ []))) []
    ≡ key_of "c1" ∷ []
unfolding program
reserve-recovered_example =
    reserve-recovered "c1" "v" "home" "readers" 1000 1001 1000 (follow_up ∷ []) follow_up refl refl
      refl refl

abbrev candidate : Candidate
candidate = record {
  id = "c1";
  chat_id = pos 40;
  subject_user_id = pos 7;
  topic_summary = some "exam";
}

decide-after_sent_example :
    (decide candidate none
      (some (9, 22))
      12
      2000
      (record_event candidate "sent" 1000 [] ++ [])).action
    ≢ allow
decide-after_sent_example =
    decide-after_sent candidate candidate none (some (9, 22)) 12 1000 2000 [] [] refl (omega arith)

admitted-per_minute_example :
    count_where (is_within_minute 0) (admitted (new_limiter (some 2)) (1 ∷ 2 ∷ 3 ∷ 61 ∷ 62 ∷ []))
    ≤ 2
unfolding program
admitted-per_minute_example =
    admitted-per_minute 1 0 (1 ∷ 2 ∷ 3 ∷ 61 ∷ 62 ∷ [])
      (omega arith, (omega arith, (omega arith, (omega arith, (omega arith, tt)))))

abbrev cache : TtlCache ℕ
cache =
    cache_run (write "a" 1 10 ∷ write "b" 2 11 ∷ read "a" 12 ∷ write "c" 3 13 ∷ []) (new_cache 60 2)

run-IsValid_example : IsValid cache
run-IsValid_example =
    run-IsValid 60 2 (write "a" 1 10 ∷ write "b" 2 11 ∷ read "a" 12 ∷ write "c" 3 13 ∷ [])

cache-IsValid : IsValid cache
cache-IsValid =
    run-IsValid 60 2 (write "a" 1 10 ∷ write "b" 2 11 ∷ read "a" 12 ∷ write "c" 3 13 ∷ [])

get-run_example : (get "d" 73 (cache_run (write "e" 5 15 ∷ []) (set "d" 4 14 cache))).0 ≡ some 4
unfolding program
get-run_example =
    get-run "d" 4 14 73 cache (write "e" 5 15 ∷ []) cache-IsValid (refl, tt) (omega arith)

abbrev hourly : Limit
hourly = record {
  installation_id = "home";
  group_id = "readers";
  resource = "replies";
  period = hour;
  limit_value = 2;
}

abbrev limits : List Limit
limits = hourly ∷ record hourly { period = day; limit_value = 5 } ∷ []

-- the state after a call that returned
abbrev spent :
    List UsageRecord → Result (QuotaDecision × List UsageRecord) → QuotaDecision × List UsageRecord
spent rows (ok end) = end
spent rows (err e) =
    (record { allowed = false; blocked_period = none; usage = []; limits = [] }, rows)

abbrev first : QuotaDecision × List UsageRecord
first = spent [] (consume_quotas scope "replies" (pos 2) 7200 limits [])

abbrev third : QuotaDecision × List UsageRecord
third = spent first.1 (consume_quotas scope "replies" (pos 1) 7300 limits first.1)

consume_quotas-allowed_example :
    All
      (λ l.
        (used_of scope "replies" 7200 l.0 first.1 ≡ used_of scope "replies" 7200 l.0 [] + 2)
        × (used_of scope "replies" 7200 l.0 [] + 2 ≤ l.1))
      (quotas scope "replies" limits)
unfolding program
consume_quotas-allowed_example =
    consume_quotas-allowed scope "replies" 1 7200 limits [] first refl refl

consume_quotas-refused_example :
    (third.1 ≡ first.1)
    × ((p : Period) × (third.0.blocked_period ≡ some p)
        × ((x : Limit) × (fetch_one (is_limit scope "replies" p) limits ≡ some x)
            × (x.limit_value < used_of scope "replies" 7300 p first.1 + 1)))
unfolding program
consume_quotas-refused_example =
    consume_quotas-refused scope "replies" 0 7300 limits first.1 third refl refl
