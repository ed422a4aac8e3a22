-- ===== src/Office/Tests.antt =====
-- Runs of the repository of Office jobs on small databases.
use zero_agent.Base.{
  pos, ◌≡◌, ◌≤◌, refl, Bool, true, false, List, [], ◌∷◌, none, some, Result, ok, err,
  integrity_error, fetch_one, select, update_where, count_where, sum_of, has_prefix, is_blank, cut,
  arith, length,
}
use zero_agent.Tenancy.Ids.{id_fault, owner_fault}
use zero_agent.Office.Model.{
  queued, failed, Owner, Job, Usage, Outbox, Db, Delivery, empty_db, has_id, is_queued, owner_beq,
}
use zero_agent.Office.Transitions.{
  transition_text, transition, move_job, is_allowed, status_text, parse_status, Note,
}
use zero_agent.Office.Quota.{
  NewJob, ensure_usage, reserve_usage, created_job, insert_job, admit_job, reserve_and_create,
  commit_quota_locked, finish_quota, commit_held, settle_quota, update_checked,
}
use zero_agent.Office.Lease.{
  is_before, insert_sorted, sort_jobs, claim_row, claim_next, is_leased, is_leased_by, claimed,
  claim_for_planning, heartbeat, recover_expired_leases, recover_rows, recover_row, refund_lost,
  drop_lease,
}
use zero_agent.Office.Delivery.{
  has_key, reserve_again, new_delivery, reserve_delivery, complete_delivery, receive_delivery,
  complete_delivery_and_commit_quota,
}
use zero_agent.Office.Ledger.{Balanced, Unique}
use zero_agent.Office.Ledger.Finish.{finish_quota-Balanced}
use zero_agent.Office.Ledger.Create.{reserve_and_create-Balanced}
use zero_agent.Office.Ledger.Limit.{
  jobs_of, reserve_and_create-daily_limit, reserve_and_create-daily_jobs,
}
use zero_agent.Office.Commands.{Command, create, move, settle, claim, run, exec, settled_state}
use zero_agent.Office.Commands.Terminal.{run-terminal}
use zero_agent.Office.Commands.Conservation.{run-Balanced}
use zero_agent.Office.Slots.{claim_next-within_limits}
use zero_agent.Office.Once.{Attempt, attempts, attempts_once, reported-final}
use zero_agent.Office.Lost.{recover-blocked}
use zero_agent.Office.Coordinator.{
  Delivered, returned, deliver, delivery_failed, settle_delivery, deliver-unlimited,
}

program : Unit {0}
unfolding fetch_one select update_where count_where sum_of has_prefix is_blank cut id_fault
    owner_fault owner_beq transition_text transition move_job is_allowed status_text parse_status
    ensure_usage reserve_usage created_job insert_job admit_job reserve_and_create
    commit_quota_locked finish_quota commit_held settle_quota update_checked is_before insert_sorted
    sort_jobs claim_row claim_next claim_for_planning heartbeat recover_expired_leases recover_rows
    recover_row refund_lost drop_lease reserve_again new_delivery reserve_delivery complete_delivery
    receive_delivery complete_delivery_and_commit_quota run exec attempts deliver delivery_failed
    settle_delivery
program = tt

abbrev office : Owner
office = record {
  installation_id = "home";
  group_id = "readers";
  user_id = pos 7;
  quota_date = "2025-01-02";
}

abbrev request : NewJob
request = record {
  job_id = "job-1";
  trace_id = "t-1";
  account_scope = "main";
  owner = office;
  chat_id = pos 40;
  thread_id = none;
  message_id = pos 3;
  operation_type = "convert";
  office_format = "docx";
  request_text = "to pdf";
  input_filename = "a.docx";
  input_path = "/tmp/a.docx";
  detected_mime = "";
  input_size_bytes = 10;
  uncompressed_size_bytes = 20;
  extracted_characters = 100;
  jobs_limit = 1;
  max_characters = 1000;
  unlimited_user = false;
  reservation_id = "res-1";
}

abbrev second : NewJob
second = record request { job_id = "job-2"; message_id = pos 4 }

abbrev job_1 : Job
job_1 = created_job request 50

abbrev row_1 : Usage
row_1 = record {
  owner = office;
  jobs_reserved = 1;
  jobs_committed = 0;
  characters_reserved = 100;
  characters_committed = 0;
  last_job_id = some "job-1";
  updated_at = 50;
}

-- after the first request
abbrev one_request : Db
one_request = settled_state empty_db (exec (create request 50) empty_db)

empty-Balanced : Balanced empty_db
unfolding count_where sum_of fetch_one
empty-Balanced = record {
  unique = λ i. omega arith;
  keyed = λ o. omega arith;
  jobs_reserved = λ o. refl;
  jobs_committed = λ o. refl;
  characters_reserved = λ o. refl;
  characters_committed = λ o. refl;
}

create_ok : reserve_and_create request 50 empty_db ≡ ok (created_job request 50, one_request)
unfolding program
create_ok = refl

one-Balanced : Balanced one_request
unfolding program
one-Balanced =
    reserve_and_create-Balanced request 50 empty_db (created_job request 50, one_request)
      empty-Balanced create_ok

reserve_and_create-daily_limit_example : jobs_of office one_request.jobs ≤ 1
unfolding program
reserve_and_create-daily_limit_example =
    reserve_and_create-daily_limit request 50 empty_db empty-Balanced refl refl
      (created_job request 50, one_request) create_ok

reserve_and_create-daily_jobs_example : 1 ≤ jobs_of office one_request.jobs
unfolding program
reserve_and_create-daily_jobs_example =
    reserve_and_create-daily_jobs second 60 one_request one-Balanced refl refl refl

finish_quota-Balanced_example :
    (s : Bool × Db) × (finish_quota "job-1" false "stopped" 70 one_request ≡ ok s) × Balanced s.1
finish_quota-Balanced_example =
    finish_quota-Balanced "job-1" false "stopped" 70 one_request one-Balanced

abbrev no_note : Note
no_note = record { reason = ""; error_code = ""; error_message_safe = ""; details_json = "{}" }

-- one job that is queued, claimed and then fails, and a refund that comes twice
abbrev calls : List Command
calls =
    create request 50
    ∷ create second 51
    ∷ move "job-1" "queued" none no_note 52
    ∷ claim "w" 30 2 1 53
    ∷ move "job-1" "failed" none no_note 54
    ∷ settle "job-1" false "failed" 55
    ∷ settle "job-1" false "failed" 56
    ∷ create second 57
    ∷ []

run-Balanced_example : Balanced (run calls empty_db)
run-Balanced_example =
    run-Balanced calls empty_db (refl, (refl, (refl, (refl, (refl, (refl, (refl, (refl, tt))))))))
      empty-Balanced

abbrev finished_db : Db
finished_db =
    run
      (create request 50
        ∷ move "job-1" "queued" none no_note 52
        ∷ move "job-1" "failed" none no_note 54
        ∷ [])
      empty_db

finished-Balanced : Balanced finished_db
finished-Balanced = run-Balanced _ empty_db (refl, (refl, (refl, tt))) empty-Balanced

abbrev failed_job : Job
failed_job = record job_1 { status = failed; updated_at = 54; completed_at = some 54 }

run-terminal_example :
    Unique (run calls finished_db).jobs
    × ((k : Job) × (fetch_one (has_id "job-1") (run calls finished_db).jobs ≡ some k)
        × (k.status ≡ failed))
unfolding program
run-terminal_example =
    run-terminal calls finished_db "job-1" failed_job finished-Balanced.unique refl refl

abbrev queued_db : Db
queued_db = run (create request 50 ∷ move "job-1" "queued" none no_note 52 ∷ []) empty_db

queued-Balanced : Balanced queued_db
queued-Balanced = run-Balanced _ empty_db (refl, (refl, tt)) empty-Balanced

abbrev queued_job : Job
queued_job = record job_1 { status = queued; updated_at = 52 }

claim_next-within_limits_example :
    ((k : Job) × (fetch_one (has_id k.id) queued_db.jobs ≡ some k)
      × (is_queued k.status ≡ true)
      × (claimed "w" 30 53 queued_job ≡ claimed "w" 30 53 k))
    × (count_where (is_leased 53) (claim_next "w" 30 1 1 53 queued_db).1.jobs ≤ 1)
    × (count_where (is_leased_by 53 (pos 7)) (claim_next "w" 30 1 1 53 queued_db).1.jobs ≤ 1)
unfolding program
claim_next-within_limits_example =
    claim_next-within_limits "w" 30 1 1 53 queued_db (claimed "w" 30 53 queued_job)
      queued-Balanced.unique refl

-- the second sender comes after the lease of the first
abbrev two_senders : List Attempt
two_senders =
    record { row_id = "row-1"; worker = "a"; lease_seconds = 60; now = 100 }
    ∷ record { row_id = "row-2"; worker = "b"; lease_seconds = 60; now = 200 }
    ∷ []

attempts_once_example : length (attempts "job-1" two_senders one_request).0 ≤ 1
attempts_once_example = attempts_once "job-1" two_senders one_request

abbrev delivery_1 : Outbox
delivery_1 = new_delivery "row-1" "a" 60 100 job_1

abbrev sending_db : Db
sending_db = record one_request { outbox = delivery_1 ∷ [] }

abbrev sent_db : Result Db
sent_db = complete_delivery "office:job-1" Delivery.sent "" (some (pos 9)) 110 sending_db

reported-final_example : (attempts "job-1" two_senders (settled_state sending_db sent_db)).0 ≡ []
unfolding program
reported-final_example =
    reported-final "job-1" "office:job-1" Delivery.sent "" (some (pos 9)) 110 sending_db
      (settled_state sending_db sent_db) delivery_1 two_senders refl refl refl refl

abbrev lost_job : Job
lost_job = record (claimed "w" 30 53 queued_job) { attempt_count = 3 }

-- the user's row of another group, with no job reserved
abbrev other_row : Usage
other_row = record row_1 {
  owner = record office { group_id = "writers" };
  jobs_reserved = 0;
  characters_reserved = 0;
}

abbrev lost_db : Db
lost_db = record empty_db { jobs = lost_job ∷ []; usage = row_1 ∷ other_row ∷ [] }

recover-blocked_example : recover_expired_leases 3 90 lost_db ≡ err integrity_error
unfolding program
recover-blocked_example = recover-blocked 3 90 lost_db lost_job [] other_row refl refl refl refl

abbrev free_job : Job
free_job = created_job (record request { unlimited_user = true }) 50

abbrev free_db : Db
free_db = record empty_db { jobs = free_job ∷ []; outbox = delivery_1 ∷ [] }

deliver-unlimited_example :
    (d : Delivered × Db) × (deliver "office:job-1" free_job (returned (some (pos 9))) 110 free_db
      ≡ ok d)
    × (d.0.status ≡ Delivery.ambiguous)
    × ((p : Outbox) × (fetch_one (has_key "office:job-1") d.1.outbox ≡ some p)
        × (p.status ≡ Delivery.ambiguous)
        × (p.telegram_message_id ≡ none))
unfolding program
deliver-unlimited_example =
    deliver-unlimited "office:job-1" free_job (pos 9) 110 free_db delivery_1 refl refl refl refl
      refl refl
