-- ===== src/Office/Quota.antt =====
-- The quota ledger of zero/office/db.py: reservation with the new job, commit and refund.
use zero_agent.Base.{
  ℕ, ◌+◌, ◌-◌, ℤ, Bool, true, false, ◌&&◌, ◌||◌, not, List, [], ◌∷◌, ◌++◌, Option, none, some,
  String, ◌==◌, string_eq, int_eq, cut, ltb, leb, if◌then◌else◌, fetch_one, update_where,
  count_where, Result, ok, err, ◌>>=◌, character_limit, daily_jobs, integrity_error,
  reservation_missing,
}
use zero_agent.Tenancy.Ids.{owner_fault}
use zero_agent.Office.Model.{
  received, validating, quota_reserved, QuotaState, reserved, committed, refunded, unlimited, Owner,
  Job, Usage, Event, Metric, Db, owner_beq, has_id, is_held,
}
use zero_agent.Office.Transitions.{status_event}

-- the keyword arguments of `reserve_and_create`; `reservation_id` is the `uuid4` drawn in it
pub record NewJob : Type 0 where
  pub job_id : String
  pub trace_id : String
  pub account_scope : String
  pub owner : Owner
  pub chat_id : ℤ
  pub thread_id : Option ℤ
  pub message_id : ℤ
  pub operation_type : String
  pub office_format : String
  pub request_text : String
  pub input_filename : String
  pub input_path : String
  pub detected_mime : String
  pub input_size_bytes : ℕ
  pub uncompressed_size_bytes : ℕ
  pub extracted_characters : ℕ
  pub jobs_limit : ℕ
  pub max_characters : ℕ
  pub unlimited_user : Bool
  pub reservation_id : String

-- WHERE account_scope=? AND chat_id=? AND message_id=?
abbrev pub same_message : String → ℤ → ℤ → Job → Bool
same_message scope chat message j =
    j.account_scope == scope && j.chat_id == chat && j.message_id == message

abbrev pub is_owner : Owner → Usage → Bool
is_owner o u = owner_beq u.owner o

abbrev pub fresh_usage : Owner → ℕ → Usage
fresh_usage o now = record {
  owner = o;
  jobs_reserved = 0;
  jobs_committed = 0;
  characters_reserved = 0;
  characters_committed = 0;
  last_job_id = none;
  updated_at = now;
}

-- INSERT … ON CONFLICT DO NOTHING
unfoldable pub ensure_usage : Owner → ℕ → List Usage → List Usage
ensure_usage o now rows = elim (fetch_one (is_owner o) rows) [
  | none ↦ rows ++ fresh_usage o now ∷ []
  | some _ ↦ rows
]

abbrev pub with_reservation : NewJob → ℕ → Usage → Usage
with_reservation r now u = record u {
  jobs_reserved = u.jobs_reserved + 1;
  characters_reserved = u.characters_reserved + r.extracted_characters;
  last_job_id = some r.job_id;
  updated_at = now;
}

-- `int(usage["jobs_reserved"]) + int(usage["jobs_committed"])`
abbrev pub jobs_used : Option Usage → ℕ
jobs_used none = 0
jobs_used (some u) = u.jobs_reserved + u.jobs_committed

-- the branch `if not unlimited`
unfoldable pub reserve_usage : NewJob → ℕ → List Usage → Result (List Usage)
unfolding ensure_usage
reserve_usage r now rows =
    let all = ensure_usage r.owner now rows in
    if leb r.jobs_limit (jobs_used (fetch_one (is_owner r.owner) all))
    then err daily_jobs
    else ok (update_where (is_owner r.owner) (with_reservation r now) all)

unfoldable pub created_job : NewJob → ℕ → Job
created_job r now = record {
  id = r.job_id;
  trace_id = r.trace_id;
  account_scope = r.account_scope;
  owner = r.owner;
  chat_id = r.chat_id;
  thread_id = r.thread_id;
  message_id = r.message_id;
  status = quota_reserved;
  operation_type = r.operation_type;
  office_format = r.office_format;
  request_text = r.request_text;
  input_filename = r.input_filename;
  input_path = r.input_path;
  output_path = "";
  result_text = "";
  preview_paths_json = "[]";
  plan_json = "{}";
  detected_mime = r.detected_mime;
  input_size_bytes = r.input_size_bytes;
  uncompressed_size_bytes = r.uncompressed_size_bytes;
  extracted_characters = r.extracted_characters;
  quota_reservation_id = r.reservation_id;
  quota_state = if r.unlimited_user then unlimited else reserved;
  attempt_count = 0;
  repair_count = 0;
  lease_owner = none;
  lease_expires_at = none;
  heartbeat_at = none;
  error_code = "";
  error_message_safe = "";
  created_at = now;
  updated_at = now;
  started_at = none;
  completed_at = none;
}

-- the three events of the loop
abbrev pub creation_events : String → ℕ → List Event
creation_events i now =
    record (status_event i "job_received" received received "" "{}" now) { from_status = none }
    ∷ status_event i "input_validated" received validating "" "{}" now
    ∷ status_event i "quota_reserved" validating quota_reserved "" "{}" now
    ∷ []

-- CHECK(office_format IN ('docx','xlsx','pptx'))
abbrev pub is_format : String → Bool
is_format f = f == "docx" || f == "xlsx" || f == "pptx"

-- the INSERT, which the table refuses for another format, and where the id is taken
unfoldable pub insert_job : NewJob → ℕ → List Usage → Db → Result (Job × Db)
unfolding created_job
insert_job r now usage db =
    if not (is_format r.office_format)
    then err integrity_error
    else elim (fetch_one (has_id r.job_id) db.jobs) [
      | some _ ↦ err integrity_error
      | none ↦ ok (
        created_job r now,
        record db {
          jobs = db.jobs ++ created_job r now ∷ [];
          usage = usage;
          events = db.events ++ creation_events r.job_id now;
        },
      )
    ]

unfoldable pub admit_job : NewJob → ℕ → Db → Result (Job × Db)
unfolding reserve_usage insert_job
admit_job r now db =
    (if r.unlimited_user then ok db.usage else reserve_usage r now db.usage) >>= λ usage.
    insert_job r now usage db

-- `reserve_and_create`
unfoldable pub reserve_and_create : NewJob → ℕ → Db → Result (Job × Db)
unfolding admit_job
reserve_and_create r now db = elim (owner_fault r.owner.installation_id r.owner.group_id) [
  | some e ↦ err e
  | none ↦
      if ltb r.max_characters r.extracted_characters
      then err character_limit
      else elim (fetch_one (same_message r.account_scope r.chat_id r.message_id) db.jobs) [
        | some j ↦ ok (j, db)
        | none ↦ admit_job r now db
      ]
]

-- CHECK(jobs_reserved >= 0), CHECK(characters_reserved >= 0) after the decrement
abbrev pub can_release : ℕ → Usage → Bool
can_release chars u = leb 1 u.jobs_reserved && leb chars u.characters_reserved

abbrev pub released : ℕ → ℕ → Usage → Usage
released chars now u = record u {
  jobs_reserved = u.jobs_reserved - 1;
  characters_reserved = u.characters_reserved - chars;
  updated_at = now;
}

abbrev pub settled : ℕ → ℕ → Usage → Usage
settled chars now u = record u {
  jobs_reserved = u.jobs_reserved - 1;
  jobs_committed = u.jobs_committed + 1;
  characters_reserved = u.characters_reserved - chars;
  characters_committed = u.characters_committed + chars;
  updated_at = now;
}

-- an UPDATE under a CHECK: a row that matches and would break it makes the statement raise
unfoldable pub update_checked {ℓ} :
    {A : Type ℓ} → (A → Bool) → (A → Bool) → (A → A) → List A → Result (List A)
update_checked p check f [] = ok []
update_checked p check f (x ∷ xs) = update_checked p check f xs >>= λ ys.
    if not (p x) then ok (x ∷ ys) else if check x then ok (f x ∷ ys) else err integrity_error

abbrev pub with_quota : QuotaState → ℕ → Job → Job
with_quota s now j = record j { quota_state = s; updated_at = now }

abbrev pub quota_event : Job → String → String → ℕ → Event
quota_event j event reason now = status_event j.id event j.status j.status (cut 120 reason) "{}" now

-- INSERT INTO office_metrics … ON CONFLICT(name) DO UPDATE SET value=value+excluded.value
unfoldable pub add_metric : String → ℕ → ℕ → List Metric → List Metric
add_metric name value now [] = record { name = name; value = value; updated_at = now } ∷ []
add_metric name value now (m ∷ ms) =
    if m.name == name
    then record m { value = m.value + value; updated_at = now } ∷ ms
    else m ∷ add_metric name value now ms

-- `_finish_quota` past its guard
unfoldable pub settle_quota : Bool → String → ℕ → Job → Db → Result (Bool × Db)
unfolding update_checked
settle_quota commit reason now j db =
    let chars = j.extracted_characters in
    let apply = if commit then settled chars now else released chars now in
    update_checked (is_owner j.owner) (can_release chars) apply db.usage >>= λ usage.
    let state = if commit then committed else refunded in
    let event = if commit then "quota_committed" else "quota_refunded" in
    ok (
      true,
      record db {
        jobs = update_where (has_id j.id) (with_quota state now) db.jobs;
        usage = usage;
        events = db.events ++ quota_event j event reason now ∷ [];
        metrics =
            if commit then db.metrics else add_metric "office_quota_refunds_total" 1 now db.metrics;
      },
    )

-- `_finish_quota`
unfoldable pub finish_quota : String → Bool → String → ℕ → Db → Result (Bool × Db)
unfolding settle_quota
finish_quota job_id commit reason now db = elim (fetch_one (has_id job_id) db.jobs) [
  | none ↦ ok (false, db)
  | some j ↦ if is_held j.quota_state then settle_quota commit reason now j db else ok (false, db)
]

unfoldable pub commit_quota : String → ℕ → Db → Result (Bool × Db)
unfolding finish_quota
commit_quota job_id now db = finish_quota job_id true "success" now db

unfoldable pub refund_quota : String → String → ℕ → Db → Result (Bool × Db)
unfolding finish_quota
refund_quota job_id reason now db = finish_quota job_id false reason now db

abbrev pub is_reserved_owner : Owner → Usage → Bool
is_reserved_owner o u = is_owner o u && ltb 0 u.jobs_reserved

-- `_commit_quota_locked` past its guard; a `rowcount` other than 1 raises
unfoldable pub commit_held : Job → ℕ → Db → Result (Bool × Db)
unfolding update_checked
commit_held j now db =
    let chars = j.extracted_characters in
    update_checked (is_reserved_owner j.owner) (can_release chars) (settled chars now) db.usage
    >>= λ usage.
        if not (
          leb (count_where (is_reserved_owner j.owner) db.usage) 1
          && leb 1 (count_where (is_reserved_owner j.owner) db.usage))
        then err reservation_missing
        else ok (
          true,
          record db {
            jobs = update_where (has_id j.id) (with_quota committed now) db.jobs;
            usage = usage;
            events = db.events ++ quota_event j "quota_committed" "delivery_receipt" now ∷ [];
          },
        )

-- `_commit_quota_locked`
unfoldable pub commit_quota_locked : String → ℕ → Db → Result (Bool × Db)
unfolding commit_held
commit_quota_locked job_id now db = elim (fetch_one (has_id job_id) db.jobs) [
  | none ↦ ok (false, db)
  | some j ↦ if is_held j.quota_state then commit_held j now db else ok (false, db)
]

-- `update_job_artifacts`; a field that is not given keeps its value
pub record Artifacts : Type 0 where
  pub operation_type : Option String
  pub input_path : Option String
  pub output_path : Option String
  pub result_text : Option String
  pub preview_paths_json : Option String
  pub plan_json : Option String
  pub repair_count : Option ℕ
  pub error_code : Option String
  pub error_message_safe : Option String

abbrev pub given {ℓ} : {A : Type ℓ} → Option A → A → A
given none old = old
given (some new) old = new

abbrev pub with_artifacts : Artifacts → ℕ → Job → Job
with_artifacts a now j = record j {
  operation_type = given a.operation_type j.operation_type;
  input_path = given a.input_path j.input_path;
  output_path = given a.output_path j.output_path;
  result_text = given a.result_text j.result_text;
  preview_paths_json = given a.preview_paths_json j.preview_paths_json;
  plan_json = given a.plan_json j.plan_json;
  repair_count = given a.repair_count j.repair_count;
  error_code = given a.error_code j.error_code;
  error_message_safe = given a.error_message_safe j.error_message_safe;
  updated_at = now;
}

abbrev pub is_given {ℓ} : {A : Type ℓ} → Option A → Bool
is_given none = false
is_given (some x) = true

-- `if not values: return`
abbrev pub has_artifacts : Artifacts → Bool
has_artifacts a =
    is_given a.operation_type
    || is_given a.input_path
    || is_given a.output_path
    || is_given a.result_text
    || is_given a.preview_paths_json
    || is_given a.plan_json
    || is_given a.repair_count
    || is_given a.error_code
    || is_given a.error_message_safe

unfoldable pub update_job_artifacts : String → Artifacts → ℕ → Db → Db
update_job_artifacts job_id a now db =
    if has_artifacts a
    then record db { jobs = update_where (has_id job_id) (with_artifacts a now) db.jobs }
    else db
