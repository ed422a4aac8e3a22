-- ===== src/Office/Model.antt =====
-- The tables of zero/office/db.py (OFFICE_SCHEMA). A row is a record, a table the list of its rows.
-- The columns that own a quota row (installation, group, user, date) are one record, `Owner`.
use zero_agent.Base.{
  ℕ, ℤ, Bool, true, false, ◌&&◌, List, [], Option, none, some, String, ◌==◌, ◌≡◌, ◌↔◌, str_eq_iff,
  int_beq_iff, int_eq, string_eq, arith,
}

pub data Status : Type 0 where
  received validating quota_reserved queued planning processing validating_output : Status
  rendering reviewing repairing completed failed cancelled expired : Status

pub Status-discrete : Discrete Status
Status-discrete = hlevel

pub data QuotaState : Type 0 where
  reserved committed refunded unlimited : QuotaState

pub data Delivery : Type 0 where
  reserved sent retryable_failed permanent_failed ambiguous cancelled : Delivery

pub record Owner : Type 0 where
  pub installation_id : String
  pub group_id : String
  pub user_id : ℤ
  pub quota_date : String

pub record Job : Type 0 where
  pub id : String
  pub trace_id : String
  pub account_scope : String
  pub owner : Owner
  pub chat_id : ℤ
  pub thread_id : Option ℤ
  pub message_id : ℤ
  pub status : Status
  pub operation_type : String
  pub office_format : String
  pub request_text : String
  pub input_filename : String
  pub input_path : String
  pub output_path : String
  pub result_text : String
  pub preview_paths_json : String
  pub plan_json : String
  pub detected_mime : String
  pub input_size_bytes : ℕ
  pub uncompressed_size_bytes : ℕ
  pub extracted_characters : ℕ
  pub quota_reservation_id : String
  pub quota_state : QuotaState
  pub attempt_count : ℕ
  pub repair_count : ℕ
  pub lease_owner : Option String
  pub lease_expires_at : Option ℕ
  pub heartbeat_at : Option ℕ
  pub error_code : String
  pub error_message_safe : String
  pub created_at : ℕ
  pub updated_at : ℕ
  pub started_at : Option ℕ
  pub completed_at : Option ℕ

pub record Usage : Type 0 where
  pub owner : Owner
  pub jobs_reserved : ℕ
  pub jobs_committed : ℕ
  pub characters_reserved : ℕ
  pub characters_committed : ℕ
  pub last_job_id : Option String
  pub updated_at : ℕ

pub record Event : Type 0 where
  pub job_id : String
  pub event_type : String
  pub from_status : Option Status
  pub to_status : Option Status
  pub reason : String
  pub details_json : String
  pub created_at : ℕ

pub record Outbox : Type 0 where
  pub id : String
  pub job_id : String
  pub outbound_key : String
  pub installation_id : String
  pub group_id : String
  pub thread_id : Option ℤ
  pub destination_chat_id : ℤ
  pub status : Delivery
  pub attempt_count : ℕ
  pub lease_owner : Option String
  pub lease_expires_at : Option ℕ
  pub telegram_message_id : Option ℤ
  pub error_code : String
  pub created_at : ℕ
  pub updated_at : ℕ

pub record Metric : Type 0 where
  pub name : String
  pub value : ℕ
  pub updated_at : ℕ

pub record Db : Type 0 where
  pub jobs : List Job
  pub usage : List Usage
  pub events : List Event
  pub outbox : List Outbox
  pub metrics : List Metric

-- a database right after `migrate`
abbrev pub empty_db : Db
empty_db = record { jobs = []; usage = []; events = []; outbox = []; metrics = [] }

-- TERMINAL_STATUSES
abbrev pub is_terminal : Status → Bool
is_terminal completed = true
is_terminal failed = true
is_terminal cancelled = true
is_terminal expired = true
is_terminal _ = false

-- ACTIVE_STATUSES
abbrev pub is_active : Status → Bool
is_active planning = true
is_active processing = true
is_active validating_output = true
is_active rendering = true
is_active reviewing = true
is_active repairing = true
is_active _ = false

abbrev pub is_queued : Status → Bool
is_queued queued = true
is_queued _ = false

abbrev pub is_quota_reserved : Status → Bool
is_quota_reserved quota_reserved = true
is_quota_reserved _ = false

-- `quota_state != "reserved"` is its negation
abbrev pub is_held : QuotaState → Bool
is_held reserved = true
is_held _ = false

-- WHERE installation_id=? AND group_id=? AND user_id=? AND quota_date=?
unfoldable pub owner_beq : Owner → Owner → Bool
owner_beq a b =
    a.installation_id == b.installation_id
    && a.group_id == b.group_id
    && a.user_id == b.user_id
    && a.quota_date == b.quota_date

pub owner_beq_iff : (a b : Owner) → (owner_beq a b ≡ true) ↔ (a ≡ b)
unfolding owner_beq
owner_beq_iff a b = ground (
  arith,
  str_eq_iff a.installation_id b.installation_id,
  str_eq_iff a.group_id b.group_id,
  str_eq_iff a.quota_date b.quota_date,
  int_beq_iff a.user_id b.user_id,
)

-- WHERE id=?
abbrev pub has_id : String → Job → Bool
has_id i j = j.id == i

-- COALESCE(lease_expires_at,0)
abbrev pub or_zero : Option ℕ → ℕ
or_zero none = 0
or_zero (some n) = n
