-- ===== src/Office/Transitions.antt =====
-- TRANSITIONS and `OfficeRepository.transition` of zero/office/db.py.
use mathlib.Core.Logic.{ite}
use zero_agent.Base.{
  ℕ, Bool, true, false, ◌||◌, List, [], ◌∷◌, ◌++◌, Option, none, some, String, ◌==◌, string_eq, cut,
  if◌then◌else◌, fetch_one, update_where, Result, ok, err, unknown_status, job_not_found,
  invalid_transition,
}
use zero_agent.Office.Model.{
  Status, Status-discrete, received, validating, quota_reserved, queued, planning, processing,
  validating_output, rendering, reviewing, repairing, completed, failed, cancelled, expired, Job,
  Event, Db, is_terminal, is_queued, has_id,
}

-- `to in TRANSITIONS[from]`
unfoldable pub is_allowed : Status → Status → Bool
is_allowed received validating = true
is_allowed received cancelled = true
is_allowed received failed = true
is_allowed validating quota_reserved = true
is_allowed validating cancelled = true
is_allowed validating failed = true
is_allowed quota_reserved queued = true
is_allowed quota_reserved cancelled = true
is_allowed quota_reserved failed = true
is_allowed queued planning = true
is_allowed queued processing = true
is_allowed queued cancelled = true
is_allowed queued expired = true
is_allowed queued failed = true
is_allowed planning quota_reserved = true
is_allowed planning processing = true
is_allowed planning queued = true
is_allowed planning cancelled = true
is_allowed planning failed = true
is_allowed planning expired = true
is_allowed processing validating_output = true
is_allowed processing repairing = true
is_allowed processing queued = true
is_allowed processing cancelled = true
is_allowed processing failed = true
is_allowed processing expired = true
is_allowed validating_output rendering = true
is_allowed validating_output reviewing = true
is_allowed validating_output repairing = true
is_allowed validating_output completed = true
is_allowed validating_output failed = true
is_allowed rendering reviewing = true
is_allowed rendering repairing = true
is_allowed rendering completed = true
is_allowed rendering failed = true
is_allowed reviewing repairing = true
is_allowed reviewing completed = true
is_allowed reviewing failed = true
is_allowed repairing queued = true
is_allowed repairing processing = true
is_allowed repairing validating_output = true
is_allowed repairing failed = true
is_allowed _ _ = false

-- the keys of TRANSITIONS, as a status is stored
unfoldable pub status_text : Status → String
status_text received = "received"
status_text validating = "validating"
status_text quota_reserved = "quota_reserved"
status_text queued = "queued"
status_text planning = "planning"
status_text processing = "processing"
status_text validating_output = "validating_output"
status_text rendering = "rendering"
status_text reviewing = "reviewing"
status_text repairing = "repairing"
status_text completed = "completed"
status_text failed = "failed"
status_text cancelled = "cancelled"
status_text expired = "expired"

abbrev pub all_statuses : List Status
all_statuses =
    received ∷ validating ∷ quota_reserved ∷ queued ∷ planning ∷ processing ∷ validating_output
    ∷ rendering ∷ reviewing ∷ repairing ∷ completed ∷ failed ∷ cancelled ∷ expired ∷ []

-- `to_status in TRANSITIONS`
unfoldable pub parse_status : String → Option Status
unfolding status_text
parse_status s = fetch_one (λ st. status_text st == s) all_statuses

-- COALESCE(?, column)
abbrev pub coalesce {ℓ} : {A : Type ℓ} → Option A → Option A → Option A
coalesce none y = y
coalesce (some x) y = some x

pub record Note : Type 0 where
  pub reason : String
  pub error_code : String
  pub error_message_safe : String
  pub details_json : String

abbrev pub is_processing : Status → Bool
is_processing processing = true
is_processing _ = false

-- the UPDATE of `transition`
unfoldable pub moved : Status → Note → ℕ → Job → Job
moved to note now j =
    let clear = is_terminal to || is_queued to in
    record j {
      status = to;
      updated_at = now;
      completed_at = coalesce (if is_terminal to then some now else none) j.completed_at;
      started_at = coalesce j.started_at (if is_processing to then some now else none);
      error_code = note.error_code;
      error_message_safe = note.error_message_safe;
      lease_owner = if clear then none else j.lease_owner;
      lease_expires_at = if clear then none else j.lease_expires_at;
    }

abbrev pub status_event : String → String → Status → Status → String → String → ℕ → Event
status_event job_id event_type from to reason details now = record {
  job_id = job_id;
  event_type = event_type;
  from_status = some from;
  to_status = some to;
  reason = reason;
  details_json = details;
  created_at = now;
}

-- past the check of `expected`
unfoldable pub move_job : String → Status → Note → ℕ → Job → Db → Result (Bool × Db)
unfolding is_allowed moved
move_job job_id to note now j db =
    if is_allowed j.status to
    then ok (
      true,
      record db {
        jobs = update_where (has_id job_id) (moved to note now) db.jobs;
        events =
            db.events
            ++ status_event job_id "status_transition" j.status to (cut 120 note.reason)
                note.details_json now
              ∷ [];
      },
    )
    else err invalid_transition

abbrev pub is_expected : Option Status → Status → Bool
is_expected none current = true
is_expected (some e) current = ite (Status-discrete current e) true false

unfoldable pub transition : String → Status → Option Status → Note → ℕ → Db → Result (Bool × Db)
unfolding move_job
transition job_id to expected note now db = elim (fetch_one (has_id job_id) db.jobs) [
  | none ↦ err job_not_found
  | some j ↦
      if is_expected expected j.status then move_job job_id to note now j db else ok (false, db)
]

-- `transition` as it is called, with the status as a text
unfoldable pub transition_text :
    String → String → Option Status → Note → ℕ → Db → Result (Bool × Db)
unfolding transition parse_status
transition_text job_id to expected note now db = elim (parse_status to) [
  | none ↦ err unknown_status
  | some st ↦ transition job_id st expected note now db
]
