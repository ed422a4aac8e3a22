-- ===== src/Proactive/Policy.antt =====
-- zero/proactive_policy.py: the gate that a follow-up passes before it is sent. Arguments stand for
-- what the code reads outside the tables: the allowed hours from the environment (none where the text
-- is no integer), the local hour (0 to 23) from the time zone database, and the clock.
use zero_agent.Base.{
  ℕ, ◌+◌, ◌-◌, ◌*◌, ◌%◌, ℤ, pos, Bool, true, false, not, ◌&&◌, ◌||◌, List, [], ◌∷◌, ◌++◌, Option,
  none, some, String, ◌==◌, string_eq, int_eq, nat_beq, ltb, leb, if◌then◌else◌, fetch_one,
  count_where, codes, is_blank, cut,
}

pub data Action : Type 0 where
  block postpone allow : Action

pub data Reason : Type 0 where
  invalid_candidate user_opt_out invalid_quiet_hours quiet_hours : Reason
  user_rate_limit group_rate_limit topic_open allowed : Reason

pub record Decision : Type 0 where
  pub action : Action
  pub reason : Reason
  pub retry_at : Option ℕ

-- what the gate reads of a row of `proactive_followups`
pub record Candidate : Type 0 where
  pub id : String
  pub chat_id : ℤ
  pub subject_user_id : ℤ
  pub topic_summary : Option String

-- a row of `proactive_policy_events`, in a table that is kept in the order of its ids
pub record Event : Type 0 where
  pub candidate_id : String
  pub chat_id : ℤ
  pub subject_user_id : ℤ
  pub topic : String
  pub event : String
  pub decided : Option (Action × Reason)
  pub created_at : ℕ

-- a row of `proactive_feedback_preferences`
pub record Preference : Type 0 where
  pub chat_id : ℤ
  pub subject_user_id : ℤ
  pub proactive_enabled : Bool

-- `str(row.get("topic_summary") or "")`
abbrev pub topic_of : Option String → String
topic_of none = ""
topic_of (some t) = t

unfoldable pub hours_of : Option ℤ → Option ℤ → Option (ℕ × ℕ)
hours_of (some (pos start)) (some (pos end)) =
    if leb start 23 && leb 1 end && leb end 24 then some (start, end) else none
hours_of _ _ = none

unfoldable pub is_allowed_hour : ℕ → ℕ → ℕ → Bool
is_allowed_hour start end hour =
    if nat_beq start 0 && nat_beq end 24
    then true
    else if ltb start end
    then leb start hour && ltb hour end
    else leb start hour || ltb hour end

-- `(start - hour) % 24 or 24`, with Python's remainder, which is never negative
unfoldable pub hours_until : ℕ → ℕ → ℕ
hours_until start hour = let rest = (start + 24 - hour) % 24 in if nat_beq rest 0 then 24 else rest

abbrev pub is_preference : Candidate → Preference → Bool
is_preference c p = p.chat_id == c.chat_id && p.subject_user_id == c.subject_user_id

-- `pref and not bool(pref[0])`, where the table exists
unfoldable pub opted_out : Candidate → Option (List Preference) → Bool
opted_out c none = false
opted_out c (some rows) = elim (fetch_one (is_preference c) rows) [
  | none ↦ false
  | some p ↦ not p.proactive_enabled
]

abbrev pub is_sent : Event → Bool
is_sent e = e.event == "sent"

-- `created_at > now - seconds`
abbrev pub is_since : ℕ → ℕ → Event → Bool
is_since now seconds e = ltb now (e.created_at + seconds)

abbrev pub is_user_send : Candidate → ℕ → Event → Bool
is_user_send c now e =
    e.subject_user_id == c.subject_user_id && is_sent e && is_since now (72 * 3600) e

abbrev pub is_chat_send : Candidate → ℕ → Event → Bool
is_chat_send c now e = e.chat_id == c.chat_id && is_sent e && is_since now (24 * 3600) e

abbrev pub is_topic_event : Candidate → Event → Bool
is_topic_event c e =
    e.chat_id == c.chat_id
    && e.subject_user_id == c.subject_user_id
    && e.topic == topic_of c.topic_summary
    && (e.event == "open" || e.event == "resolved" || e.event == "cancelled")

-- of two events the one that ORDER BY created_at DESC, id DESC puts first, the second having the
-- greater id
abbrev pub newer : Option Event → Event → Option Event
newer none e = some e
newer (some best) e = if leb best.created_at e.created_at then some e else some best

unfoldable pub latest : (Event → Bool) → Option Event → List Event → Option Event
latest p best [] = best
latest p best (e ∷ es) = latest p (if p e then newer best e else best) es

unfoldable pub is_topic_open : Candidate → List Event → Bool
unfolding latest
is_topic_open c events = elim (latest (is_topic_event c) none events) [
  | none ↦ false
  | some e ↦ e.event == "open"
]

abbrev pub blocked : Reason → Decision
blocked r = record { action = block; reason = r; retry_at = none }

abbrev pub postponed : Reason → ℕ → Decision
postponed r t = record { action = postpone; reason = r; retry_at = some t }

-- the second transaction of `decide`
unfoldable pub decide_events : Candidate → ℕ → List Event → Decision
decide_events c now events =
    if leb 1 (count_where (is_user_send c now) events)
    then blocked user_rate_limit
    else if leb 2 (count_where (is_chat_send c now) events)
    then blocked group_rate_limit
    else if is_topic_open c events
    then blocked topic_open
    else record { action = allow; reason = allowed; retry_at = none }

-- from the allowed hours on
unfoldable pub decide_hours : Candidate → Option (ℕ × ℕ) → ℕ → ℕ → List Event → Decision
unfolding decide_events
decide_hours c none hour now events = postponed invalid_quiet_hours (now + 3600)
decide_hours c (some (start, end)) hour now events =
    if not (is_allowed_hour start end hour)
    then postponed quiet_hours (now + hours_until start hour * 3600)
    else decide_events c now events

unfoldable pub decide :
    Candidate → Option (List Preference) → Option (ℕ × ℕ) → ℕ → ℕ → List Event → Decision
unfolding decide_hours
decide c preferences hours hour now events =
    if is_blank (codes (topic_of c.topic_summary))
    then blocked invalid_candidate
    else if opted_out c preferences
    then blocked user_opt_out
    else decide_hours c hours hour now events

unfoldable pub insert_event :
    Candidate → String → Option (Action × Reason) → ℕ → List Event → List Event
insert_event c event decided now events =
    events
    ++ record {
      candidate_id = c.id;
      chat_id = c.chat_id;
      subject_user_id = c.subject_user_id;
      topic = cut 120 (topic_of c.topic_summary);
      event = event;
      decided = decided;
      created_at = now;
    }
      ∷ []

abbrev pub record_event : Candidate → String → ℕ → List Event → List Event
record_event c event now events = insert_event c event none now events

abbrev pub record_decision : Candidate → Decision → ℕ → List Event → List Event
record_decision c d now events = insert_event c "decision" (some (d.action, d.reason)) now events
