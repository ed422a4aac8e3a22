-- ===== src/Proactive/Limits.antt =====
-- What the policy gate of zero/proactive_policy.py keeps to.
use zero_agent.Base.{
  ℕ, ◌+◌, ◌*◌, ◌≤◌, ◌<◌, ◌≡◌, ◌≢◌, refl, Bool, true, false, List, [], ◌∷◌, ◌++◌, Option, none, some,
  codes, is_blank, arith, Bool-cases, inl, inr, if◌then◌else◌, count_where, count_where-append, leb,
  int_eq, string_eq, int_beq_iff, int_beq, sym, lt→ltb, cut,
}
use zero_agent.Proactive.Policy.{
  allow, blocked, user_rate_limit, group_rate_limit, topic_open, allowed, Candidate, Event,
  Preference, topic_of, is_allowed_hour, opted_out, is_user_send, is_chat_send, is_topic_open,
  decide_events, decide_hours, decide, record_event, insert_event,
}

gates :
    (users chats : ℕ) (opened : Bool)
    → (if leb 1 users
        then blocked user_rate_limit
        else if leb 2 chats
        then blocked group_rate_limit
        else if opened
        then blocked topic_open
        else record { action = allow; reason = allowed; retry_at = none }).action
      ≡ allow
    → (users ≡ 0) × (chats ≤ 1) × (opened ≡ false)
gates users chats opened h = ground arith

decide_events-allow :
    (c : Candidate) (now : ℕ) (events : List Event)
    → (decide_events c now events).action ≡ allow
    → (count_where (is_user_send c now) events ≡ 0)
      × (count_where (is_chat_send c now) events ≤ 1)
      × (is_topic_open c events ≡ false)
unfolding decide_events
decide_events-allow c now events h =
    gates (count_where (is_user_send c now) events) (count_where (is_chat_send c now) events)
      (is_topic_open c events) h

-- what `decide` has made sure of when it allows a follow-up
pub record Clear (c : Candidate) (preferences : Option (List Preference)) (hours : Option (ℕ × ℕ))
    (hour now : ℕ) (events : List Event) : Type 0 where
  pub topic : is_blank (codes (topic_of c.topic_summary)) ≡ false
  pub wanted : opted_out c preferences ≡ false
  pub window : (w : ℕ × ℕ) × (hours ≡ some w) × (is_allowed_hour w.0 w.1 hour ≡ true)
  pub user_quiet : count_where (is_user_send c now) events ≡ 0
  pub chat_quiet : count_where (is_chat_send c now) events ≤ 1
  pub settled : is_topic_open c events ≡ false

decide_hours-allow :
    (c : Candidate) (hours : Option (ℕ × ℕ)) (hour now : ℕ) (events : List Event)
    → (decide_hours c hours hour now events).action ≡ allow
    → ((w : ℕ × ℕ) × (hours ≡ some w) × (is_allowed_hour w.0 w.1 hour ≡ true))
      × ((decide_events c now events).action ≡ allow)
unfolding decide_hours
decide_hours-allow c none hour now events h = absurd (ground arith)
decide_hours-allow c (some (start, end)) hour now events h =
    elim (Bool-cases (is_allowed_hour start end hour)) [
      | inr shut ↦ absurd (ground (arith, shut))
      | inl opened ↦ (((start, end), refl, opened), ground (arith, opened))
    ]

-- A follow-up is allowed only to a user who did not opt out, for a topic that is not blank and not
-- open, within the allowed hours, if its user was sent none in the last 72 hours and its chat at most
-- one in the last 24.
pub decide-Clear :
    (c : Candidate) (preferences : Option (List Preference)) (hours : Option (ℕ × ℕ)) (hour now : ℕ)
    (events : List Event)
    → (decide c preferences hours hour now events).action ≡ allow
    → Clear c preferences hours hour now events
unfolding decide
decide-Clear c preferences hours hour now events h =
    elim (Bool-cases (is_blank (codes (topic_of c.topic_summary)))) [
      | inl blank ↦ absurd (ground (arith, blank))
      | inr topic ↦ elim (Bool-cases (opted_out c preferences)) [
        | inl out ↦ absurd (ground (arith, topic, out))
        | inr stays ↦
            let late : (decide_hours c hours hour now events).action ≡ allow =
              ground (arith, topic, stays) in
            let (window, rest) = decide_hours-allow c hours hour now events late in
            let (users, chats, opened) = decide_events-allow c now events rest in
            record {
              topic = topic;
              wanted = stays;
              window = window;
              user_quiet = users;
              chat_quiet = chats;
              settled = opened;
            }
      ]
    ]

abbrev sent_event : Candidate → ℕ → Event
sent_event c now = record {
  candidate_id = c.id;
  chat_id = c.chat_id;
  subject_user_id = c.subject_user_id;
  topic = cut 120 (topic_of c.topic_summary);
  event = "sent";
  decided = none;
  created_at = now;
}

count_where_has :
    (p : Event → Bool) (xs ys : List Event) (e : Event)
    → p e ≡ true
    → 1 ≤ count_where p ((xs ++ e ∷ []) ++ ys)
unfolding count_where
count_where_has p xs ys e h =
    rw (count_where-append p (xs ++ e ∷ []) ys, count_where-append p xs (e ∷ []))
      (rw h (omega arith))

-- After a follow-up to a user is recorded as sent, none is allowed to the user for 72 hours, in any
-- chat and on any topic, whatever is recorded before and after it.
pub decide-after_sent :
    (c d : Candidate) (preferences : Option (List Preference)) (hours : Option (ℕ × ℕ))
    (hour sent_at now : ℕ) (events more : List Event)
    → d.subject_user_id ≡ c.subject_user_id
    → now < sent_at + 72 * 3600
    → (decide d preferences hours hour now (record_event c "sent" sent_at events ++ more)).action
      ≢ allow
unfolding insert_event
decide-after_sent c d preferences hours hour sent_at now events more same soon h =
    let clear =
      decide-Clear d preferences hours hour now (record_event c "sent" sent_at events ++ more) h in
    let e = sent_event c sent_at in
    let user : int_beq c.subject_user_id d.subject_user_id ≡ true =
      (int_beq_iff c.subject_user_id d.subject_user_id).1 (sym same) in
    let hit : is_user_send d now e ≡ true = rw (user, lt→ltb now (sent_at + 72 * 3600) soon) refl in
    absurd (omega (arith, clear.user_quiet, count_where_has (is_user_send d now) events more e hit))
