-- ===== src/Sessions/Login.antt =====
-- zero/sessions.py: `login_session`. What the adapter gives back, or the name of the exception that it
-- raised, is an argument, and so is the clock.
use zero_agent.Base.{
  ℕ, ℤ, List, Option, none, String, ◌==◌, string_eq, if◌then◌else◌, Result, ok, ◌>>=◌,
}
use zero_agent.Sessions.Registry.{Session, get, mark_state, mark_authorized}

pub record LoginOutcome : Type 0 where
  pub status : String
  pub user_id : Option ℤ
  pub username : String
  pub detail : String

pub data Reply : Type 0 where
  raised : String → Reply
  returned : LoginOutcome → Reply

-- after the adapter
unfoldable pub settle : String → Reply → ℕ → List Session → Result (LoginOutcome × List Session)
unfolding mark_state mark_authorized
settle session_id (raised name) now rows = mark_state session_id "error" name now rows >>= λ r.
    ok (record { status = "error"; user_id = none; username = ""; detail = name }, r.1)
settle session_id (returned outcome) now rows =
    if outcome.status == "authorized"
    then (mark_authorized session_id outcome.user_id outcome.username now rows >>= λ r.
        ok (outcome, r.1))
    else if outcome.status == "cancelled"
    then (mark_state session_id "cancelled" "" now rows >>= λ r. ok (outcome, r.1))
    else (mark_state session_id "unauthorized" outcome.status now rows >>= λ r. ok (outcome, r.1))

unfoldable pub login_session :
    String → Reply → ℕ → List Session → Result (LoginOutcome × List Session)
unfolding settle
login_session session_id reply now rows = get session_id rows >>= λ s.
    mark_state session_id "authorizing" "" now rows >>= λ r. settle session_id reply now r.1
