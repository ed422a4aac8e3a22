-- ===== src/Sessions/Tests.antt =====
-- Runs of the registry of sessions.
use zero_agent.Base.{
  ◌≡◌, refl, true, false, ◌&&◌, List, [], ◌∷◌, none, some, arith, fetch_one, select, update_where,
  count_where, cut, strip, lstrip, rstrip, is_empty, replace_outside, pos,
}
use zero_agent.Sessions.Registry.{
  Session, parse_state, all_session_codes, is_session_id, validate_id, get, insert, add, update_one,
  mark_state, mark_authorized, switch, activate, deactivate, remove,
}
use zero_agent.Sessions.Login.{Reply, settle, login_session}
use zero_agent.Sessions.Sound.{IsSound}
use zero_agent.Sessions.Adapter.{
  Client, got, sent, password_needed, accepted, is_blank_code, identify, sign_in_with_password,
  sign_in_with_code, login as adapter_login, is_accepted, is_user, login-authorized,
}
use zero_agent.Sessions.Active.{
  Call, register, mark, authorize, enable, discard, login, perform, run, run-IsSound,
}

program : Unit {0}
unfolding fetch_one select update_where count_where cut strip lstrip rstrip is_empty replace_outside
    parse_state all_session_codes is_session_id validate_id get insert add update_one mark_state
    mark_authorized switch activate deactivate remove settle login_session perform run is_blank_code
    identify sign_in_with_password sign_in_with_code adapter_login
program = tt

no_session-IsSound : IsSound []
unfolding program
no_session-IsSound = record { unique = λ i. omega arith; one_active = omega arith; no_stray = refl }

abbrev calls : List Call
calls =
    register "main" "Main" none 10
    ∷ login "main"
        (Reply.returned (record {
          status = "authorized";
          user_id = some (pos 7);
          username = "zero";
          detail = "";
        }))
        12
    ∷ enable "main" 13
    ∷ register "spare" "" none 14
    ∷ authorize "spare" none "other" 15
    ∷ enable "spare" 16
    ∷ mark "spare" "error" "lost" 17
    ∷ discard "main" true
    ∷ []

abbrev after : List Call → List Session
after cs = run (λ p. false) (λ p. true) (λ i. i) cs []

only_spare : count_where (λ (s : Session). true) (after calls) ≡ 1
unfolding program
only_spare = refl

run-IsSound_example : IsSound (after calls)
run-IsSound_example = run-IsSound (λ p. false) (λ p. true) (λ i. i) calls [] no_session-IsSound

-- a new client, whose user enters a code and a password
abbrev client : Client
client = record {
  connect = got tt;
  is_user_authorized = got false;
  send_code_request = got sent;
  code = "1 2-3";
  sign_in = got password_needed;
  password = "p";
  sign_in_password = got accepted;
  get_me = got (some (pos 7, "zero"));
}

login-authorized_example :
    (is_accepted client.is_user_authorized client.sign_in client.sign_in_password
      && is_user client.get_me)
    ≡ true
unfolding program
login-authorized_example = login-authorized client refl
