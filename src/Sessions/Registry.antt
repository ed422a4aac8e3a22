-- ===== src/Sessions/Registry.antt =====
-- zero/sessions.py: `SessionRegistry`. The clock is an argument; what the code asks of the file system
-- is a parameter: `escapes` (the parent of a managed path is not the directory of managed files) and
-- `exists` (a session file is there). Deleting the files of a removed session is not modelled.
use zero_agent.Base.{
  ℕ, ℤ, Bool, true, false, not, ◌&&◌, ◌||◌, List, [], ◌∷◌, ◌++◌, Option, none, some, String, ◌==◌,
  string_eq, nat_beq, leb, if◌then◌else◌, codes, length, cut, strip, is_empty, replace_outside,
  fetch_one, update_where, count_where, select, Result, ok, err, ◌>>=◌, session_id_invalid,
  session_taken, session_unknown, session_state_invalid, session_escaped, session_unauthorized,
  session_file_missing, session_unconfirmed, session_active,
}
use zero_agent.Tenancy.Roles.{is_alphanumeric, is_id_code}

-- _SESSION_STATES
pub data SessionState : Type 0 where
  new authorizing authorized unauthorized cancelled error : SessionState

unfoldable pub parse_state : String → Option SessionState
parse_state s =
    if s == "new"
    then some new
    else if s == "authorizing"
    then some authorizing
    else if s == "authorized"
    then some authorized
    else if s == "unauthorized"
    then some unauthorized
    else if s == "cancelled"
    then some cancelled
    else if s == "error"
    then some error
    else none

pub record Session : Type 0 where
  pub session_id : String
  pub label : String
  pub session_path : String
  pub state : SessionState
  pub active : Bool
  pub managed : Bool
  pub user_id : Option ℤ
  pub username : String
  pub last_error : String
  pub created_at : ℕ
  pub updated_at : ℕ

abbrev pub is_authorized : SessionState → Bool
is_authorized authorized = true
is_authorized _ = false

abbrev pub is_session_code : ℕ → Bool
is_session_code c = is_alphanumeric c || nat_beq c b'_' || nat_beq c b'.' || nat_beq c b'-'

unfoldable pub all_session_codes : List ℕ → Bool
all_session_codes [] = true
all_session_codes (c ∷ s) = is_session_code c && all_session_codes s

-- `_SESSION_ID.fullmatch(value)`
unfoldable pub is_session_id : List ℕ → Bool
unfolding all_session_codes
is_session_id [] = false
is_session_id (c ∷ s) = is_alphanumeric c && all_session_codes s && leb (length s) 63

unfoldable pub validate_id : String → Result String
unfolding strip is_session_id
validate_id session_id =
    if is_session_id (codes (strip session_id))
    then ok (strip session_id)
    else err session_id_invalid

abbrev pub has_id : String → Session → Bool
has_id i s = s.session_id == i

abbrev pub is_active : Session → Bool
is_active s = s.active

unfoldable pub get : String → List Session → Result Session
unfolding validate_id
get session_id rows = validate_id session_id >>= λ i. elim (fetch_one (has_id i) rows) [
  | none ↦ err session_unknown
  | some s ↦ ok s
]

unfoldable pub active_session : List Session → Option Session
active_session rows = fetch_one is_active rows

unfoldable pub resolve_active_path : String → List Session → String
unfolding active_session
resolve_active_path fallback rows = elim (active_session rows) [
  | none ↦ fallback
  | some s ↦ s.session_path
]

abbrev pub new_session : String → String → String → Bool → ℕ → Session
new_session i label path managed now = record {
  session_id = i;
  label = strip (if is_empty label then i else label);
  session_path = path;
  state = new;
  active = false;
  managed = managed;
  user_id = none;
  username = "";
  last_error = "";
  created_at = now;
  updated_at = now;
}

-- a row that the primary key or the unique path makes the INSERT refuse
abbrev pub is_taken : Session → Session → Bool
is_taken s row = row.session_id == s.session_id || row.session_path == s.session_path

unfoldable pub insert : Session → List Session → Result (Session × List Session)
unfolding get
insert s rows = elim (fetch_one (is_taken s) rows) [
  | some _ ↦ err session_taken
  | none ↦ get s.session_id (rows ++ s ∷ []) >>= λ row. ok (row, rows ++ s ∷ [])
]

-- the first part of the path is the directory of managed files; an own path comes resolved
unfoldable pub add :
    (String → Bool)
    → (String → String)
    → String
    → String
    → Option String
    → ℕ
    → List Session
    → Result (Session × List Session)
unfolding insert
add escapes managed_path session_id label path now rows = validate_id session_id >>= λ i.
    elim path [
      | none ↦
          if escapes (managed_path i)
          then err session_escaped
          else insert (new_session i label (managed_path i) true now) rows
      | some own ↦ insert (new_session i label own false now) rows
    ]

abbrev pub marked : SessionState → String → ℕ → Session → Session
marked state last_error now s = record s {
  state = state;
  last_error = cut 80 (replace_outside is_id_code "_" last_error);
  active = if is_authorized state then s.active else false;
  updated_at = now;
}

-- an UPDATE of one session, its `rowcount` and the read that follows
unfoldable pub update_one :
    String → (Session → Session) → List Session → Result (Session × List Session)
unfolding get
update_one i change rows =
    if not (nat_beq (count_where (has_id i) rows) 1)
    then err session_unknown
    else (get i (update_where (has_id i) change rows) >>= λ row.
        ok (row, update_where (has_id i) change rows))

unfoldable pub mark_state :
    String → String → String → ℕ → List Session → Result (Session × List Session)
unfolding parse_state update_one
mark_state session_id state last_error now rows = elim (parse_state state) [
  | none ↦ err session_state_invalid
  | some s ↦ validate_id session_id >>= λ i. update_one i (marked s last_error now) rows
]

abbrev pub is_username_code : ℕ → Bool
is_username_code c = is_alphanumeric c || nat_beq c b'_'

abbrev pub marked_authorized : Option ℤ → String → ℕ → Session → Session
marked_authorized user username now s = record s {
  state = authorized;
  user_id = user;
  username = cut 64 (replace_outside is_username_code "" username);
  last_error = "";
  updated_at = now;
}

unfoldable pub mark_authorized :
    String → Option ℤ → String → ℕ → List Session → Result (Session × List Session)
unfolding update_one
mark_authorized session_id user username now rows =
    validate_id session_id >>= λ i. update_one i (marked_authorized user username now) rows

abbrev pub with_active : Bool → ℕ → Session → Session
with_active b now s = record s { active = b; updated_at = now }

-- the two updates of `activate`
unfoldable pub switch : String → ℕ → List Session → List Session
switch i now rows =
    update_where (has_id i) (with_active true now)
      (update_where is_active (with_active false now) rows)

unfoldable pub activate :
    (String → Bool) → String → ℕ → List Session → Result (Session × List Session)
unfolding get switch
activate exists session_id now rows = get session_id rows >>= λ s.
    if not (is_authorized s.state)
    then err session_unauthorized
    else if not (exists s.session_path)
    then err session_file_missing
    else (get s.session_id (switch s.session_id now rows) >>= λ row.
        ok (row, switch s.session_id now rows))

unfoldable pub deactivate : String → ℕ → List Session → Result (Session × List Session)
unfolding get
deactivate session_id now rows = get session_id rows >>= λ s.
    get s.session_id (update_where (has_id s.session_id) (with_active false now) rows) >>= λ row.
    ok (row, update_where (has_id s.session_id) (with_active false now) rows)

unfoldable pub remove : (String → Bool) → String → Bool → List Session → Result (List Session)
unfolding get
remove escapes session_id confirmed rows =
    if not confirmed
    then err session_unconfirmed
    else (get session_id rows >>= λ s.
        if s.active
        then err session_active
        else if s.managed && escapes s.session_path
        then err session_escaped
        else ok (select (λ row. not (has_id s.session_id row)) rows))
