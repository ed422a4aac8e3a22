-- ===== src/Proactive/Outbox.antt =====
-- zero/proactive_transport.py: the outbox of follow-ups. The clock is an argument; `reserve` and
-- `recover` read it where they are given none, or 0.
use zero_agent.Base.{
  ℕ, ◌+◌, Bool, true, false, ◌&&◌, ◌||◌, List, [], ◌∷◌, ◌++◌, Option, none, some, String, ◌==◌,
  string_eq, ltb, if◌then◌else◌, fetch_one, update_where, Result, ok, err,
}
use Prim.Native.String
use zero_agent.Tenancy.Ids.{owner_fault}

pub data SendState : Type 0 where
  reserved sending sent retryable_failed permanent_failed ambiguous : SendState

pub record Row : Type 0 where
  pub outbound_key : String
  pub candidate_id : String
  pub installation_id : String
  pub group_id : String
  pub send_state : SendState
  pub attempt_count : ℕ
  pub lease_until : Option ℕ
  pub worker_id : Option String
  pub receipt : Option String
  pub last_error : Option String
  pub created_at : ℕ
  pub updated_at : ℕ

pub record TransportResult : Type 0 where
  pub success : Bool
  pub receipt : Option String
  pub retryable : Bool
  pub error_code : Option String

abbrev pub has_key : String → Row → Bool
has_key key row = row.outbound_key == key

-- 'pf:'+candidate_id
abbrev pub key_of : String → String
key_of candidate = String.◌++◌ "pf:" candidate

abbrev pub is_over : SendState → Bool
is_over sent = true
is_over ambiguous = true
is_over _ = false

-- (lease_until or 0)>now
abbrev pub is_held : ℕ → Option ℕ → Bool
is_held now none = false
is_held now (some t) = ltb now t

-- the DO UPDATE of the upsert
abbrev pub reserved_again : String → ℕ → Row → Row
reserved_again worker now row = record row {
  send_state = reserved;
  attempt_count = row.attempt_count + 1;
  lease_until = some (now + 900);
  worker_id = some worker;
  updated_at = now;
}

unfoldable pub new_row : String → String → String → String → ℕ → Row
new_row candidate worker installation group now = record {
  outbound_key = key_of candidate;
  candidate_id = candidate;
  installation_id = installation;
  group_id = group;
  send_state = reserved;
  attempt_count = 1;
  lease_until = some (now + 900);
  worker_id = some worker;
  receipt = none;
  last_error = none;
  created_at = now;
  updated_at = now;
}

-- `r and (… or …)`: the row that refuses a reservation
abbrev pub refuses : ℕ → Row → Bool
refuses now row = is_over row.send_state || is_held now row.lease_until

unfoldable pub reserve :
    String → String → String → String → ℕ → List Row → Result (Option String × List Row)
reserve candidate worker installation group now rows = elim (owner_fault installation group) [
  | some e ↦ err e
  | none ↦ elim (fetch_one (has_key (key_of candidate)) rows) [
    | none ↦
        ok (some (key_of candidate), rows ++ new_row candidate worker installation group now ∷ [])
    | some row ↦
        if refuses now row
        then ok (none, rows)
        else ok (
          some (key_of candidate),
          update_where (has_key (key_of candidate)) (reserved_again worker now) rows,
        )
  ]
]

abbrev pub state_after : TransportResult → SendState
state_after r =
    if r.success then sent else if r.retryable then retryable_failed else permanent_failed

abbrev pub completed : TransportResult → ℕ → Row → Row
completed r now row = record row {
  send_state = state_after r;
  receipt = r.receipt;
  last_error = r.error_code;
  lease_until = none;
  updated_at = now;
}

unfoldable pub complete : String → TransportResult → ℕ → List Row → List Row
complete key r now rows = update_where (has_key key) (completed r now) rows

abbrev pub is_sending : SendState → Bool
is_sending reserved = true
is_sending sending = true
is_sending _ = false

-- WHERE … lease_until<?, which no NULL meets
abbrev pub is_expired : ℕ → Option ℕ → Bool
is_expired now none = false
is_expired now (some t) = ltb t now

abbrev pub is_crashed : ℕ → Row → Bool
is_crashed now row = is_sending row.send_state && is_expired now row.lease_until

abbrev pub abandoned : ℕ → Row → Row
abandoned now row = record row { send_state = ambiguous; lease_until = none; updated_at = now }

unfoldable pub recover : ℕ → List Row → List Row
recover now rows = update_where (is_crashed now) (abandoned now) rows
