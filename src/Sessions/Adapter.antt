-- ===== src/Sessions/Adapter.antt =====
-- zero/sessions.py: `TelethonLoginAdapter.login`. What the client gives at each step is a parameter;
-- that it is disconnected at the end is left out.
use zero_agent.Base.{
  ℤ, ◌≡◌, refl, Bool, true, false, not, ◌&&◌, [], ◌∷◌, Option, none, some, String, ◌==◌, string_eq,
  if◌then◌else◌, codes, select, arith, Bool-cases, inl, inr, is_empty, nat_eq,
}
use zero_agent.Sessions.Login.{LoginOutcome, Reply, raised, returned}

-- the exceptions of the client that every step may raise
pub data Fault : Type 0 where
  timed_out flooded broken : Fault
  strange : String → Fault

pub data Got (A : Type 0) : Type 0 where
  got : A → Got A
  failed : Fault → Got A

pub data CodeRequest : Type 0 where
  sent invalid_phone : CodeRequest

pub data SignIn : Type 0 where
  signed password_needed code_invalid code_expired : SignIn

pub data PasswordSignIn : Type 0 where
  accepted hash_invalid : PasswordSignIn

-- what the client gives to connect, is_user_authorized, send_code_request, sign_in with a code and with
-- a password, and get_me, and what the user enters
pub record Client : Type 0 where
  pub connect : Got (Unit {0})
  pub is_user_authorized : Got Bool
  pub send_code_request : Got CodeRequest
  pub code : String
  pub sign_in : Got SignIn
  pub password : String
  pub sign_in_password : Got PasswordSignIn
  pub get_me : Got (Option (ℤ × String))

abbrev pub outcome : String → LoginOutcome
outcome status = record { status = status; user_id = none; username = ""; detail = "" }

-- the `except` clauses around the steps
abbrev pub caught : Fault → Reply
caught timed_out = returned (outcome "timeout")
caught flooded = returned (outcome "rate_limited")
caught broken = returned (outcome "network_error")
caught (strange name) = raised name

abbrev pub and_then : {A : Type 0} → Got A → (A → Reply) → Reply
and_then (got a) next = next a
and_then (failed fault) next = caught fault

-- `.replace(" ", "").replace("-", "")`, and whether anything is left
unfoldable pub is_blank_code : String → Bool
is_blank_code s = elim (select (λ c. not (c == 32) && not (c == 45)) (codes s)) [
  | [] ↦ true
  | _ ∷ _ ↦ false
]

unfoldable pub identify : Got (Option (ℤ × String)) → Reply
identify me = and_then me (λ user. elim user [
  | none ↦ returned (outcome "unauthorized")
  | some u ↦ returned (record (outcome "authorized") { user_id = some u.0; username = u.1 })
])

unfoldable pub sign_in_with_password : Client → Reply
unfolding identify
sign_in_with_password c =
    if is_empty c.password
    then returned (outcome "cancelled")
    else and_then c.sign_in_password (λ a. elim a [
      | accepted ↦ identify c.get_me
      | hash_invalid ↦ returned (outcome "invalid_password")
    ])

unfoldable pub sign_in_with_code : Client → Reply
unfolding identify sign_in_with_password is_blank_code
sign_in_with_code c =
    if is_blank_code c.code
    then returned (outcome "cancelled")
    else and_then c.sign_in (λ a. elim a [
      | signed ↦ identify c.get_me
      | password_needed ↦ sign_in_with_password c
      | code_invalid ↦ returned (outcome "invalid_code")
      | code_expired ↦ returned (outcome "expired_code")
    ])

unfoldable pub login : Client → Reply
unfolding identify sign_in_with_code
login c = and_then c.connect (λ _. and_then c.is_user_authorized (λ known.
    if known
    then identify c.get_me
    else and_then c.send_code_request (λ a. elim a [
      | sent ↦ sign_in_with_code c
      | invalid_phone ↦ returned (outcome "invalid_phone")
    ])))

abbrev pub is_authorized_reply : Reply → Bool
is_authorized_reply (raised name) = false
is_authorized_reply (returned o) = o.status == "authorized"

abbrev pub is_user : Got (Option (ℤ × String)) → Bool
is_user (got (some u)) = true
is_user _ = false

abbrev pub is_accepted_password : Got PasswordSignIn → Bool
is_accepted_password (got accepted) = true
is_accepted_password _ = false

abbrev pub is_signed : Got SignIn → Got PasswordSignIn → Bool
is_signed (got signed) p = true
is_signed (got password_needed) p = is_accepted_password p
is_signed _ p = false

-- Telegram accepted the client before, or this sign-in with its code, or with its password
abbrev pub is_accepted : Got Bool → Got SignIn → Got PasswordSignIn → Bool
is_accepted (got true) s p = true
is_accepted (got false) s p = is_signed s p
is_accepted (failed fault) s p = false

caught_not : (fault : Fault) → is_authorized_reply (caught fault) ≡ false
caught_not timed_out = refl
caught_not flooded = refl
caught_not broken = refl
caught_not (strange name) = refl

identify-is_user :
    (m : Got (Option (ℤ × String))) → is_authorized_reply (identify m) ≡ true → is_user m ≡ true
unfolding identify
identify-is_user (got none) h = h
identify-is_user (got (some u)) h = refl
identify-is_user (failed fault) h = absurd (ground (arith, h, caught_not fault))

by_password :
    (p : Got PasswordSignIn) (m : Got (Option (ℤ × String)))
    → is_authorized_reply (
        and_then p (λ a. elim a [
          | accepted ↦ identify m
          | hash_invalid ↦ returned (outcome "invalid_password")
        ]))
      ≡ true
    → (is_accepted_password p && is_user m) ≡ true
by_password (got accepted) m h = identify-is_user m h
by_password (got hash_invalid) m h = h
by_password (failed fault) m h = absurd (ground (arith, h, caught_not fault))

with_password :
    (c : Client)
    → is_authorized_reply (sign_in_with_password c) ≡ true
    → (is_accepted_password c.sign_in_password && is_user c.get_me) ≡ true
unfolding sign_in_with_password
with_password c h = elim (Bool-cases (is_empty c.password)) [
  | inl e ↦ absurd (ground (arith, (rw (e, sign_in_with_password) at h)))
  | inr e ↦ by_password c.sign_in_password c.get_me (rw (e, sign_in_with_password) at h)
]

by_code :
    (c : Client) (s : Got SignIn)
    → is_authorized_reply (
        and_then s (λ a. elim a [
          | signed ↦ identify c.get_me
          | password_needed ↦ sign_in_with_password c
          | code_invalid ↦ returned (outcome "invalid_code")
          | code_expired ↦ returned (outcome "expired_code")
        ]))
      ≡ true
    → (is_signed s c.sign_in_password && is_user c.get_me) ≡ true
by_code c (got signed) h = identify-is_user c.get_me h
by_code c (got password_needed) h = with_password c h
by_code c (got code_invalid) h = h
by_code c (got code_expired) h = h
by_code c (failed fault) h = absurd (ground (arith, h, caught_not fault))

with_code :
    (c : Client)
    → is_authorized_reply (sign_in_with_code c) ≡ true
    → (is_signed c.sign_in c.sign_in_password && is_user c.get_me) ≡ true
unfolding sign_in_with_code
with_code c h = elim (Bool-cases (is_blank_code c.code)) [
  | inl e ↦ absurd (ground (arith, (rw (e, sign_in_with_code) at h)))
  | inr e ↦ by_code c c.sign_in (rw (e, sign_in_with_code) at h)
]

by_request :
    (c : Client) (r : Got CodeRequest)
    → is_authorized_reply (
        and_then r (λ a. elim a [
          | sent ↦ sign_in_with_code c
          | invalid_phone ↦ returned (outcome "invalid_phone")
        ]))
      ≡ true
    → (is_signed c.sign_in c.sign_in_password && is_user c.get_me) ≡ true
by_request c (got sent) h = with_code c h
by_request c (got invalid_phone) h = absurd (ground (arith, h))
by_request c (failed fault) h = absurd (ground (arith, h, caught_not fault))

by_state :
    (c : Client) (k : Got Bool)
    → is_authorized_reply (
        and_then k (λ known.
          if known
          then identify c.get_me
          else and_then c.send_code_request (λ a. elim a [
            | sent ↦ sign_in_with_code c
            | invalid_phone ↦ returned (outcome "invalid_phone")
          ])))
      ≡ true
    → (is_accepted k c.sign_in c.sign_in_password && is_user c.get_me) ≡ true
by_state c (got true) h = identify-is_user c.get_me h
by_state c (got false) h = by_request c c.send_code_request h
by_state c (failed fault) h = absurd (ground (arith, h, caught_not fault))

after_connect :
    (c : Client) (k : Got (Unit {0})) (next : Reply)
    → is_authorized_reply (and_then k (λ _. next)) ≡ true
    → is_authorized_reply next ≡ true
after_connect c (got u) next h = h
after_connect c (failed fault) next h = absurd (ground (arith, h, caught_not fault))

-- A login is reported as authorized only if Telegram accepted the client, already or with what the
-- user entered now, and named its user.
pub login-authorized :
    (c : Client)
    → is_authorized_reply (login c) ≡ true
    → (is_accepted c.is_user_authorized c.sign_in c.sign_in_password && is_user c.get_me) ≡ true
unfolding login
login-authorized c h = by_state c c.is_user_authorized (after_connect c c.connect _ h)
