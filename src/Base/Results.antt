-- ===== src/Base/Results.antt =====
-- Results of code that may raise. A transaction that raises is rolled back, so the state of the
-- database is part of a successful result only.
use mathlib.Core.Path.{◌≡◌, refl}

-- the exceptions of the repository classes, by the program's own messages
pub data Error : Type 0 where
  owner_empty owner_forbidden owner_candidate : Error
  character_limit daily_jobs : Error
  unknown_status job_not_found invalid_transition : Error
  invalid_id zero_user unknown_group permission_denied illegal_transition not_serving : Error
  quota_amount unknown_setting quota_resource : Error
  profile_invalid profile_taken providers_failed : Error
  job_security attribute_error value_error : Error
  session_id_invalid session_taken session_unknown session_state_invalid session_escaped : Error
  session_unauthorized session_file_missing session_unconfirmed session_active : Error
  integrity_error reservation_missing invalid_delivery_status : Error

pub data Result {ℓ} (V : Type ℓ) : Type ℓ where
  err : Error → Result V
  ok : V → Result V

-- the rest of a method, which an exception skips
infixl 5 ◌>>=◌
abbrev pub ◌>>=◌ {ℓ κ} : {V : Type ℓ} {W : Type κ} → Result V → (V → Result W) → Result W
err raised >>= rest = err raised
ok value >>= rest = rest value

pub >>=-eq-ok {ℓ κ} :
    {V : Type ℓ} {W : Type κ} (m : Result V) (f : V → Result W) {b : W}
    → (m >>= f) ≡ ok b
    → (a : V) × (m ≡ ok a) × (f a ≡ ok b)
>>=-eq-ok (ok a) f h = (a, refl, h)
>>=-eq-ok (err e) f h = cc
