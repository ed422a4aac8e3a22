-- ===== src/Sessions/Active.antt =====
-- The active session, along any calls of the registry of zero/sessions.py.
use zero_agent.Base.{
  ℕ, ℤ, ◌≡◌, refl, Bool, List, [], ◌∷◌, Option, String, string_eq, Result, ok, err, arith,
}
use zero_agent.Sessions.Registry.{
  Session, add, mark_state, mark_authorized, activate, deactivate, remove,
}
use zero_agent.Sessions.Login.{Reply, login_session}
use zero_agent.Sessions.Sound.{IsSound}
use zero_agent.Sessions.Methods.{
  mark_state-IsSound, mark_authorized-IsSound, login_session-IsSound, activate-IsSound,
  deactivate-IsSound, discard-IsSound, add-IsSound,
}

pub data Call : Type 0 where
  register : String → String → Option String → ℕ → Call
  mark : String → String → String → ℕ → Call
  authorize : String → Option ℤ → String → ℕ → Call
  enable : String → ℕ → Call
  disable : String → ℕ → Call
  discard : String → Bool → Call
  login : String → Reply → ℕ → Call

abbrev pub rows_of {ℓ} : {A : Type ℓ} → Result (A × List Session) → Result (List Session)
rows_of (ok (_, rows)) = ok rows
rows_of (err e) = err e

abbrev pub kept : List Session → Result (List Session) → List Session
kept rows (ok rows') = rows'
kept rows (err e) = rows

by_rows :
    {A : Type 0} (r : Result (A × List Session)) (rows' : List Session)
    → ((s : A × List Session) → r ≡ ok s → IsSound s.1)
    → rows_of r ≡ ok rows'
    → IsSound rows'
by_rows (err e) rows' good h = absurd (ground arith)
by_rows (ok s) rows' good h = let same : s.1 ≡ rows' = cc in rw (← same) (good s refl)

module _ (escapes exists : String → Bool) (managed_path : String → String) where
  unfoldable pub perform : Call → List Session → Result (List Session)
  unfolding add mark_state mark_authorized activate deactivate remove login_session
  perform (register id label path now) rows =
      rows_of (add escapes managed_path id label path now rows)
  perform (mark id state e now) rows = rows_of (mark_state id state e now rows)
  perform (authorize id u name now) rows = rows_of (mark_authorized id u name now rows)
  perform (enable id now) rows = rows_of (activate exists id now rows)
  perform (disable id now) rows = rows_of (deactivate id now rows)
  perform (discard id confirmed) rows = remove escapes id confirmed rows
  perform (login id reply now) rows = rows_of (login_session id reply now rows)

  unfoldable pub run : List Call → List Session → List Session
  unfolding perform
  run [] rows = rows
  run (c ∷ cs) rows = run cs (kept rows (perform c rows))

  perform-IsSound :
      (c : Call) (rows rows' : List Session)
      → IsSound rows
      → perform c rows ≡ ok rows'
      → IsSound rows'
  unfolding perform
  perform-IsSound (register id label path now) rows rows' v h =
      by_rows (add escapes managed_path id label path now rows) rows'
        (λ s. add-IsSound escapes managed_path id label path now rows s v) h
  perform-IsSound (mark id state e now) rows rows' v h =
      by_rows (mark_state id state e now rows) rows'
        (λ s. mark_state-IsSound id state e now rows s v) h
  perform-IsSound (authorize id u name now) rows rows' v h =
      by_rows (mark_authorized id u name now rows) rows'
        (λ s. mark_authorized-IsSound id u name now rows s v) h
  perform-IsSound (enable id now) rows rows' v h =
      by_rows (activate exists id now rows) rows' (λ s. activate-IsSound exists id now rows s v) h
  perform-IsSound (disable id now) rows rows' v h =
      by_rows (deactivate id now rows) rows' (λ s. deactivate-IsSound id now rows s v) h
  perform-IsSound (discard id confirmed) rows rows' v h =
      discard-IsSound escapes id confirmed rows rows' v h
  perform-IsSound (login id reply now) rows rows' v h =
      by_rows (login_session id reply now rows) rows'
        (λ s. login_session-IsSound id reply now rows s v) h

  kept-IsSound :
      (rows : List Session) (r : Result (List Session))
      → IsSound rows
      → ((rows' : List Session) → r ≡ ok rows' → IsSound rows')
      → IsSound (kept rows r)
  kept-IsSound rows (ok rows') v good = good rows' refl
  kept-IsSound rows (err e) v good = v

  -- Along any calls of the registry and any logins, by whatever names, replies and clocks, some of
  -- which raise, ids stay unique, at most one session is active, and an active session is authorized.
  pub run-IsSound : (cs : List Call) (rows : List Session) → IsSound rows → IsSound (run cs rows)
  unfolding run
  run-IsSound [] rows v = v
  run-IsSound (c ∷ cs) rows v =
      run-IsSound cs (kept rows (perform c rows))
        (kept-IsSound rows (perform c rows) v (λ rows'. perform-IsSound c rows rows' v))
