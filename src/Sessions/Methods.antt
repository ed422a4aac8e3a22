-- ===== src/Sessions/Methods.antt =====
-- The methods of the registry of zero/sessions.py, each where it returns.
use mathlib.Core.Path.{subst}
use zero_agent.Base.{
  ℕ, ℤ, sym, ◌≡◌, refl, Bool, true, false, not, List, [], ◌∷◌, ◌++◌, Option, none, some, String,
  ◌==◌, string_eq, nat_beq, fetch_one, update_where, count_where, select, Result, ok, err, ◌>>=◌,
  >>=-eq-ok, arith, Bool-cases, Option-cases, inl, inr, fetch_one_sound, str_eq_iff,
}
use zero_agent.Sessions.Registry.{
  Session, parse_state, is_authorized, has_id, validate_id, get, new_session, is_taken, insert, add,
  marked, update_one, mark_state, marked_authorized, mark_authorized, with_active, switch, activate,
  deactivate, remove,
}
use zero_agent.Sessions.Login.{LoginOutcome, Reply, settle, login_session}
use zero_agent.Sessions.Sound.{
  IsSound, marked-IsSound, authorized-IsSound, idle-IsSound, remove-IsSound, insert-IsSound,
  switch-IsSound,
}

update_one-eq_ok :
    (i : String) (f : Session → Session) (rows : List Session) (r : Session × List Session)
    → update_one i f rows ≡ ok r
    → r.1 ≡ update_where (has_id i) f rows
unfolding update_one
update_one-eq_ok i f rows r h = elim (Bool-cases (nat_beq (count_where (has_id i) rows) 1)) [
  | inr gone ↦ absurd (ground (arith, gone))
  | inl there ↦
      let tail : (get i (update_where (has_id i) f rows) >>= λ row.
      ok (row, update_where (has_id i) f rows))
          ≡ ok r =
        ground (arith, there) in
      let (row, read, same) = >>=-eq-ok (get i (update_where (has_id i) f rows)) _ tail in
      let both : (row, update_where (has_id i) f rows) ≡ r = cc in rw (← both) refl
]

pub mark_state-IsSound :
    (id state e : String) (now : ℕ) (rows : List Session) (r : Session × List Session)
    → IsSound rows
    → mark_state id state e now rows ≡ ok r
    → IsSound r.1
unfolding mark_state
mark_state-IsSound id state e now rows r v h = elim (Option-cases (parse_state state)) [
  | inl bad ↦ absurd (ground (arith, bad))
  | inr (s, known) ↦
      let tail : (validate_id id >>= λ i. update_one i (marked s e now) rows) ≡ ok r =
        rw (known, mark_state) at h in
      let (i, valid, done) = >>=-eq-ok (validate_id id) _ tail in
      rw (update_one-eq_ok i (marked s e now) rows r done)
        (marked-IsSound rows v (has_id i) s e now)
]

pub mark_authorized-IsSound :
    (id : String) (u : Option ℤ) (name : String) (now : ℕ) (rows : List Session)
    (r : Session × List Session)
    → IsSound rows
    → mark_authorized id u name now rows ≡ ok r
    → IsSound r.1
unfolding mark_authorized
mark_authorized-IsSound id u name now rows r v h =
    let (i, valid, done) = >>=-eq-ok (validate_id id) _ h in
    rw (update_one-eq_ok i (marked_authorized u name now) rows r done)
      (authorized-IsSound rows v (has_id i) u name now)

after_mark :
    (m : Result (Session × List Session)) (o : LoginOutcome) (r : LoginOutcome × List Session)
    → ((s : Session × List Session) → m ≡ ok s → IsSound s.1)
    → (m >>= λ s. ok (o, s.1)) ≡ ok r
    → IsSound r.1
after_mark (err e) o r good h = absurd (ground arith)
after_mark (ok s) o r good h = let same : (o, s.1) ≡ r = cc in rw (← same) (good s refl)

settle-IsSound :
    (id : String) (reply : Reply) (now : ℕ) (rows : List Session) (r : LoginOutcome × List Session)
    → IsSound rows
    → settle id reply now rows ≡ ok r
    → IsSound r.1
unfolding settle
settle-IsSound id (Reply.raised name) now rows r v h =
    after_mark (mark_state id "error" name now rows) _ r
      (λ s. mark_state-IsSound id "error" name now rows s v) h
settle-IsSound id (Reply.returned o) now rows r v h = elim (Bool-cases (o.status == "authorized")) [
  | inl yes_in ↦
      after_mark (mark_authorized id o.user_id o.username now rows) o r
        (λ s. mark_authorized-IsSound id o.user_id o.username now rows s v)
        (rw (yes_in, settle) at h)
  | inr out ↦ elim (Bool-cases (o.status == "cancelled")) [
    | inl given_up ↦
        after_mark (mark_state id "cancelled" "" now rows) o r
          (λ s. mark_state-IsSound id "cancelled" "" now rows s v) (rw (out, given_up, settle) at h)
    | inr denied ↦
        after_mark (mark_state id "unauthorized" o.status now rows) o r
          (λ s. mark_state-IsSound id "unauthorized" o.status now rows s v)
          (rw (out, denied, settle) at h)
  ]
]

pub login_session-IsSound :
    (id : String) (reply : Reply) (now : ℕ) (rows : List Session) (r : LoginOutcome × List Session)
    → IsSound rows
    → login_session id reply now rows ≡ ok r
    → IsSound r.1
unfolding login_session
login_session-IsSound id reply now rows r v h =
    let (s, known, asked) = >>=-eq-ok (get id rows) _ h in
    let (begun, marked_it, done) = >>=-eq-ok (mark_state id "authorizing" "" now rows) _ asked in
    settle-IsSound id reply now begun.1 r
      (mark_state-IsSound id "authorizing" "" now rows begun v marked_it) done

insert-eq_ok :
    (s : Session) (rows : List Session) (r : Session × List Session)
    → insert s rows ≡ ok r
    → (fetch_one (is_taken s) rows ≡ none) × (r.1 ≡ rows ++ s ∷ [])
unfolding insert
insert-eq_ok s rows r h = elim (Option-cases (fetch_one (is_taken s) rows)) [
  | inr (other, taken) ↦ absurd (ground (arith, taken))
  | inl free ↦
      let tail : (get s.session_id (rows ++ s ∷ []) >>= λ row. ok (row, rows ++ s ∷ [])) ≡ ok r =
        rw (free, insert) at h in
      let (row, read, same) = >>=-eq-ok (get s.session_id (rows ++ s ∷ [])) _ tail in
      let both : (row, rows ++ s ∷ []) ≡ r = cc in (free, rw (← both) refl)
]

get-eq_ok :
    (id : String) (rows : List Session) (s : Session)
    → get id rows ≡ ok s
    → fetch_one (has_id s.session_id) rows ≡ some s
unfolding get
get-eq_ok id rows s h =
    let (i, valid, looked) = >>=-eq-ok (validate_id id) _ h in
    elim (Option-cases (fetch_one (has_id i) rows)) [
      | inl missing ↦ absurd (ground (arith, missing))
      | inr (row, found) ↦
          let same : row ≡ s = ground (arith, found) in
          let own : row.session_id ≡ i =
            (str_eq_iff row.session_id i).0 (fetch_one_sound (has_id i) rows row found) in
          rw (← same) (subst (λ k. fetch_one (has_id k) rows ≡ some row) (sym own) found)
    ]

-- what follows the read after a change
after_read :
    (m : Result Session) (rows' : List Session) (r : Session × List Session)
    → (m >>= λ row. ok (row, rows')) ≡ ok r
    → r.1 ≡ rows'
after_read (err e) rows' r h = absurd (ground arith)
after_read (ok row) rows' r h = let same : (row, rows') ≡ r = cc in rw (← same) refl

pub activate-IsSound :
    (exists : String → Bool) (id : String) (now : ℕ) (rows : List Session)
    (r : Session × List Session)
    → IsSound rows
    → activate exists id now rows ≡ ok r
    → IsSound r.1
unfolding activate
activate-IsSound exists id now rows r v h =
    let (s, known, next) = >>=-eq-ok (get id rows) _ h in
    elim (Bool-cases (is_authorized s.state)) [
      | inr barred ↦ absurd (ground (arith, barred))
      | inl may ↦ elim (Bool-cases (exists s.session_path)) [
        | inr missing ↦ absurd (ground (arith, may, missing))
        | inl there ↦
            let tail : (get s.session_id (switch s.session_id now rows) >>= λ row.
            ok (row, switch s.session_id now rows))
                ≡ ok r =
              ground (arith, may, there) in
            rw
              (after_read (get s.session_id (switch s.session_id now rows))
                (switch s.session_id now rows) r tail)
              (switch-IsSound rows v s.session_id now s (get-eq_ok id rows s known) may)
      ]
    ]

pub deactivate-IsSound :
    (id : String) (now : ℕ) (rows : List Session) (r : Session × List Session)
    → IsSound rows
    → deactivate id now rows ≡ ok r
    → IsSound r.1
unfolding deactivate
deactivate-IsSound id now rows r v h =
    let (s, known, next) = >>=-eq-ok (get id rows) _ h in
    let rest = update_where (has_id s.session_id) (with_active false now) rows in
    rw (after_read (get s.session_id rest) rest r next)
      (idle-IsSound rows v (has_id s.session_id) now)

pub discard-IsSound :
    (escapes : String → Bool) (id : String) (confirmed : Bool) (rows rows' : List Session)
    → IsSound rows
    → remove escapes id confirmed rows ≡ ok rows'
    → IsSound rows'
unfolding remove
discard-IsSound escapes id false rows rows' v h = absurd (ground arith)
discard-IsSound escapes id true rows rows' v h =
    let (s, known, next) = >>=-eq-ok (get id rows) _ h in
    let same : select (λ row. not (has_id s.session_id row)) rows ≡ rows' = ground arith in
    rw (← same) (remove-IsSound rows v (λ row. not (has_id s.session_id row)))

pub add-IsSound :
    (escapes : String → Bool) (managed_path : String → String) (id label : String)
    (path : Option String) (now : ℕ) (rows : List Session) (r : Session × List Session)
    → IsSound rows
    → add escapes managed_path id label path now rows ≡ ok r
    → IsSound r.1
unfolding add
add-IsSound escapes managed_path id label (some own) now rows r v h =
    let (i, valid, next) = >>=-eq-ok (validate_id id) _ h in
    let (free, grown) = insert-eq_ok (new_session i label own false now) rows r next in
    rw grown (insert-IsSound rows v (new_session i label own false now) refl free)
add-IsSound escapes managed_path id label none now rows r v h =
    let (i, valid, next) = >>=-eq-ok (validate_id id) _ h in
    elim (Bool-cases (escapes (managed_path i))) [
      | inl out ↦ absurd (ground (arith, out))
      | inr inside ↦
          let done : insert (new_session i label (managed_path i) true now) rows ≡ ok r =
            ground (arith, inside) in
          let (free, grown) =
            insert-eq_ok (new_session i label (managed_path i) true now) rows r done in
          rw grown (insert-IsSound rows v (new_session i label (managed_path i) true now) refl free)
    ]
