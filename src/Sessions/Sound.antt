-- ===== src/Sessions/Sound.antt =====
-- What keeps the registry of zero/sessions.py sound: the changes of its rows.
use zero_agent.Base.{
  ℕ, ℤ, ◌≤◌, ◌≡◌, refl, Bool, true, false, not, ◌&&◌, List, [], ◌∷◌, ◌++◌, Option, none, some,
  String, string_eq, fetch_one, update_where, count_where, select, arith, Bool-cases, inl, inr,
  count_where-update, count_where-update_le, count_where-update_less, count_where-update_none,
  count_where-select-le, count_where_both, count_where_mono, count_where-update_all,
  count_where-update_guarded, ◌∙◌, count_where-append, count_where_of_fetch_none, str_eq_iff,
}
use zero_agent.Sessions.Registry.{
  Session, SessionState, is_authorized, has_id, is_active, is_taken, marked, marked_authorized,
  with_active, switch,
}

abbrev is_stray : Session → Bool
is_stray s = is_active s && not (is_authorized s.state)

abbrev is_barred : Session → Bool
is_barred s = not (is_authorized s.state)

-- ids are unique, at most one session is active, and no active session is unauthorized
pub record IsSound (rows : List Session) : Type 0 where
  pub unique : (i : String) → count_where (has_id i) rows ≤ 1
  pub one_active : count_where is_active rows ≤ 1
  pub no_stray : count_where is_stray rows ≡ 0

module _ (rows : List Session) (v : IsSound rows) where
  -- an update that keeps the ids, activates nothing and leaves no active row unauthorized
  calm_update :
      (q : Session → Bool) (f : Session → Session)
      → ((s : Session) → (f s).session_id ≡ s.session_id)
      → ((s : Session) → (f s).active ≡ true → s.active ≡ true)
      → ((s : Session) → is_stray s ≡ false → is_stray (f s) ≡ false)
      → IsSound (update_where q f rows)
  calm_update q f ids calm fine = record {
    unique = λ i. rw (count_where-update (has_id i) q f rows (λ s. rw (ids s) refl)) (v.unique i);
    one_active = omega (arith, v.one_active, count_where-update_less is_active q f calm rows);
    no_stray = count_where-update_none is_stray q f (λ s h. fine s) rows v.no_stray;
  }

  pub marked-IsSound :
      (q : Session → Bool) (state : SessionState) (e : String) (now : ℕ)
      → IsSound (update_where q (marked state e now) rows)
  marked-IsSound q state e now =
      calm_update q (marked state e now) (λ s. refl) (λ s h. ground arith) (λ s h. ground arith)

  pub authorized-IsSound :
      (q : Session → Bool) (user : Option ℤ) (name : String) (now : ℕ)
      → IsSound (update_where q (marked_authorized user name now) rows)
  authorized-IsSound q user name now =
      calm_update q (marked_authorized user name now) (λ s. refl) (λ s h. h) (λ s h. ground arith)

  pub idle-IsSound :
      (q : Session → Bool) (now : ℕ) → IsSound (update_where q (with_active false now) rows)
  idle-IsSound q now =
      calm_update q (with_active false now) (λ s. refl) (λ s h. absurd (ground arith)) (λ s h. refl)

  pub remove-IsSound : (q : Session → Bool) → IsSound (select q rows)
  remove-IsSound q = record {
    unique = λ i. omega (arith, v.unique i, count_where-select-le (has_id i) q rows);
    one_active = omega (arith, v.one_active, count_where-select-le is_active q rows);
    no_stray = omega (arith, v.no_stray, count_where-select-le is_stray q rows);
  }

  pub insert-IsSound :
      (s : Session)
      → s.active ≡ false
      → fetch_one (is_taken s) rows ≡ none
      → IsSound (rows ++ s ∷ [])
  unfolding count_where
  insert-IsSound s idle free = record {
    unique = λ i. rw (count_where-append (has_id i) rows (s ∷ [])) (elim (Bool-cases (has_id i s)) [
      | inr other ↦ rw other (omega (arith, v.unique i))
      | inl mine ↦
          let same : s.session_id ≡ i = (str_eq_iff s.session_id i).0 mine in
          rw mine (
            omega (
              arith,
              count_where_of_fetch_none (is_taken s) rows free,
              count_where_mono (has_id i) (is_taken s) (λ x h. rw same (rw h refl)) rows,
            ))
    ]);
    one_active =
        rw (count_where-append is_active rows (s ∷ [])) (rw idle (omega (arith, v.one_active)));
    no_stray = rw (count_where-append is_stray rows (s ∷ [])) (rw idle (omega (arith, v.no_stray)));
  }

  pub switch-IsSound :
      (i : String) (now : ℕ) (s : Session)
      → fetch_one (has_id i) rows ≡ some s
      → is_authorized s.state ≡ true
      → IsSound (switch i now rows)
  unfolding switch count_where
  switch-IsSound i now s found may =
      let calm = idle-IsSound is_active now in
      let idle = update_where is_active (with_active false now) rows in
      record {
        unique = λ k.
            rw (count_where-update (has_id k) (has_id i) (with_active true now) idle (λ x. refl))
              (calm.unique k);
        one_active = omega (
          arith,
          count_where-update_le is_active (has_id i) (with_active true now) idle,
          count_where-update_all is_active is_active (with_active false now) (λ x. refl) rows,
          calm.unique i,
        );
        no_stray =
            count_where-update_guarded is_stray (has_id i) is_barred (with_active true now)
              (λ x h. h) idle
              (count_where-update (λ x. has_id i x && is_barred x) is_active (with_active false now)
                  rows (λ x. refl)
                ∙ count_where_both (has_id i) is_barred rows s (v.unique i) found (rw may refl))
              calm.no_stray;
      }
