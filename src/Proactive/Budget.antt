-- ===== src/Proactive/Budget.antt =====
-- zero/proactive_scheduler.py, `technical_failure`: the retries of a follow-up come to an end.
use zero_agent.Base.{
  ℕ, ◌+◌, ◌≤◌, ◌≡◌, refl, ◌∙◌, true, List, [], ◌∷◌, some, String, string_eq, leb, length, fetch_one,
  update_where, fetch_one-update, fetch_one_sound, arith, Bool-cases, inl, inr, if◌then◌else◌,
}
use zero_agent.Proactive.Selection.{Followup, Tables, is_terminal, has_id}
use zero_agent.Proactive.Retries.{
  budget_of, known_reason, given_up, retried_at, retry_time, technical_failure,
}

module _ (digest : String → ℕ → ℕ) (i : String) where
  fetch_one-rewritten :
      (f : Followup → Followup) (rows : List Followup) (r : Followup)
      → ((x : Followup) → (f x).id ≡ x.id)
      → fetch_one (has_id i) rows ≡ some r
      → fetch_one (has_id i) (update_where (has_id i) f rows) ≡ some (f r)
  fetch_one-rewritten f rows r same h =
      rw
        (
          fetch_one-update (has_id i) (has_id i) f rows (λ x. rw (same x) refl),
          h,
          fetch_one_sound (has_id i) rows r h,
        )
        refl

  -- the row after a failure
  unfoldable pub after_failure : String → ℕ → Followup → Followup
  after_failure reason now r =
      if is_terminal r.status
      then r
      else if leb (budget_of r.max_retries) (r.retry_count + 1)
      then given_up (r.retry_count + 1) (known_reason reason) now r
      else retried_at (retry_time digest i (r.retry_count + 1) now) (r.retry_count + 1)
          (known_reason reason) now r

  technical_failure-row :
      (reason : String) (now : ℕ) (t : Tables) (r : Followup)
      → fetch_one (has_id i) t.followups ≡ some r
      → fetch_one (has_id i) (technical_failure digest i reason now t).1.followups
        ≡ some (after_failure reason now r)
  unfolding technical_failure after_failure
  technical_failure-row reason now t r h = elim (Bool-cases (is_terminal r.status)) [
    | inl e ↦ rw (h, technical_failure, e) h
    | inr e ↦ elim (Bool-cases (leb (budget_of r.max_retries) (r.retry_count + 1))) [
      | inl out ↦
          rw (h, technical_failure, e, out)
            (fetch_one-rewritten (given_up (r.retry_count + 1) (known_reason reason) now)
              t.followups r (λ x. refl) h)
      | inr left ↦
          rw (h, technical_failure, e, left)
            (fetch_one-rewritten
              (retried_at (retry_time digest i (r.retry_count + 1) now) (r.retry_count + 1)
                (known_reason reason) now)
              t.followups r (λ x. refl) h)
    ]
  ]

  unfoldable pub fail_times : List (String × ℕ) → Tables → Tables
  fail_times [] t = t
  fail_times (e ∷ es) t = fail_times es (technical_failure digest i e.0 e.1 t).1

  stays_terminal :
      (es : List (String × ℕ)) (t : Tables) (r : Followup)
      → fetch_one (has_id i) t.followups ≡ some r
      → is_terminal r.status ≡ true
      → fetch_one (has_id i) (fail_times es t).followups ≡ some r
  unfolding fail_times after_failure
  stays_terminal [] t r h over = h
  stays_terminal (e ∷ es) t r h over =
      let next : fetch_one (has_id i) (technical_failure digest i e.0 e.1 t).1.followups ≡ some r =
        technical_failure-row e.0 e.1 t r h ∙ rw (over, after_failure) refl in
      stays_terminal es (technical_failure digest i e.0 e.1 t).1 r next over

  -- A stored follow-up whose attempts fail is retried only as often as its budget allows: after as many
  -- failures as are left of it, at least one, whatever their reasons and times, it is in a terminal
  -- status, from which further failures do not move it.
  pub fail_times-terminal :
      (es : List (String × ℕ)) (t : Tables) (r : Followup)
      → fetch_one (has_id i) t.followups ≡ some r
      → 1 ≤ length es
      → budget_of r.max_retries ≤ r.retry_count + length es
      → (end : Followup) × (fetch_one (has_id i) (fail_times es t).followups ≡ some end)
        × (is_terminal end.status ≡ true)
  unfolding fail_times after_failure
  fail_times-terminal [] t r h one enough = absurd (omega (arith, one))
  fail_times-terminal (e ∷ es) t r h one enough =
      let next = technical_failure-row e.0 e.1 t r h in
      let after = (technical_failure digest i e.0 e.1 t).1 in
      elim (Bool-cases (is_terminal (after_failure e.0 e.1 r).status)) [
        | inl over ↦ (
          after_failure e.0 e.1 r,
          stays_terminal es after (after_failure e.0 e.1 r) next over,
          over,
        )
        | inr going ↦
            fail_times-terminal es after (after_failure e.0 e.1 r) next
              (ground (arith, enough, going)) (ground (arith, enough, going))
      ]
