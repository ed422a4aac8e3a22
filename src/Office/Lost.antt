-- ===== src/Office/Lost.antt =====
-- What the refund of `recover_expired_leases` does to the other groups of the same user. Its UPDATE
-- names the user and the day, and not the installation and the group.
use zero_agent.Base.{
  ℕ, ◌≡◌, refl, Bool, true, ◌&&◌, not, List, [], ◌∷◌, some, ok, err, integrity_error, fetch_one,
  select, arith, Bool-cases, inl, inr, leb, ◌⊎◌,
}
use zero_agent.Office.Model.{Job, Usage, Db, is_held}
use zero_agent.Office.Quota.{can_release, released, update_checked}
use zero_agent.Office.Lease.{
  is_lost, is_user_day, refund_lost, recover_row, recover_rows, recover_expired_leases,
}

module _ {ℓ} {A : Type ℓ} (p check : A → Bool) (f : A → A) where
  update_checked-cases :
      (xs : List A)
      → ((ys : List A) × (update_checked p check f xs ≡ ok ys))
        ⊎ (update_checked p check f xs ≡ err integrity_error)
  unfolding update_checked
  update_checked-cases [] = inl ([], refl)
  update_checked-cases (x ∷ xs) = elim (update_checked-cases xs) [
    | inr bad ↦ inr (rw bad)
    | inl (ys, fine) ↦ elim (Bool-cases (p x)) [
      | inr miss ↦ inl (x ∷ ys, rw (fine, miss))
      | inl hit ↦ elim (Bool-cases (check x)) [
        | inl passes ↦ inl (f x ∷ ys, rw (fine, hit, passes))
        | inr breaks ↦ inr (rw (fine, hit, breaks))
      ]
    ]
  ]

  -- one row that matches and breaks the CHECK is enough
  update_checked_refused :
      (xs : List A) (v : A)
      → fetch_one (λ x. p x && not (check x)) xs ≡ some v
      → update_checked p check f xs ≡ err integrity_error
  unfolding update_checked fetch_one
  update_checked_refused [] v h = absurd (ground arith)
  update_checked_refused (x ∷ xs) v h = elim (update_checked-cases xs) [
    | inr bad ↦ rw bad
    | inl (ys, fine) ↦ elim (Bool-cases (p x)) [
      | inr miss ↦ rw (update_checked_refused xs v (ground (arith, miss)))
      | inl hit ↦ elim (Bool-cases (check x)) [
        | inl passes ↦ rw (update_checked_refused xs v (ground (arith, hit, passes)))
        | inr breaks ↦ rw (fine, hit, breaks)
      ]
    ]
  ]

-- a row of the same user and day from which the refund cannot be taken
abbrev pub is_short_row : Job → Usage → Bool
is_short_row j u = is_user_day j.owner u && not (can_release j.extracted_characters u)

-- If the first lost job has used up its attempts and holds a reservation, and the user has on that
-- day a quota row, of any group, that has no reservation left or fewer reserved characters than the
-- job, then recovery raises and changes nothing: no lost job at all is requeued or failed.
pub recover-blocked :
    (max_attempts now : ℕ) (db : Db) (j : Job) (others : List Job) (v : Usage)
    → select (is_lost now) db.jobs ≡ j ∷ others
    → leb max_attempts j.attempt_count ≡ true
    → is_held j.quota_state ≡ true
    → fetch_one (is_short_row j) db.usage ≡ some v
    → recover_expired_leases max_attempts now db ≡ err integrity_error
unfolding recover_expired_leases recover_rows recover_row refund_lost
recover-blocked max_attempts now db j others v lost spent held short =
    let refused =
      update_checked_refused (is_user_day j.owner) (can_release j.extracted_characters)
        (released j.extracted_characters now) db.usage v short in
    rw (lost, recover_rows) (rw (spent, held, refused))
