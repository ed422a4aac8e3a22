-- ===== src/Office/Ledger/Settle.antt =====
-- Settling one reservation: the job's contribution moves, and the owner's row with it.
use zero_agent.Base.{
  ℕ, ◌+◌, ◌≤◌, ◌≡◌, refl, Bool, true, List, [], ◌∷◌, some, ok, >>=-eq-ok, if◌then◌else◌, fetch_one,
  update_where, count_where, arith, Bool-cases, inl, inr, sum_of-update_one, fetch_one-update,
  fetch_one_sound, sum_of-update_same, ◌≢◌, update_where_none,
}
use zero_agent.Office.Model.{QuotaState, Owner, Job, Usage, owner_beq, owner_beq_iff, has_id}
use zero_agent.Office.Quota.{is_owner, update_checked}
use zero_agent.Office.Ledger.Jobs.{Unique, contribution, usage_of, Agrees}

module _ {ℓ} {A : Type ℓ} (p check : A → Bool) (f : A → A) where
  -- a checked update that does not raise is the update
  pub update_checked-eq_update :
      (xs ys : List A) → update_checked p check f xs ≡ ok ys → ys ≡ update_where p f xs
  unfolding update_checked update_where
  update_checked-eq_update [] ys h = cc
  update_checked-eq_update (x ∷ xs) ys h =
      let (zs, rest, last) = >>=-eq-ok (update_checked p check f xs) _ h in
      ground (arith, update_checked-eq_update xs zs rest)

  pub update_checked-checks :
      (xs ys : List A) (x : A)
      → update_checked p check f xs ≡ ok ys
      → fetch_one p xs ≡ some x
      → check x ≡ true
  unfolding update_checked fetch_one
  update_checked-checks [] ys x h e = cc
  update_checked-checks (z ∷ xs) ys x h e =
      let (zs, rest, last) = >>=-eq-ok (update_checked p check f xs) _ h in
      ground (arith, update_checked-checks xs zs x rest)

module _ (f : Usage → ℕ) (g : Usage → Usage) (o : Owner)
    (kept : (v : Usage) → (g v).owner ≡ v.owner) where
  pub usage_of_self :
      (rows : List Usage) (u : Usage)
      → fetch_one (is_owner o) rows ≡ some u
      → usage_of f o (update_where (is_owner o) g rows) ≡ f (g u)
  usage_of_self rows u row = rw (
    fetch_one-update (is_owner o) (is_owner o) g rows (λ v. rw (kept v) refl),
    row,
    fetch_one_sound (is_owner o) rows u row,
  )

  pub usage_of-other :
      (k : Owner) (rows : List Usage)
      → o ≢ k
      → usage_of f k (update_where (is_owner o) g rows) ≡ usage_of f k rows
  unfolding fetch_one update_where
  usage_of-other k [] ne = refl
  usage_of-other k (v ∷ rows) ne = ground (
    arith,
    kept v,
    owner_beq_iff v.owner k,
    owner_beq_iff v.owner o,
    owner_beq_iff (g v).owner k,
    usage_of-other k rows ne,
  )

pub Agrees-settle :
    (f : Usage → ℕ) (s : QuotaState → Bool) (w : Job → ℕ) (g : Usage → Usage) (h : Job → Job)
    (usage : List Usage) (jobs : List Job) (j : Job) (u : Usage)
    → Unique jobs
    → fetch_one (has_id j.id) jobs ≡ some j
    → fetch_one (is_owner j.owner) usage ≡ some u
    → (h j).owner ≡ j.owner
    → ((v : Usage) → (g v).owner ≡ v.owner)
    → f (g u) + (if s j.quota_state then w j else 0)
      ≡ f u + (if s (h j).quota_state then w (h j) else 0)
    → Agrees f s w usage jobs
    → Agrees f s w (update_where (is_owner j.owner) g usage) (update_where (has_id j.id) h jobs)
Agrees-settle f s w g h usage jobs j u unique found row keep kept moves agree k =
    let moved = sum_of-update_one (contribution s w k) (has_id j.id) h jobs j (unique j.id) found in
    elim (Bool-cases (owner_beq j.owner k)) [
      | inl mine ↦
          let same : j.owner ≡ k = (owner_beq_iff j.owner k).0 mine in
          let before : usage_of f k usage ≡ f u = rw (← same, row) in
          let after : usage_of f k (update_where (is_owner j.owner) g usage) ≡ f (g u) =
            rw (← same) (usage_of_self f g j.owner kept usage u row) in
          let old : contribution s w k j ≡ (if s j.quota_state then w j else 0) = rw mine in
          let new : contribution s w k (h j) ≡ (if s (h j).quota_state then w (h j) else 0) =
            rw (keep, mine) in
          omega (arith, agree k)
      | inr other ↦
          let same =
            usage_of-other f g j.owner kept k usage (λ e. cc ((owner_beq_iff j.owner k).1 e)) in
          let old : contribution s w k j ≡ 0 = rw other in
          let new : contribution s w k (h j) ≡ 0 = rw (keep, other) in omega (arith, agree k)
    ]

-- a job outside the owner's reservation leaves the ledger's column as it was
pub Agrees-jobs :
    (f : Usage → ℕ) (s : QuotaState → Bool) (w : Job → ℕ) (q : Job → Bool) (h : Job → Job)
    (usage : List Usage) (jobs : List Job)
    → ((j : Job) (k : Owner) → contribution s w k (h j) ≡ contribution s w k j)
    → Agrees f s w usage jobs
    → Agrees f s w usage (update_where q h jobs)
Agrees-jobs f s w q h usage jobs keep agree k =
    rw (sum_of-update_same (contribution s w k) q h jobs (λ j. keep j k)) (agree k)

module _ {ℓ} {A : Type ℓ} (p check : A → Bool) (f : A → A) where
  update_checked_none : (xs : List A) → count_where p xs ≡ 0 → update_checked p check f xs ≡ ok xs
  unfolding update_checked count_where
  update_checked_none [] h = refl
  update_checked_none (x ∷ xs) h = elim (Bool-cases (p x)) [
    | inl e ↦ absurd (ground arith)
    | inr e ↦ rw (update_checked_none xs (ground arith), e)
  ]

  -- the one row that matches passes the check, so the statement does not raise
  pub update_checked_one :
      (xs : List A) (x : A)
      → count_where p xs ≤ 1
      → fetch_one p xs ≡ some x
      → check x ≡ true
      → update_checked p check f xs ≡ ok (update_where p f xs)
  unfolding update_checked update_where count_where fetch_one
  update_checked_one [] x one found passes = absurd (ground arith)
  update_checked_one (y ∷ ys) x one found passes = elim (Bool-cases (p y)) [
    | inl e ↦
        let same : y ≡ x = ground arith in
        let rest : count_where p ys ≡ 0 = ground arith in
        rw (update_checked_none ys rest, e, same, passes, update_where_none p f ys rest)
    | inr e ↦ rw (update_checked_one ys x (ground arith) (ground arith) passes, e)
  ]
