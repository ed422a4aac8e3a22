-- ===== src/Templates/Grants.antt =====
-- zero/template_jobs.py: the table of permissions, seen as the role of every user.
use zero_agent.Base.{
  ℤ, ◌+◌, ◌≡◌, refl, Bool, true, false, List, [], ◌∷◌, ◌++◌, Option, none, some, ◌==◌, int_eq,
  if◌then◌else◌, ok, arith, Bool-cases, Option-cases, inl, inr, fetch_one, update_where,
  fetch_one-update, fetch_one-append, int_beq_iff, fetch_one_sound, sym, ◌∙◌, ap,
}
use zero_agent.Templates.Jobs.{
  Role, owner, cron_admin, normal_user, Grant, is_grant, role_for, grant_cron_admin,
}

-- the roles after the owner gave one to a user, or took it back
unfoldable pub granted : ℤ → Bool → (ℤ → Role) → ℤ → Role
granted target on roles u =
    if u == target then (if on then cron_admin else normal_user) else roles u

abbrev row_role : Option Grant → Role
row_role none = normal_user
row_role (some g) = g.role

abbrev given : Bool → Role
given on = if on then cron_admin else normal_user

-- the role of a row that a grant wrote, of the same user or of another
updated_row :
    (actor target u : ℤ) (on : Bool) (o : Option Grant)
    → ((g : Grant) → o ≡ some g → is_grant u g ≡ true)
    → (u ≡ target → (g : Grant) × (o ≡ some g))
    → row_role (elim o [
      | none ↦ none
      | some x ↦ some (
          if is_grant target x
          then record x { role = given on; granted_by = actor; version = x.version + 1 }
          else x)
    ])
      ≡ (if u == target then given on else row_role o)
updated_row actor target u on none own stored = elim (Bool-cases (u == target)) [
  | inl e ↦ absurd (ground (arith, stored ((int_beq_iff u target).0 e)))
  | inr e ↦ rw e refl
]
updated_row actor target u on (some x) own stored = elim (Bool-cases (u == target)) [
  | inl e ↦
      let same : x.user_id ≡ target =
        (int_beq_iff x.user_id u).0 (own x refl) ∙ (int_beq_iff u target).0 e in
      rw (e, (int_beq_iff x.user_id target).1 same) refl
  | inr e ↦ let same : x.user_id ≡ u = (int_beq_iff x.user_id u).0 (own x refl) in rw (same, e) refl
]

-- the role of a row that a grant added
added_row :
    (target u : ℤ) (g : Grant) (o : Option Grant)
    → g.user_id ≡ target
    → (u ≡ target → o ≡ none)
    → row_role (elim o [ none ↦ (if is_grant u g then some g else none) | some x ↦ some x ])
      ≡ (if u == target then g.role else row_role o)
added_row target u g none own free = elim (Bool-cases (u == target)) [
  | inl e ↦
      let same : g.user_id ≡ u = own ∙ sym ((int_beq_iff u target).0 e) in
      rw (e, (int_beq_iff g.user_id u).1 same) refl
  | inr e ↦ elim (Bool-cases (is_grant u g)) [
    | inr f ↦ rw (e, f) refl
    | inl f ↦
        absurd
          (ground (arith, e, (int_beq_iff u target).1 (sym ((int_beq_iff g.user_id u).0 f) ∙ own)))
  ]
]
added_row target u g (some x) own free = elim (Bool-cases (u == target)) [
  | inl e ↦ absurd (ground (arith, free ((int_beq_iff u target).0 e)))
  | inr e ↦ rw e refl
]

module _ (owner_id : ℤ) where
  role_for_row :
      (grants : List Grant) (u : ℤ)
      → role_for owner_id grants u
        ≡ (if u == owner_id then owner else row_role (fetch_one (is_grant u) grants))
  unfolding role_for
  role_for_row grants u = refl

  same_role :
      (u target : ℤ) (on : Bool) (r r' : Role)
      → (target == owner_id) ≡ false
      → r' ≡ (if u == target then given on else r)
      → (if u == owner_id then owner else r')
        ≡ (if u == target then given on else (if u == owner_id then owner else r))
  same_role u target on r r' other h = elim (Bool-cases (u == owner_id)) [
    | inr e ↦ rw e h
    | inl e ↦ elim (Bool-cases (u == target)) [
      | inr f ↦ rw (e, f) refl
      | inl f ↦ absurd (
          ground (
            arith,
            other,
            (int_beq_iff target owner_id).1
                (sym ((int_beq_iff u target).0 f) ∙ (int_beq_iff u owner_id).0 e),
          ))
    ]
  ]

  -- The table of permissions implements a function from users to roles: after a `grant_cron_admin` that
  -- returns, the user it names is an admin or a normal user, as it says, and every other user has the
  -- role of before, whatever rows the table has.
  pub grant_cron_admin-role_for :
      (grants grants' : List Grant) (actor target : ℤ) (on : Bool)
      → grant_cron_admin owner_id grants actor target on ≡ ok grants'
      → (u : ℤ) → role_for owner_id grants' u ≡ granted target on (role_for owner_id grants) u
  unfolding grant_cron_admin granted
  grant_cron_admin-role_for grants grants' actor target on h u =
      elim (Bool-cases (actor == owner_id)) [
        | inr e ↦ absurd (ground (arith, e, h))
        | inl e ↦ elim (Bool-cases (target == owner_id)) [
          | inl f ↦ absurd (ground (arith, e, f, h))
          | inr f ↦ elim (Option-cases (fetch_one (is_grant target) grants)) [
            | inl free ↦
                let g : Grant = record {
                  user_id = target;
                  role = given on;
                  granted_by = actor;
                  version = 1;
                } in
                let same : (grants ++ g ∷ []) ≡ grants' = ground (arith, e, f, free, h) in
                let row =
                  ap row_role (fetch_one-append (is_grant u) grants g)
                  ∙ added_row target u g (fetch_one (is_grant u) grants) refl
                      (λ own. rw own free) in
                let roles =
                  same_role u target on (row_role (fetch_one (is_grant u) grants))
                    (row_role (fetch_one (is_grant u) (grants ++ g ∷ []))) f row in
                rw (← same, role_for_row (grants ++ g ∷ []) u, role_for_row grants u) roles
            | inr (x, stored) ↦
                let write : Grant → Grant =
                  λ g. record g { role = given on; granted_by = actor; version = g.version + 1 } in
                let same : update_where (is_grant target) write grants ≡ grants' =
                  ground (arith, e, f, stored, h) in
                let row =
                  ap row_role
                    (fetch_one-update (is_grant u) (is_grant target) write grants (λ g. refl))
                  ∙ updated_row actor target u on (fetch_one (is_grant u) grants)
                      (λ g. fetch_one_sound (is_grant u) grants g) (λ own. (x, rw own stored)) in
                let roles =
                  same_role u target on (row_role (fetch_one (is_grant u) grants))
                    (row_role
                      (fetch_one (is_grant u) (update_where (is_grant target) write grants)))
                    f row in
                rw
                  (
                    ← same,
                    role_for_row (update_where (is_grant target) write grants) u,
                    role_for_row grants u,
                  )
                  roles
          ]
        ]
      ]
