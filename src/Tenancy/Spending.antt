-- ===== src/Tenancy/Spending.antt =====
-- What `consume_quotas` of zero/tenancy/registry.py promises.
use zero_agent.Base.{
  ℕ, pos, ok, suc, ◌+◌, ◌≤◌, ◌<◌, ◌≡◌, refl, ◌∙◌, true, false, List, [], ◌∷◌, none, some, String,
  ◌==◌, string_eq, nat_eq, fetch_one, arith, Option-cases, inl, inr, All, All-fetch_one,
  fetch_one_sound, fetch_one-update, fetch_one-append, str_eq_refl, ltb→lt,
}
use zero_agent.Tenancy.Roles.{Scope}
use zero_agent.Tenancy.Quotas.{
  Period, index_of, Limit, UsageRecord, QuotaDecision, is_limit, limits_in, quotas, is_usage,
  used_of, with_used, new_usage, write_used, is_over, charge, consume_limits, consume_quotas,
  all_periods,
}

-- no period stands twice in a list
abbrev Different : List Period → Type 0
Different [] = Unit
Different (p ∷ ps) = All (λ q. (index_of p == index_of q) ≡ false) ps × Different ps

abbrev pub Apart : List (Period × ℕ) → Type 0
Apart [] = Unit
Apart (l ∷ ls) = All (λ k. (index_of l.0 == index_of k.0) ≡ false) ls × Apart ls

module _ (s : Scope) (resource : String) (now : ℕ) where
  same_usage :
      (p : Period) (v : ℕ) → is_usage s resource now p (new_usage s resource now p v) ≡ true
  same_usage p v =
      ground (arith, str_eq_refl s.installation_id, str_eq_refl s.group_id, str_eq_refl resource)

  other_usage :
      (p q : Period) (v : ℕ)
      → (index_of p == index_of q) ≡ false
      → is_usage s resource now p (new_usage s resource now q v) ≡ false
  other_usage p q v apart = ground arith

  pub apart_usage :
      (p q : Period) (u : UsageRecord)
      → (index_of p == index_of q) ≡ false
      → is_usage s resource now p u ≡ true
      → is_usage s resource now q u ≡ false
  apart_usage p q u apart hit = ground arith

  used_of-write_used :
      (p : Period) (v : ℕ) (rows : List UsageRecord)
      → used_of s resource now p (write_used s resource now p v rows) ≡ v
  unfolding used_of write_used
  used_of-write_used p v rows = elim (Option-cases (fetch_one (is_usage s resource now p) rows)) [
    | inl new ↦
        rw (new, write_used)
          (rw
            (
              fetch_one-append (is_usage s resource now p) rows (new_usage s resource now p v),
              new,
              same_usage p v,
              used_of,
            )
            refl)
    | inr (u, found) ↦
        let read =
          fetch_one-update (is_usage s resource now p) (is_usage s resource now p)
            (with_used s resource now v) rows (λ x. refl) in
        rw (found, write_used)
          (rw (read, found, fetch_one_sound (is_usage s resource now p) rows u found, used_of) refl)
  ]

  used_of-write_other :
      (p q : Period) (v : ℕ) (rows : List UsageRecord)
      → (index_of p == index_of q) ≡ false
      → used_of s resource now p (write_used s resource now q v rows)
        ≡ used_of s resource now p rows
  unfolding used_of write_used
  used_of-write_other p q v rows apart =
      elim (Option-cases (fetch_one (is_usage s resource now q) rows)) [
        | inl new ↦
            let read =
              fetch_one-append (is_usage s resource now p) rows (new_usage s resource now q v) in
            elim (Option-cases (fetch_one (is_usage s resource now p) rows)) [
              | inl missing ↦
                  rw (new, write_used) (rw (read, missing, other_usage p q v apart, used_of) refl)
              | inr (w, there) ↦ rw (new, write_used) (rw (read, there, used_of) refl)
            ]
        | inr (u, found) ↦
            let read =
              fetch_one-update (is_usage s resource now p) (is_usage s resource now q)
                (with_used s resource now v) rows (λ x. refl) in
            elim (Option-cases (fetch_one (is_usage s resource now p) rows)) [
              | inl missing ↦ rw (found, write_used) (rw (read, missing, used_of) refl)
              | inr (w, there) ↦
                  let hit = fetch_one_sound (is_usage s resource now p) rows w there in
                  rw (found, write_used)
                    (rw (read, there, apart_usage p q w apart hit, used_of) refl)
            ]
      ]

  module _ (amount : ℕ) (before : List UsageRecord) where
    charge-other :
        (p : Period) (ls : List (Period × ℕ)) (rows : List UsageRecord)
        → All (λ l. (index_of p == index_of l.0) ≡ false) ls
        → used_of s resource now p (charge s resource now amount before ls rows)
          ≡ used_of s resource now p rows
    unfolding charge
    charge-other p [] rows apart = refl
    charge-other p (l ∷ ls) rows apart =
        charge-other p ls
          (write_used s resource now l.0 (used_of s resource now l.0 before + amount) rows) apart.1
        ∙ used_of-write_other p l.0 (used_of s resource now l.0 before + amount) rows apart.0

    -- the new use of each period under its limit, where no period is over
    charge-within :
        (ls : List (Period × ℕ)) (rows : List UsageRecord)
        → Apart ls
        → fetch_one (is_over s resource now amount before) ls ≡ none
        → All
            (λ l.
              (used_of s resource now l.0 (charge s resource now amount before ls rows)
                ≡ used_of s resource now l.0 before + amount)
              × (used_of s resource now l.0 before + amount ≤ l.1))
            ls
    unfolding charge fetch_one
    charge-within [] rows apart fine = tt
    charge-within (l ∷ ls) rows apart fine =
        let next =
          write_used s resource now l.0 (used_of s resource now l.0 before + amount) rows in
        (
          (
            charge-other l.0 ls next apart.0
                ∙ used_of-write_used l.0 (used_of s resource now l.0 before + amount) rows,
            ground arith,
          ),
          charge-within ls next apart.1 (ground arith),
        )

module _ (s : Scope) (resource : String) (rows : List Limit) where
  All-limits_in :
      (p : Period) (ps : List Period)
      → All (λ q. (index_of p == index_of q) ≡ false) ps
      → All (λ l. (index_of p == index_of l.0) ≡ false) (limits_in s resource rows ps)
  unfolding limits_in
  All-limits_in p [] h = tt
  All-limits_in p (q ∷ ps) h = elim (Option-cases (fetch_one (is_limit s resource q) rows)) [
    | inl missing ↦ rw (missing, All) (All-limits_in p ps h.1)
    | inr (l, found) ↦ rw (found, All) (h.0, All-limits_in p ps h.1)
  ]

  -- a period with the limit that the table has for it
  abbrev IsStored : Period × ℕ → Type 0
  IsStored l =
      (x : Limit) × (fetch_one (is_limit s resource l.0) rows ≡ some x) × (x.limit_value ≡ l.1)

  limits_in-All : (ps : List Period) → All IsStored (limits_in s resource rows ps)
  unfolding limits_in
  limits_in-All [] = tt
  limits_in-All (p ∷ ps) = elim (Option-cases (fetch_one (is_limit s resource p) rows)) [
    | inl missing ↦ rw (missing, All) (limits_in-All ps)
    | inr (l, found) ↦ rw (found, All) ((l, found, refl), limits_in-All ps)
  ]

  limits_in-Apart : (ps : List Period) → Different ps → Apart (limits_in s resource rows ps)
  unfolding limits_in
  limits_in-Apart [] h = tt
  limits_in-Apart (p ∷ ps) h = elim (Option-cases (fetch_one (is_limit s resource p) rows)) [
    | inl missing ↦ rw (missing, Apart) (limits_in-Apart ps h.1)
    | inr (l, found) ↦ rw (found, Apart) (All-limits_in p ps h.0, limits_in-Apart ps h.1)
  ]

  pub quotas-Apart : Apart (quotas s resource rows)
  unfolding quotas
  quotas-Apart =
      limits_in-Apart all_periods
        ((refl, (refl, (refl, tt))), ((refl, (refl, tt)), ((refl, tt), (tt, tt))))

module _ (s : Scope) (resource : String) (n now : ℕ) (limits : List Limit) (rows : List UsageRecord)
    (end : QuotaDecision × List UsageRecord)
    (done : consume_quotas s resource (pos (suc n)) now limits rows ≡ ok end) where
  -- Where `consume_quotas` allows an amount, it is added to the group's use of the resource in the
  -- current bucket of every period that has a limit, and none of these uses exceeds its limit.
  pub consume_quotas-allowed :
      end.0.allowed ≡ true
      → All
          (λ l.
            (used_of s resource now l.0 end.1 ≡ used_of s resource now l.0 rows + suc n)
            × (used_of s resource now l.0 rows + suc n ≤ l.1))
          (quotas s resource limits)
  unfolding consume_quotas consume_limits
  consume_quotas-allowed granted =
      elim (Option-cases
        (fetch_one (is_over s resource now (suc n) rows) (quotas s resource limits))) [
          | inr (l, over) ↦ absurd (ground (arith, over))
          | inl fine ↦
              let same : charge s resource now (suc n) rows (quotas s resource limits) rows
                  ≡ end.1 =
                ground (arith, fine) in
              rw (← same) (
                charge-within s resource now (suc n) rows (quotas s resource limits) rows
                  (quotas-Apart s resource limits) fine)
        ]

  -- Where it refuses an amount, no use is changed, and the period that it names as blocked has a limit in
  -- the table, for this group and resource, which the use with the amount would exceed.
  pub consume_quotas-refused :
      end.0.allowed ≡ false
      → (end.1 ≡ rows)
        × ((p : Period) × (end.0.blocked_period ≡ some p)
            × ((x : Limit) × (fetch_one (is_limit s resource p) limits ≡ some x)
                × (x.limit_value < used_of s resource now p rows + suc n)))
  unfolding consume_quotas consume_limits quotas
  consume_quotas-refused refused =
      elim (Option-cases
        (fetch_one (is_over s resource now (suc n) rows) (quotas s resource limits))) [
          | inl fine ↦ absurd (ground (arith, fine))
          | inr (l, over) ↦
              let hit =
                fetch_one_sound (is_over s resource now (suc n) rows) (quotas s resource limits) l
                  over in
              let (x, stored, value) =
                All-fetch_one (IsStored s resource limits) (is_over s resource now (suc n) rows)
                  (quotas s resource limits) l (limits_in-All s resource limits all_periods) over in
              (
                ground (arith, over),
                (l.0, ground (arith, over), (x, stored, rw value (ltb→lt _ _ hit))),
              )
        ]
