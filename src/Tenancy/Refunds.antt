-- ===== src/Tenancy/Refunds.antt =====
-- zero/tenancy/registry.py: the limits themselves, refunds, and the use of one period. An amount that
-- `consume` takes is not negative, and the name of a resource has no white space around it.
use zero_agent.Base.{
  ℕ, zero, suc, ◌+◌, ◌-◌, ◌≤◌, ◌≡◌, refl, ◌∙◌, ℤ, pos, negsuc, Bool, true, false, List, [], ◌∷◌,
  ◌++◌, Option, none, some, String, ◌==◌, string_eq, nat_eq, ltb, if◌then◌else◌, fetch_one,
  update_where, Result, ok, err, ◌>>=◌, quota_resource, length, codes, is_empty, arith,
  Option-cases, Bool-cases, inl, inr, All, fetch_one_sound, fetch_one-update,
}
use zero_agent.Tenancy.Roles.{Scope}
use zero_agent.Tenancy.Registry.{Registry, get_group}
use zero_agent.Tenancy.Quotas.{
  Period, index_of, Limit, UsageRecord, QuotaDecision, is_limit, quotas, is_usage, used_of,
  write_used, charge, consume_limits, consume_quotas,
}
use zero_agent.Tenancy.Spending.{Apart, apart_usage, quotas-Apart, consume_quotas-allowed}

unfoldable pub get_quota : Scope → String → Period → List Limit → Option ℕ
get_quota s resource p rows = elim (fetch_one (is_limit s resource p) rows) [
  | none ↦ none
  | some l ↦ some l.limit_value
]

-- `_validate_quota`, whose period and limit are so by their types
unfoldable pub validate_quota : String → Result (Unit {0})
validate_quota resource =
    if is_empty resource
    then err quota_resource
    else if ltb 128 (length (codes resource))
    then err quota_resource
    else ok tt

-- the upsert of a limit
unfoldable pub write_limit : Scope → String → Period → ℕ → List Limit → List Limit
write_limit s resource p v rows = elim (fetch_one (is_limit s resource p) rows) [
  | some _ ↦ update_where (is_limit s resource p) (λ l. record l { limit_value = v }) rows
  | none ↦
      rows
      ++ record {
        installation_id = s.installation_id;
        group_id = s.group_id;
        resource = resource;
        period = p;
        limit_value = v;
      }
        ∷ []
]

unfoldable pub set_quota : Scope → String → Period → ℕ → Registry → List Limit → Result (List Limit)
unfolding validate_quota write_limit
set_quota s resource p v reg rows = validate_quota resource >>= λ _.
    get_group s.installation_id s.group_id reg >>= λ _. ok (write_limit s resource p v rows)

unfoldable pub write_limits : Scope → String → List (Period × ℕ) → List Limit → List Limit
unfolding write_limit
write_limits s resource [] rows = rows
write_limits s resource (l ∷ ls) rows =
    write_limits s resource ls (write_limit s resource l.0 l.1 rows)

unfoldable pub set_quotas :
    Scope → String → List (Period × ℕ) → Registry → List Limit → Result (List Limit)
unfolding validate_quota write_limits
set_quotas s resource ls reg rows = get_group s.installation_id s.group_id reg >>= λ _. elim ls [
  | [] ↦ ok rows
  | l ∷ rest ↦ validate_quota resource >>= λ _. ok (write_limits s resource (l ∷ rest) rows)
]

turned : (a b : ℕ) → (a == b) ≡ false → (b == a) ≡ false
turned a b h = ground arith

module _ (s : Scope) (resource : String) (now : ℕ) where
  abbrev pub refunded : ℕ → UsageRecord → UsageRecord
  refunded amount u = record u { used = u.used - amount; updated_at = now }

  -- the loop of `refund_quotas`
  unfoldable pub refund_each : ℕ → List (Period × ℕ) → List UsageRecord → List UsageRecord
  refund_each amount [] rows = rows
  refund_each amount (l ∷ ls) rows =
      refund_each amount ls (update_where (is_usage s resource now l.0) (refunded amount) rows)

  -- an amount that is not positive refunds nothing
  unfoldable pub refund_quotas : ℤ → List Limit → List UsageRecord → List UsageRecord
  unfolding refund_each
  refund_quotas (negsuc n) limits rows = rows
  refund_quotas (pos zero) limits rows = rows
  refund_quotas (pos (suc n)) limits rows = refund_each (suc n) (quotas s resource limits) rows

  unfoldable pub consume :
      ℕ → Period → List Limit → List UsageRecord → (Bool × ℕ) × List UsageRecord
  unfolding get_quota
  consume amount p limits rows =
      let used = used_of s resource now p rows in
      let written : (Bool × ℕ) × List UsageRecord =
        ((true, used + amount), write_used s resource now p (used + amount) rows) in
      elim (get_quota s resource p limits) [
        | none ↦ written
        | some limit ↦ if ltb limit (used + amount) then ((false, used), rows) else written
      ]

  -- `usage` is `used_of`
  used_of-refunded :
      (amount : ℕ) (p : Period) (rows : List UsageRecord)
      → used_of s resource now p (update_where (is_usage s resource now p) (refunded amount) rows)
        ≡ used_of s resource now p rows - amount
  unfolding used_of
  used_of-refunded amount p rows =
      let read =
        fetch_one-update (is_usage s resource now p) (is_usage s resource now p) (refunded amount)
          rows (λ x. refl) in
      elim (Option-cases (fetch_one (is_usage s resource now p) rows)) [
        | inl missing ↦ rw (read, missing, used_of) (omega arith)
        | inr (u, found) ↦
            rw (read, found, fetch_one_sound (is_usage s resource now p) rows u found, used_of) refl
      ]

  used_of-refunded_other :
      (amount : ℕ) (p q : Period) (rows : List UsageRecord)
      → (index_of p == index_of q) ≡ false
      → used_of s resource now p (update_where (is_usage s resource now q) (refunded amount) rows)
        ≡ used_of s resource now p rows
  unfolding used_of
  used_of-refunded_other amount p q rows apart =
      let read =
        fetch_one-update (is_usage s resource now p) (is_usage s resource now q) (refunded amount)
          rows (λ x. refl) in
      elim (Option-cases (fetch_one (is_usage s resource now p) rows)) [
        | inl missing ↦ rw (read, missing, used_of) refl
        | inr (w, there) ↦
            let hit = fetch_one_sound (is_usage s resource now p) rows w there in
            rw (read, there, apart_usage s resource now p q w apart hit, used_of) refl
      ]

  refund_each-other :
      (amount : ℕ) (p : Period) (ls : List (Period × ℕ)) (rows : List UsageRecord)
      → All (λ l. (index_of p == index_of l.0) ≡ false) ls
      → used_of s resource now p (refund_each amount ls rows) ≡ used_of s resource now p rows
  unfolding refund_each
  refund_each-other amount p [] rows apart = refl
  refund_each-other amount p (l ∷ ls) rows apart =
      refund_each-other amount p ls
        (update_where (is_usage s resource now l.0) (refunded amount) rows) apart.1
      ∙ used_of-refunded_other amount p l.0 rows apart.0

  refunded_rest :
      (amount : ℕ) (l : Period × ℕ) (ls : List (Period × ℕ)) (rows rows' : List UsageRecord)
      → All (λ k. (index_of l.0 == index_of k.0) ≡ false) ls
      → All (λ k. used_of s resource now k.0 rows' ≡ used_of s resource now k.0 rows + amount) ls
      → All
          (λ k.
            used_of s resource now k.0
              (update_where (is_usage s resource now l.0) (refunded amount) rows')
            ≡ used_of s resource now k.0 rows + amount)
          ls
  refunded_rest amount l [] rows rows' apart h = tt
  refunded_rest amount l (k ∷ ls) rows rows' apart h = (
    used_of-refunded_other amount k.0 l.0 rows' (turned (index_of l.0) (index_of k.0) apart.0)
        ∙ h.0,
    refunded_rest amount l ls rows rows' apart.1 h.1,
  )

  refund_each-used_of :
      (amount : ℕ) (ls : List (Period × ℕ)) (rows rows' : List UsageRecord)
      → Apart ls
      → All (λ l. used_of s resource now l.0 rows' ≡ used_of s resource now l.0 rows + amount) ls
      → All
          (λ l.
            used_of s resource now l.0 (refund_each amount ls rows')
            ≡ used_of s resource now l.0 rows)
          ls
  unfolding refund_each
  refund_each-used_of amount [] rows rows' apart h = tt
  refund_each-used_of amount (l ∷ ls) rows rows' apart h =
      let next = update_where (is_usage s resource now l.0) (refunded amount) rows' in
      (
        refund_each-other amount l.0 ls next apart.0
            ∙ used_of-refunded amount l.0 rows'
            ∙ omega (arith, h.0),
        refund_each-used_of amount ls rows next apart.1
            (refunded_rest amount l ls rows rows' apart.0 h.1),
      )

module _ (s : Scope) (resource : String) (now : ℕ) (limits : List Limit)
    (rows : List UsageRecord) where
  All-first : {A : Type 0} (P Q : A → Type 0) (xs : List A) → All (λ x. P x × Q x) xs → All P xs
  All-first P Q [] h = tt
  All-first P Q (x ∷ xs) h = (h.0.0, All-first P Q xs h.1)

  -- A refund takes back what `consume_quotas` was allowed: where both read the same clock, the
  -- use in every period with a limit is what it was before.
  pub refund_quotas-consume_quotas :
      (n : ℕ) (end : QuotaDecision × List UsageRecord)
      → consume_quotas s resource (pos (suc n)) now limits rows ≡ ok end
      → end.0.allowed ≡ true
      → All
          (λ l.
            used_of s resource now l.0 (refund_quotas s resource now (pos (suc n)) limits end.1)
            ≡ used_of s resource now l.0 rows)
          (quotas s resource limits)
  unfolding refund_quotas
  refund_quotas-consume_quotas n end done granted =
      refund_each-used_of s resource now (suc n) (quotas s resource limits) rows end.1
        (quotas-Apart s resource limits)
        (All-first (λ l. used_of s resource now l.0 end.1 ≡ used_of s resource now l.0 rows + suc n)
          (λ l. used_of s resource now l.0 rows + suc n ≤ l.1) (quotas s resource limits)
          (consume_quotas-allowed s resource n now limits rows end done granted))

  -- Where a period is the only one with a limit, `consume` of it and `consume_quotas` are the same: both
  -- allow or both refuse, and they leave the same uses.
  pub consume-consume_quotas :
      (n : ℕ) (p : Period) (v : ℕ) (end : QuotaDecision × List UsageRecord)
      → quotas s resource limits ≡ (p, v) ∷ []
      → get_quota s resource p limits ≡ some v
      → consume_quotas s resource (pos (suc n)) now limits rows ≡ ok end
      → ((consume s resource now (suc n) p limits rows).0.0 ≡ end.0.allowed)
        × ((consume s resource now (suc n) p limits rows).1 ≡ end.1)
  unfolding consume consume_quotas consume_limits charge fetch_one
  consume-consume_quotas n p v end only limit done =
      elim (Bool-cases (ltb v (used_of s resource now p rows + suc n))) [
        | inl over ↦ ground (arith, only, limit, over, done)
        | inr fits ↦ ground (arith, only, limit, fits, done)
      ]
