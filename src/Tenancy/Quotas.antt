-- ===== src/Tenancy/Quotas.antt =====
-- zero/tenancy/registry.py: the quotas of a group per hour, day, week and month. A bucket is the text
-- of a calendar period in the code; here it is the number of that period: hours and days since
-- 1970-01-01, weeks that start on Monday, and months.
use zero_agent.Base.{
  ℕ, zero, suc, ◌+◌, ◌-◌, ◌*◌, ◌/◌, ◌%◌, ℤ, pos, negsuc, Bool, true, false, ◌&&◌, List, [], ◌∷◌,
  ◌++◌, map, Option, none, some, String, ◌==◌, string_eq, nat_eq, ltb, fetch_one, update_where,
  Result, ok, err, quota_amount,
}
use zero_agent.Tenancy.Roles.{Scope}

pub data Period : Type 0 where
  hour day week month : Period

-- QUOTA_PERIODS
abbrev pub all_periods : List Period
all_periods = hour ∷ day ∷ week ∷ month ∷ []

abbrev pub index_of : Period → ℕ
index_of hour = 0
index_of day = 1
index_of week = 2
index_of month = 3

-- a row of `group_quotas`
pub record Limit : Type 0 where
  pub installation_id : String
  pub group_id : String
  pub resource : String
  pub period : Period
  pub limit_value : ℕ

-- a row of `usage_records`
pub record UsageRecord : Type 0 where
  pub installation_id : String
  pub group_id : String
  pub resource : String
  pub period : Period
  pub bucket : ℕ
  pub used : ℕ
  pub updated_at : ℕ

pub record QuotaDecision : Type 0 where
  pub allowed : Bool
  pub blocked_period : Option Period
  pub usage : List (Period × ℕ)
  pub limits : List (Period × ℕ)

-- the months before a day, counted from March of the year 0 of the Gregorian calendar
unfoldable pub month_of : ℕ → ℕ
month_of d =
    let z = d + 719468 in
    let era = z / 146097 in
    let of_era = z % 146097 in
    let year = (of_era - of_era / 1460 + of_era / 36524 - of_era / 146096) / 365 in
    let of_year = of_era - (365 * year + year / 4 - year / 100) in
    (era * 400 + year) * 12 + (5 * of_year + 2) / 153

unfoldable pub bucket_of : Period → ℕ → ℕ
unfolding month_of
bucket_of hour now = now / 3600
bucket_of day now = now / 86400
bucket_of week now = (now / 86400 + 3) / 7
bucket_of month now = month_of (now / 86400)

abbrev pub is_limit : Scope → String → Period → Limit → Bool
is_limit s resource p l =
    l.installation_id == s.installation_id
    && l.group_id == s.group_id
    && l.resource == resource
    && index_of l.period == index_of p

-- `quotas`, from a list of periods on
unfoldable pub limits_in : Scope → String → List Limit → List Period → List (Period × ℕ)
limits_in s resource rows [] = []
limits_in s resource rows (p ∷ ps) =
    let rest = limits_in s resource rows ps in
    elim (fetch_one (is_limit s resource p) rows) [
      | none ↦ rest
      | some l ↦ (p, l.limit_value) ∷ rest
    ]

unfoldable pub quotas : Scope → String → List Limit → List (Period × ℕ)
unfolding limits_in
quotas s resource rows = limits_in s resource rows all_periods

module _ (s : Scope) (resource : String) (now : ℕ) where
  abbrev pub is_usage : Period → UsageRecord → Bool
  is_usage p u =
      u.installation_id == s.installation_id
      && u.group_id == s.group_id
      && u.resource == resource
      && u.bucket == bucket_of p now
      && index_of u.period == index_of p

  -- `int(row["used"]) if row else 0`
  unfoldable pub used_of : Period → List UsageRecord → ℕ
  used_of p rows = elim (fetch_one (is_usage p) rows) [ none ↦ 0 | some u ↦ u.used ]

  abbrev pub with_used : ℕ → UsageRecord → UsageRecord
  with_used used u = record u { used = used; updated_at = now }

  abbrev pub new_usage : Period → ℕ → UsageRecord
  new_usage p used = record {
    installation_id = s.installation_id;
    group_id = s.group_id;
    resource = resource;
    period = p;
    bucket = bucket_of p now;
    used = used;
    updated_at = now;
  }

  -- the upsert of `used`
  unfoldable pub write_used : Period → ℕ → List UsageRecord → List UsageRecord
  write_used p used rows = elim (fetch_one (is_usage p) rows) [
    | some _ ↦ update_where (is_usage p) (with_used used) rows
    | none ↦ rows ++ new_usage p used ∷ []
  ]

  module _ (amount : ℕ) (before : List UsageRecord) where
    -- `usage[period] + amount > limits[period]`
    abbrev pub is_over : Period × ℕ → Bool
    is_over l = ltb l.1 (used_of l.0 before + amount)

    -- the loop that writes
    unfoldable pub charge : List (Period × ℕ) → List UsageRecord → List UsageRecord
    charge [] rows = rows
    charge (l ∷ ls) rows = charge ls (write_used l.0 (used_of l.0 before + amount) rows)

    -- the transaction of `consume_quotas`
    unfoldable pub consume_limits : List (Period × ℕ) → QuotaDecision × List UsageRecord
    unfolding charge
    consume_limits limits = elim (fetch_one is_over limits) [
      | some l ↦ (
        record {
          allowed = false;
          blocked_period = some l.0;
          usage = map (λ k. (k.0, used_of k.0 before)) limits;
          limits = limits;
        },
        before,
      )
      | none ↦ (
        record {
          allowed = true;
          blocked_period = none;
          usage = map (λ k. (k.0, used_of k.0 before + amount)) limits;
          limits = limits;
        },
        charge limits before,
      )
    ]

-- the name of the resource has no white space around it, so that stripping it changes nothing; without
-- limits the transaction writes nothing and allows
unfoldable pub consume_quotas :
    Scope
    → String
    → ℤ
    → ℕ
    → List Limit
    → List UsageRecord
    → Result (QuotaDecision × List UsageRecord)
unfolding consume_limits quotas
consume_quotas s resource (negsuc n) now limits rows = err quota_amount
consume_quotas s resource (pos zero) now limits rows = err quota_amount
consume_quotas s resource (pos (suc n)) now limits rows =
    ok (consume_limits s resource now (suc n) rows (quotas s resource limits))
