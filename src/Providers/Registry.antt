-- ===== src/Providers/Registry.antt =====
-- zero/providers/registry.py: `ProviderRegistry`. The entries hold, for each name, what the dictionaries
-- of profiles, providers and limiters hold. What a provider answers is the parameter `call`, none for a
-- ProviderError, with another exception left out, as are the costs.
use zero_agent.Base.{
  ℕ, ◌+◌, Bool, not, List, [], ◌∷◌, ◌++◌, Option, none, some, String, ◌==◌, string_eq,
  if◌then◌else◌, fetch_one, select, update_where, Result, ok, err, profile_taken, providers_failed,
}
use zero_agent.Providers.Limiter.{RateLimiter, new_limiter, allow}
use zero_agent.Providers.Profile.{Profile}

pub record Completion : Type 0 where
  pub text : String
  pub input_tokens : ℕ
  pub output_tokens : ℕ

pub record Entry : Type 0 where
  pub profile : Profile
  pub limiter : RateLimiter

pub record Usage : Type 0 where
  pub name : String
  pub requests : ℕ
  pub input_tokens : ℕ
  pub output_tokens : ℕ

pub record Registry : Type 0 where
  pub entries : List Entry
  pub usages : List Usage

abbrev pub is_named : String → Entry → Bool
is_named n e = e.profile.name == n

abbrev pub is_usage_of : String → Usage → Bool
is_usage_of n u = u.name == n

-- both kinds have an implementation
unfoldable pub register : Profile → Registry → Result Registry
register p reg = elim (fetch_one (is_named p.name) reg.entries) [
  | some _ ↦ err profile_taken
  | none ↦ ok (record reg {
    entries =
        reg.entries ++ record { profile = p; limiter = new_limiter p.requests_per_minute } ∷ [];
  })
]

-- `_record`
unfoldable pub record_usage : String → Completion → List Usage → List Usage
record_usage n c us = elim (fetch_one (is_usage_of n) us) [
  | none ↦
      us
      ++ record {
        name = n;
        requests = 1;
        input_tokens = c.input_tokens;
        output_tokens = c.output_tokens;
      }
        ∷ []
  | some _ ↦
      update_where (is_usage_of n)
        (λ u. record u {
          requests = u.requests + 1;
          input_tokens = u.input_tokens + c.input_tokens;
          output_tokens = u.output_tokens + c.output_tokens;
        })
        us
]

-- `usage(name)["requests"]`
unfoldable pub requests_of : String → List Usage → ℕ
requests_of n us = elim (fetch_one (is_usage_of n) us) [ none ↦ 0 | some u ↦ u.requests ]

abbrev pub with_limiter : RateLimiter → Entry → Entry
with_limiter l e = record e { limiter = l }

module _ (call : String → ℕ → Option Completion) where
  abbrev pub answered :
      String → Registry → Option Completion → (Option (String × Completion)) × Registry
  answered n reg none = (none, reg)
  answered n reg (some c) = (some (n, c), record reg { usages = record_usage n c reg.usages })

  -- `continue`, or the completion
  abbrev pub first_of :
      Option (String × Completion)
      → Registry
      → (Option (String × Completion)) × Registry
      → (Option (String × Completion)) × Registry
  first_of none reg rest = rest
  first_of (some r) reg rest = (some r, reg)

  -- one name of the chain, at a time: the completion that it returns, if it does
  unfoldable pub attempt : String → ℕ → Registry → (Option (String × Completion)) × Registry
  unfolding allow record_usage
  attempt n now reg = elim (fetch_one (is_named n) reg.entries) [
    | none ↦ (none, reg)
    | some e ↦
        let asked = allow now e.limiter in
        let after : Registry = record reg {
          entries = update_where (is_named n) (with_limiter asked.1) reg.entries;
        } in
        if asked.0 then answered n after (call n now) else (none, after)
  ]

  unfoldable pub attempt_chain :
      List String → (ℕ → ℕ) → ℕ → Registry → (Option (String × Completion)) × Registry
  unfolding attempt
  attempt_chain [] clock k reg = (none, reg)
  attempt_chain (n ∷ ns) clock k reg =
      let done = attempt n (clock k) reg in
      let rest = attempt_chain ns clock (k + 1) done.1 in first_of done.0 done.1 rest

  -- the profile, and the fallbacks that are not the profile
  abbrev pub chain_of : String → List String → List String
  chain_of profile fallback = profile ∷ select (λ n. not (n == profile)) fallback

  unfoldable pub complete :
      String → List String → (ℕ → ℕ) → Registry → Result (String × Completion) × Registry
  unfolding attempt_chain
  complete profile fallback clock reg =
      let done = attempt_chain (chain_of profile fallback) clock 0 reg in
      (elim done.0 [ none ↦ err providers_failed | some r ↦ ok r ], done.1)
