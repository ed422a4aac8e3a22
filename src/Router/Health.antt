-- ===== src/Router/Health.antt =====
-- zero/router.py: what the pools keep along any requests: the limits of every key, and the keys that
-- were found unhealthy.
use zero_agent.Base.{
  ℕ, ◌≡◌, Bool, ◌&&◌, List, Option, some, String, string_eq, nat_eq, if◌then◌else◌, count_where,
  Bool-cases, Option-cases, inl, inr,
}
use zero_agent.Router.Keys.{KeyState, has_place, reserve, success, failure}
use zero_agent.Router.Choice.{IsSound, reserve-IsSound, succeeded-IsSound, failed-IsSound}
use zero_agent.Router.Route.{
  Provider, openrouter, gemini, Config, Pools, Tick, Answer, raised, answered, RouteResult,
  config_of, pool_of, with_pool, heard, settled, complete_provider, classify_error, is_rate_limit,
}
use zero_agent.Router.Requests.{Request, run, run-keeps}

-- a predicate on the keys of a provider, of both pools
abbrev Both : (Provider → List KeyState → Type 0) → Pools → Type 0
Both P pools = P openrouter pools.openrouter_keys × P gemini pools.gemini_keys

pool_of-Both :
    (P : Provider → List KeyState → Type 0) (p : Provider) (pools : Pools)
    → Both P pools
    → P p (pool_of p pools)
pool_of-Both P openrouter pools h = h.0
pool_of-Both P gemini pools h = h.1

with_pool-Both :
    (P : Provider → List KeyState → Type 0) (p : Provider) (keys : List KeyState) (pools : Pools)
    → Both P pools
    → P p keys
    → Both P (with_pool p keys pools)
with_pool-Both P openrouter keys pools h new = (new, h.1)
with_pool-Both P gemini keys pools h new = (h.0, new)

-- what a reservation keeps, and the end of a call of a key that was reserved, a request keeps
module _ (call : Provider → ℕ → Bool → ℕ → Answer) (c : Config)
    (P : Provider → List KeyState → Type 0)
    (taken_keeps : (p : Provider) (now : ℕ) (day : String) (keys : List KeyState)
      → P p keys
      → P p (reserve (config_of p c).limits now day keys).1)
    (success_keeps : (p : Provider) (now later : ℕ) (day : String) (keys : List KeyState)
        (place : ℕ)
      → P p keys
      → (reserve (config_of p c).limits now day keys).0 ≡ some place
      → P p (success place later (reserve (config_of p c).limits now day keys).1))
    (failure_keeps : (p : Provider) (keys : List KeyState) (place later cooldown : ℕ)
        (kind : String)
      → P p keys
      → P p (failure place kind cooldown later keys)) where
  settled_keeps :
      (p : Provider) (search : Bool) (t : Tick) (keys : List KeyState) (place : ℕ) (a : Answer)
      → P p keys
      → (reserve (config_of p c).limits t.started t.day keys).0 ≡ some place
      → P p
          (settled p
            (config_of p c).model
            search
            place
            t.finished
            a
            (reserve (config_of p c).limits t.started t.day keys).1).1
  unfolding settled
  settled_keeps p search t keys place (raised f) h got =
      failure_keeps p (reserve (config_of p c).limits t.started t.day keys).1 place t.finished
        (if is_rate_limit (classify_error f) then 65 else 0) (classify_error f)
        (taken_keeps p t.started t.day keys h)
  settled_keeps p search t keys place (answered text grounded calls) h got =
      success_keeps p t.started t.finished t.day keys place h got

  complete_provider_keeps :
      (p : Provider) (search tools : Bool) (t : Tick) (pools : Pools)
      → Both P pools
      → Both P (complete_provider call c p search tools t pools).1
  unfolding complete_provider
  complete_provider_keeps p search tools t pools h = elim (Bool-cases (config_of p c).enabled) [
    | inr e ↦ rw (e, complete_provider) h
    | inl e ↦
        let keys = pool_of p pools in
        let good : P p keys = pool_of-Both P p pools h in
        elim (Option-cases (reserve (config_of p c).limits t.started t.day keys).0) [
          | inl none_left ↦
              rw (e, complete_provider, none_left)
                (with_pool-Both P p (reserve (config_of p c).limits t.started t.day keys).1 pools h
                  (taken_keeps p t.started t.day keys good))
          | inr (place, got) ↦
              let a = heard tools (call p place search t.started) in
              rw (e, complete_provider, got)
                (with_pool-Both P p
                  (settled p (config_of p c).model search place t.finished a
                    (reserve (config_of p c).limits t.started t.day keys).1).1
                  pools h (settled_keeps p search t keys place a good got))
        ]
  ]

-- no key at a place is healthy
abbrev pub is_healthy_at : ℕ → KeyState → Bool
is_healthy_at i s = has_place i s && s.healthy

module _ (call : Provider → ℕ → Bool → ℕ → Answer)
    (registry : String → List String → Option RouteResult) (names : List String) (c : Config) where
  -- both pools hold one key at a place, and no key over its limits
  abbrev pub AreSound : Pools → Type 0
  AreSound pools = Both (λ p. IsSound (config_of p c).limits) pools

  -- Whatever requests come and whatever the providers answer, no key ever has more requests counted
  -- in the last minute or on the day than the limits of its provider allow.
  pub run-AreSound :
      (rs : List (Request × (ℕ → Tick))) (pools : Pools)
      → AreSound pools
      → AreSound (run call registry names c rs pools)
  unfolding success failure
  run-AreSound rs pools h =
      run-keeps call registry names c AreSound
        (complete_provider_keeps call c (λ p. IsSound (config_of p c).limits)
          (λ p now day keys v. reserve-IsSound (config_of p c).limits now day keys v)
          (λ p now later day keys place v got.
            succeeded-IsSound (config_of p c).limits (has_place place) _
              (reserve-IsSound (config_of p c).limits now day keys v) later)
          (λ p keys place later cooldown kind v.
            failed-IsSound (config_of p c).limits (has_place place) keys v kind cooldown later))
        rs pools h

  abbrev IsOff : Provider → ℕ → Provider → List KeyState → Type 0
  IsOff at i p keys = p ≡ at → count_where (is_healthy_at i) keys ≡ 0
