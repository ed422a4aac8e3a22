-- ===== src/Router/Complete.antt =====
-- zero/router.py: the requests to `IndependentRouter`, each a loop over its providers.
use zero_agent.Base.{
  ℕ, zero, suc, ◌+◌, max, min, Bool, true, false, not, ◌&&◌, ◌||◌, List, [], ◌∷◌, Option, none,
  some, String, ◌==◌, string_eq, nat_eq, if◌then◌else◌, ltb, length, take, select, count_where,
}
use zero_agent.Router.Route.{
  Provider, openrouter, gemini, is_same, parse_provider, Answer, Config, RouteResult, Tick, Pools,
  is_text, is_some_list, blank_result, complete_provider,
}

-- the provider, the place of the key, and whether it is a search, at a time
module _ (call : Provider → ℕ → Bool → ℕ → Answer) where
  -- the two configured providers that have a pool, or both
  unfoldable pub order_of : Config → List Provider
  unfolding parse_provider
  order_of c = elim (parse_provider c.normal_primary) [
    | none ↦ elim (parse_provider c.normal_fallback) [
      | none ↦ gemini ∷ openrouter ∷ []
      | some q ↦ q ∷ []
    ]
    | some p ↦ elim (parse_provider c.normal_fallback) [
      | none ↦ p ∷ []
      | some q ↦ if is_same q p then p ∷ [] else p ∷ q ∷ []
    ]
  ]

  unfoldable pub max_attempts : Config → List Provider → ℕ
  max_attempts c order = max 1 (
      min (length order) (if c.max_total_attempts == 0 then length order else c.max_total_attempts))

  -- the loop over the providers, up to the first that answers, or the last result
  unfoldable pub attempt_each :
      Config
      → Bool
      → (ℕ → Tick)
      → ℕ
      → List Provider
      → RouteResult
      → Pools
      → (Bool × RouteResult) × Pools
  unfolding complete_provider
  attempt_each c tools ticks n [] last pools = ((false, last), pools)
  attempt_each c tools ticks n (p ∷ ps) last pools =
      let done = complete_provider call c p false tools (ticks n) pools in
      let rest = attempt_each c tools ticks (n + 1) ps done.0 done.1 in
      if is_text done.0.text || tools && is_some_list done.0.tool_calls
      then ((true, record (done.0) { fallback_used = ltb 0 n }), done.1)
      else rest

  abbrev pub nothing_tried : RouteResult
  nothing_tried = record (blank_result gemini "none" 0 none) { provider = "fallback" }

  -- `complete`, once the registry of profiles is out of the way
  unfoldable pub complete_legacy : Config → (ℕ → Tick) → Pools → RouteResult × Pools
  unfolding order_of max_attempts attempt_each
  complete_legacy c ticks pools =
      let order = order_of c in
      let tried =
        attempt_each c false ticks 0 (take (max_attempts c order) order) nothing_tried pools in
      if tried.0.0 then (tried.0.1, tried.1) else (
        record {
          text = "Responses are currently unavailable; please try again later.";
          provider = "fallback";
          model = "none";
          attempts = tried.0.1.attempts;
          error = elim tried.0.1.error [ none ↦ some "unavailable" | some e ↦ some e ];
          grounded = false;
          tool_calls = [];
          fallback_used = true;
        },
        tried.1,
      )

  unfoldable pub complete_with_tools : Config → (ℕ → Tick) → Pools → RouteResult × Pools
  unfolding order_of max_attempts attempt_each
  complete_with_tools c ticks pools =
      let order = order_of c in
      let tried =
        attempt_each c true ticks 0 (take (max_attempts c order) order) nothing_tried pools in
      (tried.0.1, tried.1)

  unfoldable pub complete_structured : Config → (ℕ → Tick) → Pools → RouteResult × Pools
  unfolding complete_provider
  complete_structured c ticks pools =
      let first = complete_provider call c gemini false false (ticks 0) pools in
      let second = complete_provider call c openrouter false false (ticks 1) first.1 in
      if is_text first.0.text then first else if is_text second.0.text then second else (
        record (blank_result gemini "none" 1 (some "unavailable")) {
          provider = "structured_failure";
        },
        second.1,
      )

  -- the loop of `complete_search`, with the number of attempts that are left
  unfoldable pub search_each :
      ℕ → Config → (ℕ → Tick) → ℕ → RouteResult → Pools → RouteResult × Pools
  unfolding complete_provider
  search_each zero c ticks n last pools = (last, pools)
  search_each (suc more) c ticks n last pools =
      let done = complete_provider call c gemini true false (ticks n) pools in
      let rest = search_each more c ticks (n + 1) done.0 done.1 in
      if is_text done.0.text && done.0.grounded
      then done
      else if is_text done.0.text
      then (record (done.0) { text = ""; error = some "GROUNDING_METADATA_MISSING" }, done.1)
      else rest

  unfoldable pub complete_search : Config → (ℕ → Tick) → Pools → RouteResult × Pools
  unfolding search_each
  complete_search c ticks pools =
      search_each (max 1 (length pools.gemini_keys)) c ticks 0
        (blank_result gemini c.gemini_cfg.model 0 none) pools

  -- the profile and the fallbacks that `complete` hands to a registry of profiles with these names
  unfoldable pub profiles_of : List String → Option String → Config → Option (String × List String)
  profiles_of [] turn c = none
  profiles_of (n ∷ ns) turn c =
      let is_name : String → Bool = λ s. ltb 0 (count_where (λ x. x == s) (n ∷ ns)) in
      let preferred : String = elim turn [
        | none ↦ c.normal_primary
        | some s ↦ if is_name s then s else c.normal_primary
      ] in
      let primary = if is_name preferred then preferred else n in
      some (primary, select (λ s. is_name s && not (s == primary)) (c.normal_fallback ∷ n ∷ ns))

  -- `complete`: a registry that raises, `none` of the parameter, is passed over; `names` is empty where
  -- there is no registry, or ZERO_ROUTER_LEGACY rules it out
  unfoldable pub complete :
      (String → List String → Option RouteResult)
      → List String
      → Option String
      → Config
      → (ℕ → Tick)
      → Pools
      → RouteResult × Pools
  unfolding profiles_of complete_legacy
  complete registry names turn c ticks pools = elim (profiles_of names turn c) [
    | none ↦ complete_legacy c ticks pools
    | some route ↦ elim (registry route.0 route.1) [
      | none ↦ complete_legacy c ticks pools
      | some result ↦ (result, pools)
    ]
  ]
