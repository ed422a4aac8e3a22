-- ===== src/Router/Requests.antt =====
-- zero/router.py: the requests to the router, one after another, and what they keep of its pools.
use zero_agent.Base.{
  ℕ, zero, suc, ◌+◌, max, Bool, true, false, ◌&&◌, ◌||◌, List, [], ◌∷◌, Option, none, String,
  if◌then◌else◌, length, take, Option-cases, inl, inr,
}
use zero_agent.Router.Route.{
  Provider, openrouter, gemini, Config, Pools, Tick, Answer, RouteResult, is_text, is_some_list,
  complete_provider, blank_result,
}
use zero_agent.Router.Complete.{
  order_of, max_attempts, attempt_each, nothing_tried, complete_legacy, complete_with_tools,
  complete_structured, search_each, complete_search, profiles_of, complete,
}

pub data Request : Type 0 where
  chat : Option String → Request
  chat_with_tools structured search : Request

branch_keeps :
    {A : Type 0} (P : Pools → Type 0) (b : Bool) (x y : A × Pools)
    → P x.1
    → P y.1
    → P (if b then x else y).1
branch_keeps P true x y now later = now
branch_keeps P false x y now later = later

module _ (call : Provider → ℕ → Bool → ℕ → Answer)
    (registry : String → List String → Option RouteResult) (names : List String) (c : Config) where
  unfoldable pub perform : Request → (ℕ → Tick) → Pools → RouteResult × Pools
  unfolding complete complete_with_tools complete_structured complete_search
  perform (chat turn) ticks pools = complete call registry names turn c ticks pools
  perform chat_with_tools ticks pools = complete_with_tools call c ticks pools
  perform structured ticks pools = complete_structured call c ticks pools
  perform search ticks pools = complete_search call c ticks pools

  unfoldable pub run : List (Request × (ℕ → Tick)) → Pools → Pools
  unfolding perform
  run [] pools = pools
  run (r ∷ rs) pools = run rs (perform r.0 r.1 pools).1

  -- what every call of a provider keeps, every sequence of requests keeps
  module _ (P : Pools → Type 0)
      (keep : (p : Provider) (s t : Bool) (at : Tick) (pools : Pools)
        → P pools
        → P (complete_provider call c p s t at pools).1) where
    attempt_each-keeps :
        (tools : Bool) (ticks : ℕ → Tick) (ps : List Provider) (n : ℕ) (last : RouteResult)
        (pools : Pools)
        → P pools
        → P (attempt_each call c tools ticks n ps last pools).1
    unfolding attempt_each
    attempt_each-keeps tools ticks [] n last pools h = h
    attempt_each-keeps tools ticks (p ∷ ps) n last pools h =
        let now = keep p false tools (ticks n) pools h in
        let done = complete_provider call c p false tools (ticks n) pools in
        branch_keeps P (is_text done.0.text || tools && is_some_list done.0.tool_calls) _ _ now
          (attempt_each-keeps tools ticks ps (n + 1) done.0 done.1 now)

    search_each-keeps :
        (more : ℕ) (ticks : ℕ → Tick) (n : ℕ) (last : RouteResult) (pools : Pools)
        → P pools
        → P (search_each call more c ticks n last pools).1
    unfolding search_each
    search_each-keeps zero ticks n last pools h = h
    search_each-keeps (suc more) ticks n last pools h =
        let now = keep gemini true false (ticks n) pools h in
        let done = complete_provider call c gemini true false (ticks n) pools in
        branch_keeps P (is_text done.0.text && done.0.grounded) _ _ now (
          branch_keeps P (is_text done.0.text) _ _ now
            (search_each-keeps more ticks (n + 1) done.0 done.1 now))

    complete_legacy-keeps :
        (ticks : ℕ → Tick) (pools : Pools) → P pools → P (complete_legacy call c ticks pools).1
    unfolding complete_legacy
    complete_legacy-keeps ticks pools h =
        let order = order_of call c in
        let tried =
          attempt_each call c false ticks 0 (take (max_attempts call c order) order)
            (nothing_tried call) pools in
        let after =
          attempt_each-keeps false ticks (take (max_attempts call c order) order) 0
            (nothing_tried call) pools h in
        branch_keeps P tried.0.0 _ _ after after

    complete-keeps :
        (turn : Option String) (ticks : ℕ → Tick) (pools : Pools)
        → P pools
        → P (complete call registry names turn c ticks pools).1
    unfolding complete
    complete-keeps turn ticks pools h = elim (Option-cases (profiles_of call names turn c)) [
      | inl e ↦ rw (e, complete) (complete_legacy-keeps ticks pools h)
      | inr (route, e) ↦ elim (Option-cases (registry route.0 route.1)) [
        | inl f ↦ rw (e, complete, f) (complete_legacy-keeps ticks pools h)
        | inr (result, f) ↦ rw (e, complete, f) h
      ]
    ]

    perform-keeps :
        (r : Request) (ticks : ℕ → Tick) (pools : Pools) → P pools → P (perform r ticks pools).1
    unfolding perform complete_with_tools complete_structured complete_search
    perform-keeps (chat turn) ticks pools h = complete-keeps turn ticks pools h
    perform-keeps chat_with_tools ticks pools h =
        let order = order_of call c in
        attempt_each-keeps true ticks (take (max_attempts call c order) order) 0
          (nothing_tried call) pools h
    perform-keeps structured ticks pools h =
        let one = keep gemini false false (ticks 0) pools h in
        let first = complete_provider call c gemini false false (ticks 0) pools in
        let two = keep openrouter false false (ticks 1) first.1 one in
        let second = complete_provider call c openrouter false false (ticks 1) first.1 in
        branch_keeps P (is_text first.0.text) _ _ one
          (branch_keeps P (is_text second.0.text) _ _ two two)
    perform-keeps search ticks pools h =
        search_each-keeps (max 1 (length pools.gemini_keys)) ticks 0
          (blank_result gemini c.gemini_cfg.model 0 none) pools h

    pub run-keeps : (rs : List (Request × (ℕ → Tick))) (pools : Pools) → P pools → P (run rs pools)
    unfolding run
    run-keeps [] pools h = h
    run-keeps (r ∷ rs) pools h =
        run-keeps rs (perform r.0 r.1 pools).1 (perform-keeps r.0 r.1 pools h)
