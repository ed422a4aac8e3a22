-- ===== src/Router/Tests.antt =====
-- Runs of the router.
use zero_agent.Base.{
  ℕ, ◌+◌, ◌≤◌, ◌≡◌, refl, Bool, true, false, List, [], ◌∷◌, Option, none, some, String, arith,
  select, update_where, count_where, length,
}
use zero_agent.Router.Keys.{
  KeyState, pool_from, refreshed, is_available, share, left_of, headroom, is_better, best_of,
  refresh_all, choose, reserve, failed, success, failure,
}
use zero_agent.Router.Route.{
  Provider, openrouter, gemini, Config, ProviderConfig, Pools, Tick, Answer, raised, answered, http,
  RouteResult, parse_provider, classify_error, is_rate_limit, heard, settled, complete_provider,
}
use zero_agent.Router.Complete.{
  order_of, max_attempts, attempt_each, complete_legacy, complete_with_tools, complete_structured,
  search_each, complete_search, profiles_of, complete,
}
use zero_agent.Router.Requests.{Request, chat, chat_with_tools, structured, search, perform, run}
use zero_agent.Router.Window.{Event, reserves, succeeds, fails, given, given_out, after_event}
use zero_agent.Router.Minute.{given_out-per_minute}
use zero_agent.Router.Day.{given_out-per_day}
use zero_agent.Providers.Rate.{is_within_minute}

program : Unit {0}
unfolding select update_where count_where pool_from refreshed is_available share left_of headroom
    is_better best_of refresh_all choose reserve failed success failure parse_provider
    classify_error is_rate_limit heard settled complete_provider order_of max_attempts attempt_each
    complete_legacy complete_with_tools complete_structured search_each complete_search profiles_of
    complete perform run given given_out after_event
program = tt

abbrev cfg : ProviderConfig
cfg = record { enabled = true; model = "m"; limits = record { rpm = 2; rpd = 5 } }

abbrev config : Config
config = record {
  openrouter_cfg = cfg;
  gemini_cfg = cfg;
  normal_primary = "openrouter";
  normal_fallback = "gemini";
  max_total_attempts = 2;
}

abbrev start : Pools
start = record {
  openrouter_keys = pool_from 0 1 ("a" ∷ []);
  gemini_keys = pool_from 0 1 ("b" ∷ "" ∷ "c" ∷ []);
}

-- one provider fails, the other answers
abbrev answers : Provider → ℕ → Bool → ℕ → Answer
answers openrouter place searches at = raised (http 500)
answers gemini place searches at = answered "hi" searches []

abbrev tick : ℕ → ℕ → Tick
tick base n = record { started = base + n; finished = base + n + 1; day = "d" }

abbrev no_registry : String → List String → Option RouteResult
no_registry p fallback = none

abbrev requests : List (Request × (ℕ → Tick))
requests =
    (chat none, tick 100)
    ∷ (search, tick 110)
    ∷ (chat_with_tools, tick 200)
    ∷ (structured, tick 300)
    ∷ []

-- a key that is asked for five times in two minutes, and notes a success and a failure
abbrev events : List Event
events =
    reserves 100 "d"
    ∷ reserves 110 "d"
    ∷ succeeds 0 112
    ∷ reserves 120 "d"
    ∷ fails 0 "TRANSIENT" 5 121
    ∷ reserves 160 "d"
    ∷ reserves 161 "d"
    ∷ []

times_given : given_out cfg.limits 0 events (pool_from 0 1 ("a" ∷ [])) ≡ 100 ∷ 110 ∷ 160 ∷ []
unfolding program
times_given = refl

given_out-per_minute_example :
    count_where
      (is_within_minute 99)
      (given_out (record { rpm = 2; rpd = 5 }) 0 events (pool_from 0 1 ("a" ∷ [])))
    ≤ 2
given_out-per_minute_example =
    given_out-per_minute 1 5 0 1 99 ("a" ∷ []) events
      (omega arith, (omega arith, (omega arith, (omega arith, (omega arith, tt)))))

given_out-per_day_example :
    length (given_out (record { rpm = 0; rpd = 2 }) 0 events (pool_from 0 1 ("a" ∷ []))) ≤ 2
unfolding program
given_out-per_day_example =
    given_out-per_day 0 1 0 "d" (pool_from 0 1 ("a" ∷ [])) events
      (refl, (refl, (refl, (refl, (refl, tt))))) (omega arith)

-- three failures of the only key of a provider
abbrev failing : List (Request × (ℕ → Tick))
failing = (chat none, tick 100) ∷ (chat none, tick 200) ∷ (chat none, tick 300) ∷ []

abbrev failed_thrice : Pools
failed_thrice = run answers no_registry [] config failing start

-- the key that was used last is not the best
abbrev keys : List KeyState
keys = (reserve cfg.limits 50 "d" (pool_from 0 1 ("b" ∷ "c" ∷ []))).1

abbrev of_choice : Option KeyState → KeyState
of_choice none = record {
  place = 9;
  enabled = false;
  healthy = false;
  cooldown_until = 0;
  last_used_at = 0;
  requests_minute = [];
  requests_day = 0;
  day_key = "";
  consecutive_failures = 0;
  last_error_type = "";
  last_success_at = 0;
  weight = 0;
}
of_choice (some s) = s

abbrev chosen : KeyState
chosen = of_choice (choose cfg.limits 60 keys)
