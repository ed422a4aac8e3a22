-- ===== src/Router/Route.antt =====
-- zero/router.py: one call of a provider by `IndependentRouter`. What a provider answers is the parameter `call`; the clock and the
-- day of each call are the parameter `ticks`.
use zero_agent.Base.{
  ℕ, Bool, true, false, not, ◌&&◌, ◌||◌, List, [], ◌∷◌, Option, none, some, String, ◌==◌, string_eq,
  nat_eq, if◌then◌else◌, ltb, leb,
}
use zero_agent.Router.Keys.{Limits, KeyState, reserve, success, failure}

pub data Provider : Type 0 where
  openrouter gemini : Provider

abbrev pub is_same : Provider → Provider → Bool
is_same openrouter openrouter = true
is_same gemini gemini = true
is_same _ _ = false

abbrev pub provider_name : Provider → String
provider_name openrouter = "openrouter"
provider_name gemini = "gemini"

-- `if provider in self.pools`
unfoldable pub parse_provider : String → Option Provider
parse_provider s =
    if s == "openrouter" then some openrouter else if s == "gemini" then some gemini else none

-- the exceptions that a call raises: an HTTP status, a timeout or a failed connection, or another type,
-- by its name in capital letters
pub data Failure : Type 0 where
  http : ℕ → Failure
  network : Failure
  other : String → Failure

unfoldable pub classify_error : Failure → String
classify_error (http code) =
    if code == 401 || code == 403
    then "PER_KEY_AUTH_ERROR"
    else if code == 429
    then "UNKNOWN_RATE_LIMIT"
    else if leb 500 code && ltb code 600
    then "PROVIDER_CAPACITY"
    else "INVALID_REQUEST"
classify_error network = "NETWORK_TIMEOUT"
classify_error (other name) = name

-- `kind in RATE_LIMIT_ERRORS`
unfoldable pub is_rate_limit : String → Bool
is_rate_limit kind =
    kind == "PER_KEY_AUTH_ERROR"
    || kind == "PER_MODEL_RATE_LIMIT"
    || kind == "PROJECT_QUOTA_EXHAUSTED"
    || kind == "PROVIDER_CAPACITY"
    || kind == "DAILY_LIMIT"
    || kind == "MINUTE_LIMIT"
    || kind == "TOKEN_LIMIT"
    || kind == "UNKNOWN_RATE_LIMIT"

pub data Answer : Type 0 where
  raised : Failure → Answer
  -- the text, whether the raw data has grounding metadata, and the names of the tool calls
  answered : String → Bool → List String → Answer

pub record ProviderConfig : Type 0 where
  pub enabled : Bool
  pub model : String
  pub limits : Limits

pub record Config : Type 0 where
  pub openrouter_cfg : ProviderConfig
  pub gemini_cfg : ProviderConfig
  pub normal_primary : String
  pub normal_fallback : String
  pub max_total_attempts : ℕ

pub record RouteResult : Type 0 where
  pub text : String
  pub provider : String
  pub model : String
  pub attempts : ℕ
  pub error : Option String
  pub grounded : Bool
  pub tool_calls : List String
  pub fallback_used : Bool

pub record Tick : Type 0 where
  pub started : ℕ
  pub finished : ℕ
  pub day : String

-- the two pools
pub record Pools : Type 0 where
  pub openrouter_keys : List KeyState
  pub gemini_keys : List KeyState

abbrev pub pool_of : Provider → Pools → List KeyState
pool_of openrouter p = p.openrouter_keys
pool_of gemini p = p.gemini_keys

abbrev pub with_pool : Provider → List KeyState → Pools → Pools
with_pool openrouter keys p = record p { openrouter_keys = keys }
with_pool gemini keys p = record p { gemini_keys = keys }

abbrev pub config_of : Provider → Config → ProviderConfig
config_of openrouter c = c.openrouter_cfg
config_of gemini c = c.gemini_cfg

abbrev pub is_text : String → Bool
is_text s = not (s == "")

abbrev pub is_some_list : List String → Bool
is_some_list [] = false
is_some_list (x ∷ xs) = true

abbrev pub blank_result : Provider → String → ℕ → Option String → RouteResult
blank_result p model attempts error = record {
  text = "";
  provider = provider_name p;
  model = model;
  attempts = attempts;
  error = error;
  grounded = false;
  tool_calls = [];
  fallback_used = false;
}

-- an answer without a text and without a tool call is an error too; tool calls are read only if the
-- caller gave tools, and the raw data is passed on only by a search
unfoldable pub heard : Bool → Answer → Answer
heard tools (raised f) = raised f
heard tools (answered text grounded calls) =
    let read = if tools then calls else [] in
    if is_text text || is_some_list read
    then answered text grounded read
    else raised (other "VALUEERROR")

unfoldable pub settled :
    Provider → String → Bool → ℕ → ℕ → Answer → List KeyState → RouteResult × List KeyState
unfolding classify_error is_rate_limit success failure
settled p model search place now (raised f) keys =
    let kind = classify_error f in
    (
      blank_result p model 1 (some kind),
      failure place kind (if is_rate_limit kind then 65 else 0) now keys,
    )
settled p model search place now (answered text grounded calls) keys = (
  record (blank_result p model 1 none) {
    text = text;
    grounded = search && grounded;
    tool_calls = calls;
  },
  success place now keys,
)

-- the provider, the place of the key, and whether it is a search, at a time
module _ (call : Provider → ℕ → Bool → ℕ → Answer) where
  unfoldable pub complete_provider :
      Config → Provider → Bool → Bool → Tick → Pools → RouteResult × Pools
  unfolding reserve settled heard
  complete_provider c p search tools t pools =
      let cfg = config_of p c in
      if not cfg.enabled
      then (blank_result p cfg.model 0 (some "disabled"), pools)
      else let taken = reserve cfg.limits t.started t.day (pool_of p pools) in
        elim taken.0 [
          | none ↦ (blank_result p cfg.model 0 (some "no_capacity"), with_pool p taken.1 pools)
          | some place ↦
              let result =
                settled p cfg.model search place t.finished
                  (heard tools (call p place search t.started)) taken.1 in
              (result.0, with_pool p result.1 pools)
        ]
