-- ===== src/Templates/Catalog.antt =====
-- zero/template_jobs.py: TEMPLATE_REGISTRY, and what a request may put into a template.
use zero_agent.Base.{
  Bool, true, false, not, ◌||◌, List, [], ◌∷◌, Option, String, ◌==◌, string_eq, ltb, codes, length,
  fetch_one,
}

pub data Risk : Type 0 where
  low medium high critical : Risk

pub record Template : Type 0 where
  pub template_id : String
  pub version : String
  pub title : String
  pub risk : Risk
  pub network : Bool
  pub fields : List String
  pub enabled : Bool
  pub reason : String

-- Template(…), with the defaults of `enabled` and `reason`
abbrev pub template : String → String → String → Risk → Bool → List String → Template
template template_id version title risk network fields = record {
  template_id = template_id;
  version = version;
  title = title;
  risk = risk;
  network = network;
  fields = fields;
  enabled = true;
  reason = "";
}

-- TEMPLATE_REGISTRY
unfoldable pub template_registry : List Template
template_registry =
    template "reminder" "1.0.0" "Reminder" low false ("text" ∷ [])
    ∷ template "ai_news" "1.1.0" "AI News" medium true ("only_new" ∷ "query" ∷ [])
    ∷ template "daily_news" "1.1.0" "Daily News" medium true ("only_new" ∷ "query" ∷ [])
    ∷ template "github_trending_digest" "1.0.0" "GitHub Trending Digest" medium true
        ("force" ∷ "only_new" ∷ [])
    ∷ template "war_news" "1.0.0" "War News" medium true ("only_new" ∷ "query" ∷ [])
    ∷ template "telegram_digest" "1.0.0" "Telegram Digest" medium true ("query" ∷ [])
    ∷ template "search_digest" "1.0.0" "Search Digest" medium true ("query" ∷ [])
    ∷ template "crypto_price" "1.0.0" "Crypto Price" medium true ("asset" ∷ [])
    ∷ template "weather" "1.0.0" "Weather" medium true ("city" ∷ [])
    ∷ template "group_summary" "1.0.0" "Group Summary" low false []
    ∷ template "weekly_summary" "1.0.0" "Weekly Summary" low false []
    ∷ template "health_check" "1.0.0" "Health Check" low false []
    ∷ template "heartbeat" "1.0.0" "Heartbeat" low false []
    ∷ template "reaction_stats" "1.0.0" "Reaction Statistics" low false []
    ∷ template "social_stats" "1.0.0" "Social Statistics" low false []
    ∷ template "memory_cleanup" "1.0.0" "Memory Cleanup" medium false []
    ∷ template "cache_cleanup" "1.0.0" "Cache Cleanup" medium false []
    ∷ record (template "log_rotation" "1.0.0" "Log Rotation" critical false []) {
      enabled = false;
      reason = "Host log rotation is unavailable in safe V1.";
    }
    ∷ template "backup_reminder" "1.0.0" "Backup Reminder" low false []
    ∷ template "nightly_knowledge_refresh.v1" "1.0.0" "Zero Nightly Knowledge Worker" medium false
        []
    ∷ []

-- `TEMPLATE_REGISTRY.get(template_id)`
unfoldable pub find_template : String → Option Template
unfolding template_registry
find_template i = fetch_one (λ (t : Template). t.template_id == i) template_registry

-- a value of the structured input, `other` where it is neither a text nor a Boolean
pub data Input : Type 0 where
  text : String → Input
  flag : Bool → Input
  other : Input

abbrev pub is_bad_input : Input → Bool
is_bad_input (text s) = ltb 240 (length (codes s))
is_bad_input (flag b) = false
is_bad_input other = true

unfoldable pub has_field : String → List String → Bool
has_field k [] = false
has_field k (f ∷ fs) = f == k || has_field k fs

-- `set(inputs) - template.fields`
abbrev pub is_extra : Template → String × Input → Bool
is_extra t i = not (has_field i.0 t.fields)
