-- ===== src/Router/Keys.antt =====
-- zero/router.py: `KeyState` and `KeyPool`. A key is known by its place in the pool; its secret, which
-- goes to the provider only, is left out. Times are whole seconds, and a limit that is not set is 0.
use zero_agent.Base.{
  ℕ, ◌+◌, ◌-◌, ◌*◌, max, Bool, true, false, ◌&&◌, ◌||◌, List, [], ◌∷◌, ◌++◌, Option, none, some,
  String, ◌==◌, string_eq, nat_eq, if◌then◌else◌, ltb, leb, length, update_where, select,
}

pub record Limits : Type 0 where
  pub rpm : ℕ
  pub rpd : ℕ

pub record KeyState : Type 0 where
  pub place : ℕ
  pub enabled : Bool
  pub healthy : Bool
  pub cooldown_until : ℕ
  pub last_used_at : ℕ
  pub requests_minute : List ℕ
  pub requests_day : ℕ
  pub day_key : String
  pub consecutive_failures : ℕ
  pub last_error_type : String
  pub last_success_at : ℕ
  pub weight : ℕ

abbrev pub has_place : ℕ → KeyState → Bool
has_place i s = s.place == i

-- a new key
abbrev pub key_state : ℕ → ℕ → KeyState
key_state place weight = record {
  place = place;
  enabled = true;
  healthy = true;
  cooldown_until = 0;
  last_used_at = 0;
  requests_minute = [];
  requests_day = 0;
  day_key = "";
  consecutive_failures = 0;
  last_error_type = "";
  last_success_at = 0;
  weight = max 1 weight;
}

-- the keys of a configuration, with the empty ones left out
unfoldable pub pool_from : ℕ → ℕ → List String → List KeyState
pool_from place weight [] = []
pool_from place weight (k ∷ ks) =
    let rest = pool_from (place + 1) weight ks in
    let skipped = pool_from place weight ks in
    if k == "" then skipped else key_state place weight ∷ rest

-- what `available` does to the key that it looks at: a new day, and the last minute
unfoldable pub refreshed : ℕ → String → KeyState → KeyState
refreshed now day s = record s {
  requests_day = if s.day_key == day then s.requests_day else 0;
  day_key = day;
  requests_minute = select (λ x. ltb (now - x) 60) s.requests_minute;
}

-- what `available` returns, of a refreshed key
unfoldable pub is_available : Limits → ℕ → KeyState → Bool
is_available cfg now s =
    s.enabled
    && s.healthy
    && leb s.cooldown_until now
    && (cfg.rpm == 0 || ltb (length s.requests_minute) cfg.rpm)
    && (cfg.rpd == 0 || ltb s.requests_day cfg.rpd)

-- `score`: the headroom, the time since the last use, and the weight. The headroom is the code's, times
-- ten and both limits, so that it is a whole number.
unfoldable pub share : ℕ → ℕ
share limit = if limit == 0 then 1 else limit

unfoldable pub left_of : ℕ → ℕ → ℕ
left_of limit used = if limit == 0 then 1 else limit - used

unfoldable pub headroom : Limits → KeyState → ℕ
unfolding share left_of
headroom cfg s =
    6 * (left_of cfg.rpm (length s.requests_minute) * share cfg.rpd)
    + 4 * (left_of cfg.rpd s.requests_day * share cfg.rpm)

-- `score(s) > score(t)`
unfoldable pub is_better : Limits → KeyState → KeyState → Bool
unfolding headroom
is_better cfg s t =
    ltb (headroom cfg t) (headroom cfg s)
    || headroom cfg s == headroom cfg t
      && (ltb s.last_used_at t.last_used_at
          || s.last_used_at == t.last_used_at && ltb t.weight s.weight)

-- `max(candidates, key=score)`: the first of the best
unfoldable pub best_of : Limits → KeyState → List KeyState → KeyState
unfolding is_better
best_of cfg s [] = s
best_of cfg s (t ∷ ts) = best_of cfg (if is_better cfg t s then t else s) ts

abbrev pub used : ℕ → KeyState → KeyState
used now s = record s {
  requests_minute = s.requests_minute ++ now ∷ [];
  requests_day = s.requests_day + 1;
  last_used_at = now;
}

unfoldable pub refresh_all : ℕ → String → List KeyState → List KeyState
unfolding refreshed
refresh_all now day [] = []
refresh_all now day (s ∷ ss) = refreshed now day s ∷ refresh_all now day ss

unfoldable pub choose : Limits → ℕ → List KeyState → Option KeyState
unfolding best_of is_available
choose cfg now pool = elim (select (is_available cfg now) pool) [
  | [] ↦ none
  | s ∷ ss ↦ some (best_of cfg s ss)
]

-- `await pool.reserve()`: the place of the key that it chooses
unfoldable pub reserve : Limits → ℕ → String → List KeyState → Option ℕ × List KeyState
unfolding choose refresh_all
reserve cfg now day pool =
    let fresh = refresh_all now day pool in
    elim (choose cfg now fresh) [
      | none ↦ (none, fresh)
      | some s ↦ (some s.place, update_where (has_place s.place) (used now) fresh)
    ]

abbrev pub succeeded : ℕ → KeyState → KeyState
succeeded now s = record s {
  healthy = true;
  consecutive_failures = 0;
  last_error_type = "";
  last_success_at = now;
}

unfoldable pub failed : String → ℕ → ℕ → KeyState → KeyState
failed kind cooldown now s =
    let until = max s.cooldown_until (now + cooldown) in
    let failures = s.consecutive_failures + 1 in
    let counted = record s {
      consecutive_failures = failures;
      last_error_type = kind;
      cooldown_until = until;
    } in
    if kind == "PER_KEY_AUTH_ERROR"
    then record counted { enabled = false; healthy = false }
    else if leb 3 failures
    then record counted { healthy = false; cooldown_until = max until (now + 60) }
    else counted

unfoldable pub success : ℕ → ℕ → List KeyState → List KeyState
success place now = update_where (has_place place) (succeeded now)

unfoldable pub failure : ℕ → String → ℕ → ℕ → List KeyState → List KeyState
unfolding failed
failure place kind cooldown now = update_where (has_place place) (failed kind cooldown now)
