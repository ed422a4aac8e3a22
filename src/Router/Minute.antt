-- ===== src/Router/Minute.antt =====
-- zero/router.py, `KeyPool`: the limit of a key per minute, by the reservations that give it out.
use zero_agent.Base.{
  ℕ, suc, ◌+◌, ◌-◌, ◌≤◌, ◌<◌, ◌≡◌, refl, true, List, [], ◌∷◌, ◌++◌, String, ◌==◌, string_eq, nat_eq,
  nat_beq_iff, ltb, select, count_where, count_where-append, count_where-update, arith, Bool-cases,
  inl, inr,
}
use zero_agent.Router.Keys.{
  Limits, KeyState, key_state, has_place, pool_from, refreshed, is_available, used, reserve,
  succeeded, failed, success, failure,
}
use zero_agent.Router.Choice.{length-select-le, reserve_unique}
use zero_agent.Router.Window.{
  Event, reserves, succeeds, fails, after_event, given, given_out, times, AtPlace, AtPlace-update,
  reserve-Outcome,
}
use zero_agent.Providers.Rate.{
  Rising, Tracks, is_after, is_within_minute, refused-Tracks, passed-Tracks,
}

count_after-kept :
    (t now : ℕ) (hits : List ℕ)
    → now ≤ t + 60
    → count_where (is_after t) (select (λ x. ltb (now - x) 60) hits) ≡ count_where (is_after t) hits
unfolding count_where select
count_after-kept t now [] h = refl
count_after-kept t now (x ∷ xs) h = ground (arith, count_after-kept t now xs h)

-- the end of a call leaves what is counted of the keys at a place
module _ (i : ℕ) (P : KeyState → Type 0) (pool : List KeyState) where
  pub success-AtPlace :
      ((s : KeyState) (now : ℕ) → P s → P (succeeded now s))
      → (place now : ℕ) → AtPlace i P pool
      → AtPlace i P (success place now pool)
  unfolding success
  success-AtPlace keeps place now =
      AtPlace-update i P P (has_place place) (succeeded now) (λ s. refl)
        (λ s own hit good. keeps s now good) (λ s own miss good. good) pool

  pub failure-AtPlace :
      ((s : KeyState) (kind : String) (cooldown now : ℕ) → P s → P (failed kind cooldown now s))
      → (place cooldown now : ℕ) (kind : String) → AtPlace i P pool
      → AtPlace i P (failure place kind cooldown now pool)
  unfolding failure failed
  failure-AtPlace keeps place cooldown now kind =
      AtPlace-update i P P (has_place place) (failed kind cooldown now) (λ s. ground arith)
        (λ s own hit good. keeps s kind cooldown now good) (λ s own miss good. good) pool

pub after_event_unique :
    (cfg : Limits) (i : ℕ) (e : Event) (pool : List KeyState)
    → count_where (has_place i) (after_event cfg e pool) ≡ count_where (has_place i) pool
unfolding after_event success failure failed
after_event_unique cfg i (reserves now day) pool = reserve_unique cfg now day i pool
after_event_unique cfg i (succeeds place now) pool =
    count_where-update (has_place i) (has_place place) (succeeded now) pool (λ t. refl)
after_event_unique cfg i (fails place kind cooldown now) pool =
    count_where-update (has_place i) (has_place place) (failed kind cooldown now) pool
      (λ t. ground arith)

failed-requests_minute :
    (kind : String) (cooldown now : ℕ) (s : KeyState)
    → (failed kind cooldown now s).requests_minute ≡ s.requests_minute
unfolding failed
failed-requests_minute kind cooldown now s = ground arith

module _ (n rpd i : ℕ) where
  abbrev by_minute : Limits
  by_minute = record { rpm = suc n; rpd = rpd }

  abbrev Held : ℕ → List ℕ → KeyState → Type 0
  Held last past s = Tracks (suc n) last s.requests_minute past

  refreshed-Held :
      (last now : ℕ) (past : List ℕ) (day : String)
      → last ≤ now
      → (s : KeyState) → Held last past s
      → Held now past (refreshed now day s)
  unfolding refreshed
  refreshed-Held last now past day later s h =
      refused-Tracks (suc n) last now s.requests_minute
        (select (λ x. ltb (now - x) 60) s.requests_minute) past later
        (length-select-le (λ (x : ℕ). ltb (now - x) 60) s.requests_minute)
        (λ t near. count_after-kept t now s.requests_minute near) h

  used-Held :
      (now : ℕ) (past : List ℕ) (s : KeyState)
      → Held now past s
      → is_available by_minute now s ≡ true
      → Held now (past ++ now ∷ []) (used now s)
  unfolding is_available
  used-Held now past s h free =
      passed-Tracks (suc n) now now s.requests_minute s.requests_minute past (omega arith)
        (omega arith) (λ t near. refl) h (ground (arith, free))

  -- what is given out from a state on, after what was given out before
  given_out-Held :
      (es : List Event) (pool : List KeyState) (last : ℕ) (past : List ℕ) (t : ℕ)
      → Rising last (times es)
      → count_where (has_place i) pool ≤ 1
      → AtPlace i (Held last past) pool
      → count_where (is_within_minute t) past ≤ suc n
      → count_where (is_within_minute t) past
          + count_where (is_within_minute t) (given_out by_minute i es pool)
        ≤ suc n
  unfolding given_out given after_event count_where failed
  given_out-Held [] pool last past t up one h few = omega (arith, few)
  given_out-Held (succeeds place now ∷ es) pool last past t up one h few =
      given_out-Held es (success place now pool) last past t up
        (rw (after_event_unique by_minute i (succeeds place now) pool) one)
        (success-AtPlace i (Held last past) pool (λ s at good. good) place now h) few
  given_out-Held (fails place kind cooldown now ∷ es) pool last past t up one h few =
      given_out-Held es (failure place kind cooldown now pool) last past t up
        (rw (after_event_unique by_minute i (fails place kind cooldown now) pool) one)
        (failure-AtPlace i (Held last past) pool
          (λ s k c at good. rw (failed-requests_minute k c at s) good) place cooldown now kind h)
        few
  given_out-Held (reserves now day ∷ es) pool last past t up one h few =
      let pool' = (reserve by_minute now day pool).1 in
      let same : count_where (has_place i) pool' ≤ 1 =
        rw (after_event_unique by_minute i (reserves now day) pool) one in
      elim (reserve-Outcome by_minute i now (Held last past) (Held now past)
        (Held now (past ++ now ∷ [])) (used-Held now past) day pool
        (refreshed-Held last now past day up.0) one h) [
          | inr (miss, each) ↦ rw miss (given_out-Held es pool' now past t up.1 same each few)
          | inl (hit, each, (s, r)) ↦ rw hit (
              omega (
                arith,
                given_out-Held es pool' now (past ++ now ∷ []) t up.1 same each (r.minutes t),
                count_where-append (is_within_minute t) past (now ∷ []),
                count_where-append (is_within_minute t) (now ∷ []) (given_out by_minute i es pool'),
              ))
        ]

pool_from_below :
    (i place weight : ℕ) (ks : List String)
    → i < place
    → count_where (has_place i) (pool_from place weight ks) ≡ 0
unfolding pool_from count_where
pool_from_below i place weight [] h = refl
pool_from_below i place weight (k ∷ ks) h = ground (
  arith,
  pool_from_below i (place + 1) weight ks (omega (arith, h)),
  pool_from_below i place weight ks h,
  nat_beq_iff place i,
  h,
)

pool_from_unique :
    (i place weight : ℕ) (ks : List String)
    → count_where (has_place i) (pool_from place weight ks) ≤ 1
unfolding pool_from count_where
pool_from_unique i place weight [] = omega arith
pool_from_unique i place weight (k ∷ ks) = elim (Bool-cases (k == "")) [
  | inl e ↦ rw e (pool_from_unique i place weight ks)
  | inr e ↦ rw e (elim (Bool-cases (place == i)) [
    | inr other ↦ rw other (omega (arith, pool_from_unique i (place + 1) weight ks))
    | inl own ↦
        let same = (nat_beq_iff place i).0 own in
        rw own (omega (arith, pool_from_below i (place + 1) weight ks (omega (arith, same))))
  ])
]

-- what holds of every new key holds at every place of a new pool
pool_from-AtPlace :
    (P : KeyState → Type 0) (i place weight : ℕ) (ks : List String)
    → ((at : ℕ) → P (key_state at weight))
    → AtPlace i P (pool_from place weight ks)
unfolding pool_from
pool_from-AtPlace P i place weight [] new = tt
pool_from-AtPlace P i place weight (k ∷ ks) new = elim (Bool-cases (k == "")) [
  | inl e ↦ rw e (pool_from-AtPlace P i place weight ks new)
  | inr e ↦ rw e ((λ own. new place), pool_from-AtPlace P i (place + 1) weight ks new)
]

-- However reservations, successes and failures of the keys of a new pool follow each other, at times of
-- a clock that does not run back: in any 60 seconds a key is given out at most as often as a limit per
-- minute that is set allows.
pub given_out-per_minute :
    (n rpd i weight t : ℕ) (keys : List String) (es : List Event)
    → Rising 0 (times es)
    → count_where
        (is_within_minute t)
        (given_out (record { rpm = suc n; rpd = rpd }) i es (pool_from 0 weight keys))
      ≤ suc n
unfolding count_where
given_out-per_minute n rpd i weight t keys es up = omega (
  arith,
  given_out-Held n rpd i es (pool_from 0 weight keys) 0 [] t up (pool_from_unique i 0 weight keys)
      (pool_from-AtPlace (Held n rpd i 0 []) i 0 weight keys (λ at. record {
        bounded = omega arith;
        recent = λ u h. omega arith;
        minutes = λ u. omega arith;
      }))
      (omega arith),
)
