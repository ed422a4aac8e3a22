-- ===== src/Router/Day.antt =====
-- zero/router.py, `KeyPool`: the limit of a key per day, by the reservations that give it out.
use zero_agent.Base.{
  ℕ, suc, ◌+◌, ◌≤◌, ◌≡◌, refl, true, List, [], ◌∷◌, String, ◌==◌, string_eq, nat_eq, str_eq_iff,
  leb, All, All-imp, length, length-append, count_where, arith, Bool-cases, inl, inr, ◌⊎◌,
}
use zero_agent.Router.Keys.{
  Limits, KeyState, has_place, refreshed, is_available, used, reserve, failed, success, failure,
}
use zero_agent.Router.Window.{
  Event, reserves, succeeds, fails, after_event, given, given_out, AtPlace, reserve-Outcome,
}
use zero_agent.Router.Minute.{success-AtPlace, failure-AtPlace, after_event_unique}

-- the days of the reservations
abbrev pub days : List Event → List String
days [] = []
days (reserves now day ∷ es) = day ∷ days es
days (succeeds _ _ ∷ es) = days es
days (fails _ _ _ _ ∷ es) = days es

module _ (d : String) where
  -- a key that counts a number of requests on the day at least, and one that need not, since none is due
  abbrev Counts : ℕ → KeyState → Type 0
  Counts c s = (s.day_key ≡ d) × (c ≤ s.requests_day)

  abbrev MayCount : ℕ → KeyState → Type 0
  MayCount c s = (c ≡ 0) ⊎ Counts c s

  refreshed-Counts : (now c : ℕ) (s : KeyState) → MayCount c s → Counts c (refreshed now d s)
  unfolding refreshed
  refreshed-Counts now c s (inl nothing) = (refl, omega (arith, nothing))
  refreshed-Counts now c s (inr (day, many)) = (refl, rw ((str_eq_iff s.day_key d).1 day) many)

  failed-Counts :
      (c cooldown now : ℕ) (kind : String) (s : KeyState)
      → MayCount c s
      → MayCount c (failed kind cooldown now s)
  unfolding failed
  failed-Counts c cooldown now kind s h = elim (Bool-cases (kind == "PER_KEY_AUTH_ERROR")) [
    | inl e ↦ rw (e, failed) h
    | inr e ↦ elim (Bool-cases (leb 3 (s.consecutive_failures + 1))) [
      | inl three ↦ rw (e, failed, three) h
      | inr fewer ↦ rw (e, failed, fewer) h
    ]
  ]

  module _ (rpm n i : ℕ) where
    abbrev by_day : Limits
    by_day = record { rpm = rpm; rpd = suc n }

    used-Counts :
        (now c : ℕ) (s : KeyState)
        → Counts c s
        → is_available by_day now s ≡ true
        → Counts (c + 1) (used now s) × (c + 1 ≤ suc n)
    unfolding is_available
    used-Counts now c s h free = ((h.0, omega (arith, h.1)), ground (arith, free, h.1))

    -- what is given out from a state on, after what was given out on the day before
    given_out-Counts :
        (es : List Event) (pool : List KeyState) (c : ℕ)
        → All (λ day. day ≡ d) (days es)
        → count_where (has_place i) pool ≤ 1
        → AtPlace i (MayCount c) pool
        → c ≤ suc n
        → c + length (given_out by_day i es pool) ≤ suc n
    unfolding given_out given after_event
    given_out-Counts [] pool c same one h few = omega (arith, few)
    given_out-Counts (succeeds place now ∷ es) pool c same one h few =
        given_out-Counts es (success place now pool) c same
          (rw (after_event_unique by_day i (succeeds place now) pool) one)
          (success-AtPlace i (MayCount c) pool (λ s at good. good) place now h) few
    given_out-Counts (fails place kind cooldown now ∷ es) pool c same one h few =
        given_out-Counts es (failure place kind cooldown now pool) c same
          (rw (after_event_unique by_day i (fails place kind cooldown now) pool) one)
          (failure-AtPlace i (MayCount c) pool (λ s k w at good. failed-Counts c w at k s good)
            place cooldown now kind h)
          few
    given_out-Counts (reserves now day ∷ es) pool c same one h few =
        let pool' = (reserve by_day now day pool).1 in
        let still : count_where (has_place i) pool' ≤ 1 =
          rw (after_event_unique by_day i (reserves now day) pool) one in
        elim (reserve-Outcome by_day i now (MayCount c) (Counts c)
          (λ s. Counts (c + 1) s × (c + 1 ≤ suc n)) (λ s g free. used-Counts now c s g free) day
          pool (λ s g. rw same.0 (refreshed-Counts now c s g)) one h) [
            | inr (miss, each) ↦
                let kept : AtPlace i (MayCount c) pool' =
                  All-imp (λ s. has_place i s ≡ true → Counts c s)
                    (λ s. has_place i s ≡ true → MayCount c s) pool' (λ s g own. inr (g own))
                    each in
                rw miss (given_out-Counts es pool' c same.1 still kept few)
            | inl (hit, each, (s, r)) ↦
                let more : AtPlace i (MayCount (c + 1)) pool' =
                  All-imp (λ s. has_place i s ≡ true → Counts (c + 1) s × (c + 1 ≤ suc n))
                    (λ s. has_place i s ≡ true → MayCount (c + 1) s) pool'
                    (λ s g own. inr (g own).0) each in
                rw hit (
                  omega (
                    arith,
                    given_out-Counts es pool' (c + 1) same.1 still more r.1,
                    length-append (now ∷ []) (given_out by_day i es pool'),
                  ))
          ]

AtPlace-all :
    (i : ℕ) (P : KeyState → Type 0) (pool : List KeyState)
    → ((s : KeyState) → P s)
    → AtPlace i P pool
AtPlace-all i P [] h = tt
AtPlace-all i P (s ∷ ss) h = (λ own. h s, AtPlace-all i P ss h)

-- On one day a key is given out at most as often as a limit per day that is set allows, whatever
-- reservations, successes and failures follow each other on that day, whatever the clock shows, and
-- whatever state the pool is in when the day begins; the pool has one key at a place.
pub given_out-per_day :
    (rpm n i : ℕ) (day : String) (pool : List KeyState) (es : List Event)
    → All (λ d. d ≡ day) (days es)
    → count_where (has_place i) pool ≤ 1
    → length (given_out (record { rpm = rpm; rpd = suc n }) i es pool) ≤ suc n
given_out-per_day rpm n i day pool es same one = omega (
  arith,
  given_out-Counts day rpm n i es pool 0 same one
      (AtPlace-all i (MayCount day 0) pool (λ s. inl refl)) (omega arith),
)
