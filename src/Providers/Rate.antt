-- ===== src/Providers/Rate.antt =====
-- What `RateLimiter` of zero/providers/registry.py promises.
use zero_agent.Base.{
  ℕ, suc, ◌+◌, ◌≤◌, ◌<◌, ◌≡◌, refl, Bool, ◌&&◌, List, [], ◌∷◌, ◌++◌, some, leb, ltb, if◌then◌else◌,
  length, length-append, arith, Bool-cases, inl, inr, count_where, count_where-append,
}
use zero_agent.Providers.Limiter.{RateLimiter, new_limiter, drop_old, allow_under, allow}

-- the clocks of the calls that the limiter lets pass
unfoldable pub admitted : RateLimiter → List ℕ → List ℕ
unfolding allow
admitted l [] = []
admitted l (t ∷ ts) =
    let (passes, l') = allow t l in let rest = admitted l' ts in if passes then t ∷ rest else rest

-- a monotonic clock, from a time on
abbrev pub Rising : ℕ → List ℕ → Type 0
Rising from [] = Unit
Rising from (t ∷ ts) = (from ≤ t) × Rising t ts

abbrev pub is_after : ℕ → ℕ → Bool
is_after t x = ltb t x

-- in the minute after `t`
abbrev pub is_within_minute : ℕ → ℕ → Bool
is_within_minute t x = ltb t x && leb x (t + 60)

count_where-drop_old :
    (t now : ℕ) (hits : List ℕ)
    → now ≤ t + 60
    → count_where (is_after t) (drop_old now hits) ≡ count_where (is_after t) hits
unfolding count_where drop_old
count_where-drop_old t now [] h = refl
count_where-drop_old t now (x ∷ xs) h = ground (arith, count_where-drop_old t now xs h)

count_where-le-length : (p : ℕ → Bool) (xs : List ℕ) → count_where p xs ≤ length xs
unfolding count_where
count_where-le-length p [] = omega arith
count_where-le-length p (x ∷ xs) = ground (arith, count_where-le-length p xs)

within-le-after :
    (t : ℕ) (xs : List ℕ) → count_where (is_within_minute t) xs ≤ count_where (is_after t) xs
unfolding count_where
within-le-after t [] = omega arith
within-le-after t (x ∷ xs) = ground (arith, within-le-after t xs)

-- the calls that passed so far against what the limiter still holds
pub record Tracks (limit now : ℕ) (hits past : List ℕ) : Type 0 where
  pub bounded : length hits ≤ limit
  pub recent :
      (t : ℕ) → now ≤ t + 60 → count_where (is_after t) past ≤ count_where (is_after t) hits
  pub minutes : (t : ℕ) → count_where (is_within_minute t) past ≤ limit

length-drop_old-le : (now : ℕ) (hits : List ℕ) → length (drop_old now hits) ≤ length hits
unfolding drop_old
length-drop_old-le now [] = omega arith
length-drop_old-le now (x ∷ xs) = ground (arith, length-drop_old-le now xs)

-- what is kept of the hits at a time: those of the last minute at least
module _ (limit last now : ℕ) (hits kept past : List ℕ) (later : last ≤ now)
    (fewer : length kept ≤ length hits)
    (same : (t : ℕ) → now ≤ t + 60 → count_where (is_after t) kept ≡ count_where (is_after t) hits)
    (tr : Tracks limit last hits past) where
  pub refused-Tracks : Tracks limit now kept past
  refused-Tracks = record {
    bounded = omega (arith, tr.bounded, fewer);
    recent = λ t h. omega (arith, tr.recent t (omega arith), same t h);
    minutes = tr.minutes;
  }

  pub passed-Tracks : length kept < limit → Tracks limit now (kept ++ now ∷ []) (past ++ now ∷ [])
  unfolding count_where
  passed-Tracks room = record {
    bounded = omega (arith, length-append kept (now ∷ []));
    recent = λ t h. omega (
      arith,
      tr.recent t (omega arith),
      same t h,
      count_where-append (is_after t) past (now ∷ []),
      count_where-append (is_after t) kept (now ∷ []),
    );
    minutes = λ t. elim (Bool-cases (is_within_minute t now)) [
      | inr outside ↦
          rw (count_where-append (is_within_minute t) past (now ∷ []))
            (rw outside (omega (arith, tr.minutes t)))
      | inl inside ↦
          let fresh : now ≤ t + 60 = ground (arith, inside) in
          rw (count_where-append (is_within_minute t) past (now ∷ [])) (
            rw inside (
              omega (
                arith,
                within-le-after t past,
                tr.recent t (omega arith),
                same t fresh,
                count_where-le-length (is_after t) kept,
              )))
    ];
  }

-- the calls let pass from a tracked state on, after those of the past
admitted-Tracks :
    (n last : ℕ) (hits past : List ℕ) (ts : List ℕ) (t : ℕ)
    → Rising last ts
    → Tracks (suc n) last hits past
    → count_where (is_within_minute t) past
        + count_where
            (is_within_minute t)
            (admitted (record { limit = some (suc n); hits = hits }) ts)
      ≤ suc n
unfolding admitted allow_under count_where
admitted-Tracks n last hits past [] t up tr = omega (arith, tr.minutes t)
admitted-Tracks n last hits past (now ∷ ts) t up tr =
    elim (Bool-cases (leb (suc n) (length (drop_old now hits)))) [
      | inl full ↦ rw full (
          admitted-Tracks n now (drop_old now hits) past ts t up.1 (
            refused-Tracks (suc n) last now hits (drop_old now hits) past up.0
              (length-drop_old-le now hits) (λ u h. count_where-drop_old u now hits h) tr))
      | inr room ↦ rw room (
          omega (
            arith,
            admitted-Tracks n now (drop_old now hits ++ now ∷ []) (past ++ now ∷ []) ts t up.1 (
                passed-Tracks (suc n) last now hits (drop_old now hits) past up.0
                  (length-drop_old-le now hits) (λ u h. count_where-drop_old u now hits h) tr
                  (ground (arith, room))),
            count_where-append (is_within_minute t) past (now ∷ []),
          ))
    ]

-- Whatever calls come, at the times of a monotonic clock, a profile with a limit lets at most that
-- many pass in any 60 seconds.
pub admitted-per_minute :
    (n t : ℕ) (ts : List ℕ)
    → Rising 0 ts
    → count_where (is_within_minute t) (admitted (new_limiter (some (suc n))) ts) ≤ suc n
unfolding count_where
admitted-per_minute n t ts up = omega (
  arith,
  admitted-Tracks n 0 [] [] ts t up
      (record { bounded = omega arith; recent = λ u h. omega arith; minutes = λ u. omega arith }),
)
