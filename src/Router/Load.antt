-- ===== src/Router/Load.antt =====
-- zero/router.py, the score of a key in `KeyPool.reserve`, told from the other side: how much of its
-- limits a key has used.
use zero_agent.Base.{
  ℕ, ◌+◌, ◌-◌, ◌*◌, ◌≤◌, ◌<◌, ◌≡◌, refl, true, false, ◌&&◌, ◌||◌, ◌==◌, nat_eq, if◌then◌else◌, ltb,
  length, arith, Bool-cases, inl, inr, ◌⊎◌, ◌∙◌, sym, ap,
}
use native.Mathlib.Nat.{add-mul}
use zero_agent.Router.Keys.{Limits, KeyState, share, left_of, headroom, is_better, is_available}

-- a part of a limit that is used, over the denominator of both limits; without a limit none is
abbrev used_part : ℕ → ℕ → ℕ → ℕ
used_part limit other n = if limit == 0 then 0 else n * share other

-- the load of a key: six tenths for the part of the limit per minute that it has used, four for that of
-- the limit per day
abbrev pub load : Limits → KeyState → ℕ
load cfg s =
    6 * used_part cfg.rpm cfg.rpd (length s.requests_minute)
    + 4 * used_part cfg.rpd cfg.rpm s.requests_day

-- a key is preferred to another: it is the less loaded one, or the one that was used longer ago, or
-- the one with the weight that is not less
abbrev pub IsPreferred : Limits → KeyState → KeyState → Type 0
IsPreferred cfg s t =
    (load cfg s < load cfg t)
    ⊎ ((load cfg s ≡ load cfg t)
        × ((s.last_used_at < t.last_used_at)
            ⊎ ((s.last_used_at ≡ t.last_used_at) × (t.weight ≤ s.weight))))

split_limit : (limit n d : ℕ) → n < limit → (limit - n) * d + n * d ≡ limit * d
split_limit limit n d h =
    let whole : limit - n + n ≡ limit = omega arith in
    sym (add-mul (limit - n) n d) ∙ ap (λ x. x * d) whole

share_of : (limit : ℕ) → share limit ≡ (if limit == 0 then 1 else limit)
unfolding share
share_of limit = refl

-- what is left of a limit and what is used of it are the whole of it
left-used :
    (limit other n : ℕ)
    → (limit == 0 || ltb n limit) ≡ true
    → left_of limit n * share other + used_part limit other n ≡ share limit * share other
unfolding left_of
left-used limit other n h = elim (Bool-cases (limit == 0)) [
  | inl e ↦ rw (e, share_of limit, e) (omega arith)
  | inr e ↦ rw (e, share_of limit, e) (split_limit limit n (share other) (ground (arith, e, h)))
]

by_sums :
    (h h' l l' u u' w w' : ℕ)
    → (ltb h h' || h' == h && (ltb u' u || u' == u && ltb w w')) ≡ false
    → h + l ≡ h' + l'
    → (l < l') ⊎ ((l ≡ l') × ((u < u') ⊎ ((u ≡ u') × (w' ≤ w))))
by_sums h h' l l' u u' w w' a b = ground arith

module _ (cfg : Limits) where
  headroom-load :
      (now : ℕ) (s : KeyState)
      → is_available cfg now s ≡ true
      → headroom cfg s + load cfg s
        ≡ 6 * (share cfg.rpm * share cfg.rpd) + 4 * (share cfg.rpd * share cfg.rpm)
  unfolding headroom is_available
  headroom-load now s h = omega (
    arith,
    left-used cfg.rpm cfg.rpd (length s.requests_minute) (ground (arith, h)),
    left-used cfg.rpd cfg.rpm s.requests_day (ground (arith, h)),
  )

  pub is_better-IsPreferred :
      (now : ℕ) (s t : KeyState)
      → is_available cfg now s ≡ true
      → is_available cfg now t ≡ true
      → is_better cfg t s ≡ false
      → IsPreferred cfg s t
  unfolding is_better
  is_better-IsPreferred now s t here there h =
      by_sums (headroom cfg s) (headroom cfg t) (load cfg s) (load cfg t) _ _ _ _ h
        (headroom-load now s here ∙ sym (headroom-load now t there))
