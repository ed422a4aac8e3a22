-- ===== src/Router/Best.antt =====
-- zero/router.py, `KeyPool.reserve`: how the key that it chooses compares with the others; and the
-- router's answers.
use zero_agent.Base.{
  ℕ, ◌+◌, ◌≡◌, refl, Bool, true, false, ◌&&◌, ◌||◌, List, [], ◌∷◌, Option, none, some, ◌==◌,
  string_eq, nat_eq, ltb, All, select, arith, Bool-cases, inl, inr, take,
}
use zero_agent.Router.Keys.{Limits, KeyState, is_available, is_better, best_of, choose}
use zero_agent.Router.Route.{
  Provider, Config, Pools, Tick, Answer, RouteResult, is_text, complete_provider,
}
use zero_agent.Router.Complete.{
  order_of, max_attempts, attempt_each, nothing_tried, complete_legacy,
}

All-select : {A : Type 0} (q : A → Bool) (xs : List A) → All (λ x. q x ≡ true) (select q xs)
unfolding select
All-select q [] = tt
All-select q (x ∷ xs) = elim (Bool-cases (q x)) [
  | inl e ↦ rw (e, select) (e, All-select q xs)
  | inr e ↦ rw (e, select) (All-select q xs)
]

-- the order of three numbers, the second one reversed
abbrev beats : (h h' l l' w w' : ℕ) → Bool
beats h h' l l' w w' = ltb h' h || h == h' && (ltb l l' || l == l' && ltb w' w)

module _ (cfg : Limits) where
  best_of_keeps :
      (q : KeyState → Bool) (s : KeyState) (ss : List KeyState)
      → q s ≡ true
      → All (λ t. q t ≡ true) ss
      → q (best_of cfg s ss) ≡ true
  unfolding best_of
  best_of_keeps q s [] h hs = h
  best_of_keeps q s (t ∷ ts) h hs = elim (Bool-cases (is_better cfg t s)) [
    | inl e ↦ rw (e, best_of) (best_of_keeps q t ts hs.0 hs.1)
    | inr e ↦ rw (e, best_of) (best_of_keeps q s ts h hs.1)
  ]

  chosen_keeps :
      (q : KeyState → Bool) (l : List KeyState) (s : KeyState)
      → elim l [ [] ↦ none | t ∷ ts ↦ some (best_of cfg t ts) ] ≡ Option.some s
      → All (λ t. q t ≡ true) l
      → q s ≡ true
  chosen_keeps q [] s h hs = absurd (ground arith)
  chosen_keeps q (t ∷ ts) s h hs =
      let same : best_of cfg t ts ≡ s = ground arith in rw (← same) (best_of_keeps q t ts hs.0 hs.1)

  pub choose-is_available :
      (now : ℕ) (pool : List KeyState) (s : KeyState)
      → choose cfg now pool ≡ some s
      → is_available cfg now s ≡ true
  unfolding choose
  choose-is_available now pool s h =
      chosen_keeps (is_available cfg now) (select (is_available cfg now) pool) s h
        (All-select (is_available cfg now) pool)

module _ (call : Provider → ℕ → Bool → ℕ → Answer) (c : Config) where
  attempt_each-text :
      (ticks : ℕ → Tick) (ps : List Provider) (n : ℕ) (last : RouteResult) (pools : Pools)
      → (attempt_each call c false ticks n ps last pools).0.0 ≡ true
      → is_text (attempt_each call c false ticks n ps last pools).0.1.text ≡ true
  unfolding attempt_each
  attempt_each-text ticks [] n last pools h = absurd (ground arith)
  attempt_each-text ticks (p ∷ ps) n last pools h =
      let done = complete_provider call c p false false (ticks n) pools in
      elim (Bool-cases (is_text done.0.text)) [
        | inl e ↦ rw (e, attempt_each) e
        | inr e ↦
            rw (e, attempt_each)
              (attempt_each-text ticks ps (n + 1) done.0 done.1 (rw (e, attempt_each) at h))
      ]

  -- Whatever the providers answer or raise, however many keys are left, and whatever the
  -- configuration allows, the pools answer a chat with a text that is not empty.
  pub complete_legacy-text :
      (ticks : ℕ → Tick) (pools : Pools)
      → is_text (complete_legacy call c ticks pools).0.text ≡ true
  unfolding complete_legacy
  complete_legacy-text ticks pools =
      let order = take (max_attempts call c (order_of call c)) (order_of call c) in
      let tried = attempt_each call c false ticks 0 order (nothing_tried call) pools in
      elim (Bool-cases tried.0.0) [
        | inl e ↦
            rw (e, complete_legacy) (attempt_each-text ticks order 0 (nothing_tried call) pools e)
        | inr e ↦ rw (e, complete_legacy) refl
      ]
