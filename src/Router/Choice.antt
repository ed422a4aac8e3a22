-- ===== src/Router/Choice.antt =====
-- zero/router.py, `KeyPool.reserve`: which key it chooses, and the limits of the keys.
use zero_agent.Base.{
  count_where_split, ℕ, ◌-◌, ◌≤◌, ◌≡◌, refl, Bool, true, false, not, ◌&&◌, ◌||◌, List, [], ◌∷◌,
  Option, none, some, String, ◌==◌, string_eq, nat_eq, if◌then◌else◌, ltb, leb, length,
  update_where, select, count_where, arith, Option-cases, inl, inr, count_where-update,
  count_where-update_guarded, length-append, nat_beq_iff,
}
use zero_agent.Router.Keys.{
  Limits, KeyState, has_place, refreshed, is_available, is_better, best_of, used, refresh_all,
  choose, reserve, succeeded, failed,
}

-- a key with more requests than a limit allows
abbrev pub is_over : Limits → KeyState → Bool
is_over cfg s =
    not (cfg.rpm == 0 || leb (length s.requests_minute) cfg.rpm)
    || not (cfg.rpd == 0 || leb s.requests_day cfg.rpd)

-- one key at a place, and no limit exceeded
pub record IsSound (cfg : Limits) (pool : List KeyState) : Type 0 where
  pub unique : (i : ℕ) → count_where (has_place i) pool ≤ 1
  pub within : count_where (is_over cfg) pool ≡ 0

module _ {A : Type 0} (p q : A → Bool) where
  count_where-select :
      (xs : List A) → count_where p (select q xs) ≡ count_where (λ x. p x && q x) xs
  unfolding count_where select
  count_where-select [] = refl
  count_where-select (x ∷ xs) = ground (arith, count_where-select xs)

pub length-select-le : {A : Type 0} (q : A → Bool) (xs : List A) → length (select q xs) ≤ length xs
unfolding select
length-select-le q [] = omega arith
length-select-le q (x ∷ xs) = ground (arith, length-select-le q xs)

in_pair :
    (i : ℕ) (s t : KeyState) (ts : List KeyState) (b : Bool)
    → 1 ≤ count_where (has_place i) ((if b then t else s) ∷ ts)
    → 1 ≤ count_where (has_place i) (s ∷ t ∷ ts)
unfolding count_where
in_pair i s t ts true h = ground (arith, h)
in_pair i s t ts false h = ground (arith, h)

module _ (cfg : Limits) where
  best_of_in :
      (s : KeyState) (ss : List KeyState)
      → 1 ≤ count_where (has_place (best_of cfg s ss).place) (s ∷ ss)
  unfolding best_of count_where
  best_of_in s [] = ground (arith, nat_beq_iff s.place s.place)
  best_of_in s (t ∷ ts) =
      in_pair (best_of cfg s (t ∷ ts)).place s t ts (is_better cfg t s)
        (best_of_in (if is_better cfg t s then t else s) ts)

  chosen_in :
      (now : ℕ) (pool : List KeyState) (l : List KeyState) (s : KeyState)
      → select (is_available cfg now) pool ≡ l
      → elim l [ [] ↦ none | t ∷ ts ↦ some (best_of cfg t ts) ] ≡ Option.some s
      → 1 ≤ count_where (λ t. has_place s.place t && is_available cfg now t) pool
  chosen_in now pool [] s e h = absurd (ground arith)
  chosen_in now pool (t ∷ ts) s e h =
      let same : best_of cfg t ts ≡ s = ground arith in
      rw (← count_where-select (has_place s.place) (is_available cfg now) pool, e, ← same)
        (best_of_in t ts)

  pub choose_in :
      (now : ℕ) (pool : List KeyState) (s : KeyState)
      → choose cfg now pool ≡ some s
      → 1 ≤ count_where (λ t. has_place s.place t && is_available cfg now t) pool
  unfolding choose
  choose_in now pool s h = chosen_in now pool (select (is_available cfg now) pool) s refl h

  -- the keys after `reserve`, by what it chose
  unfoldable pub after_choice : ℕ → List KeyState → Option KeyState → List KeyState
  after_choice now fresh none = fresh
  after_choice now fresh (some s) = update_where (has_place s.place) (used now) fresh

  pub reserve_pool :
      (now : ℕ) (day : String) (pool : List KeyState)
      → (reserve cfg now day pool).1
        ≡ after_choice now (refresh_all now day pool) (choose cfg now (refresh_all now day pool))
  unfolding reserve after_choice
  reserve_pool now day pool = elim (Option-cases (choose cfg now (refresh_all now day pool))) [
    | inl e ↦ rw (e, reserve) refl
    | inr (s, e) ↦ rw (e, reserve) refl
  ]

module _ (cfg : Limits) (now : ℕ) (day : String) where
  pub refresh_all_unique :
      (i : ℕ) (pool : List KeyState)
      → count_where (has_place i) (refresh_all now day pool) ≡ count_where (has_place i) pool
  unfolding refresh_all count_where refreshed
  refresh_all_unique i [] = refl
  refresh_all_unique i (s ∷ ss) = ground (arith, refresh_all_unique i ss)

  pub reserve_unique :
      (i : ℕ) (pool : List KeyState)
      → count_where (has_place i) (reserve cfg now day pool).1 ≡ count_where (has_place i) pool
  unfolding after_choice
  reserve_unique i pool =
      let fresh = refresh_all now day pool in
      rw (reserve_pool cfg now day pool) (elim (Option-cases (choose cfg now fresh)) [
        | inl e ↦ rw (e, after_choice) (refresh_all_unique i pool)
        | inr (s, e) ↦
            rw (e, after_choice)
              (rw
                (count_where-update (has_place i) (has_place s.place) (used now) fresh (λ t. refl))
                (refresh_all_unique i pool))
      ])

  refreshed-is_over :
      (s : KeyState) → is_over cfg s ≡ false → is_over cfg (refreshed now day s) ≡ false
  unfolding refreshed
  refreshed-is_over s h =
      ground (arith, h, length-select-le (λ (x : ℕ). ltb (now - x) 60) s.requests_minute)

  refresh_all-within :
      (pool : List KeyState)
      → count_where (is_over cfg) pool ≡ 0
      → count_where (is_over cfg) (refresh_all now day pool) ≡ 0
  unfolding refresh_all count_where
  refresh_all-within [] h = refl
  refresh_all-within (s ∷ ss) h = ground (arith, refreshed-is_over s, refresh_all-within ss)

  refresh_all-IsSound :
      (pool : List KeyState) → IsSound cfg pool → IsSound cfg (refresh_all now day pool)
  refresh_all-IsSound pool v = record {
    unique = λ i. rw (refresh_all_unique i pool) (v.unique i);
    within = refresh_all-within pool v.within;
  }

  used-is_over :
      (s : KeyState) → not (is_available cfg now s) ≡ false → is_over cfg (used now s) ≡ false
  unfolding is_available
  used-is_over s h = ground (arith, h, length-append s.requests_minute (now ∷ []))

  after_choice-IsSound :
      (fresh : List KeyState) (o : Option KeyState)
      → choose cfg now fresh ≡ o
      → IsSound cfg fresh
      → IsSound cfg (after_choice cfg now fresh o)
  unfolding after_choice
  after_choice-IsSound fresh none e v = v
  after_choice-IsSound fresh (some s) e v = record {
    unique = λ i.
        rw (count_where-update (has_place i) (has_place s.place) (used now) fresh (λ t. refl))
          (v.unique i);
    within =
        count_where-update_guarded (is_over cfg) (has_place s.place)
          (λ t. not (is_available cfg now t)) (used now) used-is_over fresh
          (omega (
            arith,
            choose_in cfg now fresh s e,
            v.unique s.place,
            count_where_split (has_place s.place) (is_available cfg now) fresh,
          ))
          v.within;
  }

  pub reserve-IsSound :
      (pool : List KeyState) → IsSound cfg pool → IsSound cfg (reserve cfg now day pool).1
  reserve-IsSound pool v = rw (reserve_pool cfg now day pool) (
      after_choice-IsSound (refresh_all now day pool) (choose cfg now (refresh_all now day pool))
        refl (refresh_all-IsSound pool v))

module _ (cfg : Limits) (q : KeyState → Bool) (pool : List KeyState) (v : IsSound cfg pool) where
  pub succeeded-IsSound : (now : ℕ) → IsSound cfg (update_where q (succeeded now) pool)
  succeeded-IsSound now = record {
    unique =
        λ i. rw (count_where-update (has_place i) q (succeeded now) pool (λ t. refl)) (v.unique i);
    within = rw (count_where-update (is_over cfg) q (succeeded now) pool (λ t. refl)) v.within;
  }

  pub failed-IsSound :
      (kind : String) (cooldown now : ℕ)
      → IsSound cfg (update_where q (failed kind cooldown now) pool)
  unfolding failed
  failed-IsSound kind cooldown now = record {
    unique = λ i.
        rw (count_where-update (has_place i) q (failed kind cooldown now) pool (λ t. ground arith))
          (v.unique i);
    within =
        rw (count_where-update (is_over cfg) q (failed kind cooldown now) pool (λ t. ground arith))
          v.within;
  }
