-- ===== src/WebSearch/Entries.antt =====
-- Removal from the entries of the cache of zero/web_search/cache.py, and eviction.
use zero_agent.Base.{
  ℕ, ◌+◌, ◌≤◌, ◌≡◌, refl, Bool, not, List, [], ◌∷◌, string_eq, length, select, count_where, arith,
}
use zero_agent.WebSearch.Cache.{Entry, evict}

module _ {ℓ} {A : Type ℓ} where
  pub length-select-not :
      (p : Entry A → Bool) (xs : List (Entry A))
      → length (select (λ e. not (p e)) xs) + count_where p xs ≡ length xs
  unfolding select count_where
  length-select-not p [] = refl
  length-select-not p (x ∷ xs) = ground (arith, length-select-not p xs)

  pub count_where-select-not :
      (p : Entry A → Bool) (xs : List (Entry A)) → count_where p (select (λ e. not (p e)) xs) ≡ 0
  unfolding select count_where
  count_where-select-not p [] = refl
  count_where-select-not p (x ∷ xs) = ground (arith, count_where-select-not p xs)

  pub length-evict-le : (most : ℕ) (xs : List (Entry A)) → length (evict most xs) ≤ most
  unfolding evict
  length-evict-le most [] = omega arith
  length-evict-le most (x ∷ xs) = ground (arith, length-evict-le most xs)

  pub count_where-evict-le :
      (p : Entry A → Bool) (most : ℕ) (xs : List (Entry A))
      → count_where p (evict most xs) ≤ count_where p xs
  unfolding evict count_where
  count_where-evict-le p most [] = omega arith
  count_where-evict-le p most (x ∷ xs) = ground (arith, count_where-evict-le p most xs)
