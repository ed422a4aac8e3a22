-- ===== src/WebSearch/Bounds.antt =====
-- The cache of zero/web_search/cache.py keeps its bound and its keys apart.
use zero_agent.Base.{
  count_where-select-le, ℕ, ◌+◌, ◌≤◌, ◌≡◌, not, List, [], ◌∷◌, Option, none, some, String,
  string_eq, leb, length, length-append, fetch_one, fetch_one_sound, count_where,
  count_where-append, count_where_of_fetch_one, arith, Bool-cases, Option-cases, inl, inr,
  str_eq_iff,
}
use zero_agent.WebSearch.Cache.{
  Entry, TtlCache, new_cache, has_key, remove, put_last, get, set, invalidate,
}
use zero_agent.WebSearch.Entries.{
  length-select-not, count_where-select-not, length-evict-le, count_where-evict-le,
}

-- what holds of every cache that the program makes and uses
pub record IsValid {ℓ} {A : Type ℓ} (c : TtlCache A) : Type ℓ where
  pub positive : 1 ≤ c.max_entries
  pub bounded : length c.items ≤ c.max_entries
  pub distinct : (k : String) → count_where (has_key k) c.items ≤ 1

pub data Call {ℓ} (A : Type ℓ) : Type ℓ where
  read : String → ℕ → Call A
  write : String → A → ℕ → Call A
  drop : Option String → Call A

module _ {ℓ} {A : Type ℓ} where
  unfoldable pub perform : Call A → TtlCache A → TtlCache A
  unfolding get set invalidate
  perform (read k now) c = (get k now c).1
  perform (write k v now) c = set k v now c
  perform (drop k) c = invalidate k c

  unfoldable pub run : List (Call A) → TtlCache A → TtlCache A
  unfolding perform
  run [] c = c
  run (x ∷ xs) c = run xs (perform x c)

  put_last-distinct :
      (e : Entry A) (items : List (Entry A))
      → ((k : String) → count_where (has_key k) items ≤ 1)
      → (k : String) → count_where (has_key k) (put_last e items) ≤ 1
  unfolding put_last remove count_where
  put_last-distinct e items d k =
      rw (count_where-append (has_key k) (remove e.key items) (e ∷ []))
        (elim (Bool-cases (has_key k e)) [
          | inl mine ↦
              let same : e.key ≡ k = (str_eq_iff e.key k).0 mine in
              rw mine (rw same (omega (arith, count_where-select-not (has_key {A = A} k) items)))
          | inr other ↦ rw other (
              omega
                (arith, d k, count_where-select-le (has_key k) (λ x. not (has_key e.key x)) items))
        ])

  length-put_last :
      (e : Entry A) (items : List (Entry A))
      → length (put_last e items) + count_where (has_key e.key) items ≡ length items + 1
  unfolding put_last remove
  length-put_last e items =
      omega (
        arith,
        length-append (remove e.key items) (e ∷ []),
        length-select-not (has_key e.key) items,
      )

  get-IsValid : (k : String) (now : ℕ) (c : TtlCache A) → IsValid c → IsValid (get k now c).1
  unfolding get remove
  get-IsValid k now c v = elim (Option-cases (fetch_one (has_key k) c.items)) [
    | inl missing ↦ rw (missing, get) v
    | inr (e, found) ↦ elim (Bool-cases (leb e.expires_at now)) [
      | inl expired ↦
          rw (found, get)
            (rw expired (record {
              positive = v.positive;
              bounded = omega (arith, v.bounded, length-select-not (has_key k) c.items);
              distinct = λ l. omega (
                arith,
                v.distinct l,
                count_where-select-le (has_key l) (λ x. not (has_key k x)) c.items,
              );
            }))
      | inr fresh ↦
          let mine : e.key ≡ k =
            (str_eq_iff e.key k).0 (fetch_one_sound (has_key k) c.items e found) in
          let there : 1 ≤ count_where (has_key e.key) c.items =
            rw mine (count_where_of_fetch_one (has_key k) c.items e found) in
          rw (found, get)
            (rw fresh (record {
              positive = v.positive;
              bounded = omega (arith, v.bounded, length-put_last e c.items, there);
              distinct = put_last-distinct e c.items v.distinct;
            }))
    ]
  ]

  set-IsValid :
      (k : String) (a : A) (now : ℕ) (c : TtlCache A) → IsValid c → IsValid (set k a now c)
  unfolding set
  set-IsValid k a now c v =
      let e : Entry A = record { key = k; expires_at = now + c.ttl_seconds; value = a } in
      record {
        positive = v.positive;
        bounded = length-evict-le c.max_entries (put_last e c.items);
        distinct = λ l. omega (
          arith,
          put_last-distinct e c.items v.distinct l,
          count_where-evict-le (has_key l) c.max_entries (put_last e c.items),
        );
      }

  invalidate-IsValid : (k : Option String) (c : TtlCache A) → IsValid c → IsValid (invalidate k c)
  unfolding invalidate remove count_where
  invalidate-IsValid none c v = record {
    positive = v.positive;
    bounded = omega arith;
    distinct = λ l. omega arith;
  }
  invalidate-IsValid (some k) c v = record {
    positive = v.positive;
    bounded = omega (arith, v.bounded, length-select-not (has_key k) c.items);
    distinct = λ l.
        omega
          (arith, v.distinct l, count_where-select-le (has_key l) (λ x. not (has_key k x)) c.items);
  }

  run-IsValid' : (cs : List (Call A)) (c : TtlCache A) → IsValid c → IsValid (run cs c)
  unfolding run
  run-IsValid' [] c v = v
  run-IsValid' (read k now ∷ cs) c v = run-IsValid' cs (get k now c).1 (get-IsValid k now c v)
  run-IsValid' (write k a now ∷ cs) c v = run-IsValid' cs (set k a now c) (set-IsValid k a now c v)
  run-IsValid' (drop k ∷ cs) c v = run-IsValid' cs (invalidate k c) (invalidate-IsValid k c v)

-- Whatever is read, written and invalidated, in whatever order and at whatever times, a cache that
-- was made with any arguments holds at most its maximum of entries (at least one), and no key twice.
pub run-IsValid {ℓ} :
    {A : Type ℓ} (ttl most : ℕ) (cs : List (Call A)) → IsValid (run cs (new_cache ttl most))
unfolding count_where
run-IsValid ttl most cs =
    run-IsValid' cs (new_cache ttl most)
      (record { positive = omega arith; bounded = omega arith; distinct = λ k. omega arith })
