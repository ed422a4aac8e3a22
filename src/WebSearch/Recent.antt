-- ===== src/WebSearch/Recent.antt =====
-- The cache of zero/web_search/cache.py keeps an entry while few others are used after it.
use zero_agent.Base.{
  ℕ, ◌+◌, ◌≤◌, ◌<◌, ◌≡◌, refl, Bool, true, false, not, List, [], ◌∷◌, ◌++◌, none, some, String,
  ◌==◌, string_eq, ltb, leb, if◌then◌else◌, length, length-append, fetch_one, select, count_where,
  arith, Bool-cases, fetch_one_sound, Option-cases, inl, inr, All, sym, ◌∙◌, str_eq_iff,
}
use zero_agent.WebSearch.Cache.{
  Entry, TtlCache, has_key, remove, put_last, evict, get, set, invalidate,
}
use zero_agent.WebSearch.Entries.{count_where-select-not}
use zero_agent.WebSearch.Bounds.{IsValid, Call, read, write, drop, perform, run}

module _ {ℓ} {A : Type ℓ} where
  -- a call that neither puts nor drops the key; a read of it is left out too
  abbrev pub is_other : String → Call A → Bool
  is_other k (read j now) = not (j == k)
  is_other k (write j v now) = not (j == k)
  is_other k (drop none) = false
  is_other k (drop (some j)) = not (j == k)

module _ {ℓ} {A : Type ℓ} (k : String) where
  -- how many entries stand behind the one of the key
  unfoldable behind : List (Entry A) → ℕ
  behind [] = 0
  behind (x ∷ xs) = let rest = behind xs in if has_key k x then length xs else rest

  -- the key has an entry, with at most so many behind it
  abbrev Stands : Entry A → ℕ → List (Entry A) → Type ℓ
  Stands e n items = (fetch_one (has_key k) items ≡ some e) × (behind items ≤ n)

  length-remove-le : (j : String) (xs : List (Entry A)) → length (remove j xs) ≤ length xs
  unfolding remove select
  length-remove-le j [] = omega arith
  length-remove-le j (x ∷ xs) = ground (arith, length-remove-le j xs)

  differs : (j : String) (x : Entry A) → (j == k) ≡ false → has_key k x ≡ true → has_key j x ≡ false
  differs j x other own = elim (Bool-cases (has_key j x)) [
    | inr miss ↦ miss
    | inl hit ↦
        let same : j ≡ k = sym ((str_eq_iff x.key j).0 hit) ∙ (str_eq_iff x.key k).0 own in
        absurd (ground (arith, other, (str_eq_iff j k).1 same))
  ]

  remove-Stands :
      (j : String) (e : Entry A) (n : ℕ) (xs : List (Entry A))
      → (j == k) ≡ false
      → Stands e n xs
      → Stands e n (remove j xs)
  unfolding remove select fetch_one behind
  remove-Stands j e n [] other h = h
  remove-Stands j e n (x ∷ xs) other h = elim (Bool-cases (has_key k x)) [
    | inl own ↦
        rw (differs j x other own, own)
          (rw own at h.0, omega (arith, (rw own at h.1), length-remove-le j xs))
    | inr off ↦
        let rest = remove-Stands j e n xs other (rw off at h.0, rw off at h.1) in
        elim (Bool-cases (has_key j x)) [ inl hit ↦ rw hit rest | inr miss ↦ rw (miss, off) rest ]
  ]

  append-Stands :
      (e y : Entry A) (n : ℕ) (xs : List (Entry A))
      → Stands e n xs
      → Stands e (n + 1) (xs ++ y ∷ [])
  unfolding fetch_one behind
  append-Stands e y n [] h = absurd (ground (arith, h.0))
  append-Stands e y n (x ∷ xs) h = elim (Bool-cases (has_key k x)) [
    | inl own ↦ rw own (rw own at h.0, omega (arith, (rw own at h.1), length-append xs (y ∷ [])))
    | inr off ↦ rw off (append-Stands e y n xs (rw off at h.0, rw off at h.1))
  ]

  evict-Stands :
      (most : ℕ) (e : Entry A) (n : ℕ) (xs : List (Entry A))
      → n < most
      → Stands e n xs
      → Stands e n (evict most xs)
  unfolding evict fetch_one behind
  evict-Stands most e n [] room h = h
  evict-Stands most e n (x ∷ xs) room h = elim (Bool-cases (ltb most (length (x ∷ xs)))) [
    | inr fits ↦ rw fits h
    | inl full ↦ elim (Bool-cases (has_key k x)) [
      | inl own ↦ absurd (ground (arith, room, full, (rw own at h.1)))
      | inr off ↦ rw full (evict-Stands most e n xs room (rw off at h.0, rw off at h.1))
    ]
  ]

  Other-Stands :
      (x : Call A) (c : TtlCache A) (e : Entry A) (n : ℕ)
      → is_other k x ≡ true
      → n + 1 < c.max_entries
      → Stands e n c.items
      → Stands e (n + 1) (perform x c).items × ((perform x c).max_entries ≡ c.max_entries)
  unfolding perform get set invalidate put_last
  Other-Stands (read j now) c e n other room h =
      let apart : (j == k) ≡ false = ground arith in
      let gone = remove-Stands j e n c.items apart h in
      elim (Option-cases (fetch_one (has_key j) c.items)) [
        | inl missing ↦ rw (missing, perform) ((h.0, omega (arith, h.1)), refl)
        | inr (y, found) ↦ elim (Bool-cases (leb y.expires_at now)) [
          | inl old ↦ rw (found, perform) (rw old ((gone.0, omega (arith, gone.1)), refl))
          | inr fresh ↦
              let mine : y.key ≡ j =
                (str_eq_iff y.key j).0 (fetch_one_sound (has_key j) c.items y found) in
              rw (found, perform)
                (rw fresh (
                  append-Stands e y n (remove y.key c.items)
                      (remove-Stands y.key e n c.items (rw mine apart) h),
                  refl,
                ))
        ]
      ]
  Other-Stands (write j v now) c e n other room h =
      let apart : (j == k) ≡ false = ground arith in
      let y : Entry A = record { key = j; expires_at = now + c.ttl_seconds; value = v } in
      (
        evict-Stands c.max_entries e (n + 1) (remove j c.items ++ y ∷ []) room
            (append-Stands e y n (remove j c.items) (remove-Stands j e n c.items apart h)),
        refl,
      )
  Other-Stands (drop none) c e n other room h = absurd (ground arith)
  Other-Stands (drop (some j)) c e n other room h =
      let gone = remove-Stands j e n c.items (ground arith) h in
      ((gone.0, omega (arith, gone.1)), refl)

  run-Stands :
      (cs : List (Call A)) (c : TtlCache A) (e : Entry A) (n : ℕ)
      → All (λ x. is_other k x ≡ true) cs
      → n + length cs < c.max_entries
      → Stands e n c.items
      → fetch_one (has_key k) (run cs c).items ≡ some e
  unfolding run
  run-Stands [] c e n others room h = h.0
  run-Stands (x ∷ cs) c e n others room h =
      let (next, same) = Other-Stands x c e n others.0 (omega (arith, room)) h in
      run-Stands cs (perform x c) e (n + 1) others.1 (rw same (omega (arith, room))) next

  last-Stands :
      (y : Entry A) (xs : List (Entry A))
      → has_key k y ≡ true
      → count_where (has_key k) xs ≡ 0
      → Stands y 0 (xs ++ y ∷ [])
  unfolding fetch_one behind count_where
  last-Stands y [] own none_there = rw own (refl, omega arith)
  last-Stands y (x ∷ xs) own none_there = elim (Bool-cases (has_key k x)) [
    | inl hit ↦ absurd (ground (arith, hit, none_there))
    | inr miss ↦ rw miss (last-Stands y xs own (ground (arith, miss, none_there)))
  ]

  -- A valid cache gives back the value that was put under a key until `ttl_seconds` have passed, and
  -- nothing from then on, whatever reads and writes of other keys and invalidations of other keys come
  -- in between, if they are fewer than its maximum of entries, so that the key is not evicted.
  pub get-run :
      (a : A) (then_at now : ℕ) (c : TtlCache A) (cs : List (Call A))
      → IsValid c
      → All (λ x. is_other k x ≡ true) cs
      → length cs < c.max_entries
      → (get k now (run cs (set k a then_at c))).0
        ≡ (if leb (then_at + c.ttl_seconds) now then none else some a)
  unfolding get set put_last remove
  get-run a then_at now c cs v others few =
      let e : Entry A = record { key = k; expires_at = then_at + c.ttl_seconds; value = a } in
      let own : has_key k e ≡ true = (str_eq_iff k k).1 refl in
      let put : Stands e 0 (set k a then_at c).items =
        evict-Stands c.max_entries e 0 (remove k c.items ++ e ∷ []) v.positive (
          last-Stands e (remove k c.items) own
            (count_where-select-not (has_key {A = A} k) c.items)) in
      let found : fetch_one (has_key k) (run cs (set k a then_at c)).items ≡ some e =
        run-Stands cs (set k a then_at c) e 0 others (omega (arith, few)) put in
      rw (found, get)
        (elim (Bool-cases (leb (then_at + c.ttl_seconds) now)) [
          | inl gone ↦ rw gone refl
          | inr fresh ↦ rw fresh refl
        ])
