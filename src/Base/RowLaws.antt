-- ===== src/Base/RowLaws.antt =====
-- What an update leaves of a count, a sum and a lookup.
use Prim.Native.Nat.{ℕ, ◌+◌, ◌≤◌}
use mathlib.Core.Path.{◌≡◌, refl}
use mathlib.Core.Logic.{inl, inr}
use mathlib.Core.Bool.{not, Bool, true, false, ◌&&◌}
use mathlib.Core.Option.{none, some}
use mathlib.Core.List.{List, [], ◌∷◌, ◌++◌}
use native.Mathlib.Omega.{arith}
use zero_agent.Base.Tests.{if◌then◌else◌, Bool-cases}
use zero_agent.Base.Rows.{select, fetch_one, update_where, count_where, sum_of, count_where-append}

module _ {ℓ} {A : Type ℓ} where
  pub count_where-update :
      (p q : A → Bool) (f : A → A) (xs : List A)
      → ((x : A) → p (f x) ≡ p x)
      → count_where p (update_where q f xs) ≡ count_where p xs
  unfolding count_where update_where
  count_where-update p q f [] keep = refl
  count_where-update p q f (x ∷ xs) keep = ground (arith, keep x, count_where-update p q f xs keep)

  pub sum_of-update_same :
      (g : A → ℕ) (q : A → Bool) (f : A → A) (xs : List A)
      → ((x : A) → g (f x) ≡ g x)
      → sum_of g (update_where q f xs) ≡ sum_of g xs
  unfolding sum_of update_where
  sum_of-update_same g q f [] keep = refl
  sum_of-update_same g q f (x ∷ xs) keep = ground (arith, keep x, sum_of-update_same g q f xs keep)

  pub update_where_none :
      (p : A → Bool) (f : A → A) (xs : List A) → count_where p xs ≡ 0 → update_where p f xs ≡ xs
  unfolding count_where update_where
  update_where_none p f [] h = refl
  update_where_none p f (x ∷ xs) h = ground (arith, update_where_none p f xs)

  pub count_where_of_fetch_one :
      (p : A → Bool) (xs : List A) (x : A) → fetch_one p xs ≡ some x → 1 ≤ count_where p xs
  unfolding count_where fetch_one
  count_where_of_fetch_one p [] x h = cc
  count_where_of_fetch_one p (y ∷ ys) x h = ground (arith, count_where_of_fetch_one p ys x)

  pub count_where_of_fetch_none :
      (p : A → Bool) (xs : List A) → fetch_one p xs ≡ none → count_where p xs ≡ 0
  unfolding count_where fetch_one
  count_where_of_fetch_none p [] h = refl
  count_where_of_fetch_none p (y ∷ ys) h = ground (arith, count_where_of_fetch_none p ys)

  -- the one row that an update by a unique key changes
  pub sum_of-update_one :
      (g : A → ℕ) (p : A → Bool) (f : A → A) (xs : List A) (x : A)
      → count_where p xs ≤ 1
      → fetch_one p xs ≡ some x
      → sum_of g (update_where p f xs) + g x ≡ sum_of g xs + g (f x)
  unfolding count_where fetch_one sum_of update_where
  sum_of-update_one g p f [] x u h = cc
  sum_of-update_one g p f (y ∷ ys) x u h = elim (Bool-cases (p y)) [
    | inl e ↦
        let same : y ≡ x = ground arith in
        rw (e, same, update_where_none p f ys (ground arith)) (omega arith)
    | inr e ↦ rw e (omega (arith, sum_of-update_one g p f ys x (ground arith) (ground arith)))
  ]

  -- a lookup after an update that keeps its key
  pub fetch_one-update :
      (p q : A → Bool) (f : A → A) (xs : List A)
      → ((x : A) → p (f x) ≡ p x)
      → fetch_one p (update_where q f xs)
        ≡ elim (fetch_one p xs) [ none ↦ none | some x ↦ some (if q x then f x else x) ]
  unfolding fetch_one update_where
  fetch_one-update p q f [] keep = refl
  fetch_one-update p q f (x ∷ xs) keep = ground (arith, keep x, fetch_one-update p q f xs keep)

  pub fetch_one-append :
      (p : A → Bool) (xs : List A) (y : A)
      → fetch_one p (xs ++ y ∷ [])
        ≡ elim (fetch_one p xs) [ none ↦ (if p y then some y else none) | some x ↦ some x ]
  unfolding fetch_one
  fetch_one-append p [] y = refl
  fetch_one-append p (x ∷ xs) y = ground (arith, fetch_one-append p xs y)

  -- one row's part of a sum
  pub le-sum_of :
      (g : A → ℕ) (p : A → Bool) (xs : List A) (x : A) → fetch_one p xs ≡ some x → g x ≤ sum_of g xs
  unfolding sum_of fetch_one
  le-sum_of g p [] x h = absurd (ground arith)
  le-sum_of g p (y ∷ ys) x h = elim (Bool-cases (p y)) [
    | inl e ↦ let same : y ≡ x = ground arith in rw same (omega arith)
    | inr e ↦ omega (arith, le-sum_of g p ys x (ground arith))
  ]

module _ {ℓ} {A : Type ℓ} (p c : A → Bool) where
  narrow_none :
      (f : A → A) (xs : List A)
      → count_where p xs ≡ 0
      → (count_where (λ x. p x && c x) xs ≡ 0) × (update_where (λ x. p x && c x) f xs ≡ xs)
  unfolding count_where update_where
  narrow_none f [] h = (refl, refl)
  narrow_none f (x ∷ xs) h = elim (Bool-cases (p x)) [
    | inl e ↦ absurd (ground arith)
    | inr e ↦
        let (empty, same) = narrow_none f xs (ground arith) in (rw e (omega arith), rw (e, same))
  ]

  -- a second condition that the one row with the key meets changes nothing
  pub narrow :
      (f : A → A) (xs : List A) (x : A)
      → count_where p xs ≤ 1
      → fetch_one p xs ≡ some x
      → c x ≡ true
      → (count_where (λ y. p y && c y) xs ≡ 1)
        × (fetch_one (λ y. p y && c y) xs ≡ some x)
        × (update_where (λ y. p y && c y) f xs ≡ update_where p f xs)
  unfolding count_where fetch_one update_where
  narrow f [] x one found meets = absurd (ground arith)
  narrow f (y ∷ ys) x one found meets = elim (Bool-cases (p y)) [
    | inl e ↦
        let same : y ≡ x = ground arith in
        let rest : count_where p ys ≡ 0 = ground arith in
        let (empty, kept) = narrow_none f ys rest in
        (
          rw (e, same, meets, empty) (omega arith),
          rw (e, same, meets),
          rw (e, same, meets, kept, update_where_none p f ys rest),
        )
    | inr e ↦
        let (n, r, u) = narrow f ys x (ground arith) (ground arith) meets in
        (rw (e, n) (omega arith), rw (e, r), rw (e, u))
  ]

module _ {ℓ} {A : Type ℓ} (p : A → Bool) where
  -- a key stays unique where a row is appended that nothing matches yet
  pub count_where-append_one :
      (xs : List A) (y : A)
      → count_where p xs ≤ 1
      → (p y ≡ true → fetch_one p xs ≡ none)
      → count_where p (xs ++ y ∷ []) ≤ 1
  unfolding count_where
  count_where-append_one xs y one fresh =
      rw (count_where-append p xs (y ∷ [])) (elim (Bool-cases (p y)) [
        | inl e ↦ rw (e, count_where_of_fetch_none p xs (fresh e)) (omega arith)
        | inr e ↦ rw e (omega arith)
      ])

module _ {ℓ} {A : Type ℓ} (p q : A → Bool) (f : A → A) where
  -- an update adds at most the rows that it hits
  pub count_where-update_le :
      (xs : List A) → count_where p (update_where q f xs) ≤ count_where p xs + count_where q xs
  unfolding count_where update_where
  count_where-update_le [] = omega arith
  count_where-update_le (x ∷ xs) = ground (arith, count_where-update_le xs)

  -- an update that makes no row match adds none
  pub count_where-update_less :
      ((x : A) → p (f x) ≡ true → p x ≡ true)
      → (xs : List A) → count_where p (update_where q f xs) ≤ count_where p xs
  unfolding count_where update_where
  count_where-update_less back [] = omega arith
  count_where-update_less back (x ∷ xs) = ground (arith, back x, count_where-update_less back xs)

  -- no row matches where the update changes only rows into ones that do not match
  pub count_where-update_none :
      ((x : A) → q x ≡ true → p x ≡ false → p (f x) ≡ false)
      → (xs : List A) → count_where p xs ≡ 0
      → count_where p (update_where q f xs) ≡ 0
  unfolding count_where update_where
  count_where-update_none keep [] h = refl
  count_where-update_none keep (x ∷ xs) h = ground (arith, keep x, count_where-update_none keep xs)

module _ {ℓ} {A : Type ℓ} (p q : A → Bool) where
  pub count_where-select-le : (xs : List A) → count_where p (select q xs) ≤ count_where p xs
  unfolding select count_where
  count_where-select-le [] = omega arith
  count_where-select-le (x ∷ xs) = ground (arith, count_where-select-le xs)

  -- the one row with the key misses a condition, so that no row has both
  pub count_where_both :
      (xs : List A) (x : A)
      → count_where p xs ≤ 1
      → fetch_one p xs ≡ some x
      → q x ≡ false
      → count_where (λ y. p y && q y) xs ≡ 0
  unfolding count_where fetch_one
  count_where_both [] x one found miss = refl
  count_where_both (y ∷ ys) x one found miss = elim (Bool-cases (p y)) [
    | inl e ↦
        let same : y ≡ x = ground arith in
        let (empty, kept) = narrow_none p q (λ z. z) ys (ground arith) in
        rw (e, same, miss, empty) (omega arith)
    | inr e ↦ rw e (omega (arith, count_where_both ys x (ground arith) (ground arith) miss))
  ]

  pub count_where_mono :
      ((x : A) → p x ≡ true → q x ≡ true) → (xs : List A) → count_where p xs ≤ count_where q xs
  unfolding count_where
  count_where_mono weak [] = omega arith
  count_where_mono weak (x ∷ xs) = ground (arith, weak x, count_where_mono weak xs)

  pub count_where-update_all :
      (f : A → A)
      → ((x : A) → p (f x) ≡ false)
      → (xs : List A) → count_where p (update_where p f xs) ≡ 0
  unfolding count_where update_where
  count_where-update_all f clears [] = refl
  count_where-update_all f clears (x ∷ xs) =
      ground (arith, clears x, count_where-update_all f clears xs)

  -- no row matches where the rows that the update changes have no row that could match after it
  pub count_where-update_guarded :
      (bad : A → Bool) (f : A → A)
      → ((x : A) → bad x ≡ false → p (f x) ≡ false)
      → (xs : List A) → count_where (λ x. q x && bad x) xs ≡ 0
      → count_where p xs ≡ 0
      → count_where p (update_where q f xs) ≡ 0
  unfolding count_where update_where
  count_where-update_guarded bad f good [] b h = refl
  count_where-update_guarded bad f good (x ∷ xs) b h =
      ground (arith, good x, count_where-update_guarded bad f good xs)

module _ {ℓ} {A : Type ℓ} (p q : A → Bool) where
  pub count_where_split :
      (xs : List A)
      → count_where p xs ≡ count_where (λ x. p x && q x) xs + count_where (λ x. p x && not (q x)) xs
  unfolding count_where
  count_where_split [] = refl
  count_where_split (x ∷ xs) = ground (arith, count_where_split xs)

  -- an update of the rows with two conditions, where all with the first have the second
  pub count_where-update_both :
      (r : A → Bool) (f : A → A)
      → ((x : A) → r (f x) ≡ false)
      → ((x : A) → r x ≡ true → p x ≡ true)
      → (xs : List A) → count_where (λ x. p x && not (q x)) xs ≡ 0
      → count_where r (update_where (λ x. p x && q x) f xs) ≡ 0
  unfolding count_where update_where
  count_where-update_both r f clears own [] h = refl
  count_where-update_both r f clears own (x ∷ xs) h =
      ground (arith, clears x, own x, count_where-update_both r f clears own xs)
