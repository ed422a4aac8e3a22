-- ===== src/Proactive/Fairness.antt =====
-- zero/proactive_scheduler.py: the scores, and the rounds of `_fair_select`.
use zero_agent.Base.{
  ℕ, zero, suc, ◌+◌, ◌-◌, min, ◌≤◌, ◌≡◌, refl, ◌∙◌, Bool, true, List, [], ◌∷◌, Option, none, some,
  String, if◌then◌else◌, leb, nat_eq, length, count_where, count_where-append, length-append, arith,
  Bool-cases, inl, inr, sum_of,
}
use zero_agent.Proactive.Selection.{
  Followup, priority_of, age_boost, deadline_boost, score, insert, sort, is_same_scope, append_to,
  queues_of, is_before, is_before_queue, sort_each, keep_queue, pop_heads, rounds, fair_select,
}

priority_of-le : (s : String) → (100 ≤ priority_of s) × (priority_of s ≤ 400)
unfolding priority_of
priority_of-le s = ground arith

age_boost-le : (created now : ℕ) → age_boost created now ≤ 180
unfolding age_boost
age_boost-le created now = ground arith

deadline_boost-le : (d : Option ℕ) (now : ℕ) → deadline_boost d now ≤ 90
unfolding deadline_boost
deadline_boost-le none now = omega arith
deadline_boost-le (some t) now = ground arith

-- Every score lies between that of a fresh follow-up of low priority and that of a critical one with
-- all the boosts: waiting, postponing and a near deadline together never count more than 330.
pub score-bounds :
    (r : Followup) (now : ℕ) → (100 ≤ score r now) × (score r now ≤ priority_of r.priority + 330)
unfolding score
score-bounds r now =
    let low = (priority_of-le r.priority).0 in
    let age = age_boost-le r.created_at now in
    let deadline = deadline_boost-le r.deadline_at now in
    (omega (arith, low), omega (arith, age, deadline))

module _ (p : Followup → Bool) where
  abbrev held : List (List Followup) → ℕ
  held qs = sum_of (count_where p) qs

  sum-insert :
      (before : List Followup → List Followup → Bool) (q : List Followup)
      (qs : List (List Followup))
      → held (insert before q qs) ≡ count_where p q + held qs
  unfolding insert sum_of
  sum-insert before q [] = refl
  sum-insert before q (x ∷ xs) = elim (Bool-cases (before x q)) [
    | inl e ↦ rw (e, insert) (omega (arith, sum-insert before q xs))
    | inr e ↦ rw (e, insert) refl
  ]

  sum-sort :
      (before : List Followup → List Followup → Bool) (qs : List (List Followup))
      → held (sort before qs) ≡ held qs
  unfolding sort sum_of
  sum-sort before [] = refl
  sum-sort before (q ∷ qs) =
      sum-insert before q (sort before qs) ∙ omega (arith, sum-sort before qs)

  count-insert :
      (before : Followup → Followup → Bool) (r : Followup) (rs : List Followup)
      → count_where p (insert before r rs) ≡ (if p r then 1 else 0) + count_where p rs
  unfolding insert count_where
  count-insert before r [] = refl
  count-insert before r (x ∷ xs) = elim (Bool-cases (before x r)) [
    | inl e ↦ rw (e, insert) (omega (arith, count-insert before r xs))
    | inr e ↦ rw (e, insert) refl
  ]

  count-sort :
      (before : Followup → Followup → Bool) (rs : List Followup)
      → count_where p (sort before rs) ≡ count_where p rs
  unfolding sort count_where
  count-sort before [] = refl
  count-sort before (r ∷ rs) =
      count-insert before r (sort before rs) ∙ omega (arith, count-sort before rs)

  sum-sort_each : (now : ℕ) (qs : List (List Followup)) → held (sort_each now qs) ≡ held qs
  unfolding sort_each sum_of
  sum-sort_each now [] = refl
  sum-sort_each now (q ∷ qs) = omega (arith, count-sort (is_before now) q, sum-sort_each now qs)

  sum-append_to :
      (r : Followup) (qs : List (List Followup))
      → held (append_to r qs) ≡ (if p r then 1 else 0) + held qs
  unfolding append_to sum_of count_where
  sum-append_to r [] = omega arith
  sum-append_to r (q ∷ qs) = elim (Bool-cases (is_same_scope r q)) [
    | inl e ↦ rw (e, append_to) (omega (arith, count_where-append p q (r ∷ [])))
    | inr e ↦ rw (e, append_to) (omega (arith, sum-append_to r qs))
  ]

  sum-queues_of :
      (rs : List Followup) (qs : List (List Followup))
      → held (queues_of rs qs) ≡ count_where p rs + held qs
  unfolding queues_of count_where
  sum-queues_of [] qs = omega arith
  sum-queues_of (r ∷ rs) qs = sum-queues_of rs (append_to r qs) ∙ omega (arith, sum-append_to r qs)

  sum-keep_queue :
      (q : List Followup) (qs : List (List Followup))
      → held (keep_queue q qs) ≡ count_where p q + held qs
  unfolding sum_of count_where
  sum-keep_queue [] qs = omega arith
  sum-keep_queue (r ∷ q) qs = omega arith

  sum-pop_heads :
      (n : ℕ) (qs : List (List Followup))
      → count_where p (pop_heads n qs).0 + held (pop_heads n qs).1 ≡ held qs
  unfolding pop_heads sum_of count_where
  sum-pop_heads zero qs = omega arith
  sum-pop_heads (suc n) [] = omega arith
  sum-pop_heads (suc n) ([] ∷ qs) = omega (arith, sum-pop_heads (suc n) qs)
  sum-pop_heads (suc n) ((r ∷ q) ∷ qs) =
      omega (arith, sum-keep_queue q (pop_heads n qs).1, sum-pop_heads n qs)

  -- what the rounds select is among the rows, and no row is selected twice
  rounds_among :
      (fuel now limit : ℕ) (qs : List (List Followup))
      → count_where p (rounds fuel now limit qs) ≤ held qs
  unfolding rounds count_where
  rounds_among zero now limit qs = omega arith
  rounds_among (suc fuel) now zero qs = omega arith
  rounds_among (suc fuel) now (suc n) [] = omega arith
  rounds_among (suc fuel) now (suc n) (q ∷ qs) =
      let sorted = sort (is_before_queue now) (q ∷ qs) in
      let round = pop_heads (suc n) sorted in
      let rest = rounds fuel now (suc n - length round.0) round.1 in
      omega (
        arith,
        count_where-append p round.0 rest,
        rounds_among fuel now (suc n - length round.0) round.1,
        sum-pop_heads (suc n) sorted,
        sum-sort (is_before_queue now) (q ∷ qs),
      )

  held-rows :
      (rows : List Followup) (now : ℕ)
      → held (sort_each now (queues_of rows [])) ≡ count_where p rows
  unfolding sum_of
  held-rows rows now = sum-sort_each now (queues_of rows []) ∙ omega (arith, sum-queues_of rows [])

length_count : (xs : List Followup) → length xs ≡ count_where (λ _. true) xs
unfolding count_where
length_count [] = refl
length_count (x ∷ xs) = omega (arith, length_count xs)

length-pop_heads-le : (n : ℕ) (qs : List (List Followup)) → length (pop_heads n qs).0 ≤ n
unfolding pop_heads
length-pop_heads-le zero qs = omega arith
length-pop_heads-le (suc n) [] = omega arith
length-pop_heads-le (suc n) ([] ∷ qs) = length-pop_heads-le (suc n) qs
length-pop_heads-le (suc n) ((r ∷ q) ∷ qs) = omega (arith, length-pop_heads-le n qs)

-- a round selects something while anything is left
length-pop_heads_some :
    (n : ℕ) (qs : List (List Followup))
    → 1 ≤ held (λ _. true) qs
    → 1 ≤ length (pop_heads (suc n) qs).0
unfolding pop_heads sum_of count_where
length-pop_heads_some n [] h = h
length-pop_heads_some n ([] ∷ qs) h = length-pop_heads_some n qs (omega (arith, h))
length-pop_heads_some n ((r ∷ q) ∷ qs) h = omega arith

length-rounds :
    (fuel now limit : ℕ) (qs : List (List Followup))
    → limit ≤ fuel
    → length (rounds fuel now limit qs) ≡ min limit (held (λ _. true) qs)
unfolding rounds sum_of
length-rounds zero now limit qs h = omega (arith, h)
length-rounds (suc fuel) now zero qs h = omega arith
length-rounds (suc fuel) now (suc n) [] h = omega arith
length-rounds (suc fuel) now (suc n) (q ∷ qs) h =
    let sorted = sort (is_before_queue now) (q ∷ qs) in
    let round = pop_heads (suc n) sorted in
    let left = suc n - length round.0 in
    let rest = rounds fuel now left round.1 in
    let whole = sum-sort (λ _. true) (is_before_queue now) (q ∷ qs) in
    let parts = sum-pop_heads (λ _. true) (suc n) sorted in
    let counted = length_count round.0 in
    let both = length-append round.0 rest in
    let most = length-pop_heads-le (suc n) sorted in
    elim (Bool-cases (leb 1 (held (λ _. true) sorted))) [
      | inl some_left ↦
          let one = length-pop_heads_some n sorted (ground (arith, some_left)) in
          let more = length-rounds fuel now left round.1 (omega (arith, one, h)) in
          omega (arith, whole, parts, counted, both, most, one, more)
      | inr none_left ↦
          let few = rounds_among (λ _. true) fuel now left round.1 in
          let zero_left : held (λ _. true) sorted ≡ 0 = ground (arith, none_left) in
          omega (arith, whole, parts, counted, both, few, zero_left, length_count rest)
    ]

-- The rounds of `_fair_select` end with as many rows as the limit allows, or all of them where there
-- are fewer.
pub length-fair_select :
    (rows : List Followup) (limit now : ℕ)
    → length (fair_select rows limit now) ≡ min limit (length rows)
unfolding fair_select
length-fair_select rows limit now =
    length-rounds limit now limit (sort_each now (queues_of rows [])) (omega arith)
    ∙ omega (arith, held-rows (λ _. true) rows now, length_count rows)

-- `_fair_select` invents no row and selects none twice: of the rows with any property it selects at
-- most as many as there are.
pub fair_select-among :
    (p : Followup → Bool) (rows : List Followup) (limit now : ℕ)
    → count_where p (fair_select rows limit now) ≤ count_where p rows
unfolding fair_select
fair_select-among p rows limit now = omega (
  arith,
  rounds_among p limit now limit (sort_each now (queues_of rows [])),
  held-rows p rows now,
)
