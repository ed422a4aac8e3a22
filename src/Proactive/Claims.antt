-- ===== src/Proactive/Claims.antt =====
-- zero/proactive_scheduler.py, `claim_due`: a follow-up is given to one worker at a time.
use zero_agent.Base.{
  ℕ, ◌+◌, ◌≤◌, ◌≡◌, refl, Bool, false, not, ◌&&◌, List, [], ◌∷◌, String, string_eq, leb, All,
  count_where, update_where, count_where-update_none, arith, Bool-cases, inl, inr,
  count_where-update, count_where-update_both, count_where_split,
}
use zero_agent.Proactive.Selection.{Followup, Tables, has_id}
use zero_agent.Proactive.Scheduler.{
  is_claimable, claimed_row, claim_each, is_overdue, expire_row, chosen_of, expire_due, claim_due,
}

module _ (worker : String) (now later : ℕ) (soon : later ≤ now + 900) where
  abbrev is_open : String → Followup → Bool
  is_open i r = has_id i r && is_claimable later r

  claimed_row-is_open : (i : String) (r : Followup) → is_open i (claimed_row worker now r) ≡ false
  claimed_row-is_open i r = ground (arith, soon)

  claim_each-closed :
      (i : String) (rs rows : List Followup)
      → count_where (is_open i) rows ≡ 0
      → count_where (is_open i) (claim_each worker now rs rows).1 ≡ 0
  unfolding claim_each
  claim_each-closed i [] rows h = h
  claim_each-closed i (r ∷ rs) rows h =
      claim_each-closed i rs
        (update_where (λ x. has_id r.id x && is_claimable now x) (claimed_row worker now) rows)
        (count_where-update_none (is_open i) (λ x. has_id r.id x && is_claimable now x)
          (claimed_row worker now) (λ x own off. claimed_row-is_open i x) rows h)

  claim_each-All :
      (rs rows : List Followup)
      → ((i : String) → count_where (has_id i) rows ≤ 1)
      → All
          (λ r. count_where (is_open r.id) (claim_each worker now rs rows).1 ≡ 0)
          (claim_each worker now rs rows).0
  unfolding claim_each
  claim_each-All [] rows one = tt
  claim_each-All (r ∷ rs) rows one =
      let own : Followup → Bool = λ x. has_id r.id x && is_claimable now x in
      let next = update_where own (claimed_row worker now) rows in
      let rest = claim_each-All rs next (λ i.
        rw (count_where-update (has_id i) own (claimed_row worker now) rows (λ x. refl)) (one i)) in
      elim (Bool-cases (leb 1 (count_where own rows))) [
        | inr e ↦ rw (e, All) rest
        | inl e ↦
            let apart : count_where (λ x. has_id r.id x && not (is_claimable now x)) rows ≡ 0 =
              ground
                (arith, e, one r.id, count_where_split (has_id r.id) (is_claimable now) rows) in
            let closed =
              count_where-update_both (has_id r.id) (is_claimable now) (is_open r.id)
                (claimed_row worker now) (λ x. claimed_row-is_open r.id x)
                (λ x open_now. ground (arith, open_now)) rows apart in
            rw (e, All) (claim_each-closed r.id rs next closed, rest)
      ]

  -- What `claim_due` gives to a worker it gives to no other one for the next 900 seconds: until then no
  -- claim can take a row with the id of one of these rows, where ids are unique.
  pub claim_due-closed :
      (limit : ℕ) (t : Tables)
      → ((i : String) → count_where (has_id i) t.followups ≤ 1)
      → All
          (λ r.
            count_where
              (λ x. has_id r.id x && is_claimable later x)
              (claim_due worker limit now t).1.followups
            ≡ 0)
          (claim_due worker limit now t).0
  unfolding claim_due expire_due
  claim_due-closed limit t one =
      claim_each-All (chosen_of limit now (expire_due now t).followups) (expire_due now t).followups
        (λ i.
          rw (count_where-update (has_id i) (is_overdue now) expire_row t.followups (λ x. refl))
            (one i))
