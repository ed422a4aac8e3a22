-- ===== src/Office/Slots.antt =====
-- `claim_next` keeps within the worker's concurrency limits.
use zero_agent.Base.{
  count_where-update_le, ℕ, ◌+◌, ◌≤◌, ◌<◌, ◌≡◌, refl, Bool, true, ◌&&◌, List, some, String, ◌==◌,
  string_eq, int_eq, nat_eq, fetch_one, update_where, count_where, arith, Bool-cases, inl, inr,
  Option-cases, leb, str_eq_iff, fetch_one_sound, [], ◌∷◌, All, All-imp, All-take, All-select,
  All-fetch_one, select, ltb→lt, count_where_of_fetch_one, fetch_one-update, nat_beq_iff,
}
use zero_agent.Office.Model.{queued, Job, Db, is_queued, has_id}
use zero_agent.Office.Lease.{
  insert_sorted, is_before, sort_jobs, is_leased, is_leased_by, claimed, claim_row, has_room,
  queue_of, claim_next,
}
use zero_agent.Office.Ledger.{Unique}

-- under unique ids a row is what its id finds
All-own : (jobs : List Job) → Unique jobs → All (λ k. fetch_one (has_id k.id) jobs ≡ some k) jobs
unfolding fetch_one count_where
All-own [] u = tt
All-own (x ∷ xs) u =
    let self : (x.id == x.id) ≡ true = (str_eq_iff x.id x.id).1 refl in
    (
      rw self,
      All-imp (λ k. fetch_one (has_id k.id) xs ≡ some k)
          (λ k. fetch_one (has_id k.id) (x ∷ xs) ≡ some k) xs
          (λ k own. elim (Bool-cases (x.id == k.id)) [
            | inl twin ↦ absurd (
                omega (
                  arith,
                  let two : count_where (has_id k.id) (x ∷ xs) ≡ 1 + count_where (has_id k.id) xs =
                        rw twin in
                      two,
                  u k.id,
                  count_where_of_fetch_one (has_id k.id) xs k own,
                ))
            | inr apart ↦ rw apart own
          ])
          (All-own xs (λ i. ground (arith, u i))),
    )

module _ {ℓ} (P : Job → Type ℓ) where
  All-insert_sorted : (j : Job) (js : List Job) → P j → All P js → All P (insert_sorted j js)
  unfolding insert_sorted
  All-insert_sorted j [] p h = (p, h)
  All-insert_sorted j (k ∷ ks) p h = elim (Bool-cases (is_before j k)) [
    | inl first ↦ rw (first, insert_sorted) (p, h)
    | inr later ↦ rw (later, insert_sorted) (h.0, All-insert_sorted j ks p h.1)
  ]

  All-sort_jobs : (js : List Job) → All P js → All P (sort_jobs js)
  unfolding sort_jobs
  All-sort_jobs [] h = h
  All-sort_jobs (j ∷ js) h = All-insert_sorted j (sort_jobs js) h.0 (All-sort_jobs js h.1)

select_sound : (p : Job → Bool) (js : List Job) → All (λ k. p k ≡ true) (select p js)
unfolding select
select_sound p [] = tt
select_sound p (j ∷ js) = elim (Bool-cases (p j)) [
  | inl hit ↦ rw hit (hit, select_sound p js)
  | inr miss ↦ rw miss (select_sound p js)
]

-- what `claim_next` may take
record Candidate (now per_user : ℕ) (db : Db) (k : Job) : Type 0 where
  pub stored : fetch_one (has_id k.id) db.jobs ≡ some k
  pub waiting : is_queued k.status ≡ true
  pub room : count_where (is_leased_by now k.owner.user_id) db.jobs < per_user

next-Candidate :
    (now per_user : ℕ) (db : Db) (k : Job)
    → Unique db.jobs
    → fetch_one (has_room now per_user db.jobs) (queue_of db.jobs) ≡ some k
    → Candidate now per_user db k
next-Candidate now per_user db k u next =
    let waiting = λ (j : Job). is_queued j.status in
    let own = λ (j : Job). fetch_one (has_id j.id) db.jobs ≡ some j in
    record {
      stored =
          All-fetch_one own (has_room now per_user db.jobs) (queue_of db.jobs) k
            (All-take own 100 (sort_jobs (select waiting db.jobs)) (
              All-sort_jobs own (select waiting db.jobs)
                (All-select own waiting db.jobs (All-own db.jobs u))))
            next;
      waiting =
          All-fetch_one (λ j. waiting j ≡ true) (has_room now per_user db.jobs) (queue_of db.jobs) k
            (All-take (λ j. waiting j ≡ true) 100 (sort_jobs (select waiting db.jobs))
              (All-sort_jobs (λ j. waiting j ≡ true) (select waiting db.jobs)
                (select_sound waiting db.jobs)))
            next;
      room = ltb→lt _ _ (fetch_one_sound (has_room now per_user db.jobs) (queue_of db.jobs) k next);
    }

claim_row-limits :
    (w : String) (lease global per_user now : ℕ) (db : Db) (k j : Job)
    → Unique db.jobs
    → Candidate now per_user db k
    → count_where (is_leased now) db.jobs < global
    → (claim_row is_queued queued "job_claimed" w w lease now k db).0 ≡ some j
    → ((c : Job) × (fetch_one (has_id c.id) db.jobs ≡ some c)
        × (is_queued c.status ≡ true)
        × (j ≡ claimed w lease now c))
      × (count_where
            (is_leased now)
            (claim_row is_queued queued "job_claimed" w w lease now k db).1.jobs
          ≤ global)
      × (count_where
            (is_leased_by now j.owner.user_id)
            (claim_row is_queued queued "job_claimed" w w lease now k db).1.jobs
          ≤ per_user)
unfolding claim_row
claim_row-limits w lease global per_user now db k j u c below h =
    let hit = λ (x : Job). has_id k.id x && is_queued x.status in
    let new = claimed w lease now in
    elim (Bool-cases (count_where hit db.jobs == 1)) [
      | inr none_hit ↦ absurd (ground (arith, none_hit))
      | inl one_hit ↦
          let read = fetch_one-update (has_id k.id) hit new db.jobs (λ x. refl) in
          let self : has_id k.id k ≡ true = (str_eq_iff k.id k.id).1 refl in
          let back : fetch_one (has_id k.id) (update_where hit new db.jobs) ≡ some (new k) =
            rw (read, c.stored, self, c.waiting) in
          let got : fetch_one (has_id k.id) (update_where hit new db.jobs) ≡ some j =
            rw one_hit at h in
          let taken : j ≡ new k = cc in
          rw one_hit (
            (k, c.stored, c.waiting, taken),
            omega (
              arith,
              count_where-update_le (is_leased now) hit new db.jobs,
              (nat_beq_iff _ _).0 one_hit,
            ),
            rw taken (
                omega (
                  arith,
                  c.room,
                  count_where-update_le (is_leased_by now k.owner.user_id) hit new db.jobs,
                  (nat_beq_iff _ _).0 one_hit,
                )),
          )
    ]

-- A claim takes a queued job, moves it to `planning` under the worker's lease, and keeps the number
-- of leased jobs within the global limit and that of the job's user within the limit per user.
pub claim_next-within_limits :
    (w : String) (lease global per_user now : ℕ) (db : Db) (j : Job)
    → Unique db.jobs
    → (claim_next w lease global per_user now db).0 ≡ some j
    → ((k : Job) × (fetch_one (has_id k.id) db.jobs ≡ some k)
        × (is_queued k.status ≡ true)
        × (j ≡ claimed w lease now k))
      × (count_where (is_leased now) (claim_next w lease global per_user now db).1.jobs ≤ global)
      × (count_where
            (is_leased_by now j.owner.user_id)
            (claim_next w lease global per_user now db).1.jobs
          ≤ per_user)
unfolding claim_next
claim_next-within_limits w lease global per_user now db j u h =
    elim (Bool-cases (leb global (count_where (is_leased now) db.jobs))) [
      | inl full ↦ absurd (ground (arith, full))
      | inr free ↦
          elim (Option-cases (fetch_one (has_room now per_user db.jobs) (queue_of db.jobs))) [
            | inl idle ↦ absurd (ground (arith, free, idle))
            | inr (k, next) ↦
                rw (free, next)
                  (claim_row-limits w lease global per_user now db k j u
                    (next-Candidate now per_user db k u next) (ground arith)
                    (ground (arith, free, next)))
          ]
    ]
