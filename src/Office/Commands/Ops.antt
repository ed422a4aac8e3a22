-- ===== src/Office/Commands/Ops.antt =====
-- What `Sound` says, for each operation that writes to a job.
use zero_agent.Base.{
  not, ℕ, ◌≡◌, refl, sym, ap, ◌∙◌, Bool, true, false, ◌&&◌, List, [], ◌∷◌, ◌++◌, Option, some,
  String, ◌==◌, string_eq, ok, ◌>>=◌, >>=-eq-ok, if◌then◌else◌, fetch_one, count_where, leb, nat_eq,
  update_where, arith, Bool-cases, inl, inr, Option-cases, ltb, str_eq_iff,
}
use zero_agent.Tenancy.Ids.{owner_fault}
use zero_agent.Office.Model.{
  Status, QuotaState, committed, refunded, Job, Usage, Db, is_terminal, is_held, queued, is_queued,
  has_id,
}
use zero_agent.Office.Transitions.{Note, is_allowed, is_expected, moved, move_job, transition}
use zero_agent.Office.Quota.{
  is_format, NewJob, reserve_usage, update_checked, is_owner, is_reserved_owner, can_release,
  settled, released, same_message, admit_job, insert_job, created_job, reserve_and_create,
  with_quota, settle_quota, finish_quota, commit_held, commit_quota_locked,
}
use zero_agent.Office.Lease.{is_leased, has_room, queue_of, claimed, claim_row, claim_next}
use zero_agent.Office.Commands.Sound.{Sound, Sound-refl, Sound-append, Sound-update, Sound-quiet}

-- no entry of TRANSITIONS leaves a terminal status
terminal_stuck : (from to : Status) → is_terminal from ≡ true → is_allowed from to ≡ false
unfolding is_allowed
terminal_stuck from to h = ground arith

move_job-Sound :
    (i : String) (to : Status) (note : Note) (now : ℕ) (j : Job) (db : Db) (s : Bool × Db)
    → fetch_one (has_id i) db.jobs ≡ some j
    → move_job i to note now j db ≡ ok s
    → Sound db.jobs s.1.jobs
unfolding move_job
move_job-Sound i to note now j db s found h = elim (Bool-cases (is_allowed j.status to)) [
  | inr no_edge ↦ absurd (ground (arith, no_edge))
  | inl edge ↦
      let done : s.1.jobs ≡ update_where (has_id i) (moved to note now) db.jobs =
        ground (arith, edge) in
      rw done (
        Sound-update (has_id i) (moved to note now) db.jobs (λ k. refl)
          (λ k hit t own.
            let id : k.id ≡ i = (str_eq_iff k.id i).0 hit in
            let same : some j ≡ some k =
              sym found ∙ (ap (λ x. fetch_one (has_id x) db.jobs) (sym id) ∙ own) in
            absurd (ground (arith, terminal_stuck k.status to t))))
]

pub transition-Sound :
    (i : String) (to : Status) (e : Option Status) (note : Note) (now : ℕ) (db : Db) (s : Bool × Db)
    → transition i to e note now db ≡ ok s
    → Sound db.jobs s.1.jobs
unfolding transition
transition-Sound i to e note now db s h = elim (Option-cases (fetch_one (has_id i) db.jobs)) [
  | inl missing ↦ absurd (ground (arith, missing))
  | inr (j, found) ↦ elim (Bool-cases (is_expected e j.status)) [
    | inl expected ↦ move_job-Sound i to note now j db s found (ground (arith, found, expected))
    | inr other ↦
        let same : db ≡ s.1 = ground (arith, found, other) in rw (← same) (Sound-refl db.jobs)
  ]
]

insert_job-Sound :
    (r : NewJob) (now : ℕ) (usage : List Usage) (db : Db) (s : Job × Db)
    → insert_job r now usage db ≡ ok s
    → Sound db.jobs s.1.jobs
unfolding insert_job created_job
insert_job-Sound r now usage db s h = elim (Bool-cases (not (is_format r.office_format))) [
  | inl other ↦ absurd (ground (arith, (rw other at h)))
  | inr good ↦
      let inserted = rw good at h in
      elim (Option-cases (fetch_one (has_id r.job_id) db.jobs)) [
        | inr (j, taken) ↦ absurd (ground (arith, taken, inserted))
        | inl missing ↦
            let done : s.1.jobs ≡ db.jobs ++ created_job r now ∷ [] =
              ground (arith, missing, inserted) in
            rw done (Sound-append db.jobs (created_job r now) missing)
      ]
]

pub create-Sound :
    (r : NewJob) (now : ℕ) (db : Db) (s : Job × Db)
    → reserve_and_create r now db ≡ ok s
    → Sound db.jobs s.1.jobs
unfolding reserve_and_create admit_job
create-Sound r now db s h =
    let reservation = if r.unlimited_user then ok db.usage else reserve_usage r now db.usage in
    elim (Option-cases (owner_fault r.owner.installation_id r.owner.group_id)) [
      | inr (e, fault) ↦ absurd (ground (arith, fault))
      | inl sound ↦ elim (Bool-cases (ltb r.max_characters r.extracted_characters)) [
        | inl long ↦ absurd (ground (arith, sound, long))
        | inr short ↦
            elim (Option-cases
              (fetch_one (same_message r.account_scope r.chat_id r.message_id) db.jobs)) [
                | inr (j, twice) ↦
                    let same : db ≡ s.1 = ground (arith, sound, short, twice) in
                    rw (← same) (Sound-refl db.jobs)
                | inl fresh ↦
                    let admitted : (reservation >>= λ usage. insert_job r now usage db) ≡ ok s =
                      ground (arith, sound, short, fresh) in
                    let (usage, reserved, inserted) = >>=-eq-ok reservation _ admitted in
                    insert_job-Sound r now usage db s inserted
              ]
      ]
    ]

-- a change of a job's quota is no change of its status
quota-Sound :
    (i : String) (st : QuotaState) (now : ℕ) (jobs : List Job)
    → Sound jobs (update_where (has_id i) (with_quota st now) jobs)
quota-Sound i st now jobs = Sound-quiet (has_id i) (with_quota st now) jobs (λ k. refl) (λ k. refl)

settle_quota-Sound :
    (commit : Bool) (reason : String) (now : ℕ) (j : Job) (db : Db) (s : Bool × Db)
    → settle_quota commit reason now j db ≡ ok s
    → Sound db.jobs s.1.jobs
unfolding settle_quota
settle_quota-Sound commit reason now j db s h =
    let chars = j.extracted_characters in
    let g = if commit then settled chars now else released chars now in
    let (usage, charged, last) =
      >>=-eq-ok (update_checked (is_owner j.owner) (can_release chars) g db.usage) _ h in
    let st = if commit then committed else refunded in
    let done : s.1.jobs ≡ update_where (has_id j.id) (with_quota st now) db.jobs = ground arith in
    rw done (quota-Sound j.id st now db.jobs)

pub settle-Sound :
    (i : String) (commit : Bool) (reason : String) (now : ℕ) (db : Db) (s : Bool × Db)
    → finish_quota i commit reason now db ≡ ok s
    → Sound db.jobs s.1.jobs
unfolding finish_quota
settle-Sound i commit reason now db s h = elim (Option-cases (fetch_one (has_id i) db.jobs)) [
  | inl missing ↦ let same : db ≡ s.1 = ground (arith, missing) in rw (← same) (Sound-refl db.jobs)
  | inr (j, found) ↦ elim (Bool-cases (is_held j.quota_state)) [
    | inr free ↦
        let same : db ≡ s.1 = ground (arith, found, free) in rw (← same) (Sound-refl db.jobs)
    | inl held ↦ settle_quota-Sound commit reason now j db s (ground (arith, found, held))
  ]
]

commit_held-Sound :
    (now : ℕ) (j : Job) (db : Db) (s : Bool × Db)
    → commit_held j now db ≡ ok s
    → Sound db.jobs s.1.jobs
unfolding commit_held
commit_held-Sound now j db s h =
    let chars = j.extracted_characters in
    let (usage, charged, last) =
      >>=-eq-ok
        (update_checked (is_reserved_owner j.owner) (can_release chars) (settled chars now)
          db.usage)
        _ h in
    let done : s.1.jobs ≡ update_where (has_id j.id) (with_quota committed now) db.jobs =
      ground arith in
    rw done (quota-Sound j.id committed now db.jobs)

pub commit-Sound :
    (i : String) (now : ℕ) (db : Db) (s : Bool × Db)
    → commit_quota_locked i now db ≡ ok s
    → Sound db.jobs s.1.jobs
unfolding commit_quota_locked
commit-Sound i now db s h = elim (Option-cases (fetch_one (has_id i) db.jobs)) [
  | inl missing ↦ let same : db ≡ s.1 = ground (arith, missing) in rw (← same) (Sound-refl db.jobs)
  | inr (j, found) ↦ elim (Bool-cases (is_held j.quota_state)) [
    | inr free ↦
        let same : db ≡ s.1 = ground (arith, found, free) in rw (← same) (Sound-refl db.jobs)
    | inl held ↦ commit_held-Sound now j db s (ground (arith, found, held))
  ]
]

-- a claim takes no terminal job, since its UPDATE asks for the status again
pub claim_row-Sound :
    (ready : Status → Bool) (from : Status) (event worker owner : String) (lease now : ℕ) (j : Job)
    (db : Db)
    → ((st : Status) → is_terminal st ≡ true → ready st ≡ false)
    → Sound db.jobs (claim_row ready from event worker owner lease now j db).1.jobs
unfolding claim_row
claim_row-Sound ready from event worker owner lease now j db apart =
    let hit = λ (k : Job). has_id j.id k && ready k.status in
    elim (Bool-cases (count_where hit db.jobs == 1)) [
      | inr none_hit ↦ rw none_hit (Sound-refl db.jobs)
      | inl one_hit ↦ rw one_hit (
          Sound-update hit (claimed owner lease now) db.jobs (λ k. refl)
            (λ k h t own. absurd (ground (arith, apart k.status t))))
    ]

pub claim-Sound :
    (w : String) (lease global user now : ℕ) (db : Db)
    → Sound db.jobs (claim_next w lease global user now db).1.jobs
unfolding claim_next
claim-Sound w lease global user now db =
    elim (Bool-cases (leb global (count_where (is_leased now) db.jobs))) [
      | inl full ↦ rw full (Sound-refl db.jobs)
      | inr room ↦ elim (Option-cases (fetch_one (has_room now user db.jobs) (queue_of db.jobs))) [
        | inl idle ↦ rw (room, idle) (Sound-refl db.jobs)
        | inr (j, next) ↦
            rw (room, next)
              (claim_row-Sound is_queued queued "job_claimed" w w lease now j db
                (λ st t. ground arith))
      ]
    ]
