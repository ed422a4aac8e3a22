-- ===== src/Proactive/Selection.antt =====
-- zero/proactive_scheduler.py: the table `proactive_followups`, with the columns that
-- `SchedulerIntelligence` reads and writes, its scores and its fair selection. A priority is compared by
-- its ASCII letters. The statuses sent, retryable_failed and permanent_failed are delivered, retryable
-- and failed here.
use zero_agent.Base.{
  ℕ, zero, suc, ◌+◌, ◌-◌, ◌*◌, ◌/◌, min, max, ℤ, Bool, true, false, ◌&&◌, ◌||◌, List, [], ◌∷◌, ◌++◌,
  Option, none, some, String, ◌==◌, string_eq, nat_eq, int_eq, if◌then◌else◌, ltb, leb, length,
  codes, codes_beq, fold_codes,
}
use zero_agent.Proactive.Outbox.{Row}

pub data Status : Type 0 where
  pending postponed evaluating retryable : Status
  delivered resolved cancelled expired failed blocked : Status

-- TERMINAL
abbrev pub is_terminal : Status → Bool
is_terminal pending = false
is_terminal postponed = false
is_terminal evaluating = false
is_terminal retryable = false
is_terminal _ = true

-- `status != 'sent'`
abbrev pub is_delivered : Status → Bool
is_delivered delivered = true
is_delivered _ = false

-- the statuses that `policy_postpone` leaves alone
abbrev pub is_fixed : Status → Bool
is_fixed blocked = false
is_fixed s = is_terminal s

pub record Followup : Type 0 where
  pub id : String
  pub chat_id : ℤ
  pub subject_user_id : ℤ
  pub created_at : ℕ
  pub due_at : ℕ
  pub priority : String
  pub status : Status
  pub postpone_count : ℕ
  pub retry_count : ℕ
  pub max_retries : ℕ
  pub deadline_at : Option ℕ
  pub next_retry_at : Option ℕ
  pub lease_until : Option ℕ
  pub worker_id : Option String
  pub claim_at : Option ℕ
  pub last_attempt_at : Option ℕ
  pub last_failure_reason : Option String
  pub terminal_reason : Option String
  pub cancel_reason : Option String
  pub resolved_at : Option ℕ
  pub parent_candidate_id : Option String
  pub version : ℕ

pub record Tables : Type 0 where
  pub followups : List Followup
  pub outbox : List Row

abbrev pub has_id : String → Followup → Bool
has_id i r = r.id == i

abbrev pub is_word : String → String → Bool
is_word s w = codes_beq (fold_codes (codes s)) (codes w)

-- PRIORITY[self.normalize_priority(value)]
unfoldable pub priority_of : String → ℕ
priority_of s =
    if is_word s "low"
    then 100
    else if is_word s "high"
    then 300
    else if is_word s "critical"
    then 400
    else 200

unfoldable pub age_boost : ℕ → ℕ → ℕ
age_boost created now = if created == 0 then 0 else min 180 ((now - created) / 86400 * 6)

unfoldable pub deadline_boost : Option ℕ → ℕ → ℕ
deadline_boost none now = 0
deadline_boost (some t) now =
    if ltb now t && leb (t - now) 86400 then max 20 (90 - (t - now) * 70 / 86400) else 0

unfoldable pub score : Followup → ℕ → ℕ
unfolding priority_of age_boost deadline_boost
score r now =
    priority_of r.priority
    + age_boost r.created_at now
    + min 60 (r.postpone_count * 6)
    + deadline_boost r.deadline_at now

unfoldable pub codes_ltb : List ℕ → List ℕ → Bool
codes_ltb [] [] = false
codes_ltb [] (y ∷ ys) = true
codes_ltb (x ∷ xs) [] = false
codes_ltb (x ∷ xs) (y ∷ ys) = let rest = codes_ltb xs ys in ltb x y || x == y && rest

-- ORDER BY due_at,created_at,id
unfoldable pub is_earlier : Followup → Followup → Bool
unfolding codes_ltb
is_earlier r s =
    ltb r.due_at s.due_at
    || r.due_at == s.due_at
      && (ltb r.created_at s.created_at
          || r.created_at == s.created_at && codes_ltb (codes r.id) (codes s.id))

-- the key of the sorts in `_fair_select`
unfoldable pub is_before : ℕ → Followup → Followup → Bool
unfolding score is_earlier
is_before now r s = ltb (score s now) (score r now) || score r now == score s now && is_earlier r s

module _ {A : Type 0} (before : A → A → Bool) where
  unfoldable pub insert : A → List A → List A
  insert x [] = x ∷ []
  insert x (y ∷ ys) = let rest = insert x ys in if before y x then y ∷ rest else x ∷ y ∷ ys

  unfoldable pub sort : List A → List A
  unfolding insert
  sort [] = []
  sort (x ∷ xs) = insert x (sort xs)

abbrev pub is_same_scope : Followup → List Followup → Bool
is_same_scope r [] = false
is_same_scope r (s ∷ q) = r.chat_id == s.chat_id && r.subject_user_id == s.subject_user_id

-- queues[(chat_id, subject_user_id)].append(row)
unfoldable pub append_to : Followup → List (List Followup) → List (List Followup)
append_to r [] = (r ∷ []) ∷ []
append_to r (q ∷ qs) =
    let rest = append_to r qs in if is_same_scope r q then (q ++ r ∷ []) ∷ qs else q ∷ rest

unfoldable pub queues_of : List Followup → List (List Followup) → List (List Followup)
unfolding append_to
queues_of [] qs = qs
queues_of (r ∷ rs) qs = queues_of rs (append_to r qs)

-- the key of a scope is that of its first row; ids differ, so that the scope itself never decides
abbrev pub is_before_queue : ℕ → List Followup → List Followup → Bool
is_before_queue now (r ∷ q) (s ∷ p) = is_before now r s
is_before_queue now _ _ = false

unfoldable pub sort_each : ℕ → List (List Followup) → List (List Followup)
unfolding sort
sort_each now [] = []
sort_each now (q ∷ qs) = sort (is_before now) q ∷ sort_each now qs

abbrev pub keep_queue : List Followup → List (List Followup) → List (List Followup)
keep_queue [] qs = qs
keep_queue (r ∷ q) qs = (r ∷ q) ∷ qs

-- one round: the first row of every queue, while rows are left to select
unfoldable pub pop_heads : ℕ → List (List Followup) → List Followup × List (List Followup)
pop_heads zero qs = ([], qs)
pop_heads (suc n) [] = ([], [])
pop_heads (suc n) ([] ∷ qs) = pop_heads (suc n) qs
pop_heads (suc n) ((r ∷ q) ∷ qs) = let rest = pop_heads n qs in (r ∷ rest.0, keep_queue q rest.1)

-- the rounds, on fuel
unfoldable pub rounds : ℕ → ℕ → ℕ → List (List Followup) → List Followup
unfolding pop_heads sort
rounds zero now limit qs = []
rounds (suc fuel) now zero qs = []
rounds (suc fuel) now (suc n) [] = []
rounds (suc fuel) now (suc n) (q ∷ qs) =
    let round = pop_heads (suc n) (sort (is_before_queue now) (q ∷ qs)) in
    round.0 ++ rounds fuel now (suc n - length round.0) round.1

unfoldable pub fair_select : List Followup → ℕ → ℕ → List Followup
unfolding rounds queues_of sort_each
fair_select rows limit now = rounds limit now limit (sort_each now (queues_of rows []))
