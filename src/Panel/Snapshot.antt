-- ===== src/Panel/Snapshot.antt =====
-- zero/panel_cache.py: `SharedSnapshot`. Its tasks are numbered; a task that is not done is in the list
-- `running`, or in `stopping` once it is cancelled: it ends at a later step of the event loop. What the producer returns is an argument of the step that ends its task.
use zero_agent.Base.{
  ℕ, ◌+◌, ◌-◌, ◌≡◌, Bool, true, false, not, ◌||◌, List, [], ◌∷◌, Option, none, some, ◌==◌, nat_eq,
  if◌then◌else◌, ltb, leb, select, count_where,
}

pub record Snapshot (V : Type 0) : Type 0 where
  pub value : Option (V × ℕ)
  pub refresh : Option ℕ
  pub running : List ℕ
  pub stopping : List ℕ
  pub next_task : ℕ

abbrev pub new_snapshot : {V : Type 0} → Snapshot V
new_snapshot = record { value = none; refresh = none; running = []; stopping = []; next_task = 0 }

unfoldable pub is_running : ℕ → List ℕ → Bool
is_running i tasks = leb 1 (count_where (λ j. j == i) tasks)

-- `not task.done()`
abbrev pub is_undone : {V : Type 0} → ℕ → Snapshot V → Bool
is_undone i s = is_running i s.running || is_running i s.stopping

-- the property `pending`
unfoldable pub pending : {V : Type 0} → Snapshot V → Bool
unfolding is_running
pending s = elim s.refresh [ none ↦ false | some i ↦ is_undone i s ]

-- the value, where it is younger than `ttl`
unfoldable pub fresh_value : {V : Type 0} → ℕ → ℕ → Snapshot V → Option V
fresh_value ttl now s = elim s.value [
  | none ↦ none
  | some v ↦ if ltb (now - v.1) ttl then some v.0 else none
]

-- what a caller of `get` has: the value, or the task that it awaits
pub data Got (V : Type 0) : Type 0 where
  value_of : V → Got V
  awaits : ℕ → Got V

abbrev pub ended : ℕ → List ℕ → List ℕ
ended i = select (λ j. not (j == i))

unfoldable pub join : {V : Type 0} → Snapshot V → Got V × Snapshot V
unfolding is_running
join s =
    let started : Snapshot _ = record s {
      refresh = some s.next_task;
      running = s.next_task ∷ s.running;
      next_task = s.next_task + 1;
    } in
    elim s.refresh [
      | none ↦ (awaits s.next_task, started)
      | some i ↦ if is_undone i s then (awaits i, s) else (awaits s.next_task, started)
    ]

-- `get`, up to its `await`
unfoldable pub get : {V : Type 0} → ℕ → ℕ → Snapshot V → Got V × Snapshot V
unfolding fresh_value join
get ttl now s = elim (fresh_value ttl now s) [ none ↦ join s | some v ↦ (value_of v, s) ]

-- the end of `_sample`
unfoldable pub sampled : {V : Type 0} → ℕ → V → ℕ → Snapshot V → Snapshot V
sampled i v now s = record s { value = some (v, now); running = ended i s.running }

-- a producer that raises
unfoldable pub sample_failed : {V : Type 0} → ℕ → Snapshot V → Snapshot V
sample_failed i s = record s { running = ended i s.running }

-- `close`, up to its `await`: a task that is not done is cancelled
unfoldable pub close : {V : Type 0} → Snapshot V → Snapshot V
unfolding is_running
close s = elim s.refresh [
  | none ↦ s
  | some i ↦
      if is_running i s.running
      then record s { refresh = none; running = ended i s.running; stopping = i ∷ s.stopping }
      else record s { refresh = none }
]

-- the end of a cancelled task, which stores no value; a `close` that waits for it returns
unfoldable pub reaped : {V : Type 0} → ℕ → Snapshot V → Snapshot V
reaped i s = record s { stopping = ended i s.stopping }

-- what can happen: a call of `get` or `close`, the end of a task that runs, and that of a cancelled one
pub data Step (V : Type 0) (ttl : ℕ) : Snapshot V → Snapshot V → Type 0 where
  gets : (now : ℕ) (s : Snapshot V) → Step V ttl s (get ttl now s).1
  samples :
      (i : ℕ) (v : V) (now : ℕ) (s : Snapshot V)
      → is_running i s.running ≡ true
      → Step V ttl s (sampled i v now s)
  fails :
      (i : ℕ) (s : Snapshot V) → is_running i s.running ≡ true → Step V ttl s (sample_failed i s)
  closes : (s : Snapshot V) → Step V ttl s (close s)
  reaps : (i : ℕ) (s : Snapshot V) → is_running i s.stopping ≡ true → Step V ttl s (reaped i s)

pub data Reachable (V : Type 0) (ttl : ℕ) : Snapshot V → Type 0 where
  start : Reachable V ttl new_snapshot
  further : {s s' : Snapshot V} → Reachable V ttl s → Step V ttl s s' → Reachable V ttl s'
