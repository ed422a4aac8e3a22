-- ===== src/Panel/Flights.antt =====
-- zero/panel_cache.py, `SharedSnapshot`: how many samples run at a time.
use zero_agent.Base.{
  ℕ, ◌≤◌, ◌≡◌, refl, sym, ◌∙◌, ◌+◌, Bool, true, false, not, List, [], ◌∷◌, Option, none, some, ◌==◌,
  nat_eq, nat_beq_iff, leb, length, select, count_where, count_where-select-le, arith, Bool-cases,
  Option-cases, inl, inr,
}
use zero_agent.Panel.Snapshot.{
  Snapshot, is_running, pending, fresh_value, ended, join, get, sampled, sample_failed, close, Step,
  gets, samples, fails, closes, reaped, reaps, Reachable, start, further,
}

abbrev is_pending : Option ℕ → List ℕ → Bool
is_pending none tasks = false
is_pending (some i) tasks = is_running i tasks

-- the only task that may run is the one that is refreshing
record IsSingle (r : Option ℕ) (tasks : List ℕ) : Type 0 where
  own : (i : ℕ) → is_running i tasks ≡ true → r ≡ some i
  one : length tasks ≤ 1

is_running_head : (j : ℕ) (js : List ℕ) → is_running j (j ∷ js) ≡ true
unfolding is_running count_where
is_running_head j js = ground (arith, nat_beq_iff j j)

is_running-ended :
    (i k : ℕ) (tasks : List ℕ) → is_running k (ended i tasks) ≡ true → is_running k tasks ≡ true
unfolding is_running
is_running-ended i k tasks h =
    ground (arith, h, count_where-select-le (λ j. j == k) (λ j. not (j == i)) tasks)

length-ended-le : (i : ℕ) (tasks : List ℕ) → length (ended i tasks) ≤ length tasks
unfolding select
length-ended-le i [] = omega arith
length-ended-le i (j ∷ js) = ground (arith, length-ended-le i js)

ended_gone : (i : ℕ) (tasks : List ℕ) → is_running i (ended i tasks) ≡ false
unfolding is_running select count_where
ended_gone i [] = refl
ended_gone i (j ∷ js) = ground (arith, ended_gone i js)

none_running :
    (r : Option ℕ) (tasks : List ℕ) → IsSingle r tasks → is_pending r tasks ≡ false → tasks ≡ []
none_running r [] v h = refl
none_running r (j ∷ js) v h =
    let own : r ≡ some j = v.own j (is_running_head j js) in
    let on : is_pending (some j) (j ∷ js) ≡ true = is_running_head j js in
    absurd (ground (arith, h, own, on))

ended-IsSingle :
    (r : Option ℕ) (tasks : List ℕ) (i : ℕ) → IsSingle r tasks → IsSingle r (ended i tasks)
ended-IsSingle r tasks i v = record {
  own = λ k h. v.own k (is_running-ended i k tasks h);
  one = omega (arith, v.one, length-ended-le i tasks);
}

-- once the refreshing task is cancelled, none runs
closed-IsSingle : (tasks : List ℕ) (i : ℕ) → IsSingle (some i) tasks → IsSingle none (ended i tasks)
closed-IsSingle tasks i v = record {
  own = λ k h.
      let same : Option.some i ≡ some k = v.own k (is_running-ended i k tasks h) in
      absurd (ground (arith, same, h, ended_gone i tasks));
  one = omega (arith, v.one, length-ended-le i tasks);
}

fresh-IsSingle : (t : ℕ) → IsSingle (some t) (t ∷ [])
unfolding is_running count_where
fresh-IsSingle t = record { own = λ i h. ground (arith, h, nat_beq_iff t i); one = omega arith }

pending_single :
    (r : Option ℕ) (tasks : List ℕ) → IsSingle r tasks → is_pending r tasks ≡ leb 1 (length tasks)
unfolding is_running count_where
pending_single none [] v = refl
pending_single (some i) [] v = refl
pending_single r (j ∷ js) v =
    let own : r ≡ some j = v.own j (is_running_head j js) in
    rw (own, is_running_head j js) (ground arith)

is_running-ended_off :
    (i k : ℕ) (tasks : List ℕ) → is_running k tasks ≡ false → is_running k (ended i tasks) ≡ false
is_running-ended_off i k tasks h = elim (Bool-cases (is_running k (ended i tasks))) [
  | inr off ↦ off
  | inl on ↦ absurd (ground (arith, h, is_running-ended i k tasks on))
]

is_running_other :
    (i k : ℕ) (tasks : List ℕ)
    → (i == k) ≡ false
    → is_running k tasks ≡ false
    → is_running k (i ∷ tasks) ≡ false
unfolding is_running count_where
is_running_other i k tasks other h = ground (arith, other, h)

-- no task that is cancelled is the refreshing one, and no number is taken twice
record Good {V : Type 0} (s : Snapshot V) : Type 0 where
  single : IsSingle s.refresh s.running
  apart : (i : ℕ) → s.refresh ≡ some i → is_running i s.stopping ≡ false
  unused : (i : ℕ) → s.next_task ≤ i → is_running i s.running ≡ false
  unstopped : (i : ℕ) → s.next_task ≤ i → is_running i s.stopping ≡ false

module _ {V : Type 0} where
  pending_by : (s : Snapshot V) → Good s → pending s ≡ is_pending s.refresh s.running
  unfolding pending
  pending_by s v = elim (Option-cases s.refresh) [
    | inl e ↦ rw (e, pending) refl
    | inr (i, e) ↦ rw (e, pending) (rw (v.apart i e) (ground arith))
  ]

  abbrev started : Snapshot V → Snapshot V
  started s = record s {
    refresh = some s.next_task;
    running = s.next_task ∷ s.running;
    next_task = s.next_task + 1;
  }

  started-Good :
      (s : Snapshot V) → Good s → is_pending s.refresh s.running ≡ false → Good (started s)
  started-Good s v idle = record {
    single = rw (none_running s.refresh s.running v.single idle) (fresh-IsSingle s.next_task);
    apart = λ i e. v.unstopped i (ground (arith, e));
    unused = λ i h.
        is_running_other s.next_task i s.running (ground (arith, h, nat_beq_iff s.next_task i))
          (v.unused i (omega arith));
    unstopped = λ i h. v.unstopped i (omega arith);
  }

  join-Good : (s : Snapshot V) → Good s → Good (join s).1
  unfolding join
  join-Good s v = elim (Option-cases s.refresh) [
    | inl e ↦ rw (e, join) (started-Good s v (rw e refl))
    | inr (i, e) ↦ elim (Bool-cases (is_running i s.running)) [
      | inl on ↦ rw (e, join, on) v
      | inr off ↦ rw (e, join, off, v.apart i e) (started-Good s v (rw e off))
    ]
  ]

  get-Good : (ttl now : ℕ) (s : Snapshot V) → Good s → Good (get ttl now s).1
  unfolding get
  get-Good ttl now s v = elim (Option-cases (fresh_value ttl now s)) [
    | inl e ↦ rw (e, get) (join-Good s v)
    | inr (x, e) ↦ rw (e, get) v
  ]

  -- the end of a task that runs, whatever value is kept then
  ended-Good :
      (i : ℕ) (v : Option (V × ℕ)) (s : Snapshot V)
      → Good s
      → Good (record s { value = v; running = ended i s.running })
  ended-Good i v s g = record {
    single = ended-IsSingle s.refresh s.running i g.single;
    apart = g.apart;
    unused = λ k h. is_running-ended_off i k s.running (g.unused k h);
    unstopped = g.unstopped;
  }

  forgotten-Good :
      (i : ℕ) (s : Snapshot V)
      → Good s
      → s.refresh ≡ some i
      → is_running i s.running ≡ false
      → Good (record s { refresh = none })
  forgotten-Good i s g e off = record {
    single = record {
      own = λ k h.
          let same : Option.some i ≡ some k = sym e ∙ g.single.own k h in
          absurd (ground (arith, same, h, off));
      one = g.single.one;
    };
    apart = λ k h. absurd (ground arith);
    unused = g.unused;
    unstopped = g.unstopped;
  }

  cancelled-Good :
      (i : ℕ) (s : Snapshot V)
      → Good s
      → s.refresh ≡ some i
      → is_running i s.running ≡ true
      → Good (record s { refresh = none; running = ended i s.running; stopping = i ∷ s.stopping })
  cancelled-Good i s g e on = record {
    single = closed-IsSingle s.running i (rw e at g.single);
    apart = λ k h. absurd (ground arith);
    unused = λ k h. is_running-ended_off i k s.running (g.unused k h);
    unstopped = λ k h.
        is_running_other i k s.stopping
          (elim (Bool-cases (i == k)) [
            | inr other ↦ other
            | inl own ↦
                let same : i ≡ k = (nat_beq_iff i k).0 own in
                absurd (ground (arith, on, g.unused i (rw same h)))
          ])
          (g.unstopped k h);
  }

  close-Good : (s : Snapshot V) → Good s → Good (close s)
  unfolding close
  close-Good s v = elim (Option-cases s.refresh) [
    | inl e ↦ rw (e, close) v
    | inr (i, e) ↦ elim (Bool-cases (is_running i s.running)) [
      | inl on ↦ rw (e, close, on) (cancelled-Good i s v e on)
      | inr off ↦ rw (e, close, off) (forgotten-Good i s v e off)
    ]
  ]

  reaped-Good : (i : ℕ) (s : Snapshot V) → Good s → Good (reaped i s)
  unfolding reaped
  reaped-Good i s g = record {
    single = g.single;
    apart = λ k e. is_running-ended_off i k s.stopping (g.apart k e);
    unused = g.unused;
    unstopped = λ k h. is_running-ended_off i k s.stopping (g.unstopped k h);
  }

  Step-Good : (ttl : ℕ) (s s' : Snapshot V) → Step V ttl s s' → Good s → Good s'
  unfolding sampled sample_failed
  Step-Good ttl s s' (gets now _) v = get-Good ttl now s v
  Step-Good ttl s s' (samples i x now _ on) v = ended-Good i (some (x, now)) s v
  Step-Good ttl s s' (fails i _ on) v = ended-Good i s.value s v
  Step-Good ttl s s' (closes _) v = close-Good s v
  Step-Good ttl s s' (reaps i _ on) v = reaped-Good i s v

  Reachable-Good : (ttl : ℕ) (s : Snapshot V) → Reachable V ttl s → Good s
  unfolding is_running count_where
  Reachable-Good ttl s start = record {
    single = record { own = λ i h. absurd (ground (arith, h)); one = omega arith };
    apart = λ i e. refl;
    unused = λ i h. refl;
    unstopped = λ i h. refl;
  }
  Reachable-Good ttl s (further before step) = Step-Good ttl _ s step (Reachable-Good ttl _ before)

  -- However the calls of `get` and `close` and the ends of samples follow each other, whether samples
  -- return, raise or are cancelled: of the samples that are not cancelled at most one runs at a time,
  -- and `pending` says whether one does. A cancelled one, which has not ended yet, may run besides.
  pub Reachable-pending :
      (ttl : ℕ) (s : Snapshot V)
      → Reachable V ttl s
      → (length s.running ≤ 1) × (pending s ≡ leb 1 (length s.running))
  Reachable-pending ttl s r =
      let g = Reachable-Good ttl s r in
      (g.single.one, pending_by s g ∙ pending_single s.refresh s.running g.single)
