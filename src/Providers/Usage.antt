-- ===== src/Providers/Usage.antt =====
-- zero/providers/registry.py: what `complete` counts.
use mathlib.Core.Path.{subst}
use zero_agent.Base.{
  ℕ, ◌+◌, ◌≡◌, refl, ◌∙◌, ap, sym, true, false, List, [], ◌∷◌, ◌++◌, Option, none, some, String,
  ◌==◌, string_eq, if◌then◌else◌, fetch_one, update_where, fetch_one-update, fetch_one-append,
  fetch_one_sound, str_eq_iff, arith, Bool-cases, Option-cases, inl, inr, Result, ok, err,
  providers_failed,
}
use zero_agent.Providers.Limiter.{allow}
use zero_agent.Providers.Registry.{
  Completion, Usage, Registry, is_named, is_usage_of, record_usage, requests_of, with_limiter,
  answered, first_of, attempt, attempt_chain, chain_of, complete,
}

abbrev requests_in : Option Usage → ℕ
requests_in none = 0
requests_in (some u) = u.requests

abbrev one_more : Completion → Usage → Usage
one_more c u = record u {
  requests = u.requests + 1;
  input_tokens = u.input_tokens + c.input_tokens;
  output_tokens = u.output_tokens + c.output_tokens;
}

by_row :
    (m : String) (us : List Usage) → requests_of m us ≡ requests_in (fetch_one (is_usage_of m) us)
unfolding requests_of
by_row m us = elim (Option-cases (fetch_one (is_usage_of m) us)) [
  | inl e ↦ rw (e, requests_of) refl
  | inr (u, e) ↦ rw (e, requests_of) refl
]

arith_zero : (k : ℕ) → k ≡ k + 0
arith_zero k = omega arith

module _ (m n : String) (c : Completion) where
  in_update :
      (o : Option Usage)
      → ((u : Usage) → o ≡ some u → is_usage_of m u ≡ true)
      → (m ≡ n → (u : Usage) × (o ≡ some u))
      → requests_in
          (elim o [ none ↦ none | some u ↦ some (if is_usage_of n u then one_more c u else u) ])
        ≡ requests_in o + (if m == n then 1 else 0)
  in_update none own stored = elim (Bool-cases (m == n)) [
    | inl e ↦ absurd (ground (arith, (stored ((str_eq_iff m n).0 e)).1))
    | inr e ↦ rw e (arith_zero 0)
  ]
  in_update (some u) own stored =
      let mine : u.name ≡ m = (str_eq_iff u.name m).0 (own u refl) in
      elim (Bool-cases (m == n)) [
        | inl e ↦ rw (mine, e) refl
        | inr e ↦ rw (mine, e) (arith_zero u.requests)
      ]

  in_append :
      (u : Usage) (o : Option Usage)
      → u.name ≡ n
      → u.requests ≡ 1
      → (m ≡ n → o ≡ none)
      → requests_in (elim o [ none ↦ (if is_usage_of m u then some u else none) | some x ↦ some x ])
        ≡ requests_in o + (if m == n then 1 else 0)
  in_append u none named one free = elim (Bool-cases (m == n)) [
    | inl e ↦
        let mine : (u.name == m) ≡ true =
          (str_eq_iff u.name m).1 (named ∙ sym ((str_eq_iff m n).0 e)) in
        rw (e, mine) one
    | inr e ↦
        let other : (u.name == m) ≡ false =
          ground (arith, e, str_eq_iff u.name m, str_eq_iff m n, named) in
        rw (e, other) (arith_zero 0)
  ]
  in_append u (some x) named one free = elim (Bool-cases (m == n)) [
    | inl e ↦ absurd (ground (arith, free ((str_eq_iff m n).0 e)))
    | inr e ↦ rw e (arith_zero x.requests)
  ]

  requests_of-record_usage :
      (us : List Usage)
      → requests_of m (record_usage n c us) ≡ requests_of m us + (if m == n then 1 else 0)
  unfolding record_usage
  requests_of-record_usage us = elim (Option-cases (fetch_one (is_usage_of n) us)) [
    | inr (x, stored) ↦
        rw
          (
            stored,
            record_usage,
            by_row m us,
            by_row m (update_where (is_usage_of n) (one_more c) us),
          )
          (ap requests_in
              (fetch_one-update (is_usage_of m) (is_usage_of n) (one_more c) us (λ u. refl))
            ∙ in_update (fetch_one (is_usage_of m) us) (λ u. fetch_one_sound (is_usage_of m) us u)
                (λ e. (x, rw e stored)))
    | inl free ↦
        let u : Usage = record {
          name = n;
          requests = 1;
          input_tokens = c.input_tokens;
          output_tokens = c.output_tokens;
        } in
        rw (free, record_usage, by_row m us, by_row m (us ++ u ∷ []))
          (ap requests_in (fetch_one-append (is_usage_of m) us u)
            ∙ in_append u (fetch_one (is_usage_of m) us) refl refl (λ e. rw e free))
  ]

-- the requests after a call that returned a completion, or did not
abbrev pub Counted : List Usage → List Usage → Option (String × Completion) → Type 0
Counted before after none = after ≡ before
Counted before after (some r) =
    (m : String) → requests_of m after ≡ requests_of m before + (if m == r.0 then 1 else 0)

after_none :
    (before middle after : List Usage) (o : Option (String × Completion))
    → middle ≡ before
    → Counted middle after o
    → Counted before after o
after_none before middle after none same h = h ∙ same
after_none before middle after (some r) same h = λ m. rw (← same) (h m)

abbrev pub CountedResult : List Usage → List Usage → Result (String × Completion) → Type 0
CountedResult before after (err e) = after ≡ before
CountedResult before after (ok r) = Counted before after (some r)

by_result :
    (before after : List Usage) (o : Option (String × Completion))
    → Counted before after o
    → CountedResult before after (elim o [ none ↦ err providers_failed | some r ↦ ok r ])
by_result before after none h = h
by_result before after (some r) h = h

module _ (call : String → ℕ → Option Completion) where
  chain_step :
      (o : Option (String × Completion)) (reg middle : Registry)
      (rest : (Option (String × Completion)) × Registry)
      → Counted reg.usages middle.usages o
      → Counted middle.usages rest.1.usages rest.0
      → Counted reg.usages (first_of call o middle rest).1.usages (first_of call o middle rest).0
  chain_step none reg middle rest first next =
      after_none reg.usages middle.usages rest.1.usages rest.0 first next
  chain_step (some r) reg middle rest first next = first

  by_attempt :
      (reg : Registry) (x y : (Option (String × Completion)) × Registry)
      → x ≡ y
      → Counted reg.usages y.1.usages y.0
      → Counted reg.usages x.1.usages x.0
  by_attempt reg x y same h = subst (λ z. Counted reg.usages z.1.usages z.0) (sym same) h

  answered-Counted :
      (n : String) (reg : Registry) (o : Option Completion)
      → Counted reg.usages (answered call n reg o).1.usages (answered call n reg o).0
  answered-Counted n reg none = refl
  answered-Counted n reg (some c) = λ m. requests_of-record_usage m n c reg.usages

  attempt-Counted :
      (n : String) (now : ℕ) (reg : Registry)
      → Counted reg.usages (attempt call n now reg).1.usages (attempt call n now reg).0
  unfolding attempt
  attempt-Counted n now reg = elim (Option-cases (fetch_one (is_named n) reg.entries)) [
    | inl missing ↦
        by_attempt reg (attempt call n now reg) (none, reg) (rw (missing, attempt) refl) refl
    | inr (e, found) ↦
        let after : Registry = record reg {
          entries = update_where (is_named n) (with_limiter (allow now e.limiter).1) reg.entries;
        } in
        elim (Bool-cases (allow now e.limiter).0) [
          | inr held ↦
              by_attempt reg (attempt call n now reg) (none, after) (rw (found, attempt, held) refl)
                refl
          | inl passed ↦
              by_attempt reg (attempt call n now reg) (answered call n after (call n now))
                (rw (found, attempt, passed) refl) (answered-Counted n after (call n now))
        ]
  ]

  attempt_chain-Counted :
      (ns : List String) (clock : ℕ → ℕ) (k : ℕ) (reg : Registry)
      → Counted reg.usages
          (attempt_chain call ns clock k reg).1.usages
          (attempt_chain call ns clock k reg).0
  unfolding attempt_chain
  attempt_chain-Counted [] clock k reg = refl
  attempt_chain-Counted (n ∷ ns) clock k reg =
      chain_step (attempt call n (clock k) reg).0 reg (attempt call n (clock k) reg).1
        (attempt_chain call ns clock (k + 1) (attempt call n (clock k) reg).1)
        (attempt-Counted n (clock k) reg)
        (attempt_chain-Counted ns clock (k + 1) (attempt call n (clock k) reg).1)

  -- `complete` counts what it returns: one request more for the profile that answered, none for any other,
  -- and none at all if it raises, however many profiles failed, were limited or unknown on the way.
  pub complete-Counted :
      (profile : String) (fallback : List String) (clock : ℕ → ℕ) (reg : Registry)
      → CountedResult reg.usages
          (complete call profile fallback clock reg).1.usages
          (complete call profile fallback clock reg).0
  unfolding complete
  complete-Counted profile fallback clock reg =
      by_result reg.usages
        (attempt_chain call (chain_of call profile fallback) clock 0 reg).1.usages
        (attempt_chain call (chain_of call profile fallback) clock 0 reg).0
        (attempt_chain-Counted (chain_of call profile fallback) clock 0 reg)
