-- ===== src/Router/Window.antt =====
-- zero/router.py, `KeyPool`: how often a key is given out in a minute and on a day.
use zero_agent.Base.{
  ℕ, ◌≤◌, ◌≡◌, refl, Bool, true, false, not, ◌&&◌, List, [], ◌∷◌, ◌++◌, Option, none, some, String,
  ◌==◌, string_eq, nat_eq, nat_beq_iff, if◌then◌else◌, All, update_where, count_where,
  count_where_split, arith, Bool-cases, Option-cases, inl, inr, ◌⊎◌, sym,
}
use zero_agent.Router.Keys.{
  Limits, KeyState, has_place, refreshed, is_available, used, refresh_all, choose, reserve, success,
  failure,
}
use zero_agent.Router.Choice.{choose_in, refresh_all_unique}

-- what a pool is asked: for a key, and to note the end of a call
pub data Event : Type 0 where
  reserves : ℕ → String → Event
  succeeds : ℕ → ℕ → Event
  fails : ℕ → String → ℕ → ℕ → Event

unfoldable pub after_event : Limits → Event → List KeyState → List KeyState
after_event cfg (reserves now day) pool = (reserve cfg now day pool).1
after_event cfg (succeeds place now) pool = success place now pool
after_event cfg (fails place kind cooldown now) pool = failure place kind cooldown now pool

abbrev pub is_place : ℕ → Option ℕ → Bool
is_place i none = false
is_place i (some j) = j == i

-- the time of an event, if it gives out the key at a place
unfoldable pub given : Limits → ℕ → Event → List KeyState → List ℕ
given cfg i (reserves now day) pool =
    if is_place i (reserve cfg now day pool).0 then now ∷ [] else []
given cfg i (succeeds _ _) pool = []
given cfg i (fails _ _ _ _) pool = []

unfoldable pub given_out : Limits → ℕ → List Event → List KeyState → List ℕ
unfolding given after_event
given_out cfg i [] pool = []
given_out cfg i (e ∷ es) pool = given cfg i e pool ++ given_out cfg i es (after_event cfg e pool)

-- the times of the reservations
abbrev pub times : List Event → List ℕ
times [] = []
times (reserves now day ∷ es) = now ∷ times es
times (succeeds _ _ ∷ es) = times es
times (fails _ _ _ _ ∷ es) = times es

-- the keys at a place
abbrev pub AtPlace : ℕ → (KeyState → Type 0) → List KeyState → Type 0
AtPlace i P = All (λ s. has_place i s ≡ true → P s)

module _ (i : ℕ) (P : KeyState → Type 0) where
  AtPlace-refresh_all :
      (Q : KeyState → Type 0) (now : ℕ) (day : String)
      → ((s : KeyState) → P s → Q (refreshed now day s))
      → (pool : List KeyState) → AtPlace i P pool
      → AtPlace i Q (refresh_all now day pool)
  unfolding refresh_all refreshed
  AtPlace-refresh_all Q now day step [] h = tt
  AtPlace-refresh_all Q now day step (s ∷ ss) h =
      (λ own. step s (h.0 own), AtPlace-refresh_all Q now day step ss h.1)

  -- a change that keeps what holds, where it is made
  pub AtPlace-update :
      (Q : KeyState → Type 0) (q : KeyState → Bool) (f : KeyState → KeyState)
      → ((s : KeyState) → (f s).place ≡ s.place)
      → ((s : KeyState) → has_place i s ≡ true → q s ≡ true → P s → Q (f s))
      → ((s : KeyState) → has_place i s ≡ true → q s ≡ false → P s → Q s)
      → (pool : List KeyState) → AtPlace i P pool
      → AtPlace i Q (update_where q f pool)
  unfolding update_where
  AtPlace-update Q q f place changed kept [] h = tt
  AtPlace-update Q q f place changed kept (s ∷ ss) h =
      let rest = AtPlace-update Q q f place changed kept ss h.1 in
      elim (Bool-cases (q s)) [
        | inl e ↦
            rw (e, update_where)
              (
                (λ own.
                    let at : has_place i s ≡ true = rw (place s) at own in changed s at e (h.0 at)),
                rest,
              )
        | inr e ↦ rw (e, update_where) ((λ own. kept s own e (h.0 own)), rest)
      ]

count_where_zero :
    (p q : KeyState → Bool) (xs : List KeyState)
    → count_where (λ x. p x && not (q x)) xs ≡ 0
    → All (λ x. p x ≡ true → q x ≡ true) xs
unfolding count_where
count_where_zero p q [] h = tt
count_where_zero p q (x ∷ xs) h = (λ own. ground arith, count_where_zero p q xs (ground arith))

some_at :
    (i : ℕ) (P : KeyState → Type 0) (p : KeyState → Bool) (xs : List KeyState)
    → 1 ≤ count_where (λ x. has_place i x && p x) xs
    → AtPlace i P xs
    → (x : KeyState) × P x
unfolding count_where
some_at i P p [] h each = absurd (omega (arith, h))
some_at i P p (x ∷ xs) h each = elim (Bool-cases (has_place i x)) [
  | inl e ↦ (x, each.0 e)
  | inr e ↦ some_at i P p xs (ground (arith, h, e)) each.1
]

both_at :
    (i : ℕ) (P Q : KeyState → Type 0) (xs : List KeyState)
    → AtPlace i P xs
    → AtPlace i Q xs
    → AtPlace i (λ s. P s × Q s) xs
both_at i P Q [] h k = tt
both_at i P Q (x ∷ xs) h k = (λ own. (h.0 own, k.0 own), both_at i P Q xs h.1 k.1)

module _ (cfg : Limits) (i now : ℕ) (P Q R : KeyState → Type 0) where
  -- the keys at a place after a reservation: those that it gave out, which were available, or those that
  -- it looked at only
  abbrev pub Outcome : Option ℕ → List KeyState → Type 0
  Outcome got pool =
      ((is_place i got ≡ true) × AtPlace i R pool × ((s : KeyState) × R s))
      ⊎ ((is_place i got ≡ false) × AtPlace i Q pool)

  module _ (uses : (s : KeyState) → Q s → is_available cfg now s ≡ true → R (used now s)) where
    given_key :
        (fresh : List KeyState) (s : KeyState)
        → choose cfg now fresh ≡ some s
        → s.place ≡ i
        → count_where (has_place i) fresh ≤ 1
        → AtPlace i Q fresh
        → AtPlace i R (update_where (has_place s.place) (used now) fresh) × ((t : KeyState) × R t)
    given_key fresh s e at one h =
        let there : 1 ≤ count_where (λ t. has_place i t && is_available cfg now t) fresh =
          rw (sym at) (choose_in cfg now fresh s e) in
        let open_each = count_where_zero (has_place i) (is_available cfg now) fresh (
          omega
            (arith, one, there, count_where_split (has_place i) (is_available cfg now) fresh)) in
        let each = both_at i Q (λ t. is_available cfg now t ≡ true) fresh h open_each in
        let (t, (good, free)) =
          some_at i (λ t. Q t × (is_available cfg now t ≡ true)) (is_available cfg now) fresh there
            each in
        (
          AtPlace-update i (λ t. Q t × (is_available cfg now t ≡ true)) R (has_place s.place)
              (used now) (λ t. refl) (λ t own hit both. uses t both.0 both.1)
              (λ t own miss both. absurd (ground (arith, own, miss, at))) fresh each,
          (used now t, uses t good free),
        )

    pub reserve-Outcome :
        (day : String) (pool : List KeyState)
        → ((s : KeyState) → P s → Q (refreshed now day s))
        → count_where (has_place i) pool ≤ 1
        → AtPlace i P pool
        → Outcome (reserve cfg now day pool).0 (reserve cfg now day pool).1
    unfolding reserve
    reserve-Outcome day pool looks one h =
        let fresh = refresh_all now day pool in
        let each = AtPlace-refresh_all i P Q now day looks pool h in
        elim (Option-cases (choose cfg now fresh)) [
          | inl e ↦ rw (e, reserve) (inr (refl, each))
          | inr (s, e) ↦ elim (Bool-cases (s.place == i)) [
            | inl at ↦
                let (all_used, one_used) =
                  given_key fresh s e ((nat_beq_iff s.place i).0 at)
                    (rw (refresh_all_unique cfg now day i pool) one) each in
                rw (e, reserve) (inl (at, all_used, one_used))
            | inr differ ↦
                rw (e, reserve)
                  (inr (
                    differ,
                    AtPlace-update i Q Q (has_place s.place) (used now) (λ t. refl)
                        (λ t own hit good. absurd (ground (arith, own, hit, differ)))
                        (λ t own miss good. good) fresh each,
                  ))
          ]
        ]
