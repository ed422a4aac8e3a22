-- ===== src/Proactive/Attempts.antt =====
-- Who is given the key of a follow-up: the outbox of zero/proactive_transport.py under any sequence
-- of reservations and recoveries.
use zero_agent.Base.{
  ℕ, ◌≡◌, refl, ◌∙◌, Bool, true, ◌||◌, List, [], ◌∷◌, Option, none, some, String, ltb,
  if◌then◌else◌, fetch_one, Result, ok, err, arith, Bool-cases, Option-cases, inl, inr,
  fetch_one-update,
}
use zero_agent.Tenancy.Ids.{owner_fault}
use zero_agent.Proactive.Outbox.{
  SendState, Row, has_key, key_of, is_over, refuses, reserve, is_sending, is_crashed, abandoned,
  recover,
}

-- a reservation of one candidate with its worker, scope and clock, or a recovery
pub data Call : Type 0 where
  take : String → String → String → ℕ → Call
  sweep : ℕ → Call

abbrev pub keys_of : Result (Option String × List Row) → List String → List String
keys_of (ok (some key, rows)) more = key ∷ more
keys_of _ more = more

abbrev pub rows_of : List Row → Result (Option String × List Row) → List Row
rows_of rows (ok (_, rows')) = rows'
rows_of rows (err e) = rows

-- the keys that the calls hand out, in their order
unfoldable pub handed : String → List Call → List Row → List String
handed candidate [] rows = []
handed candidate (take worker installation group now ∷ cs) rows =
    let r = reserve candidate worker installation group now rows in
    keys_of r (handed candidate cs (rows_of rows r))
handed candidate (sweep now ∷ cs) rows = handed candidate cs (recover now rows)

module _ (candidate : String) (rows : List Row) (row : Row)
    (found : fetch_one (has_key (key_of candidate)) rows ≡ some row) where
  reserve-over :
      (worker installation group : String) (now : ℕ) (more : List String)
      → is_over row.send_state ≡ true
      → (keys_of (reserve candidate worker installation group now rows) more ≡ more)
        × (rows_of rows (reserve candidate worker installation group now rows) ≡ rows)
  unfolding reserve
  reserve-over worker installation group now more over =
      elim (Option-cases (owner_fault installation group)) [
        | inr (e, fault) ↦ (rw (fault, reserve), rw (fault, reserve))
        | inl sound ↦
            (rw (sound, reserve) (rw (found, over)), rw (sound, reserve) (rw (found, over)))
      ]

  recover-row :
      (now : ℕ)
      → fetch_one (has_key (key_of candidate)) (recover now rows)
        ≡ some (if is_crashed now row then abandoned now row else row)
  unfolding recover
  recover-row now =
      rw
        (
          fetch_one-update (has_key (key_of candidate)) (is_crashed now) (abandoned now) rows
              (λ x. refl),
          found,
        )
        refl

  recover-over :
      (now : ℕ)
      → is_over row.send_state ≡ true
      → (after : Row) × (fetch_one (has_key (key_of candidate)) (recover now rows) ≡ some after)
        × (is_over after.send_state ≡ true)
  recover-over now over = elim (Bool-cases (is_crashed now row)) [
    | inl crash ↦ (abandoned now row, rw (recover-row now) (rw crash refl), refl)
    | inr fine ↦ (row, rw (recover-row now) (rw fine refl), over)
  ]

-- Once a follow-up was sent, or its fate became ambiguous, no sequence of reservations and recoveries
-- hands out its key, whatever the workers, scopes and clocks.
pub handed-over :
    (candidate : String) (cs : List Call) (rows : List Row) (row : Row)
    → fetch_one (has_key (key_of candidate)) rows ≡ some row
    → is_over row.send_state ≡ true
    → handed candidate cs rows ≡ []
unfolding handed
handed-over candidate [] rows row found over = refl
handed-over candidate (take w i g now ∷ cs) rows row found over =
    let (none_given, kept) =
      reserve-over candidate rows row found w i g now
        (handed candidate cs (rows_of rows (reserve candidate w i g now rows))) over in
    none_given ∙ (rw kept (handed-over candidate cs rows row found over))
handed-over candidate (sweep now ∷ cs) rows row found over =
    let (after, there, still) = recover-over candidate rows row found now over in
    handed-over candidate cs (recover now rows) after there still

not_over : (s : SendState) (b : Bool) → is_sending s ≡ true → (is_over s || b) ≡ b
not_over s b h = ground arith

-- The gap between `recover`, which gives up a lease that ended before its clock, and `reserve`, which
-- respects a lease that ends after its own: a follow-up that some sender reserved or was sending,
-- and may have sent, is handed out again exactly if its lease ends neither before the recovery nor
-- after the reservation.
pub reserve-recovered :
    (candidate worker installation group : String) (swept now lease : ℕ) (rows : List Row)
    (row : Row)
    → owner_fault installation group ≡ none
    → fetch_one (has_key (key_of candidate)) rows ≡ some row
    → is_sending row.send_state ≡ true
    → row.lease_until ≡ some lease
    → keys_of (reserve candidate worker installation group now (recover swept rows)) []
      ≡ (if ltb lease swept || ltb now lease then [] else key_of candidate ∷ [])
unfolding reserve
reserve-recovered candidate worker installation group swept now lease rows row sound found live
      until =
    elim (Bool-cases (ltb lease swept)) [
      | inl gone ↦
          let read : fetch_one (has_key (key_of candidate)) (recover swept rows)
              ≡ some (abandoned swept row) =
            rw (recover-row candidate rows row found swept) (rw (live, until, gone) refl) in
          rw (sound, reserve) (rw (read, gone) refl)
      | inr stays ↦
          let read : fetch_one (has_key (key_of candidate)) (recover swept rows) ≡ some row =
            rw (recover-row candidate rows row found swept) (rw (live, until, stays) refl) in
          let same : refuses now row ≡ ltb now lease = rw until (not_over row.send_state _ live) in
          rw (sound, reserve)
            (rw (read, stays)
              (rw same (elim (Bool-cases (ltb now lease)) [
                | inl later ↦ rw later refl
                | inr past ↦ rw past refl
              ])))
    ]
