-- ===== src/Providers/Limiter.antt =====
-- zero/providers/registry.py: `RateLimiter`. The monotonic clock is read as whole seconds, and is an
-- argument. A limit is not negative.
use zero_agent.Base.{
  ℕ, zero, suc, ◌+◌, Bool, true, false, List, [], ◌∷◌, ◌++◌, Option, none, some, leb, if◌then◌else◌,
  length,
}

pub record RateLimiter : Type 0 where
  pub limit : Option ℕ
  pub hits : List ℕ

-- RateLimiter(requests_per_minute)
abbrev pub new_limiter : Option ℕ → RateLimiter
new_limiter limit = record { limit = limit; hits = [] }

-- `while self._hits and self._hits[0] <= current - 60: popleft()`
unfoldable pub drop_old : ℕ → List ℕ → List ℕ
drop_old now [] = []
drop_old now (h ∷ hs) = let rest = drop_old now hs in if leb (h + 60) now then rest else h ∷ hs

-- under a limit
unfoldable pub allow_under : ℕ → ℕ → List ℕ → Bool × List ℕ
unfolding drop_old
allow_under limit now hits =
    let recent = drop_old now hits in
    if leb limit (length recent) then (false, recent) else (true, recent ++ now ∷ [])

unfoldable pub allow : ℕ → RateLimiter → Bool × RateLimiter
unfolding allow_under
allow now l = elim l.limit [
  | none ↦ (true, l)
  | some limit ↦ elim limit [
    | zero ↦ (true, l)
    | suc n ↦
        ((allow_under (suc n) now l.hits).0, record l { hits = (allow_under (suc n) now l.hits).1 })
  ]
]
