-- ===== src/WebSearch/Cache.antt =====
-- zero/web_search/cache.py: `TTLCache`. The ordered dictionary is the list of its entries, the least
-- recently used first. The clock is read as whole seconds, and is an argument; a deep copy of a value
-- is the value.
use zero_agent.Base.{
  ℕ, ◌+◌, max, Bool, not, List, [], ◌∷◌, ◌++◌, Option, none, some, String, ◌==◌, string_eq, ltb,
  leb, if◌then◌else◌, length, fetch_one, select,
}

pub record Entry {ℓ} (A : Type ℓ) : Type ℓ where
  pub key : String
  pub expires_at : ℕ
  pub value : A

pub record TtlCache {ℓ} (A : Type ℓ) : Type ℓ where
  pub ttl_seconds : ℕ
  pub max_entries : ℕ
  pub items : List (Entry A)

module _ {ℓ} {A : Type ℓ} where
  -- `TTLCache(ttl_seconds, max_entries)`
  abbrev pub new_cache : ℕ → ℕ → TtlCache A
  new_cache ttl_seconds max_entries = record {
    ttl_seconds = ttl_seconds;
    max_entries = max 1 max_entries;
    items = [];
  }

  abbrev pub has_key : String → Entry A → Bool
  has_key k e = e.key == k

  -- `self._items.pop(key, None)`
  unfoldable pub remove : String → List (Entry A) → List (Entry A)
  remove k items = select (λ e. not (has_key k e)) items

  -- an assignment or a read, with `move_to_end`
  unfoldable pub put_last : Entry A → List (Entry A) → List (Entry A)
  unfolding remove
  put_last e items = remove e.key items ++ e ∷ []

  -- `while len(self._items) > self.max_entries: self._items.popitem(last=False)`
  unfoldable pub evict : ℕ → List (Entry A) → List (Entry A)
  evict most [] = []
  evict most (e ∷ es) =
      let rest = evict most es in if ltb most (length (e ∷ es)) then rest else e ∷ es

  unfoldable pub get : String → ℕ → TtlCache A → Option A × TtlCache A
  unfolding put_last
  get k now c = elim (fetch_one (has_key k) c.items) [
    | none ↦ (none, c)
    | some e ↦
        if leb e.expires_at now
        then (none, record c { items = remove k c.items })
        else (some e.value, record c { items = put_last e c.items })
  ]

  unfoldable pub set : String → A → ℕ → TtlCache A → TtlCache A
  unfolding put_last evict
  set k v now c = record c {
    items =
        evict c.max_entries
          (put_last (record { key = k; expires_at = now + c.ttl_seconds; value = v }) c.items);
  }

  unfoldable pub invalidate : Option String → TtlCache A → TtlCache A
  unfolding remove
  invalidate none c = record c { items = [] }
  invalidate (some k) c = record c { items = remove k c.items }
