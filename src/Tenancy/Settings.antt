-- ===== src/Tenancy/Settings.antt =====
-- zero/tenancy/registry.py: the settings of a group, and the labels of its users. A value is its JSON
-- text; that a reader gets the value of that text is a matter of the encoding.
use zero_agent.Base.{
  ℕ, ◌≡◌, refl, ◌∙◌, ap, ℤ, Bool, true, false, ◌&&◌, List, [], ◌∷◌, ◌++◌, map, Option, none, some,
  String, ◌==◌, string_eq, int_eq, if◌then◌else◌, leb, fetch_one, select, update_where, count_where,
  Result, ok, err, ◌>>=◌, >>=-eq-ok, unknown_setting, is_empty, strip, arith, Option-cases,
  Bool-cases, inl, inr, fetch_one_sound, fetch_one-update, fetch_one-append, str_eq_iff,
}
use zero_agent.Tenancy.Roles.{Scope, for_user, manage_settings}
use zero_agent.Tenancy.Registry.{Registry, require, principal}

pub record Setting : Type 0 where
  pub installation_id : String
  pub group_id : String
  pub key : String
  pub value_json : String
  pub updated_at : ℕ

-- GROUP_SETTING_KEYS
unfoldable pub setting_keys : List String
setting_keys =
    "persona" ∷ "provider_profile" ∷ "tool_policy" ∷ "web_search_enabled" ∷ "memory_enabled"
    ∷ "enabled" ∷ "reply_mode" ∷ "language" ∷ "quiet_hours" ∷ "reply_profile"
    ∷ "automation_reactions" ∷ "automation_interject" ∷ "automation_proactive"
    ∷ "automation_stickers" ∷ "automation_gifs" ∷ "observe_only" ∷ "memory_retention_days"
    ∷ "memory_inject_depth" ∷ "office_enabled" ∷ "custom_style" ∷ "max_replies_per_hour"
    ∷ "daily_budget_usd" ∷ "forum_topics" ∷ []

abbrev pub has_key : String → String → String → Setting → Bool
has_key i g k x = x.installation_id == i && x.group_id == g && x.key == k

abbrev pub is_setting : Scope → String → Setting → Bool
is_setting s k = has_key s.installation_id s.group_id k

abbrev pub new_setting : Scope → String → String → ℕ → Setting
new_setting s k v now = record {
  installation_id = s.installation_id;
  group_id = s.group_id;
  key = k;
  value_json = v;
  updated_at = now;
}

abbrev pub with_value : String → ℕ → Setting → Setting
with_value v now x = record x { value_json = v; updated_at = now }

unfoldable pub write_setting : Scope → String → String → ℕ → List Setting → List Setting
write_setting s k v now rows = elim (fetch_one (is_setting s k) rows) [
  | some _ ↦ update_where (is_setting s k) (with_value v now) rows
  | none ↦ rows ++ new_setting s k v now ∷ []
]

unfoldable pub set_setting :
    Scope → String → String → Option ℤ → ℕ → Registry → List Setting → Result (List Setting)
unfolding setting_keys for_user require write_setting
set_setting s k v actor now reg rows =
    if leb 1 (count_where (λ x. x == k) setting_keys)
    then (for_user (principal actor s) s >>= λ acting.
        require acting manage_settings none reg >>= λ _. ok (write_setting s k v now rows))
    else err unknown_setting

unfoldable pub get_setting : Scope → String → String → List Setting → String
get_setting s k default rows = elim (fetch_one (is_setting s k) rows) [
  | none ↦ default
  | some x ↦ x.value_json
]

unfoldable pub settings : Scope → List Setting → List (String × String)
settings s rows =
    map (λ (x : Setting). (x.key, x.value_json))
      (select (λ x. x.installation_id == s.installation_id && x.group_id == s.group_id) rows)

pub record Identity : Type 0 where
  pub installation_id : String
  pub group_id : String
  pub user_id : ℤ
  pub label : String
  pub observed_at : ℕ

abbrev pub is_identity : Scope → ℤ → Identity → Bool
is_identity s u x =
    x.installation_id == s.installation_id && x.group_id == s.group_id && x.user_id == u

-- INSERT OR IGNORE, on the key of all columns but the time
unfoldable pub record_identity : Scope → ℤ → String → ℕ → List Identity → List Identity
record_identity s u label now rows =
    if is_empty (strip label)
    then rows
    else if leb 1 (count_where (λ x. is_identity s u x && x.label == label) rows)
    then rows
    else rows
      ++ record {
        installation_id = s.installation_id;
        group_id = s.group_id;
        user_id = u;
        label = label;
        observed_at = now;
      }
        ∷ []

-- the labels, in the order in which they were recorded, which is that of a clock that does not run back
unfoldable pub identity_history : Scope → ℤ → List Identity → List String
identity_history s u rows = map (λ (x : Identity). x.label) (select (is_identity s u) rows)

abbrev value_or : String → Option Setting → String
value_or default none = default
value_or default (some x) = x.value_json

same_fetch :
    (i i' g g' k k' : String) (rows : List Setting)
    → (i == i' && g == g' && k == k') ≡ true
    → fetch_one (has_key i' g' k') rows ≡ fetch_one (has_key i g k) rows
same_fetch i i' g g' k k' rows h =
    let e₁ : i ≡ i' = ground (arith, h, str_eq_iff i i') in
    let e₂ : g ≡ g' = ground (arith, h, str_eq_iff g g') in
    let e₃ : k ≡ k' = ground (arith, h, str_eq_iff k k') in rw (e₁, e₂, e₃) refl

-- a setting under one key is not one under another
other_key :
    (i i' g g' k k' : String) (x : Setting)
    → (i == i' && g == g' && k == k') ≡ false
    → has_key i' g' k' x ≡ true
    → has_key i g k x ≡ false
other_key i i' g g' k k' x apart own = ground (
  arith,
  apart,
  own,
  str_eq_iff x.installation_id i',
  str_eq_iff x.group_id g',
  str_eq_iff x.key k',
  str_eq_iff x.installation_id i,
  str_eq_iff x.group_id g,
  str_eq_iff x.key k,
  str_eq_iff i i',
  str_eq_iff g g',
  str_eq_iff k k',
)

module _ (s s' : Scope) (k k' v default : String) (now : ℕ) where
  abbrev is_same_key : Bool
  is_same_key = s.installation_id == s'.installation_id && s.group_id == s'.group_id && k == k'

  value-update :
      (o : Option Setting)
      → ((x : Setting) → o ≡ some x → is_setting s' k' x ≡ true)
      → (is_same_key ≡ true → (x : Setting) × ((o ≡ some x) × (is_setting s k x ≡ true)))
      → value_or default (elim o [
        | none ↦ none
        | some x ↦ some (if is_setting s k x then with_value v now x else x)
      ])
        ≡ (if is_same_key then v else value_or default o)
  value-update none own stored = elim (Bool-cases is_same_key) [
    | inl e ↦ absurd (ground (arith, (stored e).1.0))
    | inr e ↦ rw e refl
  ]
  value-update (some x) own stored = elim (Bool-cases is_same_key) [
    | inl e ↦
        let (y, (same, hit)) = stored e in
        let here : y ≡ x = ground (arith, same) in rw (e, ← here, hit) refl
    | inr e ↦
        rw
          (
            e,
            other_key s.installation_id s'.installation_id s.group_id s'.group_id k k' x e
                (own x refl),
          )
          refl
  ]

  value-append :
      (o : Option Setting)
      → (is_same_key ≡ true → o ≡ none)
      → value_or default (elim o [
        | none ↦ (if is_same_key then some (new_setting s k v now) else none)
        | some x ↦ some x
      ])
        ≡ (if is_same_key then v else value_or default o)
  value-append none free = elim (Bool-cases is_same_key) [ inl e ↦ rw e refl | inr e ↦ rw e refl ]
  value-append (some x) free = elim (Bool-cases is_same_key) [
    | inl e ↦ absurd (ground (arith, free e))
    | inr e ↦ rw e refl
  ]

  write_setting-value :
      (rows : List Setting)
      → value_or default (fetch_one (is_setting s' k') (write_setting s k v now rows))
        ≡ (if is_same_key then v else value_or default (fetch_one (is_setting s' k') rows))
  unfolding write_setting
  write_setting-value rows =
      let one : is_same_key ≡ true
          → fetch_one (is_setting s' k') rows ≡ fetch_one (is_setting s k) rows =
        same_fetch s.installation_id s'.installation_id s.group_id s'.group_id k k' rows in
      elim (Option-cases (fetch_one (is_setting s k) rows)) [
        | inl free ↦
            rw (free, write_setting)
              (ap (value_or default)
                  (fetch_one-append (is_setting s' k') rows (new_setting s k v now))
                ∙ value-append (fetch_one (is_setting s' k') rows) (λ e. one e ∙ free))
        | inr (x, stored) ↦
            rw (stored, write_setting)
              (ap (value_or default) (
                  fetch_one-update (is_setting s' k') (is_setting s k) (with_value v now) rows
                    (λ y. refl))
                ∙ value-update (fetch_one (is_setting s' k') rows)
                    (λ y. fetch_one_sound (is_setting s' k') rows y)
                    (λ e. (x, (one e ∙ stored, fetch_one_sound (is_setting s k) rows x stored))))
      ]

  written :
      (actor : Option ℤ) (reg : Registry) (rows rows' : List Setting)
      → set_setting s k v actor now reg rows ≡ ok rows'
      → write_setting s k v now rows ≡ rows'
  unfolding set_setting
  written actor reg rows rows' h =
      elim (Bool-cases (leb 1 (count_where (λ x. x == k) setting_keys))) [
        | inr e ↦ absurd (ground (arith, e, h))
        | inl e ↦
            let tail : (for_user (principal actor s) s >>= λ acting.
            require acting manage_settings none reg >>= λ _. ok (write_setting s k v now rows))
                ≡ ok rows' =
              rw (e, set_setting) at h in
            let (acting, _, rest) = >>=-eq-ok (for_user (principal actor s) s) _ tail in
            let (_, _, done) = >>=-eq-ok (require acting manage_settings none reg) _ rest in cc
      ]

  -- What `set_setting` stores, `get_setting` gives back, and every other setting of every group is
  -- read as before, whoever wrote it and whatever rows the table has.
  pub get_setting-set_setting :
      (actor : Option ℤ) (reg : Registry) (rows rows' : List Setting)
      → set_setting s k v actor now reg rows ≡ ok rows'
      → get_setting s' k' default rows'
        ≡ (if is_same_key then v else get_setting s' k' default rows)
  unfolding get_setting
  get_setting-set_setting actor reg rows rows' h =
      let same : write_setting s k v now rows ≡ rows' = written actor reg rows rows' h in
      rw (← same) (write_setting-value rows)
