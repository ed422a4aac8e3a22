-- ===== src/Tenancy/Lifecycle.antt =====
-- What may happen to a group's state in any run of the registry.
use zero_agent.Base.{
  suc, length, ℕ, ℤ, ◌≡◌, refl, sym, true, List, [], ◌∷◌, Option, none, some, String, string_eq,
  int_eq, fetch_one, Result, ok, err, arith, Option-cases, inl, inr, fetch_one-append,
}
use zero_agent.Tenancy.Roles.{GroupState, pending, archived, can_transition, Role, owner, Scope}
use zero_agent.Tenancy.Registry.{
  Group, GroupRow, Registry, create_installation, is_group, is_conflict, get_group, insert_group,
  discover_group, principal, role_of, add_member, remove_member, set_group_state,
}
use zero_agent.Tenancy.Moves.{Changed, set_group_state-eq_ok, write_state-row}

pub data Call : Type 0 where
  install : String → String → ℕ → Call
  discover : Group → ℕ → Call
  set_state : Scope → GroupState → Option ℤ → ℕ → Call
  add : Scope → ℤ → Role → ℕ → Call
  remove : Scope → ℤ → Call

abbrev pub kept : Registry → Result (Group × Registry) → Registry
kept reg (ok (_, reg')) = reg'
kept reg (err e) = reg

unfoldable pub perform : Call → Registry → Registry
perform (install i label now) reg = create_installation i label now reg
perform (discover g now) reg = (discover_group g now reg).1
perform (set_state s target actor now) reg = kept reg (set_group_state s target actor now reg)
perform (add s u r now) reg = add_member s u r now reg
perform (remove s u) reg = remove_member s u reg

unfoldable pub run : List Call → Registry → Registry
unfolding perform
run [] reg = reg
run (c ∷ cs) reg = run cs (perform c reg)

abbrev Kept : Registry → Registry → String → String → GroupRow → Type 0
Kept reg end i g row =
    (after : GroupRow) × (fetch_one (is_group i g) end.groups ≡ some after)
    × Changed row.group.state after.group.state

Kept-row :
    (reg end : Registry) (i g : String) (row : GroupRow)
    → end.groups ≡ reg.groups
    → fetch_one (is_group i g) reg.groups ≡ some row
    → Kept reg end i g row
Kept-row reg end i g row same found = (row, rw (same, found), inl refl)

set_state-row :
    (s : Scope) (target : GroupState) (actor : Option ℤ) (now : ℕ) (reg : Registry) (i g : String)
    (row : GroupRow)
    → fetch_one (is_group i g) reg.groups ≡ some row
    → (r : Result (Group × Registry)) → set_group_state s target actor now reg ≡ r
    → Kept reg (kept reg r) i g row
set_state-row s target actor now reg i g row found (err e) h = (row, found, inl refl)
set_state-row s target actor now reg i g row found (ok end) h =
    let (who, (current, read, how)) = set_group_state-eq_ok s target actor now reg end h in
    elim how [
      | inl (same, kept_it) ↦ rw kept_it (row, found, inl refl)
      | inr (may, writes, back) ↦
          rw writes (write_state-row s target now current reg i g row read may found)
    ]

groups-create_installation :
    (i label : String) (now : ℕ) (reg : Registry)
    → (create_installation i label now reg).groups ≡ reg.groups
unfolding create_installation
groups-create_installation i label now reg = ground arith

insert_group-row :
    (n : Group) (now : ℕ) (reg : Registry) (i g : String) (row : GroupRow)
    → fetch_one (is_group i g) reg.groups ≡ some row
    → fetch_one (is_group i g) (insert_group n now reg).groups ≡ some row
unfolding insert_group
insert_group-row n now reg i g row found =
    elim (Option-cases (fetch_one (is_conflict n) reg.groups)) [
      | inr (other, clash) ↦ rw (clash, insert_group) found
      | inl free ↦
          rw (free, insert_group)
            (rw
              (fetch_one-append (is_group i g) reg.groups
                (record { group = n; discovered_at = now; approved_at = none }))
              (rw found))
    ]

groups-add_member :
    (s : Scope) (u : ℤ) (r : Role) (now : ℕ) (reg : Registry)
    → (add_member s u r now reg).groups ≡ reg.groups
unfolding add_member
groups-add_member s u r now reg = ground arith

perform-row :
    (c : Call) (reg : Registry) (i g : String) (row : GroupRow)
    → fetch_one (is_group i g) reg.groups ≡ some row
    → Kept reg (perform c reg) i g row
unfolding perform discover_group remove_member
perform-row (install k label now) reg i g row found =
    Kept-row reg (create_installation k label now reg) i g row
      (groups-create_installation k label now reg) found
perform-row (discover n now) reg i g row found =
    let before = create_installation n.installation_id "" now reg in
    let there : fetch_one (is_group i g) before.groups ≡ some row =
      rw (groups-create_installation n.installation_id "" now reg) found in
    (row, insert_group-row (record n { state = pending }) now before i g row there, inl refl)
perform-row (set_state s target actor now) reg i g row found =
    set_state-row s target actor now reg i g row found _ refl
perform-row (add s u r now) reg i g row found =
    Kept-row reg (add_member s u r now reg) i g row (groups-add_member s u r now reg) found
perform-row (remove s u) reg i g row found = Kept-row reg (remove_member s u reg) i g row refl found

-- the states that a group may come to in a number of calls, each of which changes it by one allowed
-- transition at most
pub data Reaches : ℕ → GroupState → GroupState → Type 0 where
  here : {a : GroupState} → Reaches 0 a a
  stays : {n : ℕ} {a b : GroupState} → Reaches n a b → Reaches (suc n) a b
  moves :
      {n : ℕ} {a b c : GroupState} → can_transition a b ≡ true → Reaches n b c → Reaches (suc n) a c

-- Whatever calls the registry gets, by whatever actors, some of which raise: a registered group stays
-- registered, and each single call leaves its state or changes it by one transition that the lifecycle
-- allows.
pub run-lifecycle :
    (cs : List Call) (reg : Registry) (i g : String) (row : GroupRow)
    → fetch_one (is_group i g) reg.groups ≡ some row
    → (after : GroupRow) × (fetch_one (is_group i g) (run cs reg).groups ≡ some after)
      × Reaches (length cs) row.group.state after.group.state
unfolding run
run-lifecycle [] reg i g row found = (row, found, here)
run-lifecycle (c ∷ cs) reg i g row found =
    let (next, there, change) = perform-row c reg i g row found in
    let (after, back, path) = run-lifecycle cs (perform c reg) i g next there in
    elim change [
      | inl same ↦ (after, back, stays (rw (← same) path))
      | inr may ↦ (after, back, moves may path)
    ]

archived_stays : {n : ℕ} {a b : GroupState} → Reaches n a b → a ≡ archived → b ≡ archived
unfolding can_transition
archived_stays here e = e
archived_stays (stays path) e = archived_stays path e
archived_stays (moves may path) e = absurd (ground arith)

-- No run of the registry takes a group out of `archived`.
pub run-archived :
    (cs : List Call) (reg : Registry) (i g : String) (row : GroupRow)
    → fetch_one (is_group i g) reg.groups ≡ some row
    → row.group.state ≡ archived
    → (after : GroupRow) × (fetch_one (is_group i g) (run cs reg).groups ≡ some after)
      × (after.group.state ≡ archived)
run-archived cs reg i g row found old =
    let (after, back, path) = run-lifecycle cs reg i g row found in
    (after, back, archived_stays path old)

-- `set_group_state` returns only to an owner of the group, for the state that the group has or one
-- that the lifecycle allows next.
pub set_group_state-authorized :
    (s : Scope) (target : GroupState) (actor : Option ℤ) (now : ℕ) (reg : Registry)
    (end : Group × Registry)
    → set_group_state s target actor now reg ≡ ok end
    → (role_of (record s { user_id = principal actor s }) none reg ≡ some owner)
      × ((current : Group) × (get_group s.installation_id s.group_id reg ≡ ok current)
          × Changed current.state target)
set_group_state-authorized s target actor now reg end h =
    let (who, (current, read, how)) = set_group_state-eq_ok s target actor now reg end h in
    elim how [
      | inl (same, kept_it) ↦ (who, (current, read, inl (sym same)))
      | inr (may, writes, back) ↦ (who, (current, read, inr may))
    ]
