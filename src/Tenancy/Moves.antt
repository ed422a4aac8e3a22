-- ===== src/Tenancy/Moves.antt =====
-- What `set_group_state` does when it returns.
use zero_agent.Base.{
  ℕ, ℤ, ◌≡◌, refl, Bool, true, false, Option, none, some, String, string_eq, int_eq, if◌then◌else◌,
  fetch_one, Result, ok, err, ◌>>=◌, >>=-eq-ok, arith, Bool-cases, inl, inr, ◌⊎◌, fetch_one-update,
  fetch_one_sound, str_eq_iff, zero_user,
}
use zero_agent.Tenancy.Roles.{
  GroupState, GroupState-discrete, can_transition, Role, owner, manage_group_state, permits, Scope,
  for_user, make_scope, check_id, is_zero_user,
}
use zero_agent.Tenancy.Registry.{
  Group, GroupRow, Registry, is_group, get_group, principal, role_of, has, require, with_state,
  write_state, move_group, set_group_state,
}

may_manage :
    (o : Option Role)
    → elim o [ none ↦ false | some r ↦ permits r manage_group_state ] ≡ true
    → o ≡ some owner
unfolding permits
may_manage o h = ground arith

require-owner :
    (s : Scope) (reg : Registry)
    → require s manage_group_state none reg ≡ ok tt
    → role_of s none reg ≡ some owner
unfolding require has
require-owner s reg h = elim (Bool-cases (has s manage_group_state none reg)) [
  | inr lacks ↦ absurd (ground (arith, lacks))
  | inl holds ↦ may_manage (role_of s none reg) holds
]

-- the two ways in which `set_group_state` returns
abbrev pub Moved : Scope → GroupState → ℕ → Group → Registry → Group × Registry → Type 0
Moved s target now current reg end =
    ((current.state ≡ target) × (end ≡ (current, reg)))
    ⊎ ((can_transition current.state target ≡ true)
        × (end.1 ≡ write_state s target now reg)
        × (get_group s.installation_id s.group_id (write_state s target now reg) ≡ ok end.0))

move_group-eq_ok :
    (s : Scope) (target : GroupState) (now : ℕ) (current : Group) (reg : Registry)
    (end : Group × Registry)
    → move_group s target now current reg ≡ ok end
    → Moved s target now current reg end
unfolding move_group
move_group-eq_ok s target now current reg end h = elim (GroupState-discrete current.state target) [
  | yes same ↦ inl (same, ground arith)
  | no other ↦ elim (Bool-cases (can_transition current.state target)) [
    | inr never ↦ absurd (ground (arith, never))
    | inl may ↦
        let tail : (get_group s.installation_id s.group_id (write_state s target now reg) >>= λ g.
        ok (g, write_state s target now reg))
            ≡ ok end =
          ground (arith, may) in
        let (g, read, done) =
          >>=-eq-ok (get_group s.installation_id s.group_id (write_state s target now reg)) _
            tail in
        let same : (g, write_state s target now reg) ≡ end = cc in
        rw (← same) (inr (may, refl, read))
  ]
]

passed :
    (a b : Result (Unit {0})) (z : Bool) (s t : Scope)
    → (elim a [
      | err e ↦ err e
      | ok _ ↦ elim b [ err e ↦ err e | ok _ ↦ if z then err zero_user else ok s ]
    ])
      ≡ ok t
    → t ≡ s
passed (err e) b z s t h = absurd (ground arith)
passed (ok _) (err e) z s t h = absurd (ground arith)
passed (ok _) (ok _) true s t h = absurd (ground arith)
passed (ok _) (ok _) false s t h = ground arith

for_user-eq_ok :
    (u : Option ℤ) (s acting : Scope) → for_user u s ≡ ok acting → acting ≡ record s { user_id = u }
unfolding for_user make_scope
for_user-eq_ok u s acting h =
    passed (check_id s.installation_id) (check_id s.group_id) (is_zero_user u)
      (record s { user_id = u }) acting h

pub set_group_state-eq_ok :
    (s : Scope) (target : GroupState) (actor : Option ℤ) (now : ℕ) (reg : Registry)
    (end : Group × Registry)
    → set_group_state s target actor now reg ≡ ok end
    → (role_of (record s { user_id = principal actor s }) none reg ≡ some owner)
      × ((current : Group) × (get_group s.installation_id s.group_id reg ≡ ok current)
          × Moved s target now current reg end)
unfolding set_group_state
set_group_state-eq_ok s target actor now reg end h =
    let (acting, made, asked) = >>=-eq-ok (for_user (principal actor s) s) _ h in
    let (u, granted, read_next) = >>=-eq-ok (require acting manage_group_state none reg) _ asked in
    let (current, read, moved) =
      >>=-eq-ok (get_group s.installation_id s.group_id reg) _ read_next in
    let same : acting ≡ record s { user_id = principal actor s } =
      for_user-eq_ok (principal actor s) s acting made in
    (
      rw (← same) (require-owner acting reg granted),
      (current, read, move_group-eq_ok s target now current reg end moved),
    )

-- A group that was read before the change of state of a group is read after it: its own state is the
-- target, and any other group is as it was.
abbrev pub Changed : GroupState → GroupState → Type 0
Changed before after = (after ≡ before) ⊎ (can_transition before after ≡ true)

is_group-eq :
    (i g : String) (row : GroupRow)
    → is_group i g row ≡ true
    → (row.group.installation_id ≡ i) × (row.group.group_id ≡ g)
is_group-eq i g row h =
    ground (arith, str_eq_iff row.group.installation_id i, str_eq_iff row.group.group_id g)

get_group-row :
    (i g : String) (reg : Registry) (row : GroupRow)
    → fetch_one (is_group i g) reg.groups ≡ some row
    → get_group i g reg ≡ ok row.group
unfolding get_group
get_group-row i g reg row found = rw (found, get_group)

-- the row that one key finds and another key matches is the row that the other finds
row_of_key :
    (i g k l : String) (reg : Registry) (row : GroupRow)
    → fetch_one (is_group i g) reg.groups ≡ some row
    → is_group k l row ≡ true
    → get_group k l reg ≡ ok row.group
row_of_key i g k l reg row found hit =
    let (own_i, own_g) =
      is_group-eq i g row (fetch_one_sound (is_group i g) reg.groups row found) in
    let (own_k, own_l) = is_group-eq k l row hit in
    let same_i : i ≡ k = cc in
    let same_g : g ≡ l = cc in rw (← same_i, ← same_g) (get_group-row i g reg row found)

pub write_state-row :
    (s : Scope) (target : GroupState) (now : ℕ) (current : Group) (reg : Registry) (i g : String)
    (row : GroupRow)
    → get_group s.installation_id s.group_id reg ≡ ok current
    → can_transition current.state target ≡ true
    → fetch_one (is_group i g) reg.groups ≡ some row
    → (after : GroupRow) × (fetch_one (is_group i g) (write_state s target now reg).groups
        ≡ some after)
      × Changed row.group.state after.group.state
unfolding write_state
write_state-row s target now current reg i g row read may found =
    let mine = is_group s.installation_id s.group_id in
    let after =
      fetch_one-update (is_group i g) mine (with_state target now) reg.groups (λ x. refl) in
    elim (Bool-cases (mine row)) [
      | inr other ↦ (row, rw (after, found, other), inl refl)
      | inl hit ↦
          let again = row_of_key i g s.installation_id s.group_id reg row found hit in
          let same : row.group ≡ current = cc in
          (with_state target now row, rw (after, found, hit), inr (rw same may))
    ]
