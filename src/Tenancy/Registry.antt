-- ===== src/Tenancy/Registry.antt =====
-- zero/tenancy/registry.py: installations, groups and memberships. The clock is an argument, and a
-- method that raises after a committed write returns the written tables beside the exception.
use mathlib.Core.Logic.{ite}
use zero_agent.Base.{
  ℕ, ℤ, Bool, true, false, not, ◌&&◌, List, [], ◌∷◌, ◌++◌, Option, none, some, String, ◌==◌,
  string_eq, int_eq, if◌then◌else◌, fetch_one, update_where, select, Result, ok, err, ◌>>=◌,
  unknown_group, permission_denied, illegal_transition, not_serving,
}
use zero_agent.Tenancy.Roles.{
  GroupState, GroupState-discrete, pending, active, can_transition, Role, Permission,
  manage_group_state, permits, Scope, make_scope, for_user,
}

pub record Group : Type 0 where
  pub installation_id : String
  pub group_id : String
  pub platform : String
  pub platform_chat_id : Option ℤ
  pub title : String
  pub state : GroupState

pub record GroupRow : Type 0 where
  pub group : Group
  pub discovered_at : ℕ
  pub approved_at : Option ℕ

pub record Installation : Type 0 where
  pub installation_id : String
  pub label : String
  pub created_at : ℕ

pub record Membership : Type 0 where
  pub installation_id : String
  pub group_id : String
  pub user_id : ℤ
  pub role : Role
  pub added_at : ℕ

pub record Registry : Type 0 where
  pub installations : List Installation
  pub groups : List GroupRow
  pub memberships : List Membership

-- INSERT OR IGNORE
unfoldable pub create_installation : String → String → ℕ → Registry → Registry
create_installation i label now reg =
    elim (fetch_one (λ (x : Installation). x.installation_id == i) reg.installations) [
      | some _ ↦ reg
      | none ↦ record reg {
        installations =
            reg.installations
            ++ record { installation_id = i; label = label; created_at = now } ∷ [];
      }
    ]

-- the primary key of a group
abbrev pub is_group : String → String → GroupRow → Bool
is_group i g row = row.group.installation_id == i && row.group.group_id == g

abbrev pub same_chat : Option ℤ → Option ℤ → Bool
same_chat (some a) (some b) = a == b
same_chat _ _ = false

-- a row in whose way the primary key or the unique index on the chat stands
abbrev pub is_conflict : Group → GroupRow → Bool
is_conflict g row = elim (is_group g.installation_id g.group_id row) [
  | true ↦ true
  | false ↦
      row.group.installation_id == g.installation_id
      && row.group.platform == g.platform
      && same_chat row.group.platform_chat_id g.platform_chat_id
]

unfoldable pub get_group : String → String → Registry → Result Group
get_group i g reg = elim (fetch_one (is_group i g) reg.groups) [
  | none ↦ err unknown_group
  | some row ↦ ok row.group
]

unfoldable pub insert_group : Group → ℕ → Registry → Registry
insert_group g now reg = elim (fetch_one (is_conflict g) reg.groups) [
  | some _ ↦ reg
  | none ↦ record reg {
    groups = reg.groups ++ record { group = g; discovered_at = now; approved_at = none } ∷ [];
  }
]

-- the state of the argument is not read: a new group is pending
unfoldable pub discover_group : Group → ℕ → Registry → Result Group × Registry
unfolding create_installation insert_group get_group
discover_group g now reg =
    let written =
      insert_group (record g { state = pending }) now
        (create_installation g.installation_id "" now reg) in
    (get_group g.installation_id g.group_id written, written)

abbrev pub is_member : Scope → ℤ → Membership → Bool
is_member s u m =
    m.installation_id == s.installation_id && m.group_id == s.group_id && m.user_id == u

-- the user of the scope where no other is named
abbrev pub principal : Option ℤ → Scope → Option ℤ
principal none s = s.user_id
principal (some u) s = some u

unfoldable pub role_of : Scope → Option ℤ → Registry → Option Role
role_of s u reg = elim (principal u s) [
  | none ↦ none
  | some target ↦ elim (fetch_one (is_member s target) reg.memberships) [
    | none ↦ none
    | some m ↦ some m.role
  ]
]

-- `permission in self.permissions(scope, user_id)`
unfoldable pub has : Scope → Permission → Option ℤ → Registry → Bool
unfolding role_of
has s p u reg = elim (role_of s u reg) [ none ↦ false | some r ↦ permits r p ]

unfoldable pub require : Scope → Permission → Option ℤ → Registry → Result (Unit {0})
unfolding has
require s p u reg = if has s p u reg then ok tt else err permission_denied

unfoldable pub add_member : Scope → ℤ → Role → ℕ → Registry → Registry
add_member s u r now reg = elim (fetch_one (is_member s u) reg.memberships) [
  | some _ ↦ record reg {
    memberships = update_where (is_member s u) (λ m. record m { role = r }) reg.memberships;
  }
  | none ↦ record reg {
    memberships =
        reg.memberships
        ++ record {
          installation_id = s.installation_id;
          group_id = s.group_id;
          user_id = u;
          role = r;
          added_at = now;
        }
          ∷ [];
  }
]

unfoldable pub remove_member : Scope → ℤ → Registry → Registry
remove_member s u reg = record reg {
  memberships = select (λ m. not (is_member s u m)) reg.memberships;
}

-- COALESCE(?,approved_at), where the argument is the clock for `active` only
abbrev pub approved : GroupState → ℕ → Option ℕ → Option ℕ
approved active now old = some now
approved _ now old = old

abbrev pub with_state : GroupState → ℕ → GroupRow → GroupRow
with_state target now row = record row {
  group = record row.group { state = target };
  approved_at = approved target now row.approved_at;
}

-- the UPDATE of `set_group_state`
unfoldable pub write_state : Scope → GroupState → ℕ → Registry → Registry
write_state s target now reg = record reg {
  groups = update_where (is_group s.installation_id s.group_id) (with_state target now) reg.groups;
}

-- from the group that was read on
unfoldable pub move_group : Scope → GroupState → ℕ → Group → Registry → Result (Group × Registry)
unfolding write_state get_group
move_group s target now current reg =
    ite (GroupState-discrete current.state target) (ok (current, reg)) (
      if not (can_transition current.state target)
      then err illegal_transition
      else (get_group s.installation_id s.group_id (write_state s target now reg) >>= λ g.
          ok (g, write_state s target now reg)))

unfoldable pub set_group_state :
    Scope → GroupState → Option ℤ → ℕ → Registry → Result (Group × Registry)
unfolding for_user require move_group
set_group_state s target actor now reg = for_user (principal actor s) s >>= λ acting.
    require acting manage_group_state none reg >>= λ _.
    get_group s.installation_id s.group_id reg >>= λ current. move_group s target now current reg

abbrev pub is_serving : GroupState → Bool
is_serving active = true
is_serving _ = false

unfoldable pub require_serving : Scope → Registry → Result Group
unfolding get_group
require_serving s reg = get_group s.installation_id s.group_id reg >>= λ g.
    if is_serving g.state then ok g else err not_serving

-- WHERE installation_id=? AND platform=? AND platform_chat_id=?
abbrev pub is_chat : String → String → ℤ → GroupRow → Bool
is_chat i platform chat row =
    row.group.installation_id == i
    && row.group.platform == platform
    && same_chat row.group.platform_chat_id (some chat)

-- the scope that owns a chat; the arguments are those of the scope, without its group
unfoldable pub resolve_scope : Scope → String → ℤ → Registry → Result Scope
unfolding make_scope
resolve_scope s platform chat reg =
    elim (fetch_one (is_chat s.installation_id platform chat) reg.groups) [
      | none ↦ err unknown_group
      | some row ↦ make_scope (record s { group_id = row.group.group_id })
    ]
