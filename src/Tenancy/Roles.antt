-- ===== src/Tenancy/Roles.antt =====
-- zero/tenancy/models.py: the lifecycle of a group, the roles with their permissions, and the scope
-- that owns a piece of work.
use zero_agent.Base.{
  ℕ, ℤ, pos, Bool, true, false, not, ◌&&◌, ◌||◌, List, [], ◌∷◌, Option, none, some, String, Result,
  ok, err, leb, nat_beq, if◌then◌else◌, codes, fold_codes, has_prefix, length, ◌==◌, int_eq,
  invalid_id, owner_forbidden, owner_candidate, zero_user,
}
use zero_agent.Tenancy.Ids.{is_forbidden, candidate_prefix}

pub data GroupState : Type 0 where
  pending active disabled archived removal_pending : GroupState

unfoldable pub GroupState-discrete : Discrete GroupState
GroupState-discrete = hlevel

-- `target in GROUP_TRANSITIONS[current]`
unfoldable pub can_transition : GroupState → GroupState → Bool
can_transition pending active = true
can_transition pending disabled = true
can_transition pending archived = true
can_transition active disabled = true
can_transition active removal_pending = true
can_transition active archived = true
can_transition disabled active = true
can_transition disabled removal_pending = true
can_transition disabled archived = true
can_transition removal_pending archived = true
can_transition removal_pending active = true
can_transition _ _ = false

pub data Role : Type 0 where
  owner admin member viewer : Role

pub data Permission : Type 0 where
  read_group send_message read_memory write_memory manage_settings : Permission
  manage_members manage_group_state use_tools view_usage : Permission

abbrev pub viewer_may : Permission → Bool
viewer_may read_group = true
viewer_may view_usage = true
viewer_may _ = false

abbrev pub member_may : Permission → Bool
member_may send_message = true
member_may read_memory = true
member_may write_memory = true
member_may use_tools = true
member_may p = viewer_may p

abbrev pub admin_may : Permission → Bool
admin_may manage_settings = true
admin_may manage_members = true
admin_may p = member_may p

abbrev pub owner_may : Permission → Bool
owner_may manage_group_state = true
owner_may p = admin_may p

-- `permission in permissions_for(role)`
unfoldable pub permits : Role → Permission → Bool
permits viewer p = viewer_may p
permits member p = member_may p
permits admin p = admin_may p
permits owner p = owner_may p

pub record Scope : Type 0 where
  pub installation_id : String
  pub group_id : String
  pub user_id : Option ℤ
  pub thread_id : Option ℤ
  pub request_id : String
  pub trace_id : String

abbrev pub is_alphanumeric : ℕ → Bool
is_alphanumeric c =
    (leb b'0' c && leb c b'9') || (leb b'A' c && leb c b'Z') || (leb b'a' c && leb c b'z')

abbrev pub is_id_code : ℕ → Bool
is_id_code c =
    is_alphanumeric c || nat_beq c b'_' || nat_beq c b'.' || nat_beq c b':' || nat_beq c b'-'

unfoldable pub all_id_codes : List ℕ → Bool
all_id_codes [] = true
all_id_codes (c ∷ s) = is_id_code c && all_id_codes s

-- `_ID.fullmatch(value)`
unfoldable pub is_id : List ℕ → Bool
unfolding all_id_codes
is_id [] = false
is_id (c ∷ s) = is_alphanumeric c && all_id_codes s && leb (length s) 127

-- one round of the loop of `__post_init__`
unfoldable pub check_id : String → Result (Unit {0})
unfolding is_id has_prefix
check_id value =
    if not (is_id (codes value))
    then err invalid_id
    else if is_forbidden (fold_codes (codes value))
    then err owner_forbidden
    else if has_prefix candidate_prefix (codes value)
    then err owner_candidate
    else ok tt

abbrev pub is_zero_user : Option ℤ → Bool
is_zero_user none = false
is_zero_user (some u) = u == pos 0

-- `__post_init__`, which every way to make a scope runs
unfoldable pub make_scope : Scope → Result Scope
unfolding check_id
make_scope s = elim (check_id s.installation_id) [
  | err e ↦ err e
  | ok _ ↦ elim (check_id s.group_id) [
    | err e ↦ err e
    | ok _ ↦ if is_zero_user s.user_id then err zero_user else ok s
  ]
]

unfoldable pub for_user : Option ℤ → Scope → Result Scope
unfolding make_scope
for_user u s = make_scope (record s { user_id = u })

unfoldable pub with_thread : Option ℤ → Scope → Result Scope
unfolding make_scope
with_thread t s = make_scope (record s { thread_id = t })
