-- ===== src/Tenancy/Ids.antt =====
-- The guard on owner identifiers (zero/tenancy/models.py, FORBIDDEN_IDS and _CANDIDATE_PREFIX),
-- which the Office repository and the proactive outbox repeat in the same order.
use zero_agent.Base.{
  ℕ, Bool, ◌||◌, List, Option, none, some, String, if◌then◌else◌, codes, codes_beq, is_blank,
  fold_codes, has_prefix, Error, owner_empty, owner_forbidden, owner_candidate,
}

abbrev pub is_forbidden : List ℕ → Bool
is_forbidden v =
    codes_beq v (codes "legacy")
    || codes_beq v (codes "default")
    || codes_beq v (codes "0")
    || codes_beq v (codes "")

abbrev pub candidate_prefix : List ℕ
candidate_prefix = codes "candidate:"

-- one round of the loop over (installation_id, group_id)
unfoldable pub id_fault : String → Option Error
unfolding is_blank has_prefix
id_fault value =
    if is_blank (codes value)
    then some owner_empty
    else if is_forbidden (fold_codes (codes value))
    then some owner_forbidden
    else if has_prefix candidate_prefix (codes value)
    then some owner_candidate
    else none

-- the whole loop: the first fault found
unfoldable pub owner_fault : String → String → Option Error
owner_fault installation_id group_id = elim (id_fault installation_id) [
  | some e ↦ some e
  | none ↦ id_fault group_id
]
