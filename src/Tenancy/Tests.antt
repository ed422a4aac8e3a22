-- ===== src/Tenancy/Tests.antt =====
-- Runs of the quotas and the settings of a group.
use zero_agent.Base.{
  ◌≡◌, refl, false, List, [], ◌∷◌, none, some, pos, Result, ok, err, All, fetch_one, update_where,
  count_where, select, cut, is_blank,
}
use zero_agent.Tenancy.Ids.{id_fault, owner_fault}
use zero_agent.Tenancy.Roles.{
  owner, permits, Scope, all_id_codes, is_id, check_id, make_scope, for_user,
}
use zero_agent.Tenancy.Registry.{Registry, role_of, has, require}
use zero_agent.Tenancy.Quotas.{
  hour, Limit, UsageRecord, QuotaDecision, month_of, bucket_of, limits_in, quotas, used_of,
  write_used, charge, consume_limits, consume_quotas,
}
use zero_agent.Tenancy.Refunds.{
  get_quota, refund_each, refund_quotas, consume, refund_quotas-consume_quotas,
  consume-consume_quotas,
}
use zero_agent.Tenancy.Settings.{
  Setting, setting_keys, write_setting, set_setting, get_setting, get_setting-set_setting,
}

program : Unit {0}
unfolding fetch_one update_where count_where select cut is_blank id_fault owner_fault permits
    all_id_codes is_id check_id make_scope for_user role_of has require month_of bucket_of limits_in
    quotas used_of write_used charge consume_limits consume_quotas get_quota refund_each
    refund_quotas consume setting_keys write_setting set_setting get_setting
program = tt

abbrev scope : Scope
scope = record {
  installation_id = "home";
  group_id = "readers";
  user_id = some (pos 7);
  thread_id = none;
  request_id = "";
  trace_id = "-";
}

abbrev limits : List Limit
limits =
    record {
      installation_id = "home";
      group_id = "readers";
      resource = "replies";
      period = hour;
      limit_value = 2;
    }
    ∷ []

abbrev spent : Result (QuotaDecision × List UsageRecord) → QuotaDecision × List UsageRecord
spent (ok end) = end
spent (err e) = (record { allowed = false; blocked_period = none; usage = []; limits = [] }, [])

abbrev end : QuotaDecision × List UsageRecord
end = spent (consume_quotas scope "replies" (pos 2) 7200 limits [])

refund_quotas-consume_quotas_example :
    All
      (λ l.
        used_of scope "replies" 7200 l.0 (refund_quotas scope "replies" 7200 (pos 2) limits end.1)
        ≡ used_of scope "replies" 7200 l.0 [])
      (quotas scope "replies" limits)
unfolding program
refund_quotas-consume_quotas_example =
    refund_quotas-consume_quotas scope "replies" 7200 limits [] 1 end refl refl

consume-consume_quotas_example :
    ((consume scope "replies" 7200 2 hour limits []).0.0 ≡ end.0.allowed)
    × ((consume scope "replies" 7200 2 hour limits []).1 ≡ end.1)
unfolding program
consume-consume_quotas_example =
    consume-consume_quotas scope "replies" 7200 limits [] 1 hour 2 end refl refl refl

abbrev registry : Registry
registry = record {
  installations = [];
  groups = [];
  memberships =
      record {
        installation_id = "home";
        group_id = "readers";
        user_id = pos 7;
        role = owner;
        added_at = 1;
      }
      ∷ [];
}

abbrev rows_of : Result (List Setting) → List Setting
rows_of (ok rows) = rows
rows_of (err e) = []

abbrev french : List Setting
french = rows_of (set_setting scope "language" "\"fr\"" none 5 registry [])

get_setting-set_setting_example : get_setting scope "language" "null" french ≡ "\"fr\""
unfolding program
get_setting-set_setting_example =
    get_setting-set_setting scope scope "language" "language" "\"fr\"" "null" 5 none registry []
      french refl
