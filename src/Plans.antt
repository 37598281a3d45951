-- ===== src/Plans.antt =====
-- apps/api/src/modules/entitlements: quota.ts, entitlement.snapshot.ts, plan.repo.ts and
-- entitlement.service.ts; and the action events that every organization module writes.
-- The advisory lock of quota-lock.ts and the row locks put the transactions into some order; each
-- transaction here runs alone.
pub mod Quota
pub mod Service
use orgistry.Prelude.{
  ℕ, ◌+◌, String, Bool, false, not, ◌&&◌, Option, none, some, leb, ◌==◌, if◌then◌else◌,
}
use orgistry.Tables.{find_row, count_rows, update_rows, insert_row}
use orgistry.Metadata.{
  Entries, end, entry, null, codes, id_entry, text_entry, append_entries,
  sanitize_security_metadata,
}
use orgistry.Errors.{AppError, quota_exceeded, entitlement_required, plan_state_missing}
use orgistry.Catalog.{
  PlanKey, free, pro, business, EntitlementKey, EntitlementValues, entitlements_for_plan,
}
use orgistry.Db.{
  Database, OrganizationPlanRow, MembershipRow, SecurityEventRow, SecurityActorType, RequestContext,
}
use orgistry.Db.Transaction.{
  Result, ok, throw, Tx, ◌>>=◌, ◌>>◌, return, fail, read, write, reject_if, require_row,
}
use orgistry.Access.{is_active_member}

-- The acting user and membership of an organization action.
pub record ActionContext : Type 0 where
  pub actor_user_id : ℕ
  pub actor_membership_id : Option ℕ
  pub request : RequestContext

abbrev pub optional_id_entry : String → Option ℕ → Entries → Entries
optional_id_entry key none rest = entry (codes key) null rest
optional_id_entry key (some id) rest = id_entry key id rest

-- recordProjectEvent, recordPlanEvent, recordInvitationEvent and recordKeyEvent: they differ in the
-- metadata that follows the acting membership.
unfoldable pub record_action_event : ℕ → String → Entries → ActionContext → Tx (Unit {0})
record_action_event organization_id event_type metadata ctx = write λ db.
    let event : SecurityEventRow = record {
      user_id = some ctx.actor_user_id;
      session_id = none;
      organization_id = some organization_id;
      actor_type = SecurityActorType.user;
      event_type = event_type;
      metadata =
          sanitize_security_metadata
            (optional_id_entry "actorMembershipId" ctx.actor_membership_id metadata);
      ip_address = ctx.request.ip_address;
      user_agent = ctx.request.user_agent;
      request_id = ctx.request.request_id;
    } in
    record db { security_events = insert_row event db.security_events }

pub data QuotaStatus : Type 0 where
  allowed exceeded : QuotaStatus

pub record QuotaEvaluation : Type 0 where
  pub status : QuotaStatus
  pub limit : ℕ
  pub current : ℕ

unfoldable pub evaluate_count_quota : ℕ → ℕ → QuotaEvaluation
evaluate_count_quota current limit = record {
  status = if leb limit current then exceeded else allowed;
  limit = limit;
  current = current;
}

quota_answer : EntitlementKey → ℕ → ℕ → QuotaStatus → Tx (Unit {0})
quota_answer quota limit current allowed = return tt
quota_answer quota limit current exceeded = fail (quota_exceeded quota limit current)

unfoldable pub require_quota : EntitlementKey → QuotaEvaluation → Tx (Unit {0})
unfolding quota_answer
require_quota quota e = quota_answer quota e.limit e.current e.status

-- The value of a boolean entitlement; a numeric key counts as not granted.
unfoldable pub is_granted : EntitlementValues → EntitlementKey → Bool
is_granted values EntitlementKey.api_keys_access = values.api_keys_access
is_granted values EntitlementKey.audit_log_access = values.audit_log_access
is_granted values _ = false

unfoldable pub require_entitlement : EntitlementValues → EntitlementKey → Tx (Unit {0})
require_entitlement values key = reject_if (not (is_granted values key)) (entitlement_required key)

unfoldable pub find_organization_plan : ℕ → Database → Option OrganizationPlanRow
find_organization_plan organization_id db =
    find_row (λ p. p.organization_id == organization_id) db.organization_plans

pub record EntitlementSnapshot : Type 0 where
  pub plan_key : PlanKey
  pub values : EntitlementValues

-- lockOrganizationEntitlements, and resolveEntitlements of the service.
unfoldable pub lock_organization_entitlements : ℕ → Tx EntitlementSnapshot
lock_organization_entitlements organization_id = do
  found ← read (find_organization_plan organization_id)
  row ← require_row found plan_state_missing
  return (record { plan_key = row.plan_key; values = entitlements_for_plan row.plan_key })

unfoldable pub is_active_member_of : ℕ → MembershipRow → Bool
is_active_member_of organization_id m =
    m.organization_id == organization_id && is_active_member m.status

unfoldable pub count_active_members : ℕ → Database → ℕ
count_active_members organization_id db =
    count_rows (is_active_member_of organization_id) db.memberships

unfoldable pub require_member_addition_quota : ℕ → Tx (Unit {0})
require_member_addition_quota organization_id = do
  e ← lock_organization_entitlements organization_id
  current ← read (count_active_members organization_id)
  require_quota EntitlementKey.max_members (evaluate_count_quota current e.values.max_members)

unfoldable pub require_member_reservation_quota : ℕ → ℕ → Tx (Unit {0})
require_member_reservation_quota organization_id pending_invitation_count = do
  e ← lock_organization_entitlements organization_id
  active_members ← read (count_active_members organization_id)
  require_quota EntitlementKey.max_members
      (evaluate_count_quota (active_members + pending_invitation_count) e.values.max_members)

unfoldable pub require_api_keys_access : ℕ → Tx (Unit {0})
require_api_keys_access organization_id = do
  e ← lock_organization_entitlements organization_id
  require_entitlement e.values EntitlementKey.api_keys_access

unfoldable pub require_audit_log_access : ℕ → Tx (Unit {0})
require_audit_log_access organization_id = do
  e ← lock_organization_entitlements organization_id
  require_entitlement e.values EntitlementKey.audit_log_access

abbrev pub plan_key_text : PlanKey → String
plan_key_text free = "free"
plan_key_text pro = "pro"
plan_key_text business = "business"

pub record ChangeOrganizationPlanResult : Type 0 where
  pub previous_plan_key : PlanKey
  pub plan_state : OrganizationPlanRow

-- The row that the update leaves of the one that was locked.
abbrev pub assign_plan : PlanKey → ℕ → ℕ → OrganizationPlanRow → OrganizationPlanRow
assign_plan target_plan_key user_id now row = record row {
  plan_key = target_plan_key;
  changed_by_user_id = some user_id;
  assigned_at = now;
  updated_at = now;
}

unfoldable pub change_organization_plan :
    ℕ → PlanKey → ActionContext → ℕ → Tx ChangeOrganizationPlanResult
change_organization_plan organization_id target_plan_key ctx now = do
  found ← read (find_organization_plan organization_id)
  current ← require_row found plan_state_missing
  write λ db. record db {
    organization_plans =
        update_rows (λ p. p.id == current.id) (assign_plan target_plan_key ctx.actor_user_id now)
          db.organization_plans;
  }
  record_action_event organization_id "plan.changed_demo"
      (text_entry "targetType" "organization_plan" (
        text_entry "previousPlanKey" (plan_key_text current.plan_key)
          (text_entry "newPlanKey" (plan_key_text target_plan_key) end)))
      ctx
  return (record {
    previous_plan_key = current.plan_key;
    plan_state = assign_plan target_plan_key ctx.actor_user_id now current;
  })
