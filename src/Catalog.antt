-- ===== src/Catalog.antt =====
-- packages/contracts/src/access.ts and plans.ts, packages/db/src/schema/organizations.ts and
-- permissions.ts: the fixed roles, permissions and plans, and the seeded rows.
pub mod Gradient
use Prim.Native.Char.{code}
use Prim.Native.String
use orgistry.Prelude.{
  ℕ, Bool, true, false, List, [], ◌∷◌, ◌++◌, map, String, if◌then◌else◌, ◌==◌, any,
}

pub data RoleKey : Type 0 where
  owner admin member viewer : RoleKey

abbrev pub role_key_order : List RoleKey
role_key_order = owner ∷ admin ∷ member ∷ viewer ∷ []

-- ROLE_IDS: the seeded row's id for each key.
unfoldable pub role_ids : RoleKey → String
role_ids owner = "role_owner"
role_ids admin = "role_admin"
role_ids member = "role_member"
role_ids viewer = "role_viewer"

pub data PermissionKey : Type 0 where
  org_read org_update : PermissionKey
  members_read members_invite members_change_role members_remove : PermissionKey
  invitations_read invitations_create invitations_revoke : PermissionKey
  roles_read permissions_read : PermissionKey
  projects_read projects_create projects_update projects_delete : PermissionKey
  api_keys_read api_keys_create api_keys_revoke : PermissionKey
  audit_events_read : PermissionKey
  plan_read plan_change_demo : PermissionKey
  sessions_read sessions_revoke : PermissionKey

abbrev pub permission_key_list : List PermissionKey
permission_key_list =
    org_read ∷ org_update ∷ members_read ∷ members_invite ∷ members_change_role ∷ members_remove
    ∷ invitations_read ∷ invitations_create ∷ invitations_revoke ∷ roles_read ∷ permissions_read
    ∷ projects_read ∷ projects_create ∷ projects_update ∷ projects_delete ∷ api_keys_read
    ∷ api_keys_create ∷ api_keys_revoke ∷ audit_events_read ∷ plan_read ∷ plan_change_demo
    ∷ sessions_read ∷ sessions_revoke ∷ []

-- The key's place in the catalog (PERMISSION_RANK of rbac.service.ts).
unfoldable pub permission_rank : PermissionKey → ℕ
permission_rank org_read = 0
permission_rank org_update = 1
permission_rank members_read = 2
permission_rank members_invite = 3
permission_rank members_change_role = 4
permission_rank members_remove = 5
permission_rank invitations_read = 6
permission_rank invitations_create = 7
permission_rank invitations_revoke = 8
permission_rank roles_read = 9
permission_rank permissions_read = 10
permission_rank projects_read = 11
permission_rank projects_create = 12
permission_rank projects_update = 13
permission_rank projects_delete = 14
permission_rank api_keys_read = 15
permission_rank api_keys_create = 16
permission_rank api_keys_revoke = 17
permission_rank audit_events_read = 18
permission_rank plan_read = 19
permission_rank plan_change_demo = 20
permission_rank sessions_read = 21
permission_rank sessions_revoke = 22

abbrev pub same_permission : PermissionKey → PermissionKey → Bool
same_permission p q = permission_rank p == permission_rank q

-- The machine string of a key.
unfoldable pub permission_key_text : PermissionKey → String
permission_key_text org_read = "org.read"
permission_key_text org_update = "org.update"
permission_key_text members_read = "members.read"
permission_key_text members_invite = "members.invite"
permission_key_text members_change_role = "members.change_role"
permission_key_text members_remove = "members.remove"
permission_key_text invitations_read = "invitations.read"
permission_key_text invitations_create = "invitations.create"
permission_key_text invitations_revoke = "invitations.revoke"
permission_key_text roles_read = "roles.read"
permission_key_text permissions_read = "permissions.read"
permission_key_text projects_read = "projects.read"
permission_key_text projects_create = "projects.create"
permission_key_text projects_update = "projects.update"
permission_key_text projects_delete = "projects.delete"
permission_key_text api_keys_read = "api_keys.read"
permission_key_text api_keys_create = "api_keys.create"
permission_key_text api_keys_revoke = "api_keys.revoke"
permission_key_text audit_events_read = "audit_events.read"
permission_key_text plan_read = "plan.read"
permission_key_text plan_change_demo = "plan.change_demo"
permission_key_text sessions_read = "sessions.read"
permission_key_text sessions_revoke = "sessions.revoke"

-- ROLE_PERMISSIONS.
unfoldable pub role_permissions : RoleKey → List PermissionKey
role_permissions owner = permission_key_list
role_permissions admin =
    org_read ∷ org_update ∷ members_read ∷ members_invite ∷ members_change_role ∷ members_remove
    ∷ invitations_read ∷ invitations_create ∷ invitations_revoke ∷ roles_read ∷ permissions_read
    ∷ projects_read ∷ projects_create ∷ projects_update ∷ projects_delete ∷ api_keys_read
    ∷ api_keys_create ∷ api_keys_revoke ∷ audit_events_read ∷ plan_read ∷ sessions_read
    ∷ sessions_revoke ∷ []
role_permissions member =
    org_read ∷ members_read ∷ roles_read ∷ permissions_read ∷ projects_read ∷ projects_create
    ∷ projects_update ∷ plan_read ∷ []
role_permissions viewer = org_read ∷ projects_read ∷ plan_read ∷ []

-- `list.includes(key)`, and `has` of the set built from the list.
unfoldable pub has_permission : List PermissionKey → PermissionKey → Bool
has_permission keys p = any (same_permission p) keys

dots_to_underscores : String → String
dots_to_underscores String.[] = String.[]
dots_to_underscores (String.◌∷◌ c s) =
    if code c == b'.'
    then String.◌∷◌ "_" (dots_to_underscores s)
    else String.◌∷◌ c (dots_to_underscores s)

-- permissionRowId.
unfoldable pub permission_row_id : PermissionKey → String
unfolding dots_to_underscores permission_key_text
permission_row_id p = String.◌++◌ "perm_" (dots_to_underscores (permission_key_text p))

pub data PlanKey : Type 0 where
  free pro business : PlanKey

abbrev pub plan_key_list : List PlanKey
plan_key_list = free ∷ pro ∷ business ∷ []

abbrev pub default_plan_key : PlanKey
default_plan_key = free

pub data EntitlementKey : Type 0 where
  max_members max_projects api_keys_access max_api_keys audit_log_access : EntitlementKey
  audit_retention_days : EntitlementKey

pub record EntitlementValues : Type 0 where
  pub max_members : ℕ
  pub max_projects : ℕ
  pub api_keys_access : Bool
  pub max_api_keys : ℕ
  pub audit_log_access : Bool
  pub audit_retention_days : ℕ

-- The entitlements of PLAN_CATALOG.
unfoldable pub entitlements_for_plan : PlanKey → EntitlementValues
entitlements_for_plan free = record {
  max_members = 3;
  max_projects = 3;
  api_keys_access = false;
  max_api_keys = 0;
  audit_log_access = false;
  audit_retention_days = 0;
}
entitlements_for_plan pro = record {
  max_members = 10;
  max_projects = 20;
  api_keys_access = true;
  max_api_keys = 5;
  audit_log_access = true;
  audit_retention_days = 30;
}
entitlements_for_plan business = record {
  max_members = 50;
  max_projects = 100;
  api_keys_access = true;
  max_api_keys = 25;
  audit_log_access = true;
  audit_retention_days = 90;
}

pub data ApiKeyScope : Type 0 where
  scope_projects_read : ApiKeyScope

unfoldable pub same_scope : ApiKeyScope → ApiKeyScope → Bool
same_scope scope_projects_read scope_projects_read = true
