-- ===== src/Db/Rows.antt =====
-- packages/db/src/schema: the rows and the tables.
-- An identifier is an opaque string of which the code uses the equality and the order: a number
-- here. Only the seeded ids of roles and permissions have a value, so those are texts. A time is
-- the number of milliseconds since the epoch, but for `created_at`, which the database sets in
-- microseconds. Hashes and e-mail addresses are texts; a slug is its code units.
use orgistry.Prelude.{ℕ, List, String, Option}
use orgistry.Catalog.{RoleKey, PermissionKey, PlanKey, ApiKeyScope}
use orgistry.Metadata.{Entries}

pub data OrganizationType : Type 0 where
  personal team : OrganizationType

pub data OrganizationStatus : Type 0 where
  active archived suspended : OrganizationStatus

pub data MembershipStatus : Type 0 where
  active removed : MembershipStatus

pub data InvitationStatus : Type 0 where
  pending accepted revoked expired : InvitationStatus

pub data SecurityActorType : Type 0 where
  user system anonymous api_key : SecurityActorType

pub data UserStatus : Type 0 where
  active disabled : UserStatus

pub record UserRow : Type 0 where
  pub id : ℕ
  pub email : String
  pub normalized_email : String
  pub password_hash : String
  pub display_name : String
  pub status : UserStatus
  pub email_verified_at : Option ℕ
  pub deleted_at : Option ℕ
  pub updated_at : ℕ

pub record RoleRow : Type 0 where
  pub id : String
  pub key : RoleKey
  pub name : String

pub record PermissionRow : Type 0 where
  pub id : String
  pub key : PermissionKey

pub record RolePermissionRow : Type 0 where
  pub role_id : String
  pub permission_id : String

pub record OrganizationRow : Type 0 where
  pub id : ℕ
  pub name : String
  pub slug : List ℕ
  pub organization_type : OrganizationType
  pub status : OrganizationStatus
  pub created_by_user_id : ℕ
  pub created_at : ℕ

pub record MembershipRow : Type 0 where
  pub id : ℕ
  pub user_id : ℕ
  pub organization_id : ℕ
  pub role_id : String
  pub status : MembershipStatus
  pub invited_by_user_id : Option ℕ
  pub joined_at : ℕ
  pub removed_at : Option ℕ
  pub removed_by_user_id : Option ℕ
  pub created_at : ℕ
  pub updated_at : ℕ

pub record OrganizationPlanRow : Type 0 where
  pub id : ℕ
  pub organization_id : ℕ
  pub plan_key : PlanKey
  pub assigned_at : ℕ
  pub changed_by_user_id : Option ℕ
  pub updated_at : ℕ

pub record ProjectRow : Type 0 where
  pub id : ℕ
  pub organization_id : ℕ
  pub name : String
  pub created_by_user_id : ℕ
  pub deleted_at : Option ℕ
  pub deleted_by_user_id : Option ℕ
  pub created_at : ℕ
  pub updated_at : ℕ

pub record InvitationRow : Type 0 where
  pub id : ℕ
  pub organization_id : ℕ
  pub invited_email : String
  pub invited_email_normalized : String
  pub role_id : String
  pub token_hash : String
  pub status : InvitationStatus
  pub invited_by_user_id : ℕ
  pub accepted_by_user_id : Option ℕ
  pub revoked_by_user_id : Option ℕ
  pub expires_at : ℕ
  pub accepted_at : Option ℕ
  pub revoked_at : Option ℕ
  pub created_at : ℕ
  pub updated_at : ℕ

pub record ApiKeyRow : Type 0 where
  pub id : ℕ
  pub organization_id : ℕ
  pub name : String
  pub display_prefix : List ℕ
  pub secret_hash : String
  pub scopes : List ApiKeyScope
  pub expires_at : Option ℕ
  pub last_used_at : Option ℕ
  pub revoked_at : Option ℕ
  pub revoked_by_user_id : Option ℕ
  pub created_by_user_id : ℕ
  pub created_at : ℕ
  pub updated_at : ℕ

pub record SessionRow : Type 0 where
  pub id : ℕ
  pub user_id : ℕ
  pub ip_address : Option String
  pub user_agent : Option String
  pub expires_at : ℕ
  pub revoked_at : Option ℕ
  pub revoked_reason : Option String
  pub created_at : ℕ
  pub updated_at : ℕ

pub record RefreshTokenRow : Type 0 where
  pub id : ℕ
  pub session_id : ℕ
  pub token_hash : String
  pub family_id : ℕ
  pub parent_token_id : Option ℕ
  pub replacement_token_id : Option ℕ
  pub used_at : Option ℕ
  pub expires_at : ℕ
  pub revoked_at : Option ℕ
  pub revoked_reason : Option String

-- The e-mailed tokens of an account: the two tables have the same columns.
pub record AccountTokenRow : Type 0 where
  pub id : ℕ
  pub user_id : ℕ
  pub token_hash : String
  pub expires_at : ℕ
  pub used_at : Option ℕ
  pub invalidated_at : Option ℕ

abbrev pub EmailVerificationTokenRow : Type 0
EmailVerificationTokenRow = AccountTokenRow

abbrev pub PasswordResetTokenRow : Type 0
PasswordResetTokenRow = AccountTokenRow

pub record PendingRegistrationRow : Type 0 where
  pub id : ℕ
  pub email : String
  pub normalized_email : String
  pub password_hash : String
  pub display_name : String
  pub token_hash : String
  pub invitation_id : Option ℕ
  pub expires_at : ℕ
  pub used_at : Option ℕ
  pub invalidated_at : Option ℕ

pub record SecurityEventRow : Type 0 where
  pub user_id : Option ℕ
  pub session_id : Option ℕ
  pub organization_id : Option ℕ
  pub actor_type : SecurityActorType
  pub event_type : String
  pub metadata : Entries
  pub ip_address : Option String
  pub user_agent : Option String
  pub request_id : Option String

pub record Database : Type 0 where
  pub users : List UserRow
  pub roles : List RoleRow
  pub permissions : List PermissionRow
  pub role_permissions : List RolePermissionRow
  pub organizations : List OrganizationRow
  pub memberships : List MembershipRow
  pub organization_plans : List OrganizationPlanRow
  pub projects : List ProjectRow
  pub invitations : List InvitationRow
  pub api_keys : List ApiKeyRow
  pub sessions : List SessionRow
  pub refresh_tokens : List RefreshTokenRow
  pub email_verification_tokens : List EmailVerificationTokenRow
  pub password_reset_tokens : List PasswordResetTokenRow
  pub pending_registrations : List PendingRegistrationRow
  pub security_events : List SecurityEventRow

-- What a request carries into the audit records.
pub record RequestContext : Type 0 where
  pub request_id : Option String
  pub ip_address : Option String
  pub user_agent : Option String
