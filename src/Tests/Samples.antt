-- ===== src/Tests/Samples.antt =====
-- A small organization with its rows in every table.
use orgistry.Prelude.{String, Option, none, some, [], ◌∷◌, if◌then◌else◌, str_eq}
use orgistry.Db.{
  UserStatus, OrganizationType, OrganizationStatus, MembershipStatus, InvitationStatus, UserRow,
  OrganizationRow, MembershipRow, OrganizationPlanRow, ProjectRow, InvitationRow, ApiKeyRow,
  SessionRow, RefreshTokenRow, Database, RequestContext, AccountTokenRow,
}
use orgistry.Db.Transaction.{throw, Result, ok}
use orgistry.Service.{World}
use orgistry.Plans.{ActionContext}
use orgistry.Catalog.{owner, member, role_ids, pro, scope_projects_read}
use orgistry.Metadata.{codes}
use orgistry.Access.Seed.{role_seed, permission_seed, role_permission_seed}
use orgistry.Sessions.Service.{Claims, AuthCrypto}

abbrev pub ann_user : UserRow
ann_user = record {
  id = 1;
  email = "ann@a.org";
  normalized_email = "ann@a.org";
  password_hash = "old";
  display_name = "Ann";
  status = UserStatus.active;
  email_verified_at = some 1;
  deleted_at = none;
  updated_at = 1;
}

abbrev pub bob_user : UserRow
bob_user = record ann_user {
  id = 2;
  email = "bob@a.org";
  normalized_email = "bob@a.org";
  display_name = "Bob";
}

abbrev pub acme : OrganizationRow
acme = record {
  id = 1;
  name = "Acme";
  slug = codes "acme";
  organization_type = OrganizationType.team;
  status = OrganizationStatus.active;
  created_by_user_id = 1;
  created_at = 1;
}

abbrev pub ann_membership : MembershipRow
ann_membership = record {
  id = 1;
  user_id = 1;
  organization_id = 1;
  role_id = role_ids owner;
  status = MembershipStatus.active;
  invited_by_user_id = none;
  joined_at = 1;
  removed_at = none;
  removed_by_user_id = none;
  created_at = 1;
  updated_at = 1;
}

abbrev pub bob_membership : MembershipRow
bob_membership = record ann_membership {
  id = 2;
  user_id = 2;
  role_id = role_ids member;
  invited_by_user_id = some 1;
}

abbrev pub acme_plan : OrganizationPlanRow
acme_plan = record {
  id = 1;
  organization_id = 1;
  plan_key = pro;
  assigned_at = 1;
  changed_by_user_id = none;
  updated_at = 1;
}

abbrev pub site : ProjectRow
site = record {
  id = 1;
  organization_id = 1;
  name = "Site";
  created_by_user_id = 1;
  deleted_at = none;
  deleted_by_user_id = none;
  created_at = 1;
  updated_at = 1;
}

abbrev pub other_site : ProjectRow
other_site = record site { id = 2; organization_id = 2 }

abbrev pub cara_invitation : InvitationRow
cara_invitation = record {
  id = 1;
  organization_id = 1;
  invited_email = "cara@a.org";
  invited_email_normalized = "cara@a.org";
  role_id = role_ids member;
  token_hash = "t1";
  status = InvitationStatus.pending;
  invited_by_user_id = 1;
  accepted_by_user_id = none;
  revoked_by_user_id = none;
  expires_at = 100;
  accepted_at = none;
  revoked_at = none;
  created_at = 1;
  updated_at = 1;
}

abbrev pub acme_key : ApiKeyRow
acme_key = record {
  id = 1;
  organization_id = 1;
  name = "ci";
  display_prefix = codes "orgistry_A";
  secret_hash = "k1";
  scopes = scope_projects_read ∷ [];
  expires_at = some 100;
  last_used_at = none;
  revoked_at = none;
  revoked_by_user_id = none;
  created_by_user_id = 1;
  created_at = 1;
  updated_at = 1;
}

abbrev pub ann_session : SessionRow
ann_session = record {
  id = 1;
  user_id = 1;
  ip_address = none;
  user_agent = none;
  expires_at = 100;
  revoked_at = none;
  revoked_reason = none;
  created_at = 1;
  updated_at = 1;
}

abbrev pub first_token : RefreshTokenRow
first_token = record {
  id = 1;
  session_id = 1;
  token_hash = "r1";
  family_id = 1;
  parent_token_id = none;
  replacement_token_id = none;
  used_at = none;
  expires_at = 100;
  revoked_at = none;
  revoked_reason = none;
}

-- A token of the same login that was used before.
abbrev pub used_token : RefreshTokenRow
used_token = record first_token {
  id = 2;
  token_hash = "r0";
  used_at = some 1;
  replacement_token_id = some 1;
}

-- A token that was mailed to Ann.
abbrev pub ann_mailed_token : AccountTokenRow
ann_mailed_token = record {
  id = 1;
  user_id = 1;
  token_hash = "p1";
  expires_at = 100;
  used_at = none;
  invalidated_at = none;
}

abbrev pub sample : Database
sample = record {
  users = ann_user ∷ bob_user ∷ [];
  roles = role_seed;
  permissions = permission_seed;
  role_permissions = role_permission_seed;
  organizations = acme ∷ [];
  memberships = ann_membership ∷ bob_membership ∷ [];
  organization_plans = acme_plan ∷ [];
  projects = site ∷ other_site ∷ [];
  invitations = cara_invitation ∷ [];
  api_keys = acme_key ∷ [];
  sessions = ann_session ∷ record ann_session { id = 2 } ∷ [];
  refresh_tokens = used_token ∷ first_token ∷ [];
  email_verification_tokens = [];
  password_reset_tokens = ann_mailed_token ∷ [];
  pending_registrations = [];
  security_events = [];
}

abbrev pub quiet_request : RequestContext
quiet_request = record { request_id = none; ip_address = none; user_agent = none }

abbrev pub ann_acts : ActionContext
ann_acts = record { actor_user_id = 1; actor_membership_id = some 1; request = quiet_request }

-- The tables that a transaction on the sample leaves.
abbrev pub after : {A : Type 0} → Result (A × Database) → Database
after (ok (a, db)) = db
after (throw e) = sample

abbrev pub world : World (Unit {0})
world = record { db = sample; store = tt }

-- The sample before Ann has verified her address.
abbrev pub unverified_ann : UserRow
unverified_ann = record ann_user { email_verified_at = none }

abbrev pub unverified : Database
unverified = record sample {
  users = unverified_ann ∷ bob_user ∷ [];
  email_verification_tokens = ann_mailed_token ∷ [];
}

-- A crypto whose hash of an opaque token is the token, with two access tokens.
abbrev pub names_ann : String → Option Claims
names_ann token =
    if str_eq token "a1"
    then some (record { sub = 1; session_id = 1 })
    else if str_eq token "a2"
    then some (record { sub = 1; session_id = 3 })
    else none

abbrev pub plain_crypto : AuthCrypto
plain_crypto = record {
  hash_opaque_token = λ token. token;
  verify_access_token = names_ann;
  sign_access_token = λ user_id session_id. "a2";
  verify_password = λ hash password. str_eq hash password;
  dummy_hash = "";
}
