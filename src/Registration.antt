-- ===== src/Registration.antt =====
-- apps/api/src/modules/auth/registration.repo.ts: the completion of a pending registration. The new
-- rows' ids, the random tails of slugs, the hashes and the time are arguments. A nested transaction is
-- a savepoint: its throw is caught with the tables as they were before it.
pub mod Pending
pub mod Settlement
pub mod Completion
pub mod Account
pub mod Resolution
pub mod Service
pub mod Finish
pub mod Verdict
pub mod Invited
pub mod Silence
use Prim.Native.String.{◌++◌ as str_append}
use orgistry.Prelude.{ℕ, String, Option, none, some, List, leb, if◌then◌else◌, str_eq, is_some}
use orgistry.Db.Transaction.{
  ◌>>=◌, ◌>>◌, ok, throw, Tx, return, read, write, reject_if, require_row,
}
use orgistry.Sessions.{NewSession, NewRefreshToken, insert_session, insert_refresh_token}
use orgistry.Errors.{AppError, unique_violation, internal}
use orgistry.Provisioning.{
  is_slug_taken, InsertOrganizationParams, OrganizationDraws,
  insert_organization_with_owner_membership,
}
use orgistry.Metadata.{codes}
use orgistry.Db.{
  OrganizationType, UserStatus, UserRow, OrganizationRow, MembershipRow, SessionRow,
  RefreshTokenRow, PendingRegistrationRow,
}
use orgistry.Tables.{insert_row}
use orgistry.Registration.Pending.{find_pending_registration, is_pending_spent, consume_pending}
use orgistry.Registration.Settlement.{
  CompleteRegistrationParams, CompletionInvitationOutcome, settle_invitation,
}
use orgistry.Sessions.Service.{find_user_by_normalized_email}
use orgistry.Slug.{slugify, hyphenated, resolve_unique_slug}

-- The random values of a completion.
pub record CompletionDraws : Type 0 where
  pub user_id : ℕ
  pub organization : OrganizationDraws
  pub session_id : ℕ
  pub refresh_token_id : ℕ
  pub membership_id : ℕ
  pub slug_token : List ℕ
  pub fallback_token : List ℕ

pub data CompleteRegistrationResult : Type 0 where
  completed :
      (user : UserRow)
      → OrganizationRow
      → MembershipRow
      → SessionRow
      → RefreshTokenRow
      → CompletionInvitationOutcome
      → CompleteRegistrationResult
  registration_not_found registration_expired : CompleteRegistrationResult
  registration_already_used email_taken : CompleteRegistrationResult

abbrev pub registered_user : PendingRegistrationRow → ℕ → ℕ → UserRow
registered_user pending id now = record {
  id = id;
  email = pending.email;
  normalized_email = pending.normalized_email;
  password_hash = pending.password_hash;
  display_name = pending.display_name;
  status = UserStatus.active;
  email_verified_at = some now;
  deleted_at = none;
  updated_at = now;
}

unfoldable pub insert_user : UserRow → Tx (Unit {0})
insert_user user = do
  taken ← read (λ db. is_some (find_user_by_normalized_email user.normalized_email db))
  reject_if taken (unique_violation "uq_users_normalized_email")
  write λ db. record db { users = insert_row user db.users }

abbrev pub personal_workspace_name : String → String
personal_workspace_name display_name = str_append display_name "'s Workspace"

abbrev pub personal_params : PendingRegistrationRow → ℕ → List ℕ → InsertOrganizationParams
personal_params pending user_id slug = record {
  organization_type = OrganizationType.personal;
  name = personal_workspace_name pending.display_name;
  slug = slug;
  created_by_user_id = user_id;
  owner_user_id = user_id;
}

abbrev pub completion_session : CompleteRegistrationParams → ℕ → NewSession
completion_session p user_id = record {
  user_id = user_id;
  ip_address = p.ip_address;
  user_agent = p.user_agent;
  expires_at = p.session_expires_at;
}

abbrev pub completion_token : CompleteRegistrationParams → ℕ → NewRefreshToken
completion_token p session_id = record {
  session_id = session_id;
  family_id = p.family_id;
  token_hash = p.refresh_token_hash;
  parent_token_id = none;
  expires_at = p.refresh_expires_at;
}

unfoldable pub email_conflict : AppError → Tx CompleteRegistrationResult
email_conflict (unique_violation constraint) db =
    if str_eq constraint "uq_users_normalized_email"
    then ok (email_taken, db)
    else throw (unique_violation constraint)
email_conflict e db = throw e

module _ (fold : List ℕ → List ℕ) where
  unfoldable pub personal_slug :
      PendingRegistrationRow → (slug_token fallback_token : List ℕ) → Tx (List ℕ)
  personal_slug pending slug_token fallback_token = do
    found ← read (λ db.
        resolve_unique_slug (λ slug. is_slug_taken slug db)
          (hyphenated (slugify fold (codes pending.display_name) (codes "workspace")) slug_token)
          fallback_token)
    require_row found internal

  -- The rows of the account: all that precedes the settlement of an invitation.
  unfoldable pub account_rows :
      CompleteRegistrationParams
      → CompletionDraws
      → PendingRegistrationRow
      → Tx ((OrganizationRow × MembershipRow) × (SessionRow × RefreshTokenRow))
  account_rows p draws pending = do
    insert_user (registered_user pending draws.user_id p.now)
    slug ← personal_slug pending draws.slug_token draws.fallback_token
    inserted ←
        insert_organization_with_owner_membership (personal_params pending draws.user_id slug)
          draws.organization p.now
    session ← insert_session draws.session_id p.now (completion_session p draws.user_id)
    token ← insert_refresh_token draws.refresh_token_id (completion_token p session.id)
    return (inserted, (session, token))

  unfoldable pub create_account :
      CompleteRegistrationParams
      → CompletionDraws
      → PendingRegistrationRow
      → Tx CompleteRegistrationResult
  create_account p draws pending = do
    (inserted, (session, token)) ← account_rows p draws pending
    outcome ←
        settle_invitation pending.invitation_id p draws.user_id pending.normalized_email
          draws.membership_id
    write λ db. record db {
      pending_registrations = consume_pending pending p.now db.pending_registrations;
    }
    return (
        completed (registered_user pending draws.user_id p.now) inserted.0 inserted.1 session token
          outcome)

  unfoldable pub complete_with :
      CompleteRegistrationParams
      → CompletionDraws
      → Option PendingRegistrationRow
      → Tx CompleteRegistrationResult
  complete_with p draws none = return registration_not_found
  complete_with p draws (some pending) =
      if is_pending_spent pending
      then return registration_already_used
      else (if leb pending.expires_at p.now
          then return registration_expired
          else (read (λ db. is_some (find_user_by_normalized_email pending.normalized_email db))
              >>= λ existing.
                  if existing then return email_taken else create_account p draws pending))

  -- A violation of the users' unique index is the same outcome as the check before it.
  unfoldable pub complete_registration :
      CompleteRegistrationParams → CompletionDraws → Tx CompleteRegistrationResult
  complete_registration p draws db =
      elim ((read (find_pending_registration p.token_hash) >>= complete_with p draws) db) [
        | ok r ↦ ok r
        | throw e ↦ email_conflict e db
      ]
