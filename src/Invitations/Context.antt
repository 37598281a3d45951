-- ===== src/Invitations/Context.antt =====
-- An invitation with its organization and role (invitation.repo.ts), and prepareForRegistration of
-- invitation.service.ts, with the early checks of inspectInvitation and acceptInvitation.
use orgistry.Prelude.{ℕ, String, not, Option, none, some, str_eq}
use orgistry.Db.Transaction.{◌>>=◌, ◌>>◌, Tx, return, read, reject_if, require_row}
use orgistry.Access.{find_organization_by_id, find_role}
use orgistry.Plans.{require_member_addition_quota}
use orgistry.Errors.{invitation_invalid, invitation_email_mismatch}
use orgistry.Invitations.{assert_acceptable, by_token_hash, find_invitation}
use orgistry.Db.{RoleRow, OrganizationRow, InvitationRow, Database}
use orgistry.Catalog.{RoleKey}

pub record InvitationContext : Type 0 where
  pub invitation : InvitationRow
  pub organization : OrganizationRow
  pub role : RoleRow

-- findContextByTokenHash: the join with the organization and the role.
unfoldable pub find_context_by_token_hash : String → Database → Option InvitationContext
find_context_by_token_hash token_hash db = elim (find_invitation (by_token_hash token_hash) db) [
  | none ↦ none
  | some i ↦ elim (find_organization_by_id db i.organization_id) [
    | none ↦ none
    | some o ↦ elim (find_role db i.role_id) [
      | none ↦ none
      | some r ↦ some (record { invitation = i; organization = o; role = r })
    ]
  ]
]

-- It only reads; it gives the invitation's id and the organization's name.
unfoldable pub prepare_for_registration :
    (token_hash normalized_email : String) (now : ℕ) → Tx (ℕ × String)
prepare_for_registration token_hash normalized_email now = do
  found ← read (find_context_by_token_hash token_hash)
  context ← require_row found invitation_invalid
  assert_acceptable context.invitation now
  reject_if (not (str_eq context.invitation.invited_email_normalized normalized_email))
      invitation_email_mismatch
  require_member_addition_quota context.invitation.organization_id
  return (context.invitation.id, context.organization.name)

pub record PublicInvitation : Type 0 where
  pub organization_name : String
  pub invited_email : String
  pub role_key : RoleKey
  pub role_name : String
  pub expires_at : ℕ

abbrev pub public_invitation : InvitationContext → PublicInvitation
public_invitation context = record {
  organization_name = context.organization.name;
  invited_email = context.invitation.invited_email;
  role_key = context.role.key;
  role_name = context.role.name;
  expires_at = context.invitation.expires_at;
}

-- The context of an acceptable invitation; it only reads.
unfoldable pub acceptable_context : (token_hash : String) (now : ℕ) → Tx InvitationContext
acceptable_context token_hash now = do
  found ← read (find_context_by_token_hash token_hash)
  context ← require_row found invitation_invalid
  assert_acceptable context.invitation now
  return context

unfoldable pub inspected : (token_hash : String) (now : ℕ) → Tx PublicInvitation
inspected token_hash now = do
  context ← acceptable_context token_hash now
  return (public_invitation context)

-- The early checks of an acceptance.
unfoldable pub check_acceptance : (token_hash normalized_email : String) (now : ℕ) → Tx (Unit {0})
check_acceptance token_hash normalized_email now = do
  context ← acceptable_context token_hash now
  reject_if (not (str_eq context.invitation.invited_email_normalized normalized_email))
      invitation_email_mismatch
