-- ===== src/Invitations.antt =====
-- apps/api/src/modules/invitations: invitation.lifecycle.ts, invitation.acceptance.ts and the
-- mutations of invitation.repo.ts. A new row's id and the time are arguments; a unique index is a
-- check before the insertion, with the error that its violation gives.
pub mod Lifecycle
pub mod Acceptance
pub mod Creation
pub mod Reservation
pub mod Checks
pub mod Handlers
pub mod Context
pub mod Tokens
pub mod Redundancy
pub mod Management
use orgistry.Prelude.{
  ℕ, String, Bool, true, false, not, ◌&&◌, Option, none, some, leb, ◌==◌, if◌then◌else◌, str_eq,
  any,
}
use orgistry.Metadata.{end, id_entry, text_entry}
use orgistry.Db.{
  InvitationStatus, MembershipStatus, accepted, revoked, pending, expired, RoleRow, OrganizationRow,
  MembershipRow, InvitationRow, Database,
}
use orgistry.Db.Transaction.{◌>>=◌, ◌>>◌, Tx, return, fail, read, write, reject_if, require_row}
use orgistry.Access.{is_active_member, find_organization_by_id, find_role}
use orgistry.Plans.{
  ActionContext, record_action_event, lock_organization_entitlements, count_active_members,
}
use orgistry.Errors.{
  internal, quota_exceeded, invitation_invalid, invitation_expired, invitation_revoked,
  invitation_already_accepted, invitation_email_mismatch, already_active_member,
}
use orgistry.Catalog.{EntitlementKey}
use orgistry.Tables.{find_row, update_rows, insert_row}

unfoldable pub is_expired : InvitationRow → ℕ → Bool
is_expired invitation now = leb invitation.expires_at now

-- deriveInvitationStatus.
unfoldable pub derive_invitation_status : InvitationRow → ℕ → InvitationStatus
derive_invitation_status invitation now = elim invitation.status [
  | accepted ↦ accepted
  | revoked ↦ revoked
  | pending ↦ if is_expired invitation now then expired else pending
  | expired ↦ if is_expired invitation now then expired else pending
]

unfoldable pub is_pending : InvitationRow → Bool
is_pending invitation = elim invitation.status [
  | pending ↦ true
  | accepted ↦ false
  | revoked ↦ false
  | expired ↦ false
]

unfoldable pub is_acceptable : InvitationRow → ℕ → Bool
is_acceptable invitation now = is_pending invitation && not (is_expired invitation now)

unfoldable pub assert_acceptable : InvitationRow → ℕ → Tx (Unit {0})
assert_acceptable invitation now = elim invitation.status [
  | accepted ↦ fail invitation_already_accepted
  | revoked ↦ fail invitation_revoked
  | pending ↦ reject_if (is_expired invitation now) invitation_expired
  | expired ↦ reject_if (is_expired invitation now) invitation_expired
]

-- The selector of an acceptance: the presented token's hash, or the id that a registration stored.
pub data InvitationSelector : Type 0 where
  by_token_hash : String → InvitationSelector
  by_invitation_id : ℕ → InvitationSelector

unfoldable pub is_selected : InvitationSelector → InvitationRow → Bool
is_selected (by_token_hash token_hash) i = str_eq i.token_hash token_hash
is_selected (by_invitation_id id) i = i.id == id

unfoldable pub find_invitation : InvitationSelector → Database → Option InvitationRow
find_invitation selector db = find_row (is_selected selector) db.invitations

pub record AcceptInvitationParams : Type 0 where
  pub selector : InvitationSelector
  pub accepting_user_id : ℕ
  pub accepting_user_normalized_email : String
  pub ctx : ActionContext

pub record AcceptInvitationResult : Type 0 where
  pub invitation : InvitationRow
  pub membership : MembershipRow
  pub organization : OrganizationRow
  pub role : RoleRow

-- An active membership of the user in the organization.
unfoldable pub is_active_membership : ℕ → ℕ → MembershipRow → Bool
is_active_membership user_id organization_id m =
    m.user_id == user_id && m.organization_id == organization_id && is_active_member m.status

unfoldable pub has_active_membership : ℕ → ℕ → Database → Bool
has_active_membership user_id organization_id db =
    any (is_active_membership user_id organization_id) db.memberships

abbrev pub invited_membership : InvitationRow → ℕ → ℕ → ℕ → MembershipRow
invited_membership i user_id id now = record {
  id = id;
  user_id = user_id;
  organization_id = i.organization_id;
  role_id = i.role_id;
  status = MembershipStatus.active;
  invited_by_user_id = some i.invited_by_user_id;
  joined_at = now;
  removed_at = none;
  removed_by_user_id = none;
  created_at = now;
  updated_at = now;
}

abbrev pub set_accepted : ℕ → ℕ → InvitationRow → InvitationRow
set_accepted user_id now i = record i {
  status = accepted;
  accepted_at = some now;
  accepted_by_user_id = some user_id;
  updated_at = now;
}

abbrev pub set_revoked : ℕ → ℕ → InvitationRow → InvitationRow
set_revoked user_id now i = record i {
  status = revoked;
  revoked_at = some now;
  revoked_by_user_id = some user_id;
  updated_at = now;
}

abbrev pub set_expired : ℕ → InvitationRow → InvitationRow
set_expired now i = record i { status = expired; updated_at = now }

-- The insertion into `memberships`, with the index `uq_memberships_active_user_org`.
insert_active_membership : MembershipRow → Tx (Unit {0})
insert_active_membership m = do
  taken ← read (has_active_membership m.user_id m.organization_id)
  reject_if taken already_active_member
  write λ db. record db { memberships = insert_row m db.memberships }

-- The two events of an acceptance.
record_acceptance : InvitationRow → MembershipRow → ActionContext → Tx (Unit {0})
record_acceptance i m ctx = do
  record_action_event i.organization_id "invitation.accepted"
      (text_entry "targetType" "invitation" (
        id_entry "targetInvitationId" i.id (
          id_entry "targetUserId" m.user_id (
            id_entry "targetMembershipId" m.id (
              text_entry "invitedEmailNormalized" i.invited_email_normalized
                (text_entry "roleId" i.role_id end))))))
      ctx
  record_action_event i.organization_id "membership.created_from_invitation"
      (text_entry "targetType" "membership" (
        id_entry "targetMembershipId" m.id (
          id_entry "targetUserId" m.user_id
            (id_entry "targetInvitationId" i.id (text_entry "roleId" i.role_id end)))))
      ctx

unfoldable pub accept_invitation :
    AcceptInvitationParams → (membership_id now : ℕ) → Tx AcceptInvitationResult
unfolding insert_active_membership record_acceptance
accept_invitation p membership_id now = do
  pre_read ← read (find_invitation p.selector)
  known ← require_row pre_read invitation_invalid
  e ← lock_organization_entitlements known.organization_id
  found ← read (find_invitation p.selector)
  invitation ← require_row found invitation_invalid
  assert_acceptable invitation now
  reject_if (not (str_eq invitation.invited_email_normalized p.accepting_user_normalized_email))
      invitation_email_mismatch
  existing ← read (has_active_membership p.accepting_user_id invitation.organization_id)
  reject_if existing already_active_member
  active_members ← read (count_active_members invitation.organization_id)
  reject_if (leb e.values.max_members active_members)
      (quota_exceeded EntitlementKey.max_members e.values.max_members active_members)
  found_organization ← read (λ db. find_organization_by_id db invitation.organization_id)
  organization ← require_row found_organization invitation_invalid
  found_role ← read (λ db. find_role db invitation.role_id)
  role ← require_row found_role internal
  insert_active_membership (invited_membership invitation p.accepting_user_id membership_id now)
  write λ db. record db {
    invitations =
        update_rows (λ i. i.id == invitation.id) (set_accepted p.accepting_user_id now)
          db.invitations;
  }
  record_acceptance invitation (invited_membership invitation p.accepting_user_id membership_id now)
      p.ctx
  return (record {
    invitation = set_accepted p.accepting_user_id now invitation;
    membership = invited_membership invitation p.accepting_user_id membership_id now;
    organization = organization;
    role = role;
  })

unfoldable pub is_invitation_of : ℕ → ℕ → InvitationRow → Bool
is_invitation_of organization_id invitation_id i =
    i.organization_id == organization_id && i.id == invitation_id

unfoldable pub revoke_invitation :
    (organization_id invitation_id : ℕ) → ActionContext → ℕ → Tx (Unit {0})
revoke_invitation organization_id invitation_id ctx now = do
  found ← read (λ db. find_row (is_invitation_of organization_id invitation_id) db.invitations)
  invitation ← require_row found invitation_invalid
  assert_acceptable invitation now
  write λ db. record db {
    invitations =
        update_rows (λ i. i.id == invitation.id) (set_revoked ctx.actor_user_id now) db.invitations;
  }
  record_action_event organization_id "invitation.revoked"
      (text_entry "targetType" "invitation" (
        id_entry "targetInvitationId" invitation.id (
          text_entry "invitedEmailNormalized" invitation.invited_email_normalized
            (text_entry "roleId" invitation.role_id end))))
      ctx
