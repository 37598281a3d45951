-- ===== src/Invitations/Creation.antt =====
-- The creation of an invitation and the queries that its service asks before it
-- (invitation.repo.ts). Of the two unique indexes the one on the token's hash, declared first, is
-- checked first.
use orgistry.Prelude.{ℕ, ◌+◌, String, Bool, ◌&&◌, Option, none, ltb, ◌==◌, str_eq, any}
use orgistry.Metadata.{end, id_entry, text_entry}
use orgistry.Db.{pending, RoleRow, InvitationRow, Database}
use orgistry.Db.Transaction.{◌>>=◌, ◌>>◌, Tx, return, read, write, reject_if, require_row}
use orgistry.Access.{find_role}
use orgistry.Plans.{
  ActionContext, record_action_event, evaluate_count_quota, require_quota,
  lock_organization_entitlements, count_active_members,
}
use orgistry.Errors.{internal, duplicate_pending_invitation}
use orgistry.Catalog.{EntitlementKey}
use orgistry.Invitations.{is_pending, set_expired}
use orgistry.Tables.{find_row, count_rows, update_rows, insert_row}

pub record CreateInvitationParams : Type 0 where
  pub organization_id : ℕ
  pub invited_email : String
  pub invited_email_normalized : String
  pub role_id : String
  pub token_hash : String
  pub expires_at : ℕ
  pub ctx : ActionContext

pub record InvitationView : Type 0 where
  pub invitation : InvitationRow
  pub role : RoleRow

-- A pending row for the address: what the index `uq_invitations_org_email_pending` allows once.
unfoldable pub is_pending_for : ℕ → String → InvitationRow → Bool
is_pending_for organization_id email i =
    i.organization_id == organization_id && str_eq i.invited_email_normalized email && is_pending i

-- A non-expired pending row of the organization, which reserves a seat.
unfoldable pub is_reservation_of : ℕ → ℕ → InvitationRow → Bool
is_reservation_of organization_id now i =
    i.organization_id == organization_id && is_pending i && ltb now i.expires_at

unfoldable pub find_pending_invitation : ℕ → String → ℕ → Database → Option InvitationRow
find_pending_invitation organization_id email now db =
    find_row (λ i. is_pending_for organization_id email i && ltb now i.expires_at) db.invitations

unfoldable pub count_pending_invitations : ℕ → ℕ → Database → ℕ
count_pending_invitations organization_id now db =
    count_rows (is_reservation_of organization_id now) db.invitations

-- The rows that the lazy expiry frees.
unfoldable pub is_stale_for : ℕ → String → ℕ → InvitationRow → Bool
is_stale_for organization_id email now i =
    is_pending_for organization_id email i && ltb i.expires_at now

abbrev pub new_invitation : CreateInvitationParams → ℕ → ℕ → InvitationRow
new_invitation p id now = record {
  id = id;
  organization_id = p.organization_id;
  invited_email = p.invited_email;
  invited_email_normalized = p.invited_email_normalized;
  role_id = p.role_id;
  token_hash = p.token_hash;
  status = pending;
  invited_by_user_id = p.ctx.actor_user_id;
  accepted_by_user_id = none;
  revoked_by_user_id = none;
  expires_at = p.expires_at;
  accepted_at = none;
  revoked_at = none;
  created_at = now;
  updated_at = now;
}

unfoldable pub has_invitation_token : String → InvitationRow → Bool
has_invitation_token token_hash i = str_eq i.token_hash token_hash

-- The insertion, with the table's two unique indexes.
unfoldable pub insert_invitation : InvitationRow → Tx (Unit {0})
insert_invitation row = do
  same_token ← read (λ db. any (has_invitation_token row.token_hash) db.invitations)
  reject_if same_token internal
  outstanding ←
      read
        (λ db. any (is_pending_for row.organization_id row.invited_email_normalized) db.invitations)
  reject_if outstanding duplicate_pending_invitation
  write λ db. record db { invitations = insert_row row db.invitations }

abbrev pub expire_stale : CreateInvitationParams → ℕ → Tx (Unit {0})
expire_stale p now = write λ db. record db {
  invitations =
      update_rows (is_stale_for p.organization_id p.invited_email_normalized now) (set_expired now)
        db.invitations;
}

unfoldable pub create_invitation : CreateInvitationParams → (id now : ℕ) → Tx InvitationView
create_invitation p id now = do
  e ← lock_organization_entitlements p.organization_id
  members ← read (count_active_members p.organization_id)
  outstanding ← read (count_pending_invitations p.organization_id now)
  require_quota EntitlementKey.max_members
      (evaluate_count_quota (members + outstanding) e.values.max_members)
  expire_stale p now
  insert_invitation (new_invitation p id now)
  record_action_event p.organization_id "invitation.created"
      (text_entry "targetType" "invitation" (
        id_entry "targetInvitationId" id (
          text_entry "invitedEmailNormalized" p.invited_email_normalized
            (text_entry "roleId" p.role_id end))))
      p.ctx
  found_role ← read (λ db. find_role db p.role_id)
  role ← require_row found_role internal
  return (record { invitation = new_invitation p id now; role = role })
