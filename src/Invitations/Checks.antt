-- ===== src/Invitations/Checks.antt =====
-- The checks of invitation.service.ts before a new invitation's mail.
use orgistry.Prelude.{ℕ, String, Bool, ◌&&◌, ◌==◌, str_eq, is_some, any}
use orgistry.Db.Transaction.{◌>>=◌, ◌>>◌, Result, ok, throw, read, reject_if, require_row}
use orgistry.Access.{find_organization_by_id, OrganizationActor}
use orgistry.Plans.{is_active_member_of, require_member_reservation_quota}
use orgistry.Errors.{invitation_invalid, duplicate_pending_invitation, already_active_member}
use orgistry.Db.{UserRow, OrganizationRow, Database}
use orgistry.Tables.{select_rows}
use orgistry.Invitations.Creation.{find_pending_invitation, count_pending_invitations}

-- hasActiveMemberWithEmail: the join of the active memberships with their users.
unfoldable pub has_active_member_with_email : ℕ → String → Database → Bool
has_active_member_with_email organization_id email db =
    any (λ m. any (λ (u : UserRow). u.id == m.user_id && str_eq u.normalized_email email) db.users)
      (select_rows (is_active_member_of organization_id) db.memberships)

-- The checks before the mail, which only read; they give the organization that the mail names.
unfoldable pub check_new_invitation :
    OrganizationActor → String → ℕ → Database → Result OrganizationRow
check_new_invitation actor email now db =
    elim ((do
      member ← read (has_active_member_with_email actor.organization_id email)
      reject_if member already_active_member
      outstanding ← read (find_pending_invitation actor.organization_id email now)
      reject_if (is_some outstanding) duplicate_pending_invitation
      pending_count ← read (count_pending_invitations actor.organization_id now)
      require_member_reservation_quota actor.organization_id pending_count
      found ← read (λ d. find_organization_by_id d actor.organization_id)
      require_row found invitation_invalid)
      db) [ ok (organization, d) ↦ ok organization | throw e ↦ throw e ]
