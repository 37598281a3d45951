-- ===== src/Invitations/Reservation.antt =====
-- Seats and duplicates when an invitation is created (invitation.repo.ts).
use orgistry.Prelude.{
  ℕ, ◌+◌, ◌≤◌, ◌<◌, ◌≡◌, refl, inl, inr, true, false, some, List, arith, str_eq_refl, ==_refl, any,
}
use orgistry.Db.{expired, OrganizationPlanRow, Database, InvitationRow}
use orgistry.Plans.{record_action_event, find_organization_plan, count_active_members}
use orgistry.Catalog.{EntitlementKey, entitlements_for_plan}
use orgistry.Invitations.{set_expired, derive_invitation_status, is_pending, is_expired}
use orgistry.Db.Transaction.{ok, throw}
use orgistry.Tables.{
  update_rows, insert_row, find_row, count_rows, count-insert, count-update_le, any-false_count,
  find_sound, any-update_found, any-update_same,
}
use orgistry.Invitations.Creation.{
  CreateInvitationParams, InvitationView, is_pending_for, count_pending_invitations, is_stale_for,
  new_invitation, insert_invitation, create_invitation, is_reservation_of, has_invitation_token,
}
use orgistry.Plans.Quota.{require_quota-cases, lock-cases}
use orgistry.Errors.{duplicate_pending_invitation}

-- What a committed creation has checked and written.
pub record IsCreation (p : CreateInvitationParams) (id now : ℕ) (db db' : Database)
    (plan : OrganizationPlanRow) : Type 0 where
  pub planned : find_organization_plan p.organization_id db ≡ some plan
  pub room :
      count_active_members p.organization_id db + count_pending_invitations p.organization_id now db
      < (entitlements_for_plan plan.plan_key).max_members
  pub sole :
      any (is_pending_for p.organization_id p.invited_email_normalized) (
        update_rows
          (is_stale_for p.organization_id p.invited_email_normalized now)
          (set_expired now)
          db.invitations)
      ≡ false
  pub invitations :
      db'.invitations
      ≡ insert_row (new_invitation p id now) (
          update_rows
            (is_stale_for p.organization_id p.invited_email_normalized now)
            (set_expired now)
            db.invitations)
  pub members : db'.memberships ≡ db.memberships

pub create_invitation-IsCreation :
    (p : CreateInvitationParams) (id now : ℕ) (db db' : Database) (view : InvitationView)
    → create_invitation p id now db ≡ ok (view, db')
    → (plan : OrganizationPlanRow) × IsCreation p id now db db' plan
unfolding create_invitation insert_invitation record_action_event
create_invitation-IsCreation p id now db db' view done = elim (lock-cases p.organization_id db) [
  | inl (missing, refused) ↦ absurd (ground arith)
  | inr (plan, planned, snapshot) ↦
      elim (require_quota-cases EntitlementKey.max_members
        (count_active_members p.organization_id db
          + count_pending_invitations p.organization_id now db)
        (entitlements_for_plan plan.plan_key).max_members db) [
          | inr (full, refused) ↦ absurd (ground arith)
          | inl (room, passed) ↦ (
            plan,
            record {
              planned = planned;
              room = room;
              sole = ground arith;
              invitations = ground arith;
              members = ground arith;
            },
          )
        ]
]

-- When an invitation is created, the active members of the organization and its reservations (its
-- pending, unexpired invitations, the new one included) fit under its plan's ceiling, and the new
-- row is the one pending invitation of the organization for its address.
pub create_invitation-seats :
    (p : CreateInvitationParams) (id now : ℕ) (db db' : Database) (view : InvitationView)
    → create_invitation p id now db ≡ ok (view, db')
    → (plan : OrganizationPlanRow) × (find_organization_plan p.organization_id db ≡ some plan)
      × (count_active_members p.organization_id db'
            + count_pending_invitations p.organization_id now db'
          ≤ (entitlements_for_plan plan.plan_key).max_members)
      × (count_rows (is_pending_for p.organization_id p.invited_email_normalized) db'.invitations
          ≡ 1)
create_invitation-seats p id now db db' view done =
    let (plan, c) = create_invitation-IsCreation p id now db db' view done in
    let room = c.room in (plan, c.planned, seats plan c, alone plan c)
  where
    freed : List InvitationRow
    freed =
        update_rows (is_stale_for p.organization_id p.invited_email_normalized now)
          (set_expired now) db.invitations

    seats :
        (plan : OrganizationPlanRow)
        → IsCreation p id now db db' plan
        → count_active_members p.organization_id db'
            + count_pending_invitations p.organization_id now db'
          ≤ (entitlements_for_plan plan.plan_key).max_members
    seats plan c =
        let room = c.room in
        let added =
          count-insert (is_reservation_of p.organization_id now) (new_invitation p id now) freed in
        let fewer : count_rows (is_reservation_of p.organization_id now) freed
            ≤ count_rows (is_reservation_of p.organization_id now) db.invitations =
          count-update_le (is_reservation_of p.organization_id now) _ (set_expired now)
            db.invitations (λ r _ h. unfold is_reservation_of is_pending in ground arith) in
        unfold count_active_members count_pending_invitations in
        rw (c.members, c.invitations) ground arith

    alone :
        (plan : OrganizationPlanRow)
        → IsCreation p id now db db' plan
        → count_rows (is_pending_for p.organization_id p.invited_email_normalized) db'.invitations
          ≡ 1
    alone plan c =
        let none_left =
          any-false_count (is_pending_for p.organization_id p.invited_email_normalized) freed
            c.sole in
        let added =
          count-insert (is_pending_for p.organization_id p.invited_email_normalized)
            (new_invitation p id now) freed in
        let counts : is_pending_for p.organization_id p.invited_email_normalized
              (new_invitation p id now)
            ≡ true =
          unfold is_pending_for is_pending in
          ground (arith, ==_refl p.organization_id, str_eq_refl p.invited_email_normalized) in
        rw c.invitations (ground arith)

-- At the very millisecond at which a pending invitation expires, it is presented as expired and no
-- longer counts as outstanding, and yet inviting its address again fails with
-- `duplicate_pending_invitation`: the lazy expiry of the creation frees only rows that expired before.
pub create_invitation-boundary :
    (p : CreateInvitationParams) (id : ℕ) (db : Database) (plan : OrganizationPlanRow)
    (i : InvitationRow)
    → find_row (is_pending_for p.organization_id p.invited_email_normalized) db.invitations ≡ some i
    → find_organization_plan p.organization_id db ≡ some plan
    → count_active_members p.organization_id db
        + count_pending_invitations p.organization_id i.expires_at db
      < (entitlements_for_plan plan.plan_key).max_members
    → any (has_invitation_token p.token_hash) db.invitations ≡ false
    → (derive_invitation_status i i.expires_at ≡ expired)
      × (is_reservation_of p.organization_id i.expires_at i ≡ false)
      × (create_invitation p id i.expires_at db ≡ throw duplicate_pending_invitation)
create_invitation-boundary p id db plan i outstanding planned room fresh =
    let held =
      find_sound (is_pending_for p.organization_id p.invited_email_normalized) db.invitations i
        outstanding in
    let unstale : is_stale_for p.organization_id p.invited_email_normalized i.expires_at i ≡ false =
      unfold is_stale_for in ground arith in
    let blocked =
      any-update_found (is_pending_for p.organization_id p.invited_email_normalized)
        (is_stale_for p.organization_id p.invited_email_normalized i.expires_at)
        (set_expired i.expires_at) db.invitations i outstanding unstale in
    let new_token =
      any-update_same (has_invitation_token p.token_hash)
        (is_stale_for p.organization_id p.invited_email_normalized i.expires_at)
        (set_expired i.expires_at) db.invitations (λ r. unfold has_invitation_token in refl) in
    (
      unfold derive_invitation_status is_expired is_pending_for is_pending in ground arith,
      unfold is_reservation_of in ground arith,
      elim (lock-cases p.organization_id db) [
        | inl (missing, refused) ↦ absurd (cc)
        | inr (row, found, snapshot) ↦
            let same : row ≡ plan = ground arith in
            elim (require_quota-cases EntitlementKey.max_members
              (count_active_members p.organization_id db
                + count_pending_invitations p.organization_id i.expires_at db)
              (entitlements_for_plan plan.plan_key).max_members db) [
                | inr (full, refused) ↦ absurd (omega arith)
                | inl (space, passed) ↦ unfold create_invitation insert_invitation in ground arith
              ]
      ],
    )
