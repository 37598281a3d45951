-- ===== src/Invitations/Acceptance.antt =====
-- What an acceptance requires and writes (invitation.acceptance.ts), and what follows it.
use orgistry.Prelude.{
  ℕ, ◌≤◌, ◌<◌, ◌≡◌, refl, inl, inr, false, some, arith, ◌==◌, str_eq→eq, ==_iff, Bool-cases,
  Option-cases,
}
use orgistry.Db.{revoked, pending, OrganizationPlanRow, InvitationRow, Database}
use orgistry.Plans.{
  record_action_event, find_organization_plan, lock_organization_entitlements, count_active_members,
  ActionContext, is_active_member_of,
}
use orgistry.Catalog.{entitlements_for_plan}
use orgistry.Invitations.{
  derive_invitation_status, find_invitation, AcceptInvitationParams, AcceptInvitationResult,
  has_active_membership, invited_membership, set_accepted, accept_invitation, assert_acceptable,
  InvitationSelector, by_token_hash, by_invitation_id, is_selected, set_revoked, is_invitation_of,
  revoke_invitation,
}
use orgistry.Db.Transaction.{ok, throw, run, Result-cases}
use orgistry.Tables.{update_rows, insert_row, find_row, count_rows, count-insert, find-update_found}
use orgistry.Invitations.Lifecycle.{assert_acceptable-cases}
use orgistry.Errors.{AppError, invitation_revoked, invitation_already_accepted}

-- The rows that a committed acceptance has read, and its writes.
pub record IsAcceptance (p : AcceptInvitationParams) (mid now : ℕ) (db db' : Database)
    (i : InvitationRow) (plan : OrganizationPlanRow) : Type 0 where
  pub selected : find_invitation p.selector db ≡ some i
  pub acceptable : derive_invitation_status i now ≡ pending
  pub address : i.invited_email_normalized ≡ p.accepting_user_normalized_email
  pub stranger : has_active_membership p.accepting_user_id i.organization_id db ≡ false
  pub planned : find_organization_plan i.organization_id db ≡ some plan
  pub room :
      count_active_members i.organization_id db < (entitlements_for_plan plan.plan_key).max_members
  pub memberships :
      db'.memberships ≡ insert_row (invited_membership i p.accepting_user_id mid now) db.memberships
  pub invitations :
      db'.invitations
      ≡ update_rows (λ r. r.id == i.id) (set_accepted p.accepting_user_id now) db.invitations
  pub plans : db'.organization_plans ≡ db.organization_plans
  pub frame : db' ≡ record db {
    memberships = db'.memberships;
    invitations = db'.invitations;
    security_events = db'.security_events;
  }

-- A committed acceptance found an invitation that presents itself as pending, for the e-mail address
-- of the accepting user, who had no active membership in its organization, whose active members
-- were below the ceiling of its plan; it adds one active membership with the invited role, marks the
-- invitation as accepted, and answers with both.
pub accept_invitation-IsAcceptance :
    (p : AcceptInvitationParams) (mid now : ℕ) (db db' : Database) (result : AcceptInvitationResult)
    → accept_invitation p mid now db ≡ ok (result, db')
    → (i : InvitationRow) × (plan : OrganizationPlanRow) × IsAcceptance p mid now db db' i plan
      × (result.invitation ≡ set_accepted p.accepting_user_id now i)
      × (result.membership ≡ invited_membership i p.accepting_user_id mid now)
unfolding accept_invitation lock_organization_entitlements
accept_invitation-IsAcceptance p mid now db db' result done =
    elim (Option-cases (find_invitation p.selector db)) [
      | inl missing ↦ absurd (ground arith)
      | inr (i, selected) ↦ elim (Option-cases (find_organization_plan i.organization_id db)) [
        | inl unplanned ↦ absurd (ground arith)
        | inr (plan, planned) ↦ elim (assert_acceptable-cases i now db) [
          | inr (e, refused) ↦ absurd (ground arith)
          | inl (open_status, passed) ↦ (
            i,
            plan,
            record {
              selected = selected;
              acceptable = open_status;
              address = str_eq→eq _ _ (ground arith);
              stranger = ground arith;
              planned = planned;
              room = ground arith;
              memberships = unfold record_action_event in ground arith;
              invitations = unfold record_action_event in ground arith;
              plans = unfold record_action_event in ground arith;
              frame = unfold record_action_event in ground arith;
            },
            ground arith,
            ground arith,
          )
        ]
      ]
    ]

-- An invitation that was accepted or revoked is refused with its own error, before anything is
-- written, to whomever presents it.
closed_refusal :
    (p : AcceptInvitationParams) (mid now : ℕ) (db : Database) (i : InvitationRow)
    (plan : OrganizationPlanRow) (e : AppError)
    → find_invitation p.selector db ≡ some i
    → find_organization_plan i.organization_id db ≡ some plan
    → assert_acceptable i now db ≡ throw e
    → accept_invitation p mid now db ≡ throw e
unfolding accept_invitation lock_organization_entitlements
closed_refusal p mid now db i plan e selected planned refused = ground arith

-- An invitation is accepted once: after a committed acceptance, presenting the same token or id
-- again fails with `invitation_already_accepted`, for every user and at any time.
pub accept_invitation-single_use :
    (p q : AcceptInvitationParams) (mid other_mid now later : ℕ) (db db' : Database)
    (result : AcceptInvitationResult)
    → accept_invitation p mid now db ≡ ok (result, db')
    → q.selector ≡ p.selector
    → accept_invitation q other_mid later db' ≡ throw invitation_already_accepted
accept_invitation-single_use p q mid other_mid now later db db' result done again =
    let (i, plan, a, _, _) = accept_invitation-IsAcceptance p mid now db db' result done in
    closed_refusal q other_mid later db' (set_accepted p.accepting_user_id now i) plan
      invitation_already_accepted
      (unfold find_invitation in
        rw (again, a.invitations)
          (find-update_found (λ r. r.id) (is_selected p.selector)
            (set_accepted p.accepting_user_id now) db.invitations i (same_selection p.selector)
            (unfold find_invitation in a.selected)))
      (unfold find_organization_plan in rw a.plans (unfold find_organization_plan in a.planned))
      (unfold assert_acceptable in refl)
  where
    same_selection :
        (selector : InvitationSelector) (r : InvitationRow)
        → is_selected selector (set_accepted p.accepting_user_id now r) ≡ is_selected selector r
    same_selection (by_token_hash token_hash) r = unfold is_selected in refl
    same_selection (by_invitation_id id) r = unfold is_selected in refl

revoked_refusal :
    (i : InvitationRow) (now : ℕ) (db : Database)
    → i.status ≡ revoked
    → assert_acceptable i now db ≡ throw invitation_revoked
unfolding assert_acceptable
revoked_refusal i now db h = ground arith

-- A revocation is final: after it the invitation can no longer be accepted, whichever way it is
-- selected, and revoking it again fails; both with `invitation_revoked`.
pub revoke_invitation-final :
    (o iid : ℕ) (ctx later_ctx : ActionContext) (q : AcceptInvitationParams) (mid now later : ℕ)
    (db db' : Database) (i : InvitationRow) (plan : OrganizationPlanRow)
    → revoke_invitation o iid ctx now db ≡ ok (tt, db')
    → find_row (is_invitation_of o iid) db.invitations ≡ some i
    → find_invitation q.selector db ≡ some i
    → find_organization_plan i.organization_id db ≡ some plan
    → (accept_invitation q mid later db' ≡ throw invitation_revoked)
      × (revoke_invitation o iid later_ctx later db' ≡ throw invitation_revoked)
unfolding revoke_invitation record_action_event
revoke_invitation-final o iid ctx later_ctx q mid now later db db' i plan done addressed selected
      planned =
    let (plans, rows) = written in
    let found : find_row (is_invitation_of o iid) db'.invitations
        ≡ some (set_revoked ctx.actor_user_id now i) =
      rw rows (
        find-update_found (λ r. r.id) (is_invitation_of o iid) (set_revoked ctx.actor_user_id now)
          db.invitations i (λ r. unfold is_invitation_of in refl) addressed) in
    (
      closed_refusal q mid later db' (set_revoked ctx.actor_user_id now i) plan invitation_revoked
          (unfold find_invitation in
            rw rows (
              find-update_found (λ r. r.id) (is_selected q.selector)
                (set_revoked ctx.actor_user_id now) db.invitations i (same_selection q.selector)
                (unfold find_invitation in selected)))
          (unfold find_organization_plan in rw plans (unfold find_organization_plan in planned))
          (revoked_refusal (set_revoked ctx.actor_user_id now i) later db' refl),
      revoked_again found (revoked_refusal (set_revoked ctx.actor_user_id now i) later db' refl),
    )
  where
    revoked_again :
        find_row (is_invitation_of o iid) db'.invitations
          ≡ some (set_revoked ctx.actor_user_id now i)
        → assert_acceptable (set_revoked ctx.actor_user_id now i) later db'
          ≡ throw invitation_revoked
        → revoke_invitation o iid later_ctx later db' ≡ throw invitation_revoked
    revoked_again found refused = ground arith

    written :
        (db'.organization_plans ≡ db.organization_plans)
        × (db'.invitations
            ≡ update_rows (λ r. r.id == i.id) (set_revoked ctx.actor_user_id now) db.invitations)
    written = elim (assert_acceptable-cases i now db) [
      | inl (_, passed) ↦ (ground arith, ground arith)
      | inr (e, refused) ↦ absurd (ground arith)
    ]

    same_selection :
        (selector : InvitationSelector) (r : InvitationRow)
        → is_selected selector (set_revoked ctx.actor_user_id now r) ≡ is_selected selector r
    same_selection (by_token_hash token_hash) r = unfold is_selected in refl
    same_selection (by_invitation_id id) r = unfold is_selected in refl

-- No acceptance, whether it commits or fails, takes the active members of an organization past its
-- plan's ceiling.
pub accept_invitation-bound :
    (p : AcceptInvitationParams) (mid now o : ℕ) (db : Database) (plan : OrganizationPlanRow)
    → find_organization_plan o db ≡ some plan
    → count_active_members o db ≤ (entitlements_for_plan plan.plan_key).max_members
    → count_active_members o (run (accept_invitation p mid now) db).1
      ≤ (entitlements_for_plan plan.plan_key).max_members
accept_invitation-bound p mid now o db plan planned bound =
    elim (Result-cases (accept_invitation p mid now db)) [
      | inr (e, refused) ↦ rw (refused, run) bound
      | inl (result, db', done) ↦
          let (i, theirs, a, _, _) = accept_invitation-IsAcceptance p mid now db db' result done in
          let counted =
            count-insert (is_active_member_of o) (invited_membership i p.accepting_user_id mid now)
              db.memberships in
          let joined : count_active_members o db'
              ≡ count_rows (is_active_member_of o)
                  (insert_row (invited_membership i p.accepting_user_id mid now) db.memberships) =
            unfold count_active_members in rw a.memberships refl in
          let planned_there = a.planned in
          let room = a.room in
          rw (done, run)
            (elim (Bool-cases (i.organization_id == o)) [
              | inl here ↦
                  let same = (==_iff i.organization_id o).0 here in
                  unfold count_active_members is_active_member_of in ground arith
              | inr elsewhere ↦ unfold count_active_members is_active_member_of in ground arith
            ])
    ]
