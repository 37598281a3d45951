-- ===== src/Registration/Invited.antt =====
-- How a completion settles the invitation that its registration was staged with (registration.repo.ts).
use orgistry.Prelude.{
  ℕ, ◌<◌, ◌≡◌, refl, ap, ◌∙◌, ◌⊎◌, inl, inr, false, none, some, List, arith, ◌==◌, ==_iff,
}
use orgistry.Errors.{AppError, internal, plan_state_missing}
use orgistry.Invitations.{
  find_invitation, derive_invitation_status, by_invitation_id, is_selected, invited_membership,
  set_accepted,
}
use orgistry.Db.Transaction.{ok, throw, Result-cases}
use orgistry.Db.{
  InvitationRow, Database, UserRow, OrganizationRow, MembershipRow, SessionRow, RefreshTokenRow,
  PendingRegistrationRow, InvitationStatus,
}
use orgistry.Registration.Settlement.{
  CompleteRegistrationParams, no_invitation, invitation_accepted_outcome, invitation_unavailable,
  settle_invitation, CompletionInvitationOutcome, settle_invitation-cases,
}
use orgistry.Registration.{
  CompletionDraws, CompleteRegistrationResult, completed, registered_user, email_conflict,
  account_rows, create_account, complete_with, complete_registration, personal_params,
}
use orgistry.Registration.Completion.{complete_registration-IsAccount, conflict-ne_completed}
use orgistry.Registration.Pending.{find_pending_registration, is_pending_spent, consume_pending}
use orgistry.Sessions.Service.{find_user_by_normalized_email}
use orgistry.Provisioning.{owner_membership}
use orgistry.Tables.{update_rows, insert_row, find_sound}
use orgistry.Registration.Verdict.{IsUnavailable, settle_invitation-verdict, settle-without}

module _ (fold : List ℕ → List ℕ) (p : CompleteRegistrationParams) (draws : CompletionDraws)
    (pending : PendingRegistrationRow) (db : Database) where
  -- The tables between which an account settles its invitation.
  create_account-rows :
      (left : Database) (user : UserRow) (o : OrganizationRow) (m : MembershipRow) (s : SessionRow)
      (t : RefreshTokenRow) (outcome : CompletionInvitationOutcome)
      → create_account fold p draws pending db ≡ ok (completed user o m s t outcome, left)
      → (start : Database) × (finish : Database) × (account_rows fold p draws pending db
          ≡ ok (((o, m), (s, t)), start))
        × (settle_invitation pending.invitation_id p draws.user_id pending.normalized_email
              draws.membership_id start
            ≡ ok (outcome, finish))
        × (left ≡ record finish {
          pending_registrations = consume_pending pending p.now finish.pending_registrations;
        })
        × (user ≡ registered_user pending draws.user_id p.now)
  unfolding create_account
  create_account-rows left user o m s t outcome done =
      elim (Result-cases (account_rows fold p draws pending db)) [
        | inr (e, failed) ↦ absurd (ground arith)
        | inl (((o', m'), (s', t')), start, written) ↦
            elim (Result-cases (
              settle_invitation pending.invitation_id p draws.user_id pending.normalized_email
                draws.membership_id start)) [
                  | inr (e, failed) ↦ absurd (ground arith)
                  | inl (out, finish, settled) ↦
                      (start, finish, ground arith, ground arith, ground arith, ground arith)
                ]
      ]

  create_account-settled :
      (start finish : Database) (o : OrganizationRow) (m : MembershipRow) (s : SessionRow)
      (t : RefreshTokenRow) (outcome : CompletionInvitationOutcome)
      → account_rows fold p draws pending db ≡ ok (((o, m), (s, t)), start)
      → settle_invitation pending.invitation_id p draws.user_id pending.normalized_email
          draws.membership_id start
        ≡ ok (outcome, finish)
      → create_account fold p draws pending db
        ≡ ok (
          completed (registered_user pending draws.user_id p.now) o m s t outcome,
          record finish {
            pending_registrations = consume_pending pending p.now finish.pending_registrations;
          },
        )
  unfolding create_account
  create_account-settled start finish o m s t outcome written settled = ground arith

  create_account-broken :
      (start : Database) (o : OrganizationRow) (m : MembershipRow) (s : SessionRow)
      (t : RefreshTokenRow) (e : AppError)
      → account_rows fold p draws pending db ≡ ok (((o, m), (s, t)), start)
      → settle_invitation pending.invitation_id p draws.user_id pending.normalized_email
          draws.membership_id start
        ≡ throw e
      → create_account fold p draws pending db ≡ throw e
  unfolding create_account
  create_account-broken start o m s t e written failed = ground arith

  complete-account :
      (r : CompleteRegistrationResult) (db' : Database)
      → find_pending_registration p.token_hash db ≡ some pending
      → is_pending_spent pending ≡ false
      → p.now < pending.expires_at
      → find_user_by_normalized_email pending.normalized_email db ≡ none
      → create_account fold p draws pending db ≡ ok (r, db')
      → complete_registration fold p draws db ≡ ok (r, db')
  unfolding complete_registration complete_with
  complete-account r db' hit unspent early vacant created = ground arith

  complete-broken :
      (e : AppError)
      → (e ≡ plan_state_missing) ⊎ (e ≡ internal)
      → find_pending_registration p.token_hash db ≡ some pending
      → is_pending_spent pending ≡ false
      → p.now < pending.expires_at
      → find_user_by_normalized_email pending.normalized_email db ≡ none
      → create_account fold p draws pending db ≡ throw e
      → complete_registration fold p draws db ≡ throw e
  unfolding complete_registration complete_with email_conflict
  complete-broken e which hit unspent early vacant failed = ground arith

  complete-created :
      (left : Database) (user : UserRow) (o : OrganizationRow) (m : MembershipRow) (s : SessionRow)
      (t : RefreshTokenRow) (outcome : CompletionInvitationOutcome)
      → find_pending_registration p.token_hash db ≡ some pending
      → complete_registration fold p draws db ≡ ok (completed user o m s t outcome, left)
      → create_account fold p draws pending db ≡ ok (completed user o m s t outcome, left)
  unfolding complete_registration complete_with
  complete-created left user o m s t outcome hit done =
      elim (Result-cases (create_account fold p draws pending db)) [
        | inr (e, refused) ↦
            absurd (conflict-ne_completed e db left user o m s t outcome (ground arith))
        | inl (a, db', created) ↦ ground arith
      ]

abbrev without_invitation : CompleteRegistrationParams → CompleteRegistrationParams
without_invitation p = record p { invitation = none }

module _ (fold : List ℕ → List ℕ) (p : CompleteRegistrationParams) (draws : CompletionDraws)
    (pending : PendingRegistrationRow) (db left : Database)
    (answer : CompletionInvitationOutcome → CompleteRegistrationResult) where
  -- The tables of the new account, in which its invitation is settled: those that the completion
  -- without an invitation leaves, but for the staged registrations.
  abbrev pub IsStart : Database → Type 0
  IsStart start = left ≡ record start { pending_registrations = left.pending_registrations }

  abbrev pub IsUninvited : Type 0
  IsUninvited =
      (pending.invitation_id ≡ none)
      × (complete_registration fold p draws db ≡ ok (answer no_invitation, left))

  abbrev pub IsDeclined : Type 0
  IsDeclined =
      (id : ℕ) × (start : Database) × (pending.invitation_id ≡ some id)
      × IsStart start
      × IsUnavailable id p draws.user_id pending.normalized_email draws.membership_id start
      × (complete_registration fold p draws db ≡ ok (answer invitation_unavailable, left))

  abbrev pub IsHonoured : Type 0
  IsHonoured =
      (db' : Database) × (i : InvitationRow) × (complete_registration fold p draws db
        ≡ ok (answer invitation_accepted_outcome, db'))
      × (pending.invitation_id ≡ some i.id)
      × (derive_invitation_status i p.now ≡ InvitationStatus.pending)
      × (i.invited_email_normalized ≡ pending.normalized_email)
      × (db'.memberships
          ≡ insert_row (invited_membership i draws.user_id draws.membership_id p.now)
              left.memberships)
      × (db'.invitations
          ≡ update_rows (λ r. r.id == i.id) (set_accepted draws.user_id p.now) left.invitations)

  abbrev pub IsBroken : Type 0
  IsBroken =
      (e : AppError) × ((e ≡ plan_state_missing) ⊎ (e ≡ internal))
      × (complete_registration fold p draws db ≡ throw e)

  honoured :
      (start finish : Database)
      → IsStart start
      → settle_invitation pending.invitation_id p draws.user_id pending.normalized_email
          draws.membership_id start
        ≡ ok (invitation_accepted_outcome, finish)
      → complete_registration fold p draws db
        ≡ ok (
          answer invitation_accepted_outcome,
          record finish {
            pending_registrations = consume_pending pending p.now finish.pending_registrations;
          },
        )
      → IsHonoured
  honoured start finish same settled done =
      elim (settle_invitation-cases pending.invitation_id p draws.user_id pending.normalized_email
        draws.membership_id start finish invitation_accepted_outcome settled) [
          | inl (unsettled, unchanged) ↦ absurd (unsettled refl)
          | inr (accepted, (id, context, i, plan, staged, c)) ↦
              let this : i.id ≡ id = (==_iff i.id id).0 (
                unfold find_invitation is_selected in
                find_sound (is_selected (by_invitation_id id)) start.invitations i c.selected) in
              (
                record finish {
                  pending_registrations =
                      consume_pending pending p.now finish.pending_registrations;
                },
                i,
                done,
                rw this staged,
                c.acceptable,
                c.address,
                ground (arith, c.memberships),
                ground (arith, c.invitations),
              )
        ]

-- A completion settles the invitation that its registration was staged with, and the account does not
-- hang on it. Whenever the completion creates the account when it carries no invitation, which adds the
-- founder's membership and no other, leaves the invitations as they were and records no event, the
-- completion ends in one of four ways. Nothing was staged, and it gives the same tables and answer, with
-- no invitation. One was staged and cannot be honoured, since the completion carries none or another
-- one or its acceptance in the tables of the new account fails, and it gives the same tables and answer,
-- with the invitation unavailable. It was accepted: it is the staged invitation, it presents itself as
-- pending, it is for the staged address, the user has one more membership, with the invited role, and
-- the invitation is marked as accepted. Or it throws, with the error of an organization without a plan
-- or the internal error.
pub complete_registration-settlement :
    (fold : List ℕ → List ℕ) (p : CompleteRegistrationParams) (draws : CompletionDraws)
    (db left : Database) (user : UserRow) (o : OrganizationRow) (m : MembershipRow) (s : SessionRow)
    (t : RefreshTokenRow) (plain : CompletionInvitationOutcome)
    → complete_registration fold (without_invitation p) draws db
      ≡ ok (completed user o m s t plain, left)
    → (pending : PendingRegistrationRow) × (slug : List ℕ) × (find_pending_registration p.token_hash
          db
        ≡ some pending)
      × (left.memberships
          ≡ insert_row
              (owner_membership
                (personal_params pending draws.user_id slug)
                draws.organization
                p.now)
              db.memberships)
      × (left.invitations ≡ db.invitations)
      × (left.security_events ≡ db.security_events)
      × (IsUninvited fold p draws pending db left (completed user o m s t)
          ⊎ (IsDeclined fold p draws pending db left (completed user o m s t)
              ⊎ (IsHonoured fold p draws pending db left (completed user o m s t)
                  ⊎ IsBroken fold p draws pending db left (completed user o m s t))))
complete_registration-settlement fold p draws db left user o m s t plain alone =
    let q = without_invitation p in
    let (pending, hit, unspent, early, mine, a) =
      complete_registration-IsAccount fold q draws db left user o m s t plain alone in
    let same =
      settle-without pending.invitation_id q draws.user_id pending.normalized_email
        draws.membership_id a.start a.finish plain refl a.settled in
    let (start, finish, rows, settled, whole, mine') =
      create_account-rows fold q draws pending db left user o m s t plain
        (complete-created fold q draws pending db left user o m s t plain hit alone) in
    let still =
      settle-without pending.invitation_id q draws.user_id pending.normalized_email
        draws.membership_id start finish plain refl settled in
    let written : account_rows fold p draws pending db ≡ ok (((o, m), (s, t)), start) =
      unfold account_rows in rows in
    let complete : (outcome : CompletionInvitationOutcome) (end_ : Database)
        → settle_invitation pending.invitation_id p draws.user_id pending.normalized_email
            draws.membership_id start
          ≡ ok (outcome, end_)
        → complete_registration fold p draws db
          ≡ ok (
            completed user o m s t outcome,
            record end_ {
              pending_registrations = consume_pending pending p.now end_.pending_registrations;
            },
          ) =
      λ outcome end_ e. rw mine (
        complete-account fold p draws pending db _ _ hit unspent early a.vacant
          (create_account-settled fold p draws pending db start end_ o m s t outcome written e)) in
    let unchanged : record start {
      pending_registrations = consume_pending pending p.now start.pending_registrations;
    }
        ≡ left =
      ground arith in
    let begun : left ≡ record start { pending_registrations = left.pending_registrations } =
      ground arith in
    (
      pending,
      a.slug,
      hit,
      a.finish_memberships ∙ (ap (λ (d : Database). d.memberships) same ∙ a.start_memberships),
      a.finish_invitations ∙ (ap (λ (d : Database). d.invitations) same ∙ a.start_invitations),
      a.finish_events ∙ (ap (λ (d : Database). d.security_events) same ∙ a.start_events),
      elim (settle_invitation-verdict pending.invitation_id p draws.user_id pending.normalized_email
          draws.membership_id start) [
            | inl (nothing, e) ↦ inl (
              nothing,
              complete no_invitation start e
                  ∙ ap (λ d. ok (completed user o m s t no_invitation, d)) unchanged,
            )
            | inr (inl (id, staged, why, e)) ↦ inr (
                inl (
                  id,
                  start,
                  staged,
                  begun,
                  why,
                  complete invitation_unavailable start e
                      ∙ ap (λ d. ok (completed user o m s t invitation_unavailable, d)) unchanged,
                ))
            | inr (inr (inl (end_, e))) ↦ inr (
                inr (
                  inl (
                    honoured fold p draws pending db left (completed user o m s t) start end_ begun
                      e (complete invitation_accepted_outcome end_ e))))
            | inr (inr (inr (e, which, failed))) ↦ inr (
                inr (
                  inr (
                    e,
                    which,
                    complete-broken fold p draws pending db e which hit unspent early a.vacant (
                        create_account-broken fold p draws pending db start o m s t e written
                          failed),
                  )))
          ],
    )
