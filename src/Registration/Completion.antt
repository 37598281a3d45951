-- ===== src/Registration/Completion.antt =====
-- What a completed registration has read and written (registration.repo.ts).
use orgistry.Prelude.{
  ℕ, ◌<◌, ◌≡◌, subst, ◌≢◌, inl, inr, false, none, some, List, arith, Option-cases,
}
use orgistry.Sessions.{session_row, refresh_token_row, insert_session, insert_refresh_token}
use orgistry.Provisioning.{
  is_slug_taken, founded_organization, default_plan, insert_organization_with_owner_membership,
  owner_membership,
}
use orgistry.Registration.{
  CompletionDraws, completed, registered_user, insert_user, personal_params, completion_session,
  completion_token, personal_slug, create_account, complete_with, complete_registration,
  email_conflict, account_rows,
}
use orgistry.Metadata.{codes}
use orgistry.Db.Transaction.{ok, Result-cases}
use orgistry.Db.{
  UserRow, OrganizationRow, MembershipRow, SessionRow, RefreshTokenRow, PendingRegistrationRow,
  Database,
}
use orgistry.Tables.{insert_row}
use orgistry.Registration.Pending.{consume_pending, find_pending_registration, is_pending_spent}
use orgistry.Registration.Settlement.{
  CompleteRegistrationParams, CompletionInvitationOutcome, settle_invitation,
  settle_invitation-frame,
}
use orgistry.Provisioning.Search.{resolve_unique_slug-result}
use orgistry.Provisioning.Founding.{insert_organization-IsFounded}
use orgistry.Sessions.Service.{find_user_by_normalized_email}
use orgistry.Errors.{AppError, unique_violation}
use orgistry.Slug.{slugify, hyphenated}

pub conflict-ne_completed :
    (e : AppError) (db db' : Database) (user : UserRow) (o : OrganizationRow) (m : MembershipRow)
    (s : SessionRow) (t : RefreshTokenRow) (outcome : CompletionInvitationOutcome)
    → email_conflict e db ≢ ok (completed user o m s t outcome, db')
unfolding email_conflict
conflict-ne_completed (unique_violation constraint) db db' user o m s t outcome h = ground arith
conflict-ne_completed e db db' user o m s t outcome h = cc

module _ (fold : List ℕ → List ℕ) (p : CompleteRegistrationParams) (draws : CompletionDraws) where
  -- The rows of an account that was created for a pending registration.
  pub record IsAccount (pending : PendingRegistrationRow) (db db' : Database)
      (outcome : CompletionInvitationOutcome) : Type 0 where
    pub slug : List ℕ
    pub vacant : find_user_by_normalized_email pending.normalized_email db ≡ none
    pub fresh_slug : is_slug_taken slug db ≡ false
    pub users : db'.users ≡ insert_row (registered_user pending draws.user_id p.now) db.users
    pub organizations :
        db'.organizations
        ≡ insert_row
            (founded_organization
              (personal_params pending draws.user_id slug)
              draws.organization
              p.now)
            db.organizations
    pub plans :
        db'.organization_plans
        ≡ insert_row
            (default_plan (personal_params pending draws.user_id slug) draws.organization p.now)
            db.organization_plans
    pub sessions :
        db'.sessions
        ≡ insert_row
            (session_row draws.session_id p.now (completion_session p draws.user_id))
            db.sessions
    pub refresh_tokens :
        db'.refresh_tokens
        ≡ insert_row
            (refresh_token_row draws.refresh_token_id (completion_token p draws.session_id))
            db.refresh_tokens
    pub pending_registrations :
        db'.pending_registrations ≡ consume_pending pending p.now db.pending_registrations
    -- The tables between which the invitation was settled.
    pub start : Database
    pub finish : Database
    pub start_memberships :
        start.memberships
        ≡ insert_row
            (owner_membership (personal_params pending draws.user_id slug) draws.organization p.now)
            db.memberships
    pub start_invitations : start.invitations ≡ db.invitations
    pub start_events : start.security_events ≡ db.security_events
    pub settled :
        settle_invitation pending.invitation_id p draws.user_id pending.normalized_email
          draws.membership_id start
        ≡ ok (outcome, finish)
    pub finish_memberships : db'.memberships ≡ finish.memberships
    pub finish_invitations : db'.invitations ≡ finish.invitations
    pub finish_events : db'.security_events ≡ finish.security_events

  personal_slug-answer :
      (pending : PendingRegistrationRow) (db : Database)
      → (slug : List ℕ) × (personal_slug fold pending draws.slug_token draws.fallback_token db
          ≡ ok (slug, db))
  unfolding personal_slug
  personal_slug-answer pending db =
      let (slug, found, why) =
        resolve_unique_slug-result (λ slug. is_slug_taken slug db)
          (hyphenated (slugify fold (codes pending.display_name) (codes "workspace"))
            draws.slug_token)
          draws.fallback_token in
      (slug, ground arith)

  create_account-IsAccount :
      (pending : PendingRegistrationRow) (db db' : Database) (user : UserRow) (o : OrganizationRow)
      (m : MembershipRow) (s : SessionRow) (t : RefreshTokenRow)
      (outcome : CompletionInvitationOutcome)
      → create_account fold p draws pending db ≡ ok (completed user o m s t outcome, db')
      → (user ≡ registered_user pending draws.user_id p.now) × IsAccount pending db db' outcome
  unfolding create_account account_rows insert_user insert_session insert_refresh_token
  create_account-IsAccount pending db db' user o m s t outcome done =
      elim (Option-cases (find_user_by_normalized_email pending.normalized_email db)) [
        | inr (u, taken) ↦ absurd (ground arith)
        | inl vacant ↦
            let db1 : Database = record db {
              users = insert_row (registered_user pending draws.user_id p.now) db.users;
            } in
            let (slug, named) = personal_slug-answer pending db1 in
            elim (Result-cases (
              insert_organization_with_owner_membership (personal_params pending draws.user_id slug)
                draws.organization p.now db1)) [
                  | inr (e, refused) ↦ absurd (ground arith)
                  | inl ((org, mem), db2, inserted) ↦
                      let (mine, theirs, f) =
                        insert_organization-IsFounded (personal_params pending draws.user_id slug)
                          draws.organization p.now db1 db2 org mem inserted in
                      let db3 : Database = record db2 {
                        sessions =
                            insert_row
                              (session_row draws.session_id p.now
                                (completion_session p draws.user_id))
                              db2.sessions;
                        refresh_tokens =
                            insert_row
                              (refresh_token_row draws.refresh_token_id
                                (completion_token p draws.session_id))
                              db2.refresh_tokens;
                      } in
                      elim (Result-cases (
                        settle_invitation pending.invitation_id p draws.user_id
                          pending.normalized_email draws.membership_id db3)) [
                            | inr (e, refused) ↦ absurd (ground arith)
                            | inl (out, db4, settled) ↦
                                let framed =
                                  settle_invitation-frame pending.invitation_id p draws.user_id
                                    pending.normalized_email draws.membership_id db3 db4 out
                                    settled in
                                let same : out ≡ outcome = ground arith in
                                (
                                  ground arith,
                                  record {
                                    slug = slug;
                                    vacant = vacant;
                                    fresh_slug = unfold is_slug_taken in f.fresh_slug;
                                    users = ground (arith, f.left);
                                    organizations = ground (arith, f.left);
                                    plans = ground (arith, f.left);
                                    sessions = ground (arith, f.left);
                                    refresh_tokens = ground (arith, f.left);
                                    pending_registrations = ground (arith, f.left);
                                    start = db3;
                                    finish = db4;
                                    start_memberships = ground (arith, f.left);
                                    start_invitations = ground (arith, f.left);
                                    start_events = ground (arith, f.left);
                                    settled =
                                        subst
                                          (λ o.
                                            settle_invitation pending.invitation_id p draws.user_id
                                              pending.normalized_email draws.membership_id db3
                                            ≡ ok (o, db4))
                                          same settled;
                                    finish_memberships = ground arith;
                                    finish_invitations = ground arith;
                                    finish_events = ground arith;
                                  },
                                )
                          ]
                ]
      ]

  -- A completion that created an account.
  pub complete_registration-IsAccount :
      (db db' : Database) (user : UserRow) (o : OrganizationRow) (m : MembershipRow)
      (s : SessionRow) (t : RefreshTokenRow) (outcome : CompletionInvitationOutcome)
      → complete_registration fold p draws db ≡ ok (completed user o m s t outcome, db')
      → (pending : PendingRegistrationRow) × (find_pending_registration p.token_hash db
          ≡ some pending)
        × (is_pending_spent pending ≡ false)
        × (p.now < pending.expires_at)
        × (user ≡ registered_user pending draws.user_id p.now)
        × IsAccount pending db db' outcome
  unfolding complete_registration complete_with
  complete_registration-IsAccount db db' user o m s t outcome done =
      elim (Option-cases (find_pending_registration p.token_hash db)) [
        | inl missing ↦ absurd (ground arith)
        | inr (pending, hit) ↦ elim (Result-cases (create_account fold p draws pending db)) [
          | inr (e, refused) ↦
              absurd (conflict-ne_completed e db db' user o m s t outcome (ground arith))
          | inl (r, left, created) ↦
              let whole : create_account fold p draws pending db
                  ≡ ok (completed user o m s t outcome, db') =
                ground arith in
              let (mine, account) =
                create_account-IsAccount pending db db' user o m s t outcome whole in
              (pending, hit, ground arith, ground arith, mine, account)
        ]
      ]
