-- ===== src/Registration/Settlement.antt =====
-- registration.repo.ts: the invitation side of a completion (settleInvitation). A nested transaction
-- is a savepoint: its throw is caught with the tables as they were before it.
use orgistry.Prelude.{
  ℕ, String, ◌≡◌, refl, subst, ◌≢◌, ◌⊎◌, inl, inr, Bool, true, false, Option, none, some, arith,
  ◌==◌, if◌then◌else◌, Bool-cases, Option-cases,
}
use orgistry.Db.Transaction.{ok, throw, Tx, return, Result-cases}
use orgistry.Errors.{
  AppError, quota_exceeded, invitation_invalid, invitation_expired, invitation_revoked,
  invitation_already_accepted, invitation_email_mismatch, duplicate_pending_invitation,
  already_active_member,
}
use orgistry.Invitations.{by_invitation_id, AcceptInvitationParams, accept_invitation}
use orgistry.Db.{Database, RequestContext, OrganizationPlanRow, InvitationRow}
use orgistry.Invitations.Acceptance.{accept_invitation-IsAcceptance, IsAcceptance}

pub record CompletionInvitationContext : Type 0 where
  pub invitation_id : ℕ
  pub event_context : RequestContext

pub record CompleteRegistrationParams : Type 0 where
  pub token_hash : String
  pub ip_address : Option String
  pub user_agent : Option String
  pub session_expires_at : ℕ
  pub refresh_token_hash : String
  pub family_id : ℕ
  pub refresh_expires_at : ℕ
  pub invitation : Option CompletionInvitationContext
  pub now : ℕ

pub data CompletionInvitationOutcome : Type 0 where
  no_invitation invitation_accepted_outcome invitation_unavailable : CompletionInvitationOutcome

-- INVITATION_UNAVAILABLE_CODES, by the errors that carry the codes.
unfoldable pub is_invitation_unavailable : AppError → Bool
is_invitation_unavailable invitation_invalid = true
is_invitation_unavailable invitation_expired = true
is_invitation_unavailable invitation_revoked = true
is_invitation_unavailable invitation_already_accepted = true
is_invitation_unavailable invitation_email_mismatch = true
is_invitation_unavailable (quota_exceeded quota limit current) = true
is_invitation_unavailable already_active_member = true
is_invitation_unavailable duplicate_pending_invitation = true
is_invitation_unavailable e = false

abbrev pub settlement_params : ℕ → CompletionInvitationContext → ℕ → String → AcceptInvitationParams
settlement_params invitation_id context user_id normalized_email = record {
  selector = by_invitation_id invitation_id;
  accepting_user_id = user_id;
  accepting_user_normalized_email = normalized_email;
  ctx = record {
    actor_user_id = user_id;
    actor_membership_id = none;
    request = context.event_context;
  };
}

-- The savepoint and its `catch`.
unfoldable pub accept_in_savepoint :
    AcceptInvitationParams → (membership_id now : ℕ) → Tx CompletionInvitationOutcome
accept_in_savepoint p membership_id now db = elim (accept_invitation p membership_id now db) [
  | ok (r, db') ↦ ok (invitation_accepted_outcome, db')
  | throw e ↦ if is_invitation_unavailable e then ok (invitation_unavailable, db) else throw e
]

unfoldable pub settle_known :
    ℕ
    → Option CompletionInvitationContext
    → (user_id : ℕ) → String
    → (membership_id now : ℕ) → Tx CompletionInvitationOutcome
settle_known invitation_id none user_id email membership_id now = return invitation_unavailable
settle_known invitation_id (some context) user_id email membership_id now =
    if context.invitation_id == invitation_id
    then accept_in_savepoint (settlement_params invitation_id context user_id email) membership_id
        now
    else return invitation_unavailable

unfoldable pub settle_invitation :
    Option ℕ
    → CompleteRegistrationParams
    → (user_id : ℕ) → String
    → (membership_id : ℕ) → Tx CompletionInvitationOutcome
settle_invitation none p user_id email membership_id = return no_invitation
settle_invitation (some invitation_id) p user_id email membership_id =
    settle_known invitation_id p.invitation user_id email membership_id p.now

-- A settlement writes memberships, invitations and audit events only.
pub settle_invitation-frame :
    (invitation_id : Option ℕ) (p : CompleteRegistrationParams) (user_id : ℕ) (email : String)
    (membership_id : ℕ) (db db' : Database) (outcome : CompletionInvitationOutcome)
    → settle_invitation invitation_id p user_id email membership_id db ≡ ok (outcome, db')
    → db' ≡ record db {
      memberships = db'.memberships;
      invitations = db'.invitations;
      security_events = db'.security_events;
    }
unfolding settle_invitation settle_known accept_in_savepoint
settle_invitation-frame none p user_id email membership_id db db' outcome done = ground arith
settle_invitation-frame (some id) p user_id email membership_id db db' outcome done =
    elim (Option-cases p.invitation) [
      | inl absent ↦ ground arith
      | inr (context, given) ↦
          let params = settlement_params id context user_id email in
          elim (Result-cases (accept_invitation params membership_id p.now db)) [
            | inr (e, refused) ↦ ground arith
            | inl (r, left, accepted) ↦
                let (i, plan, a, _, _) =
                  accept_invitation-IsAcceptance params membership_id p.now db left r accepted in
                ground (arith, a.frame)
          ]
    ]

-- How an invitation was settled: nothing was written, or it was accepted.
pub settle_invitation-cases :
    (invitation_id : Option ℕ) (p : CompleteRegistrationParams) (user_id : ℕ) (email : String)
    (membership_id : ℕ) (db db' : Database) (outcome : CompletionInvitationOutcome)
    → settle_invitation invitation_id p user_id email membership_id db ≡ ok (outcome, db')
    → ((outcome ≢ invitation_accepted_outcome) × (db' ≡ db))
      ⊎ ((outcome ≡ invitation_accepted_outcome)
          × ((id : ℕ) × (context : CompletionInvitationContext) × (i : InvitationRow)
              × (plan : OrganizationPlanRow) × (invitation_id ≡ some id)
              × IsAcceptance
                  (settlement_params id context user_id email)
                  membership_id
                  p.now
                  db
                  db'
                  i
                  plan))
unfolding settle_invitation settle_known accept_in_savepoint
settle_invitation-cases none p user_id email membership_id db db' outcome done =
    inl (ground arith, ground arith)
settle_invitation-cases (some id) p user_id email membership_id db db' outcome done =
    elim (Option-cases p.invitation) [
      | inl absent ↦ inl (ground arith, ground arith)
      | inr (context, given) ↦
          let params = settlement_params id context user_id email in
          elim (Bool-cases (context.invitation_id == id)) [
            | inr other ↦ inl (ground arith, ground arith)
            | inl this ↦ elim (Result-cases (accept_invitation params membership_id p.now db)) [
              | inr (e, refused) ↦ inl (ground arith, ground arith)
              | inl (r, left, accepted) ↦
                  let (i, plan, a, _, _) =
                    accept_invitation-IsAcceptance params membership_id p.now db left r accepted in
                  let same : left ≡ db' = ground arith in
                  inr (
                    ground arith,
                    (
                      id,
                      context,
                      i,
                      plan,
                      refl,
                      subst (λ d. IsAcceptance params membership_id p.now db d i plan) same a,
                    ),
                  )
            ]
          ]
    ]
