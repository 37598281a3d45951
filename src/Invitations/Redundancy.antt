-- ===== src/Invitations/Redundancy.antt =====
-- The early checks of acceptInvitation (invitation.service.ts) against the transaction behind them, and
-- what inspectInvitation gives away.
use orgistry.Prelude.{ℕ, String, ◌≡◌, ◌⊎◌, inl, inr, some, arith, str_eq_refl, Option-cases}
use orgistry.Service.{World, enforce_rate_limit, enforce_rate_limit-db}
use orgistry.Access.{find_organization_by_id, find_role}
use orgistry.Plans.{lock_organization_entitlements}
use orgistry.RateLimit.{RateLimitFailureMode, rl_key, Consume}
use orgistry.Errors.{AppError}
use orgistry.Invitations.{
  assert_acceptable, find_invitation, AcceptInvitationParams, AcceptInvitationResult,
  accept_invitation, by_token_hash, derive_invitation_status,
}
use orgistry.Db.Transaction.{ok, throw, run, Result-cases, Outcome-cases}
use orgistry.Db.{pending, RoleRow, OrganizationRow, InvitationRow, Database, RequestContext}
use orgistry.Invitations.Tokens.{acceptance_params, check_and_accept, handle_accept_invitation}
use orgistry.Invitations.Handlers.{InvitationLimits}
use orgistry.Invitations.Context.{
  find_context_by_token_hash, acceptable_context, check_acceptance, InvitationContext,
  PublicInvitation, public_invitation, inspected,
}
use orgistry.Invitations.Acceptance.{accept_invitation-IsAcceptance}
use orgistry.Invitations.Lifecycle.{assert_acceptable-cases, assert_acceptable-status}

-- A committed acceptance has seen the organization and the role.
accept_invitation-known :
    (p : AcceptInvitationParams) (mid now : ℕ) (db db' : Database) (r : AcceptInvitationResult)
    (i : InvitationRow)
    → find_invitation p.selector db ≡ some i
    → accept_invitation p mid now db ≡ ok (r, db')
    → (o : OrganizationRow) × (role : RoleRow) × (find_organization_by_id db i.organization_id
        ≡ some o)
      × (find_role db i.role_id ≡ some role)
unfolding accept_invitation lock_organization_entitlements
accept_invitation-known p mid now db db' r i selected done =
    elim (assert_acceptable-cases i now db) [
      | inr (e, refused) ↦ absurd (ground arith)
      | inl (open_status, passed) ↦
          elim (Option-cases (find_organization_by_id db i.organization_id)) [
            | inl unknown ↦ absurd (ground arith)
            | inr (o, known) ↦ elim (Option-cases (find_role db i.role_id)) [
              | inl missing ↦ absurd (ground arith)
              | inr (role, seeded) ↦ (o, role, known, seeded)
            ]
          ]
    ]

find_context-found :
    (token_hash : String) (db : Database) (i : InvitationRow) (o : OrganizationRow) (role : RoleRow)
    → find_invitation (by_token_hash token_hash) db ≡ some i
    → find_organization_by_id db i.organization_id ≡ some o
    → find_role db i.role_id ≡ some role
    → find_context_by_token_hash token_hash db
      ≡ some (record { invitation = i; organization = o; role = role })
unfolding find_context_by_token_hash
find_context-found token_hash db i o role selected known seeded = ground arith

-- What the transaction accepts, the early checks let pass.
check_acceptance-passes :
    (token_hash : String) (user_id : ℕ) (email : String) (ctx : RequestContext) (mid now : ℕ)
    (db db' : Database) (r : AcceptInvitationResult)
    → accept_invitation (acceptance_params token_hash user_id email ctx) mid now db ≡ ok (r, db')
    → check_acceptance token_hash email now db ≡ ok (tt, db)
unfolding check_acceptance acceptable_context
check_acceptance-passes token_hash user_id email ctx mid now db db' r done =
    let p = acceptance_params token_hash user_id email ctx in
    let (i, plan, a, _, _) = accept_invitation-IsAcceptance p mid now db db' r done in
    let (o, role, known, seeded) = accept_invitation-known p mid now db db' r i a.selected done in
    let found = find_context-found token_hash db i o role a.selected known seeded in
    let passed : assert_acceptable i now db ≡ ok (tt, db) =
      ground (arith, a.acceptable, assert_acceptable-status i now db) in
    ground (arith, str_eq_refl email)

-- The early checks only read.
check_acceptance-reads :
    (token_hash email : String) (now : ℕ) (db : Database)
    → (check_acceptance token_hash email now db ≡ ok (tt, db))
      ⊎ ((e : AppError) × (check_acceptance token_hash email now db ≡ throw e))
unfolding check_acceptance acceptable_context assert_acceptable
check_acceptance-reads token_hash email now db =
    elim (Outcome-cases (check_acceptance token_hash email now db)) [
      | inl (a, passed) ↦ inl (ground arith)
      | inr (e, refused) ↦ inr (e, refused)
    ]

module _ {S : Type 0} (hash_opaque_token : String → String) (consume : Consume S)
    (mode : RateLimitFailureMode) (limits : InvitationLimits) where
  -- When the throttle lets a request to accept an invitation pass, the early checks decide nothing
  -- that the transaction would decide otherwise: the tables afterwards are those that the transaction
  -- leaves, and the answer is the transaction's, or both are errors.
  pub handle_accept_invitation-redundant_checks :
      (raw_token : String) (user_id : ℕ) (email : String) (ctx : RequestContext) (mid now : ℕ)
      (w : World S)
      → (enforce_rate_limit consume mode
          (rl_key "rl:invitation:accept:user:" user_id)
          limits.accept_per_user_max
          limits.window_seconds
          w).0
        ≡ ok tt
      → ((handle_accept_invitation hash_opaque_token consume mode limits raw_token user_id email ctx
            mid now w).1.db
          ≡ (run
              (accept_invitation
                (acceptance_params (hash_opaque_token raw_token) user_id email ctx)
                mid
                now)
              w.db).1)
        × (((handle_accept_invitation hash_opaque_token consume mode limits raw_token user_id email
                ctx mid now w).0
              ≡ (run
                  (accept_invitation
                    (acceptance_params (hash_opaque_token raw_token) user_id email ctx)
                    mid
                    now)
                  w.db).0)
            ⊎ ((e e' : AppError) × ((handle_accept_invitation hash_opaque_token consume mode limits
                    raw_token user_id email ctx mid now w).0
                  ≡ throw e)
                × ((run
                      (accept_invitation
                        (acceptance_params (hash_opaque_token raw_token) user_id email ctx)
                        mid
                        now)
                      w.db).0
                    ≡ throw e')))
  unfolding handle_accept_invitation check_and_accept
  handle_accept_invitation-redundant_checks raw_token user_id email ctx mid now w admitted =
      let p = acceptance_params (hash_opaque_token raw_token) user_id email ctx in
      let same =
        enforce_rate_limit-db consume mode (rl_key "rl:invitation:accept:user:" user_id)
          limits.accept_per_user_max limits.window_seconds w in
      elim (Result-cases (accept_invitation p mid now w.db)) [
        | inl (r, left, done) ↦
            let passed =
              check_acceptance-passes (hash_opaque_token raw_token) user_id email ctx mid now w.db
                left r done in
            (ground arith, inl (ground arith))
        | inr (e', refused) ↦
            elim (check_acceptance-reads (hash_opaque_token raw_token) email now w.db) [
              | inl passed ↦ (ground arith, inl (ground arith))
              | inr (e, early) ↦ (ground arith, inr (e, e', ground arith, ground arith))
            ]
      ]

-- An inspection writes nothing, and what it gives away is of an invitation that presents itself as
-- pending and that the hash of the token selects.
pub inspected-open :
    (token_hash : String) (now : ℕ) (db db' : Database) (public : PublicInvitation)
    → inspected token_hash now db ≡ ok (public, db')
    → (db' ≡ db)
      × ((context : InvitationContext) × (find_context_by_token_hash token_hash db ≡ some context)
          × (derive_invitation_status context.invitation now ≡ pending)
          × (public ≡ public_invitation context))
unfolding inspected acceptable_context
inspected-open token_hash now db db' public done =
    elim (Option-cases (find_context_by_token_hash token_hash db)) [
      | inl missing ↦ absurd (ground arith)
      | inr (context, found) ↦ elim (assert_acceptable-cases context.invitation now db) [
        | inr (e, refused) ↦ absurd (ground arith)
        | inl (open_status, passed) ↦ (ground arith, (context, found, open_status, ground arith))
      ]
    ]
