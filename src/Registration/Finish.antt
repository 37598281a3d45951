-- ===== src/Registration/Finish.antt =====
-- registration.service.ts: the public completion of a registration. The raw tokens, the random values
-- and the time are arguments; the access token is signed by a parameter.
use orgistry.Prelude.{ℕ, ◌+◌, ◌*◌, String, Option, none, some, List}
use orgistry.Service.{◌>>=◌, ◌>>◌, Handler, pure, query, transaction}
use orgistry.RateLimit.{RateLimitFailureMode, Consume}
use orgistry.Errors.{
  AppError, internal, registration_token_invalid, registration_token_expired,
  registration_token_used,
}
use orgistry.Registration.{
  CompletionDraws, CompleteRegistrationResult, completed, registration_not_found,
  registration_expired, registration_already_used, email_taken, complete_registration,
}
use orgistry.Metadata.{end, text_entry}
use orgistry.Db.Transaction.{ok}
use orgistry.Db.{SecurityActorType, UserRow, PendingRegistrationRow, RequestContext}
use orgistry.Registration.Service.{RegistrationLimits}
use orgistry.Registration.Resolution.{resolve_completion_invitation}
use orgistry.Registration.Pending.{find_pending_registration}
use orgistry.Registration.Settlement.{
  CompletionInvitationContext, CompleteRegistrationParams, CompletionInvitationOutcome,
  no_invitation, invitation_accepted_outcome, invitation_unavailable,
}
use orgistry.Sessions.Service.{
  AuthCrypto, raise, write_security_event, limit_address, limit_subject,
}

abbrev pub completion_error : CompleteRegistrationResult → AppError
completion_error (completed user o m s t outcome) = internal
completion_error registration_expired = registration_token_expired
completion_error registration_already_used = registration_token_used
completion_error registration_not_found = registration_token_invalid
completion_error email_taken = registration_token_invalid

abbrev pub completion_reason : CompleteRegistrationResult → String
completion_reason (completed user o m s t outcome) = "completed"
completion_reason registration_expired = "expired"
completion_reason registration_already_used = "already_used"
completion_reason registration_not_found = "not_found"
completion_reason email_taken = "email_taken"

abbrev pub outcome_text : CompletionInvitationOutcome → String
outcome_text no_invitation = "none"
outcome_text invitation_accepted_outcome = "accepted"
outcome_text invitation_unavailable = "unavailable"

pub record RegistrationCompletion : Type 0 where
  pub user : UserRow
  pub access_token : String
  pub raw_refresh_token : String
  pub invitation : CompletionInvitationOutcome

completion_refused :
    {S : Type 0} → RequestContext → CompleteRegistrationResult → Handler S RegistrationCompletion
completion_refused ctx result = do
  write_security_event none none SecurityActorType.anonymous "auth.registration_completion_rejected"
      (text_entry "reason" (completion_reason result) end) ctx
  raise (completion_error result)

module _ {S : Type 0} (crypto : AuthCrypto) (consume : Consume S) (mode : RateLimitFailureMode)
    (limits : RegistrationLimits) where
  unfoldable pub completion_answer :
      CompletionDraws
      → (raw_refresh_token : String) → RequestContext
      → CompleteRegistrationResult
      → Handler S RegistrationCompletion
  unfolding completion_refused
  completion_answer draws raw_refresh_token ctx (completed user o m s t outcome) = do
    write_security_event (some user.id) (some s.id) SecurityActorType.user
        "auth.registration_completion_succeeded"
        (text_entry "invitation" (outcome_text outcome) end) ctx
    pure (record {
      user = user;
      access_token = crypto.sign_access_token user.id s.id;
      raw_refresh_token = raw_refresh_token;
      invitation = outcome;
    })
  completion_answer draws raw_refresh_token ctx result = completion_refused ctx result

  abbrev pub completion_params :
      (raw_token raw_refresh_token : String)
      → (family_id : ℕ) → Option CompletionInvitationContext
      → RequestContext
      → ℕ
      → CompleteRegistrationParams
  completion_params raw_token raw_refresh_token family_id invitation ctx now = record {
    token_hash = crypto.hash_opaque_token raw_token;
    ip_address = ctx.ip_address;
    user_agent = ctx.user_agent;
    session_expires_at = now + limits.session_ttl_seconds * 1000;
    refresh_token_hash = crypto.hash_opaque_token raw_refresh_token;
    family_id = family_id;
    refresh_expires_at = now + limits.refresh_token_ttl_seconds * 1000;
    invitation = invitation;
    now = now;
  }

  abbrev pub staged_invitation : Option PendingRegistrationRow → Option ℕ
  staged_invitation none = none
  staged_invitation (some pending) = pending.invitation_id

  unfoldable pub handle_complete_registration :
      (fold : List ℕ → List ℕ)
      → (raw_token raw_refresh_token : String) → (family_id : ℕ) → CompletionDraws
      → RequestContext
      → (now : ℕ) → Handler S RegistrationCompletion
  handle_complete_registration fold raw_token raw_refresh_token family_id draws ctx now = do
    limit_address consume mode limits.window_seconds "rl:register:complete:ip:"
        limits.complete_per_ip_max "registration_complete_per_ip" ctx
    limit_subject consume mode limits.window_seconds "rl:register:complete:token:"
        (crypto.hash_opaque_token (crypto.hash_opaque_token raw_token))
        limits.complete_per_token_max "registration_complete_per_token" ctx
    invitation ← query (λ db. ok (
        resolve_completion_invitation
          (staged_invitation (find_pending_registration (crypto.hash_opaque_token raw_token) db))
          ctx db))
    result ← transaction (
        complete_registration fold
          (completion_params raw_token raw_refresh_token family_id invitation ctx now) draws)
    completion_answer draws raw_refresh_token ctx result
