-- ===== src/Registration/Service.antt =====
-- apps/api/src/modules/auth/registration.service.ts: the public request of a registration. The
-- address is given trimmed and normalized; the password's hash, the raw token, the new row's id and the
-- time are arguments. The mailer is a parameter that says whether it delivers, and `Outages` says which
-- guarded calls fail.
use mathlib.Core.Option.{map as option_map}
use orgistry.Prelude.{
  ℕ, ◌+◌, ◌*◌, String, Bool, true, false, not, Option, none, some, if◌then◌else◌,
}
use orgistry.Service.{◌>>=◌, ◌>>◌, Outages, Handler, pure, query}
use orgistry.RateLimit.{RateLimitDecision, RateLimitFailureMode, of_text, Consume}
use orgistry.Metadata.{end, text_entry}
use orgistry.Db.Transaction.{ok, throw}
use orgistry.Db.{SecurityActorType, UserRow, RequestContext}
use orgistry.Recovery.Service.{TokenDraws, flag_entry}
use orgistry.Registration.Resolution.{
  RequestInvitationResolution, resolved, rejected, resolve_request_invitation,
}
use orgistry.Registration.Pending.{IssuePendingParams, issue_pending_registration}
use orgistry.Sessions.Service.{
  AuthCrypto, when, write_security_event, is_usable_user, find_user_by_normalized_email,
  limit_address, limit_subject,
}

pub record RegistrationLimits : Type 0 where
  pub window_seconds : ℕ
  pub request_per_ip_max : ℕ
  pub request_per_email_max : ℕ
  pub complete_per_ip_max : ℕ
  pub complete_per_token_max : ℕ
  pub existing_account_notice_per_email_max : ℕ
  pub completion_ttl_seconds : ℕ
  pub session_ttl_seconds : ℕ
  pub refresh_token_ttl_seconds : ℕ

pub data RegistrationMail : Type 0 where
  completion_mail :
      (to raw_token : String)
      → (expires_at : ℕ) → (organization_name : Option String) → RegistrationMail
  existing_account_notice : (to : String) → RegistrationMail

pub record RegisterRequest : Type 0 where
  pub email : String
  pub normalized_email : String
  pub password_hash : String
  pub display_name : String
  pub invitation_token : Option String

unfoldable pub record_request_outcome :
    {S : Type 0} → Outages → String → Bool → RequestContext → Handler S (Unit {0})
record_request_outcome outages outcome delivered ctx = when (not outages.event) (
    write_security_event none none SecurityActorType.anonymous "auth.registration_requested"
      (text_entry "outcome" outcome (flag_entry "delivered" delivered end)) ctx)

-- The outcome is recorded, and the answer is the one acceptance.
abbrev pub accepted_as : {S : Type 0} → Outages → String → Bool → RequestContext → Handler S Bool
accepted_as outages outcome delivered ctx =
    record_request_outcome outages outcome delivered ctx >> pure true

module _ {S : Type 0} (crypto : AuthCrypto) (consume : Consume S) (mode : RateLimitFailureMode)
    (limits : RegistrationLimits) where
  unfoldable pub registration_request_limits : String → RequestContext → Handler S (Unit {0})
  registration_request_limits normalized_email ctx = do
    limit_address consume mode limits.window_seconds "rl:register:ip:" limits.request_per_ip_max
        "register_per_ip" ctx
    limit_subject consume mode limits.window_seconds "rl:register:email:"
        (crypto.hash_opaque_token normalized_email) limits.request_per_email_max
        "register_per_email" ctx

  module _ (deliver : RegistrationMail → Bool) (outages : Outages) where
    unfoldable pub after_notice_hit : UserRow → RequestContext → RateLimitDecision → Handler S Bool
    after_notice_hit user ctx RateLimitDecision.allowed =
        if deliver (existing_account_notice user.email)
        then accepted_as outages "existing_account_notice_sent" false ctx
        else accepted_as outages "existing_account_notice_failed" false ctx
    after_notice_hit user ctx decision =
        accepted_as outages "existing_account_notice_throttled" false ctx

    -- An outage of the limiter's store skips the notice, in every mode.
    unfoldable pub send_existing_account_guidance :
        UserRow → String → RequestContext → Handler S Bool
    send_existing_account_guidance user normalized_email ctx w =
        let hit =
          consume
            (record {
              prefix = "rl:register:notice:email:";
              subject = of_text (crypto.hash_opaque_token normalized_email);
            })
            limits.existing_account_notice_per_email_max limits.window_seconds w.store in
        after_notice_hit user ctx hit.0 (record w { store = hit.1 })

    abbrev pub pending_params : RegisterRequest → Option ℕ → TokenDraws → ℕ → IssuePendingParams
    pending_params input invitation_id draws now = record {
      email = input.email;
      normalized_email = input.normalized_email;
      password_hash = input.password_hash;
      display_name = input.display_name;
      token_hash = crypto.hash_opaque_token draws.raw_token;
      invitation_id = invitation_id;
      expires_at = now + limits.completion_ttl_seconds * 1000;
      now = now;
    }

    unfoldable pub mail_completion :
        RegisterRequest → Option String → RequestContext → TokenDraws → ℕ → Handler S Bool
    mail_completion input organization_name ctx draws now =
        if deliver (
          completion_mail input.email draws.raw_token (now + limits.completion_ttl_seconds * 1000)
            organization_name)
        then accepted_as outages "sent" true ctx
        else accepted_as outages "send_failed" false ctx

    unfoldable pub stage_registration :
        RegisterRequest → Option (ℕ × String) → RequestContext → TokenDraws → ℕ → Handler S Bool
    stage_registration input invitation ctx draws now w =
        if outages.persist
        then accepted_as outages "persist_failed" false ctx w
        else elim (issue_pending_registration
            (pending_params input (option_map (λ (i : ℕ × String). i.0) invitation) draws now)
            draws.id w.db) [
              | ok (u, db') ↦
                  mail_completion input (option_map (λ (i : ℕ × String). i.1) invitation) ctx draws
                    now (record w { db = db' })
              | throw e ↦ accepted_as outages "persist_failed" false ctx w
            ]

    unfoldable pub register_found :
        RegisterRequest
        → Option (ℕ × String)
        → RequestContext
        → TokenDraws
        → ℕ
        → Option UserRow
        → Handler S Bool
    register_found input invitation ctx draws now none =
        stage_registration input invitation ctx draws now
    register_found input invitation ctx draws now (some user) =
        if is_usable_user user
        then send_existing_account_guidance user input.normalized_email ctx
        else accepted_as outages "ineligible_account" false ctx

    unfoldable pub register_resolved :
        RegisterRequest
        → RequestContext
        → TokenDraws
        → ℕ
        → RequestInvitationResolution
        → Handler S Bool
    register_resolved input ctx draws now (rejected outcome) = accepted_as outages outcome false ctx
    register_resolved input ctx draws now (resolved invitation) =
        if outages.lookup
        then accepted_as outages "lookup_failed" false ctx
        else (query (λ db. ok (find_user_by_normalized_email input.normalized_email db))
            >>= register_found input invitation ctx draws now)

    -- The answer is the field `accepted`.
    unfoldable pub request_registration :
        RegisterRequest → RequestContext → TokenDraws → (now : ℕ) → Handler S Bool
    request_registration input ctx draws now = do
      registration_request_limits input.normalized_email ctx
      query (λ db. ok (
            resolve_request_invitation crypto outages.invitation input.invitation_token
              input.normalized_email now db))
          >>= register_resolved input ctx draws now
