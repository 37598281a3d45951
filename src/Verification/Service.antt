-- ===== src/Verification/Service.antt =====
-- apps/api/src/modules/auth/email-verification.service.ts. The raw token, the new row's id and the
-- time are arguments; the mailer is a parameter that says whether it delivers, and `Outages` says which
-- guarded calls fail. A delivery that rejects becomes `internal`.
use orgistry.Prelude.{
  ℕ, ◌+◌, ◌*◌, String, Bool, true, false, not, ◌&&◌, Option, none, some, if◌then◌else◌, is_some,
}
use orgistry.Service.{◌>>=◌, ◌>>◌, Outages, Handler, pure, query, transaction}
use orgistry.Verification.{
  issue_verification_token, CompleteVerificationResult, verified, verification_not_found,
  verification_expired, verification_already_used, user_not_verifiable, complete_verification,
}
use orgistry.RateLimit.{RateLimitFailureMode, rl_key, Consume}
use orgistry.Errors.{
  AppError, internal, email_verification_token_invalid, email_verification_token_expired,
  email_verification_token_used,
}
use orgistry.Metadata.{Entries, end, text_entry}
use orgistry.AccountTokens.{IssueTokenParams}
use orgistry.Db.Transaction.{ok}
use orgistry.Db.{SecurityActorType, UserRow, RequestContext}
use orgistry.Recovery.Service.{TokenDraws, flag_entry}
use orgistry.Sessions.Service.{
  AuthCrypto, when, raise, write_security_event, is_usable_user, find_user_by_id,
  enforce_auth_rate_limit, limit_address,
}

pub record VerificationLimits : Type 0 where
  pub window_seconds : ℕ
  pub request_per_user_max : ℕ
  pub request_per_ip_max : ℕ
  pub complete_per_ip_max : ℕ
  pub ttl_seconds : ℕ

pub record VerificationRequestResponse : Type 0 where
  pub sent : Bool
  pub already_verified : Bool

abbrev pub verification_error : CompleteVerificationResult → AppError
verification_error (verified user already) = internal
verification_error verification_expired = email_verification_token_expired
verification_error verification_already_used = email_verification_token_used
verification_error verification_not_found = email_verification_token_invalid
verification_error user_not_verifiable = email_verification_token_invalid

abbrev pub verification_reason : CompleteVerificationResult → String
verification_reason (verified user already) = "verified"
verification_reason verification_expired = "expired"
verification_reason verification_already_used = "already_used"
verification_reason verification_not_found = "not_found"
verification_reason user_not_verifiable = "user_not_verifiable"

verification_refused : {S : Type 0} → RequestContext → CompleteVerificationResult → Handler S Bool
verification_refused ctx result = do
  write_security_event none none SecurityActorType.anonymous "auth.email_verification_failed"
      (text_entry "reason" (verification_reason result) end) ctx
  raise (verification_error result)

unfoldable pub verification_answer :
    {S : Type 0} → RequestContext → CompleteVerificationResult → Handler S Bool
unfolding verification_refused
verification_answer ctx (verified user already) = do
  write_security_event (some user.id) none SecurityActorType.user
      "auth.email_verification_succeeded" end ctx
  pure true
verification_answer ctx result = verification_refused ctx result

module _ {S : Type 0} (crypto : AuthCrypto) (consume : Consume S) (mode : RateLimitFailureMode)
    (limits : VerificationLimits) where
  module _ (deliver : (to raw_token : String) → ℕ → Bool) where
    abbrev pub issued_verification : UserRow → TokenDraws → ℕ → IssueTokenParams
    issued_verification user draws now = record {
      user_id = user.id;
      token_hash = crypto.hash_opaque_token draws.raw_token;
      expires_at = now + limits.ttl_seconds * 1000;
      now = now;
    }

    -- The mail comes first: its failure leaves the tokens as they were.
    unfoldable pub issue_and_send : UserRow → TokenDraws → ℕ → Handler S (Unit {0})
    issue_and_send user draws now =
        if deliver user.email draws.raw_token (now + limits.ttl_seconds * 1000)
        then transaction (issue_verification_token (issued_verification user draws now) draws.id)
        else raise internal

    abbrev pub record_verification_request : ℕ → Entries → RequestContext → Handler S (Unit {0})
    record_verification_request user_id metadata ctx =
        write_security_event (some user_id) none SecurityActorType.user
          "auth.email_verification_requested" metadata ctx

    unfoldable pub request_for_row :
        RequestContext → TokenDraws → ℕ → Option UserRow → Handler S VerificationRequestResponse
    request_for_row ctx draws now none = pure (record { sent = false; already_verified = false })
    request_for_row ctx draws now (some row) =
        if is_usable_user row
        then (if is_some row.email_verified_at
            then pure (record { sent = false; already_verified = true })
            else (do
              issue_and_send row draws now
              record_verification_request row.id (flag_entry "delivered" true end) ctx
              pure (record { sent = true; already_verified = false })))
        else pure (record { sent = false; already_verified = false })

    unfoldable pub verification_request_limits : ℕ → RequestContext → Handler S (Unit {0})
    verification_request_limits user_id ctx = do
      enforce_auth_rate_limit consume mode limits.window_seconds
          (rl_key "rl:email-verification:request:user:" user_id) limits.request_per_user_max
          "email_verification_request_per_user" ctx
      limit_address consume mode limits.window_seconds "rl:email-verification:request:ip:"
          limits.request_per_ip_max "email_verification_request_per_ip" ctx

    unfoldable pub request_verification_email :
        (user_id : ℕ)
        → RequestContext
        → TokenDraws
        → (now : ℕ) → Handler S VerificationRequestResponse
    request_verification_email user_id ctx draws now = do
      verification_request_limits user_id ctx
      row ← query (λ db. ok (find_user_by_id user_id db))
      request_for_row ctx draws now row

    -- `sendBestEffortVerificationEmail`: it never throws. A failed audit record of a delivery is
    -- followed by an attempt to record a failure, which fails alike.
    unfoldable pub send_email_change_verification_email :
        Outages → UserRow → RequestContext → TokenDraws → ℕ → Handler S (Unit {0})
    send_email_change_verification_email outages user ctx draws now w =
        let delivered = deliver user.email draws.raw_token (now + limits.ttl_seconds * 1000) in
        (do
          when (delivered && not outages.persist)
              (transaction (issue_verification_token (issued_verification user draws now) draws.id))
          when (not outages.event) (
              record_verification_request user.id
                (flag_entry "delivered" (delivered && not outages.persist)
                  (text_entry "trigger" "email_change" end))
                ctx))
          w

  unfoldable pub handle_complete_verification :
      (raw_token : String) → RequestContext → (now : ℕ) → Handler S Bool
  handle_complete_verification raw_token ctx now = do
    limit_address consume mode limits.window_seconds "rl:email-verification:complete:ip:"
        limits.complete_per_ip_max "email_verification_complete_per_ip" ctx
    result ← transaction (complete_verification (crypto.hash_opaque_token raw_token) now)
    verification_answer ctx result
