-- ===== src/Recovery/Service.antt =====
-- apps/api/src/modules/auth/password-recovery.service.ts. The address is the normalized one; the raw
-- token, the new row's id, the new password's hash and the time are arguments. The mailer is a
-- parameter that says whether it delivers, and `Outages` says which guarded calls fail.
use orgistry.Prelude.{
  ℕ, ◌+◌, ◌*◌, String, Bool, true, false, not, Option, none, some, if◌then◌else◌,
}
use orgistry.Service.{◌>>=◌, ◌>>◌, Outages, Handler, pure, query, transaction}
use orgistry.RateLimit.{RateLimitFailureMode, Consume}
use orgistry.Errors.{
  AppError, internal, password_reset_token_invalid, password_reset_token_expired,
  password_reset_token_used,
}
use orgistry.Metadata.{codes, number, Entries, end, entry, text_entry}
use orgistry.Recovery.{
  issue_reset_token, CompleteResetResult, reset, reset_not_found, reset_expired, reset_already_used,
  user_not_recoverable, complete_reset,
}
use orgistry.Db.Transaction.{ok}
use orgistry.Db.{SecurityActorType, UserRow, RequestContext}
use orgistry.Sessions.Service.{
  AuthCrypto, when, raise, write_security_event, is_usable_user, find_user_by_normalized_email,
  limit_address, limit_subject,
}

pub record RecoveryLimits : Type 0 where
  pub window_seconds : ℕ
  pub request_per_ip_max : ℕ
  pub request_per_email_max : ℕ
  pub complete_per_ip_max : ℕ
  pub complete_per_token_max : ℕ
  pub ttl_seconds : ℕ

pub record TokenDraws : Type 0 where
  pub id : ℕ
  pub raw_token : String

abbrev pub flag_entry : String → Bool → Entries → Entries
flag_entry key b rest = entry (codes key) (number (if b then 1 else 0)) rest

unfoldable pub record_reset_request :
    {S : Type 0} → Outages → String → Bool → RequestContext → Handler S (Unit {0})
record_reset_request outages outcome delivered ctx = when (not outages.event) (
    write_security_event none none SecurityActorType.anonymous "auth.password_reset_requested"
      (text_entry "outcome" outcome (flag_entry "delivered" delivered end)) ctx)

abbrev pub token_error : CompleteResetResult → AppError
token_error (reset user) = internal
token_error reset_expired = password_reset_token_expired
token_error reset_already_used = password_reset_token_used
token_error reset_not_found = password_reset_token_invalid
token_error user_not_recoverable = password_reset_token_invalid

abbrev pub reset_reason : CompleteResetResult → String
reset_reason (reset user) = "reset"
reset_reason reset_expired = "expired"
reset_reason reset_already_used = "already_used"
reset_reason reset_not_found = "not_found"
reset_reason user_not_recoverable = "user_not_recoverable"

reset_refused : {S : Type 0} → RequestContext → CompleteResetResult → Handler S Bool
reset_refused ctx result = do
  write_security_event none none SecurityActorType.anonymous "auth.password_reset_rejected"
      (text_entry "reason" (reset_reason result) end) ctx
  raise (token_error result)

-- A completed reset is attributed to the user, a rejected one to nobody.
unfoldable pub reset_answer : {S : Type 0} → RequestContext → CompleteResetResult → Handler S Bool
unfolding reset_refused
reset_answer ctx (reset user) = do
  write_security_event (some user.id) none SecurityActorType.user "auth.password_reset_completed"
      (flag_entry "sessionsRevoked" true end) ctx
  pure true
reset_answer ctx result = reset_refused ctx result

module _ {S : Type 0} (crypto : AuthCrypto) (consume : Consume S) (mode : RateLimitFailureMode)
    (limits : RecoveryLimits) where
  unfoldable pub reset_request_limits : String → RequestContext → Handler S (Unit {0})
  reset_request_limits normalized_email ctx = do
    limit_address consume mode limits.window_seconds "rl:password-recovery:request:ip:"
        limits.request_per_ip_max "password_recovery_request_per_ip" ctx
    limit_subject consume mode limits.window_seconds "rl:password-recovery:request:email:"
        (crypto.hash_opaque_token normalized_email) limits.request_per_email_max
        "password_recovery_request_per_email" ctx

  module _ (deliver : (to raw_token : String) → ℕ → Bool) (outages : Outages) where
    -- What follows the issue of a token: the mail.
    unfoldable pub send_reset : UserRow → RequestContext → TokenDraws → ℕ → Handler S Bool
    send_reset user ctx draws now =
        if deliver user.email draws.raw_token (now + limits.ttl_seconds * 1000)
        then (record_reset_request outages "sent" true ctx >> pure true)
        else (record_reset_request outages "send_failed" false ctx >> pure true)

    unfoldable pub reset_recoverable : UserRow → RequestContext → TokenDraws → ℕ → Handler S Bool
    reset_recoverable user ctx draws now =
        if outages.persist
        then (record_reset_request outages "persist_failed" false ctx >> pure true)
        else (do
          transaction (
              issue_reset_token
                (record {
                  user_id = user.id;
                  token_hash = crypto.hash_opaque_token draws.raw_token;
                  expires_at = now + limits.ttl_seconds * 1000;
                  now = now;
                })
                draws.id)
          send_reset user ctx draws now)

    unfoldable pub reset_found : RequestContext → TokenDraws → ℕ → Option UserRow → Handler S Bool
    reset_found ctx draws now none =
        record_reset_request outages "unknown_email" false ctx >> pure true
    reset_found ctx draws now (some user) =
        if is_usable_user user
        then reset_recoverable user ctx draws now
        else (record_reset_request outages "inactive_account" false ctx >> pure true)

    unfoldable pub reset_looked_up : String → RequestContext → TokenDraws → ℕ → Handler S Bool
    reset_looked_up normalized_email ctx draws now =
        if outages.lookup
        then (record_reset_request outages "lookup_failed" false ctx >> pure true)
        else (query (λ db. ok (find_user_by_normalized_email normalized_email db))
            >>= reset_found ctx draws now)

    -- The answer is the field `accepted`.
    unfoldable pub request_reset :
        (normalized_email : String) → RequestContext → TokenDraws → (now : ℕ) → Handler S Bool
    request_reset normalized_email ctx draws now = do
      reset_request_limits normalized_email ctx
      reset_looked_up normalized_email ctx draws now

  unfoldable pub handle_complete_reset :
      (raw_token new_password_hash : String) → RequestContext → (now : ℕ) → Handler S Bool
  handle_complete_reset raw_token new_password_hash ctx now = do
    limit_address consume mode limits.window_seconds "rl:password-recovery:complete:ip:"
        limits.complete_per_ip_max "password_recovery_complete_per_ip" ctx
    limit_subject consume mode limits.window_seconds "rl:password-recovery:complete:token:"
        (crypto.hash_opaque_token (crypto.hash_opaque_token raw_token))
        limits.complete_per_token_max "password_recovery_complete_per_token" ctx
    result ← transaction (
        complete_reset (record {
          token_hash = crypto.hash_opaque_token raw_token;
          new_password_hash = new_password_hash;
          now = now;
        }))
    reset_answer ctx result
