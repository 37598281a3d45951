-- ===== src/Recovery/Silence.antt =====
-- What a request for a password reset tells its sender (password-recovery.service.ts).
use orgistry.Prelude.{ℕ, String, ◌≡◌, refl, sym, ◌∙◌, Bool, true, Option, none, some, arith}
use orgistry.Service.{◌>>◌, World, Outages, pure}
use orgistry.RateLimit.{RateLimitFailureMode, Consume}
use orgistry.Recovery.{issue_reset_token}
use orgistry.Db.Transaction.{ok}
use orgistry.Db.{UserRow, RequestContext}
use orgistry.Recovery.Service.{
  RecoveryLimits, TokenDraws, record_reset_request, reset_request_limits, send_reset,
  reset_recoverable, reset_found, request_reset, reset_looked_up,
}
use orgistry.Sessions.Service.{
  AuthCrypto, is_truthy, write_security_event, find_user_by_normalized_email, limit_address,
  limit_subject,
}
use orgistry.Sessions.Blind.{
  IsBlind, bind-IsBlind, when-IsBlind, auth_rate_limit-IsBlind, >>-answer,
}

module _ {S : Type 0} (crypto : AuthCrypto) (consume : Consume S) (mode : RateLimitFailureMode)
    (limits : RecoveryLimits) where
  reset_request_limits-IsBlind :
      (normalized_email : String) (ctx : RequestContext)
      → IsBlind (reset_request_limits crypto consume mode limits normalized_email ctx)
  unfolding reset_request_limits
  reset_request_limits-IsBlind normalized_email ctx =
      bind-IsBlind
        (limit_address consume mode limits.window_seconds "rl:password-recovery:request:ip:"
          limits.request_per_ip_max "password_recovery_request_per_ip" ctx)
        (λ _.
          limit_subject consume mode limits.window_seconds "rl:password-recovery:request:email:"
            (crypto.hash_opaque_token normalized_email) limits.request_per_email_max
            "password_recovery_request_per_email" ctx)
        (when-IsBlind (is_truthy ctx.ip_address) _ (
          auth_rate_limit-IsBlind consume mode limits.window_seconds _ limits.request_per_ip_max
            "password_recovery_request_per_ip" ctx))
        (λ _.
          auth_rate_limit-IsBlind consume mode limits.window_seconds _ limits.request_per_email_max
            "password_recovery_request_per_email" ctx)

  module _ (deliver : (to raw_token : String) → ℕ → Bool) (outages : Outages) where
    reset_found-answer :
        (ctx : RequestContext) (draws : TokenDraws) (now : ℕ) (user : Option UserRow) (w : World S)
        → (reset_found crypto consume mode limits deliver outages ctx draws now user w).0 ≡ ok true
    unfolding reset_found reset_recoverable send_reset record_reset_request write_security_event
        issue_reset_token
    reset_found-answer ctx draws now none w = ground arith
    reset_found-answer ctx draws now (some user) w = ground arith

    reset_looked_up-answer :
        (normalized_email : String) (ctx : RequestContext) (draws : TokenDraws) (now : ℕ)
        (w : World S)
        → (reset_looked_up crypto consume mode limits deliver outages normalized_email ctx draws now
            w).0
          ≡ ok true
    unfolding reset_looked_up record_reset_request write_security_event
    reset_looked_up-answer normalized_email ctx draws now w = ground (
      arith,
      reset_found-answer ctx draws now (find_user_by_normalized_email normalized_email w.db) w,
    )

    request_reset-answer :
        (normalized_email : String) (ctx : RequestContext) (draws : TokenDraws) (now : ℕ)
        (w : World S)
        → (request_reset crypto consume mode limits deliver outages normalized_email ctx draws now
            w).0
          ≡ ((reset_request_limits crypto consume mode limits normalized_email ctx >> pure true)
              w).0
    unfolding request_reset
    request_reset-answer normalized_email ctx draws now w =
        >>-answer (reset_request_limits crypto consume mode limits normalized_email ctx)
          (reset_looked_up crypto consume mode limits deliver outages normalized_email ctx draws
            now)
          true w (reset_looked_up-answer normalized_email ctx draws now)

  -- A request for a reset is answered alike whatever the accounts are: two requests for the same
  -- address, from the same client and with the same state of the limiter, get the same answer over any
  -- two states of the tables, whichever lookups, writes and audit records fail, and whether or not the
  -- mails are delivered.
  pub request_reset_indistinguishable :
      (deliver deliver' : (to raw_token : String) → ℕ → Bool) (outages outages' : Outages)
      (normalized_email : String) (ctx : RequestContext) (draws draws' : TokenDraws) (now now' : ℕ)
      (v w : World S)
      → v.store ≡ w.store
      → (request_reset crypto consume mode limits deliver outages normalized_email ctx draws now
          v).0
        ≡ (request_reset crypto consume mode limits deliver' outages' normalized_email ctx draws'
            now' w).0
  request_reset_indistinguishable deliver deliver' outages outages' normalized_email ctx draws
        draws' now now' v w h =
      request_reset-answer deliver outages normalized_email ctx draws now v
      ∙ (bind-IsBlind (reset_request_limits crypto consume mode limits normalized_email ctx)
          (λ _. pure true) (reset_request_limits-IsBlind normalized_email ctx)
          (λ _ a b k. (refl, k)) v w h).0
      ∙ sym (request_reset-answer deliver' outages' normalized_email ctx draws' now' w)
