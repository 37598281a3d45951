-- ===== src/Verification/Delivery.antt =====
-- The order of the mail and of the write (email-verification.service.ts).
use orgistry.Prelude.{
  ℕ, ◌+◌, ◌*◌, String, ◌≡◌, refl, ◌≢◌, ◌⊎◌, inl, inr, Bool, true, false, ◌&&◌, none, some, arith,
  Bool-cases, Option-cases, is_none,
}
use orgistry.Service.{World, Handler}
use orgistry.Verification.{issue_verification_token}
use orgistry.RateLimit.{RateLimitFailureMode, of_text, BucketKey, rl_key, Consume}
use orgistry.AccountTokens.{is_open_of, replace_generation, replace_generation-open}
use orgistry.Db.Transaction.{Result, ok, Outcome-cases}
use orgistry.Db.{UserRow, RequestContext}
use orgistry.Tables.{count_rows}
use orgistry.Recovery.Service.{TokenDraws}
use orgistry.Verification.Service.{
  VerificationLimits, VerificationRequestResponse, issued_verification, issue_and_send,
  request_for_row, verification_request_limits, request_verification_email,
}
use orgistry.Sessions.Service.{
  AuthCrypto, is_truthy, text_or_empty, when, write_security_event, is_usable_user, find_user_by_id,
  enforce_auth_rate_limit, limit_address,
}
use orgistry.Sessions.Quiet.{IsQuiet, bind-IsQuiet, auth_rate_limit-IsQuiet, when-IsQuiet}

-- The verification tokens that a method leaves.
abbrev KeepsTokens : {S A : Type 0} → Handler S A → Type 0
KeepsTokens {S} m =
    (w : World S) → (m w).1.db.email_verification_tokens ≡ w.db.email_verification_tokens

module _ {S : Type 0} (crypto : AuthCrypto) (consume : Consume S) (mode : RateLimitFailureMode)
    (limits : VerificationLimits) (deliver : (to raw_token : String) → ℕ → Bool) where
  throttle-KeepsTokens :
      (window : ℕ) (key : BucketKey) (limit : ℕ) (bucket : String) (ctx : RequestContext)
      → KeepsTokens (enforce_auth_rate_limit consume mode window key limit bucket ctx)
  unfolding enforce_auth_rate_limit write_security_event
  throttle-KeepsTokens window key limit bucket ctx w = ground arith

  when-KeepsTokens : (b : Bool) (m : Handler S (Unit {0})) → KeepsTokens m → KeepsTokens (when b m)
  when-KeepsTokens true m keeps w = keeps w
  when-KeepsTokens false m keeps w = refl

  limits-KeepsTokens :
      (user_id : ℕ) (ctx : RequestContext)
      → KeepsTokens (verification_request_limits crypto consume mode limits deliver user_id ctx)
  unfolding verification_request_limits
  limits-KeepsTokens user_id ctx w = ground (
    arith,
    throttle-KeepsTokens limits.window_seconds
        (rl_key "rl:email-verification:request:user:" user_id) limits.request_per_user_max
        "email_verification_request_per_user" ctx w,
    when-KeepsTokens (is_truthy ctx.ip_address)
        (enforce_auth_rate_limit consume mode limits.window_seconds
          (record {
            prefix = "rl:email-verification:request:ip:";
            subject = of_text (text_or_empty ctx.ip_address);
          })
          limits.request_per_ip_max "email_verification_request_per_ip" ctx)
        (throttle-KeepsTokens limits.window_seconds
          (record {
            prefix = "rl:email-verification:request:ip:";
            subject = of_text (text_or_empty ctx.ip_address);
          })
          limits.request_per_ip_max "email_verification_request_per_ip" ctx)
        (enforce_auth_rate_limit consume mode limits.window_seconds
          (rl_key "rl:email-verification:request:user:" user_id) limits.request_per_user_max
          "email_verification_request_per_user" ctx w).1,
  )

  limits-IsQuiet :
      (user_id : ℕ) (ctx : RequestContext)
      → IsQuiet (verification_request_limits crypto consume mode limits deliver user_id ctx)
  unfolding verification_request_limits
  limits-IsQuiet user_id ctx =
      bind-IsQuiet
        (enforce_auth_rate_limit consume mode limits.window_seconds
          (rl_key "rl:email-verification:request:user:" user_id) limits.request_per_user_max
          "email_verification_request_per_user" ctx)
        (λ _.
          limit_address consume mode limits.window_seconds "rl:email-verification:request:ip:"
            limits.request_per_ip_max "email_verification_request_per_ip" ctx)
        (auth_rate_limit-IsQuiet consume mode limits.window_seconds _ limits.request_per_user_max
          "email_verification_request_per_user" ctx)
        (λ _. when-IsQuiet (is_truthy ctx.ip_address) _ (
          auth_rate_limit-IsQuiet consume mode limits.window_seconds _ limits.request_per_ip_max
            "email_verification_request_per_ip" ctx))

  -- A verification request either leaves every verification token as it was, and then does not answer
  -- that a mail was sent; or it was for a usable user whose address is unverified, the mail was
  -- delivered to the stored address with the new token, the answer says so, and the new token is the
  -- user's only open one.
  pub request_verification_email-delivery :
      (user_id : ℕ) (ctx : RequestContext) (draws : TokenDraws) (now : ℕ) (w w' : World S)
      (answer : Result VerificationRequestResponse)
      → request_verification_email crypto consume mode limits deliver user_id ctx draws now w
        ≡ (answer, w')
      → ((w'.db.email_verification_tokens ≡ w.db.email_verification_tokens)
          × (answer ≢ ok (record { sent = true; already_verified = false })))
        ⊎ ((u : UserRow) × (find_user_by_id user_id w.db ≡ some u)
            × (is_usable_user u ≡ true)
            × (u.email_verified_at ≡ none)
            × (deliver u.email draws.raw_token (now + limits.ttl_seconds * 1000) ≡ true)
            × (answer ≡ ok (record { sent = true; already_verified = false }))
            × (w'.db.email_verification_tokens
                ≡ replace_generation
                    (issued_verification crypto consume mode limits deliver u draws now)
                    draws.id
                    w.db.email_verification_tokens)
            × (count_rows (is_open_of u.id) w'.db.email_verification_tokens ≡ 1))
  unfolding request_verification_email request_for_row issue_and_send issue_verification_token
      write_security_event
  request_verification_email-delivery user_id ctx draws now w w' answer done =
      let keeps = limits-KeepsTokens user_id ctx w in
      elim (Outcome-cases
        (verification_request_limits crypto consume mode limits deliver user_id ctx w).0) [
          | inr (e, refused) ↦ inl (ground arith, ground arith)
          | inl (a, passed) ↦
              let same = limits-IsQuiet user_id ctx w a passed in
              elim (Option-cases (find_user_by_id user_id w.db)) [
                | inl unknown ↦ inl (ground arith, ground arith)
                | inr (u, known) ↦
                    elim (Bool-cases (is_usable_user u && is_none u.email_verified_at)) [
                      | inr settled ↦ inl (ground arith, ground arith)
                      | inl due ↦
                          elim (Bool-cases
                            (deliver u.email draws.raw_token (now + limits.ttl_seconds * 1000))) [
                              | inr lost ↦ inl (ground arith, ground arith)
                              | inl sent ↦
                                  let issued =
                                    issued_verification crypto consume mode limits deliver u draws
                                      now in
                                  let tokens : w'.db.email_verification_tokens
                                      ≡ replace_generation issued draws.id
                                          w.db.email_verification_tokens =
                                    ground arith in
                                  inr (
                                    u,
                                    known,
                                    ground arith,
                                    ground arith,
                                    sent,
                                    ground arith,
                                    tokens,
                                    rw tokens (
                                        replace_generation-open issued draws.id
                                          w.db.email_verification_tokens),
                                  )
                            ]
                    ]
              ]
        ]
