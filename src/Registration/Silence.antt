-- ===== src/Registration/Silence.antt =====
-- What a registration request tells its sender (registration.service.ts).
use orgistry.Prelude.{
  ℕ, String, ◌≡◌, refl, sym, ap, ◌∙◌, inl, inr, Bool, true, false, Option, arith, Bool-cases,
  Option-cases,
}
use orgistry.Service.{◌>>=◌, ◌>>◌, World, Outages, pure, query}
use orgistry.RateLimit.{RateLimitFailureMode, Consume}
use orgistry.Db.Transaction.{ok}
use orgistry.Db.{UserRow, RequestContext}
use orgistry.Recovery.Service.{TokenDraws}
use orgistry.Registration.Service.{
  RegistrationLimits, RegistrationMail, RegisterRequest, record_request_outcome, accepted_as,
  registration_request_limits, after_notice_hit, send_existing_account_guidance, mail_completion,
  stage_registration, register_found, register_resolved, request_registration,
}
use orgistry.Registration.Resolution.{
  RequestInvitationResolution, resolved, rejected, resolve_request_invitation,
}
use orgistry.Sessions.Service.{
  AuthCrypto, is_truthy, write_security_event, find_user_by_normalized_email, limit_address,
  limit_subject,
}
use orgistry.Sessions.Blind.{
  IsBlind, bind-IsBlind, when-IsBlind, auth_rate_limit-IsBlind, >>-answer,
}

module _ {S : Type 0} (crypto : AuthCrypto) (consume : Consume S) (mode : RateLimitFailureMode)
    (limits : RegistrationLimits) where
  registration_request_limits-IsBlind :
      (normalized_email : String) (ctx : RequestContext)
      → IsBlind (registration_request_limits crypto consume mode limits normalized_email ctx)
  unfolding registration_request_limits
  registration_request_limits-IsBlind normalized_email ctx =
      bind-IsBlind
        (limit_address consume mode limits.window_seconds "rl:register:ip:"
          limits.request_per_ip_max "register_per_ip" ctx)
        (λ _.
          limit_subject consume mode limits.window_seconds "rl:register:email:"
            (crypto.hash_opaque_token normalized_email) limits.request_per_email_max
            "register_per_email" ctx)
        (when-IsBlind (is_truthy ctx.ip_address) _ (
          auth_rate_limit-IsBlind consume mode limits.window_seconds _ limits.request_per_ip_max
            "register_per_ip" ctx))
        (λ _.
          auth_rate_limit-IsBlind consume mode limits.window_seconds _ limits.request_per_email_max
            "register_per_email" ctx)

  module _ (deliver : RegistrationMail → Bool) (outages : Outages) (ctx : RequestContext) where
    accepted_as-answer :
        (outcome : String) (delivered : Bool) (w : World S)
        → (accepted_as outages outcome delivered ctx w).0 ≡ ok true
    unfolding record_request_outcome write_security_event
    accepted_as-answer outcome delivered w = ground arith

    guidance-answer :
        (user : UserRow) (normalized_email : String) (w : World S)
        → (send_existing_account_guidance crypto consume mode limits deliver outages user
            normalized_email ctx w).0
          ≡ ok true
    unfolding send_existing_account_guidance after_notice_hit record_request_outcome
        write_security_event
    guidance-answer user normalized_email w = ground arith

    module _ (input : RegisterRequest) (draws : TokenDraws) (now : ℕ) where
      stage-answer :
          (invitation : Option (ℕ × String)) (w : World S)
          → (stage_registration crypto consume mode limits deliver outages input invitation ctx
              draws now w).0
            ≡ ok true
      unfolding stage_registration mail_completion record_request_outcome write_security_event
      stage-answer invitation w = ground arith

      register_resolved-answer :
          (resolution : RequestInvitationResolution) (w : World S)
          → (register_resolved crypto consume mode limits deliver outages input ctx draws now
              resolution w).0
            ≡ ok true
      unfolding register_resolved register_found
      register_resolved-answer (rejected outcome) w = accepted_as-answer outcome false w
      register_resolved-answer (resolved invitation) w = elim (Bool-cases outages.lookup) [
        | inl out ↦ ground (arith, accepted_as-answer "lookup_failed" false w)
        | inr looked ↦
            elim (Option-cases (find_user_by_normalized_email input.normalized_email w.db)) [
              | inl unknown ↦ ground (arith, stage-answer invitation w)
              | inr (u, known) ↦ ground (
                arith,
                guidance-answer u input.normalized_email w,
                accepted_as-answer "ineligible_account" false w,
              )
            ]
      ]

    request_registration-answer :
        (input : RegisterRequest) (draws : TokenDraws) (now : ℕ) (w : World S)
        → (request_registration crypto consume mode limits deliver outages input ctx draws now w).0
          ≡ ((registration_request_limits crypto consume mode limits input.normalized_email ctx
                >> pure true)
              w).0
    unfolding request_registration
    request_registration-answer input draws now w =
        >>-answer
          (registration_request_limits crypto consume mode limits input.normalized_email ctx)
          (query (λ db. ok (
              resolve_request_invitation crypto outages.invitation input.invitation_token
                input.normalized_email now db))
            >>= register_resolved crypto consume mode limits deliver outages input ctx draws now)
          true w (λ v. register_resolved-answer input draws now _ v)

  -- A registration request is answered alike whatever the accounts and invitations are: two requests
  -- for the same address, from the same client and with the same state of the limiter, get the same
  -- answer over any two states of the tables, whatever else they ask for and whichever invitation they
  -- carry, whichever lookups, writes and audit records fail, and whether or not the mails are delivered.
  pub request_registration_indistinguishable :
      (deliver deliver' : RegistrationMail → Bool) (outages outages' : Outages)
      (input input' : RegisterRequest) (ctx : RequestContext) (draws draws' : TokenDraws)
      (now now' : ℕ) (v w : World S)
      → input.normalized_email ≡ input'.normalized_email
      → v.store ≡ w.store
      → (request_registration crypto consume mode limits deliver outages input ctx draws now v).0
        ≡ (request_registration crypto consume mode limits deliver' outages' input' ctx draws' now'
            w).0
  request_registration_indistinguishable deliver deliver' outages outages' input input' ctx draws
        draws' now now' v w same h =
      request_registration-answer deliver outages ctx input draws now v
      ∙ ((bind-IsBlind
            (registration_request_limits crypto consume mode limits input.normalized_email ctx)
            (λ _. pure true) (registration_request_limits-IsBlind input.normalized_email ctx)
            (λ _ a b k. (refl, k)) v w h).0
          ∙ (ap
                (λ email.
                  ((registration_request_limits crypto consume mode limits email ctx >> pure true)
                    w).0)
                same
              ∙ sym (request_registration-answer deliver' outages' ctx input' draws' now' w)))
