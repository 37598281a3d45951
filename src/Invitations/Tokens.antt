-- ===== src/Invitations/Tokens.antt =====
-- The methods of invitation.service.ts that a raw token opens: inspectInvitation and
-- acceptInvitation. The hash of a token is a parameter; the address is the normalized one.
use orgistry.Prelude.{ℕ, String, none}
use orgistry.Service.{◌>>◌, Handler, transaction, enforce_rate_limit}
use orgistry.RateLimit.{RateLimitFailureMode, of_text, rl_key, Consume}
use orgistry.Invitations.{
  by_token_hash, AcceptInvitationParams, AcceptInvitationResult, accept_invitation,
}
use orgistry.Db.{RequestContext}
use orgistry.Invitations.Handlers.{InvitationLimits}
use orgistry.Sessions.Service.{is_truthy, text_or_empty, when}
use orgistry.Invitations.Context.{PublicInvitation, inspected, check_acceptance}

abbrev pub acceptance_params :
    (token_hash : String)
    → (user_id : ℕ) → (normalized_email : String) → RequestContext
    → AcceptInvitationParams
acceptance_params token_hash user_id normalized_email request = record {
  selector = by_token_hash token_hash;
  accepting_user_id = user_id;
  accepting_user_normalized_email = normalized_email;
  ctx = record { actor_user_id = user_id; actor_membership_id = none; request = request };
}

unfoldable pub check_and_accept :
    {S : Type 0}
    → (token_hash : String) → (user_id : ℕ) → (normalized_email : String) → RequestContext
    → (membership_id now : ℕ) → Handler S AcceptInvitationResult
check_and_accept token_hash user_id normalized_email request membership_id now = do
  transaction (check_acceptance token_hash normalized_email now)
  transaction (
      accept_invitation (acceptance_params token_hash user_id normalized_email request)
        membership_id now)

module _ {S : Type 0} (hash_opaque_token : String → String) (consume : Consume S)
    (mode : RateLimitFailureMode) (limits : InvitationLimits) where
  unfoldable pub inspect_invitation :
      (raw_token : String) → RequestContext → (now : ℕ) → Handler S PublicInvitation
  inspect_invitation raw_token ctx now = do
    when (is_truthy ctx.ip_address) (
        enforce_rate_limit consume mode
          (record {
            prefix = "rl:invitation:inspect:ip:";
            subject = of_text (text_or_empty ctx.ip_address);
          })
          limits.inspect_per_ip_max limits.window_seconds)
    enforce_rate_limit consume mode
        (record {
          prefix = "rl:invitation:inspect:token:";
          subject = of_text (hash_opaque_token (hash_opaque_token raw_token));
        })
        limits.inspect_per_token_max limits.window_seconds
    transaction (inspected (hash_opaque_token raw_token) now)

  unfoldable pub handle_accept_invitation :
      (raw_token : String)
      → (user_id : ℕ) → (normalized_email : String) → RequestContext
      → (membership_id now : ℕ) → Handler S AcceptInvitationResult
  handle_accept_invitation raw_token user_id normalized_email request membership_id now =
      enforce_rate_limit consume mode (rl_key "rl:invitation:accept:user:" user_id)
        limits.accept_per_user_max limits.window_seconds
      >> check_and_accept (hash_opaque_token raw_token) user_id normalized_email request
          membership_id now
