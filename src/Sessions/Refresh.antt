-- ===== src/Sessions/Refresh.antt =====
-- The refresh of auth.service.ts. The raw successor (`generateOpaqueToken`) and the successor row's id
-- are arguments.
use orgistry.Prelude.{ℕ, ◌+◌, ◌*◌, String, Option, none, some}
use orgistry.Metadata.{end, text_entry}
use orgistry.Db.{SecurityActorType, RefreshTokenRow, RequestContext}
use orgistry.Service.{◌>>=◌, ◌>>◌, Handler, pure, query, transaction}
use orgistry.Sessions.{
  find_refresh_token_by_hash, RotateRefreshTokenParams, RotateRefreshTokenResult,
  rotation_not_found, rotation_expired, rotation_reuse, rotation_rotated, rotate_refresh_token,
  revoke_refresh_token_family, revoke_session,
}
use orgistry.RateLimit.{RateLimitFailureMode, of_text, rl_key, Consume}
use orgistry.Db.Transaction.{ok}
use orgistry.Sessions.Service.{
  AuthCrypto, AuthLimits, is_truthy, text_or_empty, command, when, write_security_event,
  actor_type_of, enforce_auth_rate_limit,
}

-- The outcome of a refresh: the raw successor and the new access token, or the class of failure.
pub data RefreshResult : Type 0 where
  rotated : (raw_refresh_token access_token : String) → RefreshResult
  reuse_detected invalid : RefreshResult

module _ {S : Type 0} (crypto : AuthCrypto) (consume : Consume S) (mode : RateLimitFailureMode)
    (limits : AuthLimits) where
  refresh_failed : String → RequestContext → Handler S RefreshResult
  refresh_failed reason ctx = do
    write_security_event none none SecurityActorType.anonymous "auth.refresh_failed"
        (text_entry "reason" reason end) ctx
    pure invalid

  -- What follows a rotation.
  refresh_answer : String → ℕ → RequestContext → RotateRefreshTokenResult → Handler S RefreshResult
  refresh_answer successor_raw now ctx (rotation_rotated successor session) = do
    write_security_event (some session.user_id) (some session.id) SecurityActorType.user
        "auth.refresh_token_rotated" end ctx
    pure (rotated successor_raw (crypto.sign_access_token session.user_id session.id))
  refresh_answer successor_raw now ctx (rotation_reuse family_id session_id user_id) = do
    command (revoke_refresh_token_family family_id "refresh_token_reuse_detected" now)
    command (revoke_session session_id "refresh_token_reuse_detected" now)
    write_security_event user_id (some session_id) (actor_type_of user_id)
        "auth.refresh_token_reuse_detected" end ctx
    pure reuse_detected
  refresh_answer successor_raw now ctx rotation_expired = refresh_failed "expired" ctx
  refresh_answer successor_raw now ctx rotation_not_found = refresh_failed "not_found" ctx

  unfoldable pub limit_presented : RequestContext → Option RefreshTokenRow → Handler S (Unit {0})
  limit_presented ctx none = pure tt
  limit_presented ctx (some t) =
      enforce_auth_rate_limit consume mode limits.window_seconds
        (rl_key "rl:refresh:sess:" t.session_id) limits.refresh_per_session_max
        "refresh_per_session" ctx

  unfoldable pub limit_by_address : RequestContext → Handler S (Unit {0})
  limit_by_address ctx = when (is_truthy ctx.ip_address) (
      enforce_auth_rate_limit consume mode limits.window_seconds
        (record { prefix = "rl:refresh:ip:"; subject = of_text (text_or_empty ctx.ip_address) })
        limits.refresh_per_ip_max "refresh_per_ip" ctx)

  abbrev pub presented_token : String → Handler S (Option RefreshTokenRow)
  presented_token token_hash = query (λ db. ok (find_refresh_token_by_hash token_hash db))

  -- The two throttles of `refresh`.
  unfoldable pub refresh_limits : String → RequestContext → Handler S (Unit {0})
  refresh_limits presented_token_hash ctx =
      limit_by_address ctx >> (presented_token presented_token_hash >>= limit_presented ctx)

  abbrev pub rotation_params : String → String → ℕ → RotateRefreshTokenParams
  rotation_params raw_refresh_token successor_raw now = record {
    presented_token_hash = crypto.hash_opaque_token raw_refresh_token;
    successor_token_hash = crypto.hash_opaque_token successor_raw;
    successor_expires_at = now + limits.refresh_token_ttl_seconds * 1000;
    now = now;
  }

  unfoldable pub refresh :
      (raw_refresh_token : String)
      → RequestContext
      → (successor_raw : String) → (successor_id now : ℕ) → Handler S RefreshResult
  unfolding refresh_answer refresh_failed
  refresh raw_refresh_token ctx successor_raw successor_id now = do
    refresh_limits (crypto.hash_opaque_token raw_refresh_token) ctx
    rotation ←
        transaction
          (rotate_refresh_token (rotation_params raw_refresh_token successor_raw now) successor_id)
    refresh_answer successor_raw now ctx rotation
