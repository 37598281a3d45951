-- ===== src/Sessions/Endings.antt =====
-- The ends of sessions in auth.service.ts: logout, the revocation of one session and the change of a
-- password. The new hash (`hashPassword`, salted) is an argument.
use orgistry.Prelude.{ℕ, String, Bool, not, Option, none, some, ◌==◌, if◌then◌else◌, is_none}
use orgistry.Metadata.{end, codes, text_entry, entry, number}
use orgistry.Db.{SecurityActorType, UserRow, SessionRow, RefreshTokenRow, RequestContext}
use orgistry.Service.{◌>>=◌, ◌>>◌, Handler, pure, query, transaction}
use orgistry.Sessions.{
  find_session_by_id, find_refresh_token_by_hash, revoke_refresh_tokens_for_session, revoke_session,
  change_password_keeping_current_session,
}
use orgistry.RateLimit.{RateLimitFailureMode, rl_key, Consume}
use orgistry.Errors.{AppError, current_password_incorrect, password_unchanged, session_not_found}
use orgistry.Db.Transaction.{ok}
use orgistry.Sessions.Service.{
  AuthCrypto, AuthLimits, is_truthy, text_or_empty, command, when, raise, write_security_event,
  actor_type_of, enforce_auth_rate_limit, require_authenticated_session,
}

user_of : Option SessionRow → Option ℕ
user_of none = none
user_of (some s) = some s.user_id

module _ {S : Type 0} (crypto : AuthCrypto) where
  logout_token : ℕ → RequestContext → Option RefreshTokenRow → Handler S (Unit {0})
  logout_token now ctx none = pure tt
  logout_token now ctx (some token) = do
    session ← query (λ db. ok (find_session_by_id token.session_id db))
    command (revoke_session token.session_id "logout" now)
    command (revoke_refresh_tokens_for_session token.session_id "logout" now)
    write_security_event (user_of session) (some token.session_id) (actor_type_of (user_of session))
        "auth.logout_succeeded" end ctx

  unfoldable pub logout : Option String → RequestContext → ℕ → Handler S (Unit {0})
  unfolding logout_token user_of
  logout raw_refresh_token ctx now =
      if is_truthy raw_refresh_token
      then (query (λ db. ok (
            find_refresh_token_by_hash (crypto.hash_opaque_token (text_or_empty raw_refresh_token))
              db))
          >>= logout_token now ctx)
      else pure tt

  -- The revocation of a session that was found and belongs to the user.
  revoke_owned : ℕ → RequestContext → UserRow → SessionRow → Handler S (Unit {0})
  revoke_owned now ctx user target = when (is_none target.revoked_at) (do
    command (revoke_session target.id "session_revoked_by_user" now)
    command (revoke_refresh_tokens_for_session target.id "session_revoked_by_user" now)
    write_security_event (some user.id) (some target.id) SecurityActorType.user
        "auth.session_revoked" end ctx)

  revoke_target : ℕ → RequestContext → UserRow → SessionRow → Option SessionRow → Handler S Bool
  revoke_target now ctx user current none = raise session_not_found
  revoke_target now ctx user current (some target) =
      if target.user_id == user.id
      then (revoke_owned now ctx user target >> pure (target.id == current.id))
      else raise session_not_found

  -- Answers whether the session was the caller's own.
  unfoldable pub handle_revoke_session : String → ℕ → RequestContext → ℕ → Handler S Bool
  unfolding revoke_owned revoke_target
  handle_revoke_session access_token target_session_id ctx now = do
    (user, current) ← require_authenticated_session crypto access_token ctx now
    target ← query (λ db. ok (find_session_by_id target_session_id db))
    revoke_target now ctx user current target

module _ {S : Type 0} (crypto : AuthCrypto) (consume : Consume S) (mode : RateLimitFailureMode)
    (limits : AuthLimits) where
  reject_change : UserRow → SessionRow → String → AppError → RequestContext → Handler S (Unit {0})
  reject_change user session reason e ctx = do
    write_security_event (some user.id) (some session.id) SecurityActorType.user
        "auth.password_change_rejected" (text_entry "reason" reason end) ctx
    raise e

  unfoldable pub change_password :
      (access_token current_password new_password : String)
      → RequestContext
      → (new_password_hash : String) → ℕ
      → Handler S (Unit {0})
  unfolding reject_change
  change_password access_token current_password new_password ctx new_password_hash now = do
    (user, session) ← require_authenticated_session crypto access_token ctx now
    enforce_auth_rate_limit consume mode limits.window_seconds
        (rl_key "rl:change-password:user:" user.id) limits.change_password_per_user_max
        "change_password_per_user" ctx
    when (not (crypto.verify_password user.password_hash current_password))
        (reject_change user session "bad_current_password" current_password_incorrect ctx)
    when (crypto.verify_password user.password_hash new_password)
        (reject_change user session "password_unchanged" password_unchanged ctx)
    transaction (
        change_password_keeping_current_session (record {
          user_id = user.id;
          new_password_hash = new_password_hash;
          current_session_id = session.id;
          revoke_reason = "password_changed";
          now = now;
        }))
    write_security_event (some user.id) (some session.id) SecurityActorType.user
        "auth.password_changed" (entry (codes "otherSessionsRevoked") (number 1) end) ctx
