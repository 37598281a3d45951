-- ===== src/Sessions/Reuse.antt =====
-- What the detection of a reused refresh token leaves (auth.service.ts, `refresh`).
use orgistry.Prelude.{ℕ, String, ◌≡◌, refl, inl, inr, Option, none, some, arith, Option-cases}
use orgistry.Service.{◌>>=◌, World}
use orgistry.Sessions.{
  find_session_by_id, find_refresh_token_by_hash, RotateRefreshTokenParams, rotation_reuse,
  rotate_refresh_token, is_unrevoked_of_family, rotation_not_found, rotation_expired,
  rotation_rotated, revoke_refresh_token_family, revoke_session,
}
use orgistry.RateLimit.{RateLimitFailureMode, Consume, of_text, rl_key}
use orgistry.Db.Transaction.{ok, throw, Outcome-cases, Result-cases}
use orgistry.Db.{RefreshTokenRow, Database, RequestContext}
use orgistry.Sessions.Service.{
  AuthCrypto, AuthLimits, write_security_event, enforce_auth_rate_limit, Claims, is_truthy,
  require_authenticated_session, text_or_empty,
}
use orgistry.Sessions.Refresh.{
  refresh_limits, reuse_detected, limit_presented, refresh, limit_by_address, presented_token,
  rotation_params,
}
use orgistry.Errors.{unauthorized}
use orgistry.Tables.{count_rows}
use orgistry.Sessions.Revocation.{
  revoke_family-dead, dead_family, IsEnded, ended_session-unauthorized, revoke_session-IsEnded,
}
use orgistry.ApiKeys.Authenticator.{hit}
use orgistry.Sessions.Quiet.{IsQuiet, bind-IsQuiet, auth_rate_limit-IsQuiet, when-IsQuiet}

-- The row behind an answer `reuse`.
rotate-reuse :
    (p : RotateRefreshTokenParams) (id : ℕ) (db db' : Database) (family session : ℕ)
    (user : Option ℕ) (t : RefreshTokenRow)
    → find_refresh_token_by_hash p.presented_token_hash db ≡ some t
    → rotate_refresh_token p id db ≡ ok (rotation_reuse family session user, db')
    → (family ≡ t.family_id) × (session ≡ t.session_id) × (db' ≡ db)
unfolding rotate_refresh_token
rotate-reuse p id db db' family session user t hit done =
    elim (Option-cases (find_session_by_id t.session_id db)) [
      | inl orphan ↦ ground arith
      | inr (s, owned) ↦ ground arith
    ]

module _ {S : Type 0} (crypto : AuthCrypto) (consume : Consume S) (mode : RateLimitFailureMode)
    (limits : AuthLimits) where
  limit_presented-IsQuiet :
      (ctx : RequestContext) (found : Option RefreshTokenRow)
      → IsQuiet (limit_presented crypto consume mode limits ctx found)
  unfolding limit_presented
  limit_presented-IsQuiet ctx none w a h = refl
  limit_presented-IsQuiet ctx (some t) w a h =
      auth_rate_limit-IsQuiet consume mode limits.window_seconds
        (rl_key "rl:refresh:sess:" t.session_id) limits.refresh_per_session_max
        "refresh_per_session" ctx w a h

  refresh_limits-IsQuiet :
      (token_hash : String) (ctx : RequestContext)
      → IsQuiet (refresh_limits crypto consume mode limits token_hash ctx)
  unfolding refresh_limits limit_by_address
  refresh_limits-IsQuiet token_hash ctx =
      bind-IsQuiet (limit_by_address crypto consume mode limits ctx)
        (λ _.
          presented_token crypto consume mode limits token_hash
          >>= limit_presented crypto consume mode limits ctx)
        (when-IsQuiet (is_truthy ctx.ip_address)
          (enforce_auth_rate_limit consume mode limits.window_seconds
            (record { prefix = "rl:refresh:ip:"; subject = of_text (text_or_empty ctx.ip_address) })
            limits.refresh_per_ip_max "refresh_per_ip" ctx)
          (auth_rate_limit-IsQuiet consume mode limits.window_seconds _ limits.refresh_per_ip_max
            "refresh_per_ip" ctx))
        (λ _.
          bind-IsQuiet (presented_token crypto consume mode limits token_hash)
            (limit_presented crypto consume mode limits ctx) (λ w a h. refl)
            (limit_presented-IsQuiet ctx))

  -- When `refresh` answers that a stored token was reused, the whole login is dead: from then on every
  -- stored token of that family is answered `reuse` and never rotated, and no access token of the
  -- session is accepted.
  pub refresh-reuse :
      (raw successor_raw access_token : String) (ctx later_ctx : RequestContext)
      (successor_id now later other_id : ℕ) (q : RotateRefreshTokenParams) (w w' : World S)
      (t u : RefreshTokenRow) (claims : Claims)
      → find_refresh_token_by_hash (crypto.hash_opaque_token raw) w.db ≡ some t
      → refresh crypto consume mode limits raw ctx successor_raw successor_id now w
        ≡ (ok reuse_detected, w')
      → find_refresh_token_by_hash q.presented_token_hash w'.db ≡ some u
      → u.family_id ≡ t.family_id
      → crypto.verify_access_token access_token ≡ some claims
      → claims.session_id ≡ t.session_id
      → ((user : Option ℕ) × (rotate_refresh_token q other_id w'.db
            ≡ ok (rotation_reuse u.family_id u.session_id user, w'.db)))
        × ((require_authenticated_session crypto access_token later_ctx later w').0
            ≡ throw unauthorized)
  refresh-reuse raw successor_raw access_token ctx later_ctx successor_id now later other_id q w w'
        t u claims hit done kin kindred verified theirs =
      let (dead, ended) = aftermath in
      (
        dead_family q other_id w'.db u (rw kindred dead) kin,
        ended_session-unauthorized crypto access_token later_ctx later w' claims verified
            (rw theirs ended),
      )
    where
      limited : World S
      limited = (refresh_limits crypto consume mode limits (crypto.hash_opaque_token raw) ctx w).1

      params : RotateRefreshTokenParams
      params = rotation_params crypto consume mode limits raw successor_raw now

      reused :
          (family session : ℕ) (user : Option ℕ) (db' : Database) (a : Unit {0})
          → (refresh_limits crypto consume mode limits (crypto.hash_opaque_token raw) ctx w).0
            ≡ ok a
          → limited.db ≡ w.db
          → rotate_refresh_token params successor_id limited.db
            ≡ ok (rotation_reuse family session user, db')
          → (count_rows (is_unrevoked_of_family t.family_id) w'.db.refresh_tokens ≡ 0)
            × IsEnded t.session_id w'.db
      reused family session user db' a passed quiet answer =
          let (f, s, d) =
            rotate-reuse params successor_id limited.db db' family session user t (rw quiet hit)
              answer in
          let dead = revoke_family-dead t.family_id "refresh_token_reuse_detected" now db' in
          let ended = revoke_session-IsEnded t.session_id "refresh_token_reuse_detected" now db' in
          unfold refresh write_security_event revoke_refresh_token_family revoke_session in
          (ground arith, ground arith)

      answered :
          (a : Unit {0})
          → (refresh_limits crypto consume mode limits (crypto.hash_opaque_token raw) ctx w).0
            ≡ ok a
          → limited.db ≡ w.db
          → (count_rows (is_unrevoked_of_family t.family_id) w'.db.refresh_tokens ≡ 0)
            × IsEnded t.session_id w'.db
      answered a passed quiet =
          elim (Result-cases (rotate_refresh_token params successor_id limited.db)) [
            | inr (e, refused) ↦ absurd (unfold refresh in ground arith)
            | inl (rotation_reuse f s u, db', answer) ↦ reused f s u db' a passed quiet answer
            | inl (rotation_not_found, db', answer) ↦
                absurd (unfold refresh write_security_event in ground arith)
            | inl (rotation_expired, db', answer) ↦
                absurd (unfold refresh write_security_event in ground arith)
            | inl (rotation_rotated x s, db', answer) ↦
                absurd (unfold refresh write_security_event in ground arith)
          ]

      aftermath :
          (count_rows (is_unrevoked_of_family t.family_id) w'.db.refresh_tokens ≡ 0)
          × IsEnded t.session_id w'.db
      aftermath =
          elim (Outcome-cases
            (refresh_limits crypto consume mode limits (crypto.hash_opaque_token raw) ctx w).0) [
              | inr (e, refused) ↦ absurd (unfold refresh in ground arith)
              | inl (a, passed) ↦
                  answered a passed
                    (refresh_limits-IsQuiet (crypto.hash_opaque_token raw) ctx w a passed)
            ]
