-- ===== src/Sessions/Login.antt =====
-- Sign-in (auth.service.ts, `login` and `issueSession`). The address is the normalized one
-- (`normalizeEmail`); the ids of the new rows and the raw refresh token are arguments.
use orgistry.Prelude.{
  ℕ, ◌+◌, ◌*◌, ◌<◌, String, ◌≡◌, sym, ap, ◌∙◌, inl, inr, true, false, ◌&&◌, Option, none, some,
  arith, ◌==◌, if◌then◌else◌, ==_refl, Bool-cases, Option-cases,
}
use orgistry.Service.{◌>>=◌, ◌>>◌, World, Handler, pure, query, transaction}
use orgistry.Metadata.{end, text_entry}
use orgistry.Sessions.{
  find_session_by_id, insert_session, insert_refresh_token, session_row, is_live_session,
}
use orgistry.RateLimit.{RateLimitFailureMode, of_text, Consume}
use orgistry.Errors.{invalid_credentials}
use orgistry.Db.Transaction.{ok, throw, Result, Outcome-cases}
use orgistry.Db.{SecurityActorType, UserRow, RequestContext, SessionRow}
use orgistry.Sessions.Service.{
  AuthCrypto, AuthLimits, is_truthy, text_or_empty, when, raise, write_security_event,
  is_usable_user, find_user_by_id, find_user_by_normalized_email, enforce_auth_rate_limit,
  is_trusted_session, require_authenticated_session,
}
use orgistry.Tables.{find_row, insert_row, find-insert}
use orgistry.Sessions.Quiet.{IsQuiet, bind-IsQuiet, auth_rate_limit-IsQuiet, when-IsQuiet}

-- What the client gets: the access token and, for the cookie, the raw refresh token.
pub record SessionIssueResult : Type 0 where
  pub raw_refresh_token : String
  pub user : UserRow
  pub access_token : String

-- The random values that a sign-in draws.
pub record LoginDraws : Type 0 where
  pub session_id : ℕ
  pub token_id : ℕ
  pub family_id : ℕ
  pub raw_refresh_token : String

module _ {S : Type 0} (crypto : AuthCrypto) (consume : Consume S) (mode : RateLimitFailureMode)
    (limits : AuthLimits) where
  unfoldable pub issue_session :
      UserRow → RequestContext → LoginDraws → ℕ → Handler S SessionIssueResult
  issue_session user ctx draws now = do
    session ← transaction (
        insert_session draws.session_id now (record {
          user_id = user.id;
          ip_address = ctx.ip_address;
          user_agent = ctx.user_agent;
          expires_at = now + limits.session_ttl_seconds * 1000;
        }))
    token ← transaction (
        insert_refresh_token draws.token_id (record {
          session_id = session.id;
          family_id = draws.family_id;
          token_hash = crypto.hash_opaque_token draws.raw_refresh_token;
          parent_token_id = none;
          expires_at = now + limits.refresh_token_ttl_seconds * 1000;
        }))
    pure (record {
      raw_refresh_token = draws.raw_refresh_token;
      user = user;
      access_token = crypto.sign_access_token user.id session.id;
    })

  unfoldable pub login_failed :
      Option ℕ → SecurityActorType → String → String → RequestContext → Handler S SessionIssueResult
  login_failed user_id actor_type normalized_email reason ctx = do
    write_security_event user_id none actor_type "auth.login_failed"
        (text_entry "normalizedEmail" normalized_email (text_entry "reason" reason end)) ctx
    raise invalid_credentials

  unfoldable pub login_known :
      String → String → RequestContext → LoginDraws → ℕ → UserRow → Handler S SessionIssueResult
  login_known normalized_email password ctx draws now user =
      if is_usable_user user
      then (if crypto.verify_password user.password_hash password
          then (do
            result ← issue_session user ctx draws now
            write_security_event (some user.id) (some draws.session_id) SecurityActorType.user
                "auth.login_succeeded" end ctx
            pure result)
          else login_failed (some user.id) SecurityActorType.user normalized_email "bad_password"
              ctx)
      else login_failed (some user.id) SecurityActorType.user normalized_email "inactive_account"
          ctx

  unfoldable pub login_found :
      String
      → String
      → RequestContext
      → LoginDraws
      → ℕ
      → Option UserRow
      → Handler S SessionIssueResult
  login_found normalized_email password ctx draws now none =
      login_failed none SecurityActorType.anonymous normalized_email "unknown_email" ctx
  login_found normalized_email password ctx draws now (some user) =
      login_known normalized_email password ctx draws now user

  unfoldable pub login_limits : String → RequestContext → Handler S (Unit {0})
  login_limits normalized_email ctx = do
    when (is_truthy ctx.ip_address) (
        enforce_auth_rate_limit consume mode limits.window_seconds
          (record { prefix = "rl:login:ip:"; subject = of_text (text_or_empty ctx.ip_address) })
          limits.login_per_ip_max "login_per_ip" ctx)
    enforce_auth_rate_limit consume mode limits.window_seconds
        (record {
          prefix = "rl:login:email:";
          subject = of_text (crypto.hash_opaque_token normalized_email);
        })
        limits.login_per_email_max "login_per_email" ctx

  unfoldable pub login :
      (normalized_email password : String)
      → RequestContext
      → LoginDraws
      → ℕ
      → Handler S SessionIssueResult
  login normalized_email password ctx draws now = do
    login_limits normalized_email ctx
    user ← query (λ db. ok (find_user_by_normalized_email normalized_email db))
    login_found normalized_email password ctx draws now user

  login_limits-IsQuiet :
      (normalized_email : String) (ctx : RequestContext)
      → IsQuiet (login_limits normalized_email ctx)
  unfolding login_limits
  login_limits-IsQuiet normalized_email ctx =
      bind-IsQuiet
        (when (is_truthy ctx.ip_address) (
          enforce_auth_rate_limit consume mode limits.window_seconds
            (record { prefix = "rl:login:ip:"; subject = of_text (text_or_empty ctx.ip_address) })
            limits.login_per_ip_max "login_per_ip" ctx))
        (λ _.
          enforce_auth_rate_limit consume mode limits.window_seconds
            (record {
              prefix = "rl:login:email:";
              subject = of_text (crypto.hash_opaque_token normalized_email);
            })
            limits.login_per_email_max "login_per_email" ctx)
        (when-IsQuiet (is_truthy ctx.ip_address)
          (enforce_auth_rate_limit consume mode limits.window_seconds
            (record { prefix = "rl:login:ip:"; subject = of_text (text_or_empty ctx.ip_address) })
            limits.login_per_ip_max "login_per_ip" ctx)
          (auth_rate_limit-IsQuiet consume mode limits.window_seconds _ limits.login_per_ip_max
            "login_per_ip" ctx))
        (λ _.
          auth_rate_limit-IsQuiet consume mode limits.window_seconds _ limits.login_per_email_max
            "login_per_email" ctx)

  -- An address that is unknown, an account that is not active or is deleted, and a wrong password all
  -- get the one answer `invalid_credentials`, when the throttle lets the request through; and no
  -- session and no refresh token is created.
  pub login-refused :
      (normalized_email password : String) (ctx : RequestContext) (draws : LoginDraws) (now : ℕ)
      (w w' : World S)
      → login_limits normalized_email ctx w ≡ (ok tt, w')
      → ((u : UserRow)
          → find_user_by_normalized_email normalized_email w.db ≡ some u
          → (is_usable_user u && crypto.verify_password u.password_hash password) ≡ false)
      → ((login normalized_email password ctx draws now w).0 ≡ throw invalid_credentials)
        × ((login normalized_email password ctx draws now w).1.db.sessions ≡ w.db.sessions)
        × ((login normalized_email password ctx draws now w).1.db.refresh_tokens
            ≡ w.db.refresh_tokens)
  unfolding login login_found login_known login_failed write_security_event
  login-refused normalized_email password ctx draws now w w' passed bad =
      let same : w'.db ≡ w.db =
        ap (λ (r : Result (Unit {0}) × World S). r.1.db) (sym passed)
        ∙ login_limits-IsQuiet normalized_email ctx w tt
            (ap (λ (r : Result (Unit {0}) × World S). r.0) passed) in
      elim (Option-cases (find_user_by_normalized_email normalized_email w.db)) [
        | inl unknown ↦ (ground arith, ground arith, ground arith)
        | inr (u, known) ↦ let wrong = bad u known in (ground arith, ground arith, ground arith)
      ]

  -- The row of the session that a sign-in makes.
  abbrev pub issued_session : UserRow → RequestContext → LoginDraws → ℕ → SessionRow
  issued_session user ctx draws now = session_row draws.session_id now (record {
    user_id = user.id;
    ip_address = ctx.ip_address;
    user_agent = ctx.user_agent;
    expires_at = now + limits.session_ttl_seconds * 1000;
  })

  -- A sign-in that returns, and what it wrote.
  record IsLogin (normalized_email password : String) (ctx : RequestContext) (draws : LoginDraws)
      (now : ℕ) (w w' : World S) (result : SessionIssueResult) : Type 0 where
    known : find_user_by_normalized_email normalized_email w.db ≡ some result.user
    usable : is_usable_user result.user ≡ true
    password_ok : crypto.verify_password result.user.password_hash password ≡ true
    token : result.access_token ≡ crypto.sign_access_token result.user.id draws.session_id
    users : w'.db.users ≡ w.db.users
    sessions : w'.db.sessions ≡ insert_row (issued_session result.user ctx draws now) w.db.sessions

  login-IsLogin :
      (normalized_email password : String) (ctx : RequestContext) (draws : LoginDraws) (now : ℕ)
      (w w' : World S) (result : SessionIssueResult)
      → login normalized_email password ctx draws now w ≡ (ok result, w')
      → IsLogin normalized_email password ctx draws now w w' result
  unfolding login login_found login_known login_failed write_security_event issue_session
      insert_session insert_refresh_token
  login-IsLogin normalized_email password ctx draws now w w' result done =
      elim (Outcome-cases (login_limits normalized_email ctx w).0) [
        | inr (e, refused) ↦ absurd (ground arith)
        | inl (a, passed) ↦
            let same = login_limits-IsQuiet normalized_email ctx w a passed in
            elim (Option-cases (find_user_by_normalized_email normalized_email w.db)) [
              | inl unknown ↦ absurd (ground arith)
              | inr (u, known) ↦
                  elim (Bool-cases
                    (is_usable_user u && crypto.verify_password u.password_hash password)) [
                      | inr bad ↦ absurd (ground arith)
                      | inl good ↦ record {
                        known = ground arith;
                        usable = ground arith;
                        password_ok = ground arith;
                        token = ground arith;
                        users = ground arith;
                        sessions = ground arith;
                      }
                    ]
            ]
      ]

  -- A sign-in that returns has found a usable user with that address and password, and the access
  -- token that it hands out is accepted as that user's, in the new session, until the session expires,
  -- if that token verifies as it was signed, the user's id finds the user, and the new session's id is
  -- fresh.
  pub login-accepted :
      (normalized_email password : String) (ctx later_ctx : RequestContext) (draws : LoginDraws)
      (now later : ℕ) (w w' : World S) (result : SessionIssueResult)
      → login normalized_email password ctx draws now w ≡ (ok result, w')
      → crypto.verify_access_token (crypto.sign_access_token result.user.id draws.session_id)
        ≡ some (record { sub = result.user.id; session_id = draws.session_id })
      → find_user_by_id result.user.id w.db ≡ some result.user
      → find_session_by_id draws.session_id w.db ≡ none
      → later < now + limits.session_ttl_seconds * 1000
      → (find_user_by_normalized_email normalized_email w.db ≡ some result.user)
        × (is_usable_user result.user ≡ true)
        × (crypto.verify_password result.user.password_hash password ≡ true)
        × ((require_authenticated_session crypto result.access_token later_ctx later w').0
            ≡ ok (result.user, issued_session result.user ctx draws now))
  unfolding require_authenticated_session is_trusted_session is_live_session find_user_by_id
      find_session_by_id
  login-accepted normalized_email password ctx later_ctx draws now later w w' result done verified
        mine fresh early =
      let l = login-IsLogin normalized_email password ctx draws now w w' result done in
      let found : find_row (λ s. s.id == draws.session_id) w'.db.sessions
          ≡ some (issued_session result.user ctx draws now) =
        rw l.sessions (
          find-insert (λ s. s.id == draws.session_id) (issued_session result.user ctx draws now)
            w.db.sessions fresh
          ∙ ground (arith, ==_refl draws.session_id)) in
      let user : find_row (λ r. r.id == result.user.id) w'.db.users ≡ some result.user =
        rw l.users mine in
      (l.known, l.usable, l.password_ok, ground (arith, l.token, l.usable, ==_refl result.user.id))
