-- ===== src/Sessions/Service.antt =====
-- apps/api/src/modules/auth/auth.service.ts: what its methods share, and the boundary of the access
-- token. Each call of a method reads one time `now`. The hash of an opaque token, the access tokens (lib/access-token.ts) and the
-- password hash (argon2) are parameters, and so are the random values that a call draws.
use orgistry.Prelude.{
  ℕ, String, Bool, true, false, not, ◌&&◌, Option, none, some, ◌==◌, if◌then◌else◌, str_eq, is_none,
}
use orgistry.Db.{
  SecurityActorType, UserRow, SessionRow, SecurityEventRow, Database, RequestContext, UserStatus,
}
use orgistry.Service.{◌>>=◌, ◌>>◌, World, Handler, pure, query}
use orgistry.Sessions.{find_session_by_id, is_live_session}
use orgistry.RateLimit.{
  RateLimitDecision, RateLimitFailureMode, BucketKey, Consume, enforce_store_availability, of_text,
}
use orgistry.Errors.{AppError, rate_limited, unauthorized}
use orgistry.Metadata.{Entries, text_entry, sanitize_security_metadata, end}
use orgistry.Db.Transaction.{Result, ok, throw}
use orgistry.Tables.{find_row, insert_row}

-- The claims of a verified access token.
pub record Claims : Type 0 where
  pub sub : ℕ
  pub session_id : ℕ

-- The primitives that the service calls.
pub record AuthCrypto : Type 0 where
  pub hash_opaque_token : String → String
  pub verify_access_token : String → Option Claims
  pub sign_access_token : (user_id session_id : ℕ) → String
  pub verify_password : (hash password : String) → Bool
  pub dummy_hash : String

pub record AuthLimits : Type 0 where
  pub login_per_ip_max : ℕ
  pub login_per_email_max : ℕ
  pub refresh_per_ip_max : ℕ
  pub refresh_per_session_max : ℕ
  pub change_password_per_user_max : ℕ
  pub change_email_per_user_max : ℕ
  pub window_seconds : ℕ
  pub session_ttl_seconds : ℕ
  pub refresh_token_ttl_seconds : ℕ

-- JavaScript's truth of an optional string.
unfoldable pub is_truthy : Option String → Bool
is_truthy none = false
is_truthy (some s) = not (str_eq s "")

abbrev pub text_or_empty : Option String → String
text_or_empty none = ""
text_or_empty (some s) = s

-- An operation of the repository that always commits.
abbrev pub command : {S : Type 0} → (Database → Database) → Handler S (Unit {0})
command f w = (ok tt, record w { db = f w.db })

abbrev pub when : {S : Type 0} → Bool → Handler S (Unit {0}) → Handler S (Unit {0})
when true m = m
when false m = pure tt

abbrev pub raise : {S A : Type 0} → AppError → Handler S A
raise e w = (throw e, w)

abbrev pub security_event :
    Option ℕ → Option ℕ → SecurityActorType → String → Entries → RequestContext → SecurityEventRow
security_event user_id session_id actor_type event_type metadata ctx = record {
  user_id = user_id;
  session_id = session_id;
  organization_id = none;
  actor_type = actor_type;
  event_type = event_type;
  metadata = sanitize_security_metadata metadata;
  ip_address = ctx.ip_address;
  user_agent = ctx.user_agent;
  request_id = ctx.request_id;
}

unfoldable pub write_security_event :
    {S : Type 0}
    → Option ℕ
    → Option ℕ
    → SecurityActorType
    → String
    → Entries
    → RequestContext
    → Handler S (Unit {0})
write_security_event user_id session_id actor_type event_type metadata ctx = command λ db.
    record db {
      security_events =
          insert_row (security_event user_id session_id actor_type event_type metadata ctx)
            db.security_events;
    }

is_active_user : UserStatus → Bool
is_active_user UserStatus.active = true
is_active_user UserStatus.disabled = false

unfoldable pub is_usable_user : UserRow → Bool
unfolding is_active_user
is_usable_user u = is_active_user u.status && is_none u.deleted_at

-- Whom an event is attributed to when the user of a session may be gone.
unfoldable pub actor_type_of : Option ℕ → SecurityActorType
actor_type_of none = SecurityActorType.system
actor_type_of (some id) = SecurityActorType.user

unfoldable pub find_user_by_id : ℕ → Database → Option UserRow
find_user_by_id id db = find_row (λ u. u.id == id) db.users

unfoldable pub find_user_by_normalized_email : String → Database → Option UserRow
find_user_by_normalized_email email db = find_row (λ u. str_eq u.normalized_email email) db.users

module _ {S : Type 0} (consume : Consume S) (mode : RateLimitFailureMode) (window_seconds : ℕ) where
  -- The throttle of this service records each refusal.
  after_auth_hit :
      String → RequestContext → World S → RateLimitDecision × S → Result (Unit {0}) × World S
  after_auth_hit bucket ctx w (d, s) = elim (enforce_store_availability d mode) [
    | ok true ↦ (ok tt, record w { store = s })
    | ok false ↦
        (write_security_event none none SecurityActorType.anonymous "auth.rate_limit_exceeded"
              (text_entry "bucket" bucket end) ctx
            >> raise rate_limited)
          (record w { store = s })
    | throw e ↦ (throw e, record w { store = s })
  ]

  unfoldable pub enforce_auth_rate_limit :
      BucketKey → ℕ → String → RequestContext → Handler S (Unit {0})
  unfolding after_auth_hit
  enforce_auth_rate_limit key limit bucket ctx w =
      after_auth_hit bucket ctx w (consume key limit window_seconds w.store)

  -- `if (ctx.ipAddress)`: a throttle by address.
  abbrev pub limit_address : String → ℕ → String → RequestContext → Handler S (Unit {0})
  limit_address prefix limit bucket ctx = when (is_truthy ctx.ip_address) (
      enforce_auth_rate_limit
        (record { prefix = prefix; subject = of_text (text_or_empty ctx.ip_address) }) limit bucket
        ctx)

  abbrev pub limit_subject : String → String → ℕ → String → RequestContext → Handler S (Unit {0})
  limit_subject prefix subject limit bucket ctx =
      enforce_auth_rate_limit (record { prefix = prefix; subject = of_text subject }) limit bucket
        ctx

unfoldable pub is_trusted_session : ℕ → UserRow → SessionRow → Bool
is_trusted_session now user s = s.user_id == user.id && is_live_session now s

module _ {S : Type 0} (crypto : AuthCrypto) where
  reject_token :
      Option ℕ → SecurityActorType → String → RequestContext → Handler S (UserRow × SessionRow)
  reject_token user_id actor_type reason ctx = do
    write_security_event user_id none actor_type "auth.access_token_rejected"
        (text_entry "reason" reason end) ctx
    raise unauthorized

  trusted_session :
      ℕ → RequestContext → UserRow → Option SessionRow → Handler S (UserRow × SessionRow)
  trusted_session now ctx user none =
      reject_token (some user.id) SecurityActorType.user "session_invalid" ctx
  trusted_session now ctx user (some s) =
      if is_trusted_session now user s
      then pure (user, s)
      else reject_token (some user.id) SecurityActorType.user "session_invalid" ctx

  token_user : ℕ → RequestContext → Claims → Option UserRow → Handler S (UserRow × SessionRow)
  token_user now ctx claims none =
      reject_token none SecurityActorType.anonymous "user_unavailable" ctx
  token_user now ctx claims (some user) =
      if is_usable_user user
      then (query (λ db. ok (find_session_by_id claims.session_id db))
          >>= trusted_session now ctx user)
      else reject_token none SecurityActorType.anonymous "user_unavailable" ctx

  unfoldable pub require_authenticated_session :
      String → RequestContext → ℕ → Handler S (UserRow × SessionRow)
  unfolding reject_token trusted_session token_user find_user_by_id
  require_authenticated_session access_token ctx now =
      elim (crypto.verify_access_token access_token) [
        | none ↦ reject_token none SecurityActorType.anonymous "invalid_token" ctx
        | some claims ↦
            (query (λ db. ok (find_user_by_id claims.sub db)) >>= token_user now ctx claims)
      ]
