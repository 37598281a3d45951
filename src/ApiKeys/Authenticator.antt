-- ===== src/ApiKeys/Authenticator.antt =====
-- api-key.authenticator.ts. The raw key is null when the header was missing or no bearer. The warning
-- that a suppressed event leaves in the log is not modelled.
use orgistry.Prelude.{
  ℕ, ◌+◌, ◌*◌, String, Bool, true, false, not, Option, none, some, List, [], ◌∷◌, leb, is_some, any,
}
use orgistry.Metadata.{end, Entries, id_entry, text_entry, sanitize_security_metadata}
use orgistry.Db.{SecurityActorType, ApiKeyRow, SecurityEventRow, Database, RequestContext}
use orgistry.Service.{◌>>=◌, ◌>>◌, Handler, pure, query}
use orgistry.Access.{is_active_organization, find_organization_by_id}
use orgistry.Plans.{find_organization_plan}
use orgistry.RateLimit.{
  RateLimitDecision, allowed, limited, unavailable, RateLimitFailureMode, of_text, BucketKey,
  rl_key, Consume, enforce_store_availability,
}
use orgistry.Errors.{
  AppError, entitlement_required, plan_state_missing, api_key_unauthorized, api_key_rate_limited,
  api_key_scope_required,
}
use orgistry.Catalog.{EntitlementKey, entitlements_for_plan, ApiKeyScope, same_scope}
use orgistry.ApiKeys.{
  ParsedApiKey, parse_api_key, is_past, scope_text, find_by_secret_hash, touch_last_used,
}
use orgistry.Db.Transaction.{Result, ok, throw}
use orgistry.Tables.{insert_row}
use orgistry.Sessions.Service.{command, when, raise}

pub record ExternalRateLimits : Type 0 where
  pub window_seconds : ℕ
  pub per_key_max : ℕ
  pub per_org_max : ℕ
  pub auth_fail_events_per_ip_max : ℕ
  pub last_used_throttle_seconds : ℕ

pub record ApiKeyActor : Type 0 where
  pub api_key_id : ℕ
  pub organization_id : ℕ
  pub scopes : List ApiKeyScope
  pub request_id : Option String

-- The attribution of an event: the key and its organization, once they are resolved.
pub record Attribution : Type 0 where
  pub api_key_id : Option ℕ
  pub organization_id : Option ℕ

abbrev pub nobody : Attribution
nobody = record { api_key_id = none; organization_id = none }

abbrev pub attributed : ApiKeyRow → Attribution
attributed row = record { api_key_id = some row.id; organization_id = some row.organization_id }

key_actor_type : Option ℕ → SecurityActorType
key_actor_type none = SecurityActorType.anonymous
key_actor_type (some id) = SecurityActorType.api_key

target_key_entry : Option ℕ → Entries → Entries
target_key_entry none rest = rest
target_key_entry (some id) rest = id_entry "targetKeyId" id rest

unfoldable pub record_auth_event :
    {S : Type 0} → String → Attribution → Entries → RequestContext → Handler S (Unit {0})
unfolding key_actor_type target_key_entry
record_auth_event event_type by metadata ctx = command λ db.
    let event : SecurityEventRow = record {
      user_id = none;
      session_id = none;
      organization_id = by.organization_id;
      actor_type = key_actor_type by.api_key_id;
      event_type = event_type;
      metadata =
          sanitize_security_metadata
            (text_entry "targetType" "api_key" (target_key_entry by.api_key_id metadata));
      ip_address = ctx.ip_address;
      user_agent = ctx.user_agent;
      request_id = ctx.request_id;
    } in
    record db { security_events = insert_row event db.security_events }

-- `event.ctx.ipAddress ?? 'unknown'`.
source_bucket : Option String → String
source_bucket none = "unknown"
source_bucket (some ip) = ip

-- `resolveApiKeyEntitlements(...).access`.
unfoldable pub resolve_api_key_access : ℕ → Database → Result Bool
resolve_api_key_access organization_id db = elim (find_organization_plan organization_id db) [
  | none ↦ throw plan_state_missing
  | some plan ↦ ok (entitlements_for_plan plan.plan_key).api_keys_access
]

missing_or_malformed : Option (List ℕ) → String
missing_or_malformed none = "missing"
missing_or_malformed (some []) = "missing"
missing_or_malformed (some (c ∷ cs)) = "malformed"

unfoldable pub parse_presented : Option (List ℕ) → Option ParsedApiKey
parse_presented none = none
parse_presented (some raw) = parse_api_key raw

unfoldable pub has_active_organization : ℕ → Database → Bool
has_active_organization organization_id db = elim (find_organization_by_id db organization_id) [
  | none ↦ false
  | some o ↦ is_active_organization o.status
]

-- `shouldTouch`.
unfoldable pub is_touch_due : ExternalRateLimits → ℕ → ApiKeyRow → Bool
is_touch_due limits now row = elim row.last_used_at [
  | none ↦ true
  | some used_at ↦ leb (used_at + limits.last_used_throttle_seconds * 1000) now
]

module _ {S : Type 0} (hash_api_key_secret : List ℕ → String) (consume : Consume S)
    (mode : RateLimitFailureMode) (limits : ExternalRateLimits) where
  after_failed_auth :
      String → Attribution → Entries → RequestContext → RateLimitDecision → Handler S (Unit {0})
  after_failed_auth event_type by metadata ctx allowed =
      record_auth_event event_type by metadata ctx
  after_failed_auth event_type by metadata ctx limited = pure tt
  after_failed_auth event_type by metadata ctx unavailable = pure tt

  unfoldable pub hit : BucketKey → ℕ → Handler S RateLimitDecision
  hit key limit w =
      let (d, s) = consume key limit limits.window_seconds w.store in (ok d, record w { store = s })

  unfoldable pub record_failed_auth_event_bounded :
      String → Attribution → Entries → RequestContext → Handler S (Unit {0})
  unfolding after_failed_auth source_bucket
  record_failed_auth_event_bounded event_type by metadata ctx =
      hit
        (record {
          prefix = "rl:ext:auth-fail-events:ip:";
          subject = of_text (source_bucket ctx.ip_address);
        })
        limits.auth_fail_events_per_ip_max
      >>= after_failed_auth event_type by metadata ctx

  -- The uniform 401.
  unfoldable pub reject_key :
      {A : Type 0} → String → Attribution → Entries → RequestContext → Handler S A
  reject_key event_type by metadata ctx =
      record_failed_auth_event_bounded event_type by metadata ctx >> raise api_key_unauthorized

  refuse_key :
      {A : Type 0} → String → Attribution → Entries → AppError → RequestContext → Handler S A
  refuse_key event_type by metadata e ctx = record_auth_event event_type by metadata ctx >> raise e

  -- One bucket of step 8.
  check_bucket : BucketKey → ℕ → Handler S Bool
  check_bucket key limit = hit key limit >>= (λ d. query (λ db. enforce_store_availability d mode))

  -- Steps 3 to 5: a stored key that is neither revoked nor expired, in an active organization.
  unfoldable pub check_key : ApiKeyRow → RequestContext → ℕ → Handler S (Unit {0})
  check_key row ctx now = do
    when (is_some row.revoked_at) (reject_key "api_key.auth_revoked" (attributed row) end ctx)
    when (is_past row.expires_at now) (reject_key "api_key.auth_expired" (attributed row) end ctx)
    live ← query (λ db. ok (has_active_organization row.organization_id db))
    when (not live) (reject_key "api_key.auth_organization_inactive" (attributed row) end ctx)

  -- Steps 6 and 7.
  unfoldable pub check_grants : ApiKeyRow → RequestContext → ApiKeyScope → Handler S (Unit {0})
  unfolding refuse_key
  check_grants row ctx required_scope = do
    access ← query (resolve_api_key_access row.organization_id)
    when (not access) (
        refuse_key "api_key.auth_entitlement_missing" (attributed row) end
          (entitlement_required EntitlementKey.api_keys_access) ctx)
    when (not (any (same_scope required_scope) row.scopes)) (
        refuse_key "api_key.auth_scope_missing" (attributed row)
          (text_entry "requiredScope" (scope_text required_scope) end)
          (api_key_scope_required required_scope) ctx)

  -- Step 8: the bucket of the organization is hit only if the one of the key has room.
  unfoldable pub check_limits : ApiKeyRow → RequestContext → Handler S (Unit {0})
  unfolding check_bucket refuse_key
  check_limits row ctx = do
    per_key_ok ← check_bucket (rl_key "rl:ext:key:" row.id) limits.per_key_max
    when (not per_key_ok) (
        refuse_key "api_key.rate_limit_exceeded" (attributed row)
          (text_entry "bucket" "per_key" end) api_key_rate_limited ctx)
    per_org_ok ← check_bucket (rl_key "rl:ext:org:" row.organization_id) limits.per_org_max
    when (not per_org_ok) (
        refuse_key "api_key.rate_limit_exceeded" (attributed row)
          (text_entry "bucket" "per_organization" end) api_key_rate_limited ctx)

  -- Steps 3 to 9.
  unfoldable pub admit_key : ApiKeyRow → RequestContext → ApiKeyScope → ℕ → Handler S ApiKeyActor
  admit_key row ctx required_scope now = do
    check_key row ctx now
    check_grants row ctx required_scope
    check_limits row ctx
    when (is_touch_due limits now row) (command (touch_last_used row.id now))
    pure (record {
      api_key_id = row.id;
      organization_id = row.organization_id;
      scopes = row.scopes;
      request_id = ctx.request_id;
    })

  resolved_key : RequestContext → ApiKeyScope → ℕ → Option ApiKeyRow → Handler S ApiKeyActor
  resolved_key ctx required_scope now none = reject_key "api_key.auth_unknown" nobody end ctx
  resolved_key ctx required_scope now (some row) = admit_key row ctx required_scope now

  unfoldable pub authenticate :
      Option (List ℕ) → RequestContext → ApiKeyScope → ℕ → Handler S ApiKeyActor
  unfolding resolved_key missing_or_malformed
  authenticate raw_key ctx required_scope now = elim (parse_presented raw_key) [
    | none ↦
        reject_key "api_key.auth_malformed" nobody
          (text_entry "reason" (missing_or_malformed raw_key) end) ctx
    | some parsed ↦
        (query (λ db. ok (find_by_secret_hash (hash_api_key_secret parsed.secret_component) db))
          >>= resolved_key ctx required_scope now)
  ]
