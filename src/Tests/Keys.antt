-- ===== src/Tests/Keys.antt =====
-- API keys on the sample.
use orgistry.Prelude.{
  ℕ, String, ◌≡◌, refl, none, some, List, [], ◌∷◌, arith, ◌==◌, if◌then◌else◌, length,
}
use orgistry.Tests.Samples.{world, sample, quiet_request}
use orgistry.Db.Transaction.{ok}
use orgistry.Catalog.{entitlements_for_plan, scope_projects_read, same_scope}
use orgistry.Service.{World}
use orgistry.Access.{is_active_organization, find_organization_by_id}
use orgistry.Plans.{find_organization_plan}
use orgistry.RateLimit.{closed_mode, enforce_store_availability, noop_consume}
use orgistry.ApiKeys.{
  scheme_prefix, generate_api_key_secret, ParsedApiKey, strip_prefix, split_at_separator,
  parse_api_key, is_past, find_by_secret_hash, touch_last_used,
}
use orgistry.Metadata.{codes}
use orgistry.Tables.{find_row, update_rows}
use orgistry.ApiKeys.Access.{IsAdmitted, authenticate-IsAdmitted}
use orgistry.ApiKeys.Authenticator.{
  ExternalRateLimits, ApiKeyActor, resolve_api_key_access, parse_presented, has_active_organization,
  is_touch_due, hit, check_key, check_grants, check_limits, admit_key, authenticate,
}
use orgistry.ApiKeys.Secret.{parse-generate}

-- A hash that tells the secrets of two units from all others.
abbrev one_secret : List ℕ → String
one_secret secret = if length secret == 2 then "k1" else "other"

abbrev key_limits : ExternalRateLimits
key_limits = record {
  window_seconds = 60;
  per_key_max = 9;
  per_org_max = 9;
  auth_fail_events_per_ip_max = 9;
  last_used_throttle_seconds = 60;
}

abbrev good_key : List ℕ
good_key = codes "orgistry_A_s1"

abbrev key_acts : ApiKeyActor
key_acts = record {
  api_key_id = 1;
  organization_id = 1;
  scopes = scope_projects_read ∷ [];
  request_id = none;
}

abbrev after_use : World (Unit {0})
after_use =
    (authenticate one_secret noop_consume closed_mode key_limits (some good_key) quiet_request
      scope_projects_read 5 world).1

key_admitted :
    authenticate one_secret noop_consume closed_mode key_limits
      (some good_key)
      quiet_request
      scope_projects_read
      5
      world
    ≡ (ok key_acts, after_use)
unfolding authenticate parse_presented parse_api_key scheme_prefix strip_prefix split_at_separator
    find_by_secret_hash find_row admit_key check_key is_past has_active_organization
    find_organization_by_id is_active_organization check_grants resolve_api_key_access
    find_organization_plan entitlements_for_plan same_scope check_limits hit
    enforce_store_availability is_touch_due touch_last_used update_rows
key_admitted = refl

authenticate-IsAdmitted_example :
    IsAdmitted one_secret (some good_key) scope_projects_read 5 sample key_acts
authenticate-IsAdmitted_example =
    authenticate-IsAdmitted one_secret noop_consume closed_mode key_limits (some good_key)
      quiet_request scope_projects_read 5 world after_use key_acts key_admitted

parse-generate_example :
    (p : ParsedApiKey) × (parse_api_key
        (generate_api_key_secret one_secret (codes "A") (codes "s_1")).raw
      ≡ some p)
    × (p.display_prefix
        ≡ (generate_api_key_secret one_secret (codes "A") (codes "s_1")).display_prefix)
    × (p.secret_component ≡ codes "s_1")
    × (one_secret p.secret_component
        ≡ (generate_api_key_secret one_secret (codes "A") (codes "s_1")).secret_hash)
parse-generate_example =
    parse-generate one_secret (codes "A") (codes "s_1") refl (omega arith) (omega arith)
