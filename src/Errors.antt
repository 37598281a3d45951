-- ===== src/Errors.antt =====
-- lib/errors.ts and the error factories of the modules: each AppError that the modelled code throws,
-- with its public code and its HTTP status. A plain `Error` becomes `internal`.
use orgistry.Prelude.{ℕ, String}
use orgistry.Catalog.{EntitlementKey, ApiKeyScope}

pub data AppError : Type 0 where
  -- A violated unique index, by its name.
  unique_violation : String → AppError
  rate_limited service_unavailable bad_request internal : AppError
  organization_not_found organization_slug_taken : AppError
  member_not_found last_owner_required permission_denied : AppError
  quota_exceeded : (quota : EntitlementKey) (limit current : ℕ) → AppError
  entitlement_required : EntitlementKey → AppError
  plan_state_missing : AppError
  invitation_invalid invitation_expired invitation_revoked : AppError
  invitation_already_accepted invitation_email_mismatch : AppError
  duplicate_pending_invitation already_active_member : AppError
  project_not_found : AppError
  api_key_not_found api_key_unauthorized api_key_rate_limited : AppError
  api_key_scope_required : ApiKeyScope → AppError
  invalid_credentials email_already_registered unauthorized : AppError
  current_password_incorrect password_unchanged email_unchanged session_not_found : AppError
  password_reset_token_invalid password_reset_token_expired : AppError
  password_reset_token_used : AppError
  email_verification_token_invalid email_verification_token_expired : AppError
  email_verification_token_used : AppError
  registration_token_invalid registration_token_expired registration_token_used : AppError

abbrev pub status_code : AppError → ℕ
status_code (unique_violation constraint) = 500
status_code rate_limited = 429
status_code service_unavailable = 503
status_code bad_request = 400
status_code internal = 500
status_code organization_not_found = 404
status_code organization_slug_taken = 409
status_code member_not_found = 404
status_code last_owner_required = 409
status_code permission_denied = 403
status_code (quota_exceeded quota limit current) = 409
status_code (entitlement_required key) = 403
status_code plan_state_missing = 500
status_code invitation_invalid = 404
status_code invitation_expired = 410
status_code invitation_revoked = 409
status_code invitation_already_accepted = 409
status_code invitation_email_mismatch = 403
status_code duplicate_pending_invitation = 409
status_code already_active_member = 409
status_code project_not_found = 404
status_code api_key_not_found = 404
status_code api_key_unauthorized = 401
status_code api_key_rate_limited = 429
status_code (api_key_scope_required scope) = 403
status_code invalid_credentials = 401
status_code email_already_registered = 409
status_code unauthorized = 401
status_code current_password_incorrect = 400
status_code password_unchanged = 400
status_code email_unchanged = 400
status_code session_not_found = 404
status_code password_reset_token_invalid = 404
status_code password_reset_token_expired = 410
status_code password_reset_token_used = 409
status_code email_verification_token_invalid = 404
status_code email_verification_token_expired = 410
status_code email_verification_token_used = 409
status_code registration_token_invalid = 404
status_code registration_token_expired = 410
status_code registration_token_used = 409
