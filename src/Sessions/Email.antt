-- ===== src/Sessions/Email.antt =====
-- The change of an address: changeEmail of apps/api/src/modules/auth/auth.repo.ts and of
-- auth.service.ts. The new address is given trimmed and normalized; the token of the verification
-- mail, its row's id and the time are arguments.
pub mod Effect
pub mod Proof
use orgistry.Prelude.{
  ℕ, String, Bool, true, not, ◌&&◌, none, some, ◌==◌, if◌then◌else◌, str_eq, is_some, any,
}
use orgistry.Service.{◌>>=◌, ◌>>◌, Outages, Handler, pure}
use orgistry.RateLimit.{RateLimitFailureMode, rl_key, Consume}
use orgistry.Errors.{
  AppError, internal, email_already_registered, current_password_incorrect, email_unchanged,
}
use orgistry.Metadata.{end, text_entry}
use orgistry.AccountTokens.{is_open_of, set_token_invalidated}
use orgistry.Db.Transaction.{ok, throw, Tx}
use orgistry.Db.{SecurityActorType, UserRow, SessionRow, Database, RequestContext}
use orgistry.Tables.{update_rows}
use orgistry.Recovery.Service.{TokenDraws, flag_entry}
use orgistry.Verification.Service.{VerificationLimits, send_email_change_verification_email}
use orgistry.Sessions.Service.{
  AuthCrypto, AuthLimits, when, raise, write_security_event, find_user_by_id,
  enforce_auth_rate_limit, require_authenticated_session,
}

pub record ChangeEmailParams : Type 0 where
  pub user_id : ℕ
  pub email : String
  pub normalized_email : String
  pub now : ℕ

abbrev pub set_email : ChangeEmailParams → UserRow → UserRow
set_email p u = record u {
  email = p.email;
  normalized_email = p.normalized_email;
  email_verified_at = none;
  updated_at = p.now;
}

-- Another row holds the address: the index `uq_users_normalized_email`.
unfoldable pub is_holder_of_email : ChangeEmailParams → UserRow → Bool
is_holder_of_email p u = str_eq u.normalized_email p.normalized_email && not (u.id == p.user_id)

unfoldable pub update_email : ChangeEmailParams → Tx (Unit {0})
update_email p db =
    if is_some (find_user_by_id p.user_id db) && any (is_holder_of_email p) db.users
    then throw email_already_registered
    else ok (tt, record db { users = update_rows (λ u. u.id == p.user_id) (set_email p) db.users })

unfoldable pub retire_verification_tokens : ChangeEmailParams → Database → Database
retire_verification_tokens p db = record db {
  email_verification_tokens =
      update_rows (is_open_of p.user_id) (set_token_invalidated p.now) db.email_verification_tokens;
}

unfoldable pub change_email : ChangeEmailParams → Tx UserRow
change_email p db = elim (update_email p db) [
  | throw e ↦ throw e
  | ok (u, db') ↦ elim (find_user_by_id p.user_id db') [
    | none ↦ throw internal
    | some user ↦ ok (user, retire_verification_tokens p db')
  ]
]

-- A rejected change is recorded when the address is taken.
email_change_failed :
    {S : Type 0} → UserRow → SessionRow → AppError → RequestContext → Handler S UserRow
email_change_failed user session email_already_registered ctx = do
  write_security_event (some user.id) (some session.id) SecurityActorType.user
      "auth.email_change_rejected" (text_entry "reason" "duplicate_email" end) ctx
  raise email_already_registered
email_change_failed user session e ctx = raise e

module _ {S : Type 0} (crypto : AuthCrypto) (consume : Consume S) (mode : RateLimitFailureMode)
    (limits : AuthLimits) (verification_limits : VerificationLimits)
    (deliver : (to raw_token : String) → ℕ → Bool) (outages : Outages) where
  unfoldable pub commit_email :
      UserRow → SessionRow → ChangeEmailParams → RequestContext → Handler S UserRow
  unfolding email_change_failed
  commit_email user session p ctx w = elim (change_email p w.db) [
    | ok (updated, db') ↦ (ok updated, record w { db = db' })
    | throw e ↦ email_change_failed user session e ctx w
  ]

  -- The current password is asked for before any look at the other accounts.
  reject_email_change : UserRow → SessionRow → RequestContext → Handler S (Unit {0})
  reject_email_change user session ctx = do
    write_security_event (some user.id) (some session.id) SecurityActorType.user
        "auth.email_change_rejected" (text_entry "reason" "bad_current_password" end) ctx
    raise current_password_incorrect

  -- The change and what follows it: the audit event and the mail, whose failure changes nothing.
  unfoldable pub change_proved :
      UserRow → SessionRow → ChangeEmailParams → RequestContext → TokenDraws → Handler S UserRow
  change_proved user session p ctx draws = do
    updated ← commit_email user session p ctx
    write_security_event (some user.id) (some session.id) SecurityActorType.user
        "auth.email_changed" (flag_entry "verificationCleared" true end) ctx
    send_email_change_verification_email crypto consume mode verification_limits deliver outages
        updated ctx draws p.now
    pure updated

  unfoldable pub change_for :
      (current_password : String)
      → UserRow
      → SessionRow
      → ChangeEmailParams
      → RequestContext
      → TokenDraws
      → Handler S UserRow
  unfolding reject_email_change
  change_for current_password user session p ctx draws = do
    enforce_auth_rate_limit consume mode limits.window_seconds
        (rl_key "rl:change-email:user:" user.id) limits.change_email_per_user_max
        "change_email_per_user" ctx
    when (str_eq p.normalized_email user.normalized_email) (raise email_unchanged)
    when (not (crypto.verify_password user.password_hash current_password))
        (reject_email_change user session ctx)
    change_proved user session p ctx draws

  abbrev pub email_params : UserRow → String → String → ℕ → ChangeEmailParams
  email_params user new_email normalized_email now = record {
    user_id = user.id;
    email = new_email;
    normalized_email = normalized_email;
    now = now;
  }

  unfoldable pub handle_change_email :
      (access_token current_password new_email normalized_email : String)
      → RequestContext
      → TokenDraws
      → ℕ
      → Handler S UserRow
  handle_change_email access_token current_password new_email normalized_email ctx draws now = do
    (user, session) ← require_authenticated_session crypto access_token ctx now
    change_for current_password user session (email_params user new_email normalized_email now) ctx
        draws
