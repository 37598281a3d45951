-- ===== src/Recovery.antt =====
-- apps/api/src/modules/auth/password-recovery.repo.ts. The new row's id, the new password's hash (it
-- is salted) and the time are arguments. Each operation is one transaction.
pub mod Effect
pub mod Service
pub mod Silence
use orgistry.Prelude.{
  ℕ, String, Bool, ◌&&◌, Option, none, some, List, leb, ◌==◌, if◌then◌else◌, is_none, any,
}
use orgistry.Db.Transaction.{◌>>=◌, ◌>>◌, Tx, return, read, write}
use orgistry.Sessions.{set_token_revoked, set_session_revoked, set_password_hash}
use orgistry.AccountTokens.{
  is_spent, IssueTokenParams, replace_generation, consume_token, has_account_token_hash,
}
use orgistry.Db.{
  UserRow, SessionRow, RefreshTokenRow, AccountTokenRow, PasswordResetTokenRow, Database,
}
use orgistry.Tables.{find_row, select_rows, update_rows}
use orgistry.Sessions.Service.{is_usable_user, find_user_by_id}

unfoldable pub find_reset_token : String → Database → Option PasswordResetTokenRow
find_reset_token token_hash db =
    find_row (has_account_token_hash token_hash) db.password_reset_tokens

unfoldable pub issue_reset_token : IssueTokenParams → (id : ℕ) → Tx (Unit {0})
issue_reset_token p id =
    write
      λ db. record db { password_reset_tokens = replace_generation p id db.password_reset_tokens }

pub record CompleteResetParams : Type 0 where
  pub token_hash : String
  pub new_password_hash : String
  pub now : ℕ

pub data CompleteResetResult : Type 0 where
  reset : UserRow → CompleteResetResult
  reset_not_found reset_expired reset_already_used user_not_recoverable : CompleteResetResult

unfoldable pub is_session_of : ℕ → SessionRow → Bool
is_session_of user_id s = s.user_id == user_id

unfoldable pub is_unrevoked_session_of : ℕ → SessionRow → Bool
is_unrevoked_session_of user_id s = s.user_id == user_id && is_none s.revoked_at

-- `inArray(sessionId, userSessionIds)`.
unfoldable pub is_unrevoked_token_of : ℕ → List SessionRow → RefreshTokenRow → Bool
is_unrevoked_token_of user_id sessions t =
    any (λ s. s.id == t.session_id) (select_rows (is_session_of user_id) sessions)
    && is_none t.revoked_at

abbrev pub revoke_reason_password_reset : String
revoke_reason_password_reset = "password_reset"

-- The five writes of a completed reset.
unfoldable pub apply_reset :
    CompleteResetParams → AccountTokenRow → UserRow → Tx CompleteResetResult
apply_reset p token user = do
  write λ db. record db {
    users =
        update_rows (λ u. u.id == user.id) (set_password_hash p.new_password_hash p.now) db.users;
  }
  write
      λ db. record db { password_reset_tokens = consume_token token p.now db.password_reset_tokens }
  write λ db. record db {
    sessions =
        update_rows (is_unrevoked_session_of user.id)
          (set_session_revoked revoke_reason_password_reset p.now) db.sessions;
  }
  write λ db. record db {
    refresh_tokens =
        update_rows (is_unrevoked_token_of user.id db.sessions)
          (set_token_revoked revoke_reason_password_reset p.now) db.refresh_tokens;
  }
  return (reset user)

unfoldable pub reset_user :
    CompleteResetParams → AccountTokenRow → Option UserRow → Tx CompleteResetResult
reset_user p token none = return user_not_recoverable
reset_user p token (some user) =
    if is_usable_user user then apply_reset p token user else return user_not_recoverable

unfoldable pub reset_with : CompleteResetParams → Option AccountTokenRow → Tx CompleteResetResult
reset_with p none = return reset_not_found
reset_with p (some token) =
    if is_spent token
    then return reset_already_used
    else (if leb token.expires_at p.now
        then return reset_expired
        else (read (find_user_by_id token.user_id) >>= reset_user p token))

unfoldable pub complete_reset : CompleteResetParams → Tx CompleteResetResult
complete_reset p = read (find_reset_token p.token_hash) >>= reset_with p
