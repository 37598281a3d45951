-- ===== src/Verification.antt =====
-- apps/api/src/modules/auth/email-verification.repo.ts. The new row's id and the time are arguments.
-- Each operation is one transaction.
pub mod Effect
pub mod Service
pub mod Delivery
use orgistry.Prelude.{
  ℕ, String, Bool, ◌&&◌, Option, none, some, leb, ◌==◌, if◌then◌else◌, is_some, is_none,
}
use orgistry.Db.Transaction.{◌>>=◌, ◌>>◌, Tx, return, read, write}
use orgistry.AccountTokens.{
  is_spent, IssueTokenParams, replace_generation, consume_token, has_account_token_hash,
}
use orgistry.Db.{UserRow, AccountTokenRow, EmailVerificationTokenRow, Database}
use orgistry.Tables.{find_row, update_rows}
use orgistry.Sessions.Service.{is_usable_user, find_user_by_id}

unfoldable pub find_verification_token : String → Database → Option EmailVerificationTokenRow
find_verification_token token_hash db =
    find_row (has_account_token_hash token_hash) db.email_verification_tokens

unfoldable pub issue_verification_token : IssueTokenParams → (id : ℕ) → Tx (Unit {0})
issue_verification_token p id = write λ db. record db {
  email_verification_tokens = replace_generation p id db.email_verification_tokens;
}

pub data CompleteVerificationResult : Type 0 where
  verified : (user : UserRow) (already_verified : Bool) → CompleteVerificationResult
  verification_not_found verification_expired : CompleteVerificationResult
  verification_already_used user_not_verifiable : CompleteVerificationResult

abbrev pub set_verified : ℕ → UserRow → UserRow
set_verified now u = record u { email_verified_at = some now; updated_at = now }

-- The user, while the address is unverified.
unfoldable pub is_unverified_user : ℕ → UserRow → Bool
is_unverified_user user_id u = u.id == user_id && is_none u.email_verified_at

unfoldable pub apply_verification : AccountTokenRow → ℕ → UserRow → Tx CompleteVerificationResult
apply_verification token now user = do
  write λ db. record db {
    email_verification_tokens = consume_token token now db.email_verification_tokens;
  }
  write λ db.
      if is_none user.email_verified_at
      then record db {
        users = update_rows (is_unverified_user user.id) (set_verified now) db.users;
      }
      else db
  return (verified user (is_some user.email_verified_at))

unfoldable pub verify_user : AccountTokenRow → ℕ → Option UserRow → Tx CompleteVerificationResult
verify_user token now none = return user_not_verifiable
verify_user token now (some user) =
    if is_usable_user user then apply_verification token now user else return user_not_verifiable

unfoldable pub verify_with : ℕ → Option AccountTokenRow → Tx CompleteVerificationResult
verify_with now none = return verification_not_found
verify_with now (some token) =
    if is_spent token
    then return verification_already_used
    else (if leb token.expires_at now
        then return verification_expired
        else (read (find_user_by_id token.user_id) >>= verify_user token now))

unfoldable pub complete_verification :
    (token_hash : String) (now : ℕ) → Tx CompleteVerificationResult
complete_verification token_hash now = read (find_verification_token token_hash) >>= verify_with now
