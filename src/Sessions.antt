-- ===== src/Sessions.antt =====
-- apps/api/src/modules/auth/auth.repo.ts: the sessions and their refresh tokens. A new row's id
-- (`createId`) and the time are arguments. Each operation is one transaction.
pub mod Service
pub mod Refresh
pub mod Quiet
pub mod Blind
pub mod Endings
pub mod Login
pub mod Rotation
pub mod Revocation
pub mod Reuse
pub mod Password
pub mod Email
pub mod Listing
use orgistry.Prelude.{
  ℕ, String, Bool, not, ◌&&◌, ◌||◌, Option, none, some, List, leb, ◌==◌, if◌then◌else◌, str_eq,
  is_some, is_none, any,
}
use orgistry.Tables.{find_row, select_rows, update_rows, insert_row}
use orgistry.Db.Transaction.{◌>>=◌, ◌>>◌, Tx, return, read, write}
use orgistry.Db.{UserRow, SessionRow, RefreshTokenRow, Database}

unfoldable pub find_session_by_id : ℕ → Database → Option SessionRow
find_session_by_id id db = find_row (λ s. s.id == id) db.sessions

unfoldable pub has_token_hash : String → RefreshTokenRow → Bool
has_token_hash token_hash t = str_eq t.token_hash token_hash

unfoldable pub find_refresh_token_by_hash : String → Database → Option RefreshTokenRow
find_refresh_token_by_hash token_hash db = find_row (has_token_hash token_hash) db.refresh_tokens

pub record NewSession : Type 0 where
  pub user_id : ℕ
  pub ip_address : Option String
  pub user_agent : Option String
  pub expires_at : ℕ

pub record NewRefreshToken : Type 0 where
  pub session_id : ℕ
  pub family_id : ℕ
  pub token_hash : String
  pub parent_token_id : Option ℕ
  pub expires_at : ℕ

abbrev pub session_row : ℕ → ℕ → NewSession → SessionRow
session_row id now values = record {
  id = id;
  user_id = values.user_id;
  ip_address = values.ip_address;
  user_agent = values.user_agent;
  expires_at = values.expires_at;
  revoked_at = none;
  revoked_reason = none;
  created_at = now;
  updated_at = now;
}

abbrev pub refresh_token_row : ℕ → NewRefreshToken → RefreshTokenRow
refresh_token_row id values = record {
  id = id;
  session_id = values.session_id;
  token_hash = values.token_hash;
  family_id = values.family_id;
  parent_token_id = values.parent_token_id;
  replacement_token_id = none;
  used_at = none;
  expires_at = values.expires_at;
  revoked_at = none;
  revoked_reason = none;
}

unfoldable pub insert_session : ℕ → ℕ → NewSession → Tx SessionRow
insert_session id now values = do
  write λ db. record db { sessions = insert_row (session_row id now values) db.sessions }
  return (session_row id now values)

-- The token is drawn at random: the violation of `uq_refresh_tokens_token_hash` by two equal hashes is
-- left out, here and in a rotation.
unfoldable pub insert_refresh_token : ℕ → NewRefreshToken → Tx RefreshTokenRow
insert_refresh_token id values = do
  write λ db. record db {
    refresh_tokens = insert_row (refresh_token_row id values) db.refresh_tokens;
  }
  return (refresh_token_row id values)

pub record RotateRefreshTokenParams : Type 0 where
  pub presented_token_hash : String
  pub successor_token_hash : String
  pub successor_expires_at : ℕ
  pub now : ℕ

pub data RotateRefreshTokenResult : Type 0 where
  rotation_not_found rotation_expired : RotateRefreshTokenResult
  rotation_reuse : (family_id session_id : ℕ) (user_id : Option ℕ) → RotateRefreshTokenResult
  rotation_rotated : (successor : RefreshTokenRow) (session : SessionRow) → RotateRefreshTokenResult

-- `alreadyConsumed`.
unfoldable pub is_consumed : RefreshTokenRow → Bool
is_consumed t = is_some t.used_at || is_some t.revoked_at || is_some t.replacement_token_id

-- A session that is neither revoked nor expired.
unfoldable pub is_live_session : ℕ → SessionRow → Bool
is_live_session now s = is_none s.revoked_at && not (leb s.expires_at now)

abbrev pub successor_of : RefreshTokenRow → RotateRefreshTokenParams → ℕ → RefreshTokenRow
successor_of token p id = refresh_token_row id (record {
  session_id = token.session_id;
  family_id = token.family_id;
  token_hash = p.successor_token_hash;
  parent_token_id = some token.id;
  expires_at = p.successor_expires_at;
})

abbrev pub set_used : ℕ → ℕ → RefreshTokenRow → RefreshTokenRow
set_used now successor_id t = record t {
  used_at = some now;
  replacement_token_id = some successor_id;
}

abbrev pub set_touched : ℕ → SessionRow → SessionRow
set_touched now s = record s { updated_at = now }

-- The writes of a rotation.
mint_successor :
    RotateRefreshTokenParams → ℕ → RefreshTokenRow → SessionRow → Tx RotateRefreshTokenResult
mint_successor p successor_id token session = do
  write λ db. record db {
    refresh_tokens = insert_row (successor_of token p successor_id) db.refresh_tokens;
  }
  write λ db. record db {
    refresh_tokens =
        update_rows (λ t. t.id == token.id) (set_used p.now successor_id) db.refresh_tokens;
  }
  write λ db. record db {
    sessions = update_rows (λ s. s.id == session.id) (set_touched p.now) db.sessions;
  }
  return (rotation_rotated (successor_of token p successor_id) session)

rotate_found :
    RotateRefreshTokenParams → ℕ → RefreshTokenRow → Option SessionRow → Tx RotateRefreshTokenResult
rotate_found p successor_id token none =
    return (rotation_reuse token.family_id token.session_id none)
rotate_found p successor_id token (some session) =
    if is_consumed token || not (is_live_session p.now session)
    then return (rotation_reuse token.family_id token.session_id (some session.user_id))
    else (if leb token.expires_at p.now
        then return rotation_expired
        else mint_successor p successor_id token session)

unfoldable pub rotate_refresh_token :
    RotateRefreshTokenParams → (successor_id : ℕ) → Tx RotateRefreshTokenResult
unfolding rotate_found mint_successor
rotate_refresh_token p successor_id = do
  presented ← read (find_refresh_token_by_hash p.presented_token_hash)
  elim presented [
    | none ↦ return rotation_not_found
    | some token ↦
        (read (find_session_by_id token.session_id) >>= rotate_found p successor_id token)
  ]

abbrev pub set_token_revoked : String → ℕ → RefreshTokenRow → RefreshTokenRow
set_token_revoked reason now t = record t { revoked_at = some now; revoked_reason = some reason }

abbrev pub set_session_revoked : String → ℕ → SessionRow → SessionRow
set_session_revoked reason now s = record s {
  revoked_at = some now;
  revoked_reason = some reason;
  updated_at = now;
}

unfoldable pub is_unrevoked_of_family : ℕ → RefreshTokenRow → Bool
is_unrevoked_of_family family_id t = t.family_id == family_id && is_none t.revoked_at

unfoldable pub is_unrevoked_of_session : ℕ → RefreshTokenRow → Bool
is_unrevoked_of_session session_id t = t.session_id == session_id && is_none t.revoked_at

unfoldable pub is_unrevoked_session : ℕ → SessionRow → Bool
is_unrevoked_session session_id s = s.id == session_id && is_none s.revoked_at

unfoldable pub revoke_refresh_token_family : ℕ → String → ℕ → Database → Database
revoke_refresh_token_family family_id reason now db = record db {
  refresh_tokens =
      update_rows (is_unrevoked_of_family family_id) (set_token_revoked reason now)
        db.refresh_tokens;
}

unfoldable pub revoke_refresh_tokens_for_session : ℕ → String → ℕ → Database → Database
revoke_refresh_tokens_for_session session_id reason now db = record db {
  refresh_tokens =
      update_rows (is_unrevoked_of_session session_id) (set_token_revoked reason now)
        db.refresh_tokens;
}

unfoldable pub revoke_session : ℕ → String → ℕ → Database → Database
revoke_session session_id reason now db = record db {
  sessions =
      update_rows (is_unrevoked_session session_id) (set_session_revoked reason now) db.sessions;
}

pub record ChangePasswordParams : Type 0 where
  pub user_id : ℕ
  pub new_password_hash : String
  pub current_session_id : ℕ
  pub revoke_reason : String
  pub now : ℕ

abbrev pub set_password_hash : String → ℕ → UserRow → UserRow
set_password_hash new_password_hash now u = record u {
  password_hash = new_password_hash;
  updated_at = now;
}

-- A session of the user other than the current one.
unfoldable pub is_other_session : ChangePasswordParams → SessionRow → Bool
is_other_session p s = s.user_id == p.user_id && not (s.id == p.current_session_id)

unfoldable pub is_unrevoked_other_session : ChangePasswordParams → SessionRow → Bool
is_unrevoked_other_session p s = is_other_session p s && is_none s.revoked_at

-- `inArray(sessionId, otherSessionIds)`, on the sessions that the update before has left.
unfoldable pub is_unrevoked_other_token :
    ChangePasswordParams → List SessionRow → RefreshTokenRow → Bool
is_unrevoked_other_token p sessions t =
    any (λ s. s.id == t.session_id) (select_rows (is_other_session p) sessions)
    && is_none t.revoked_at

unfoldable pub change_password_keeping_current_session : ChangePasswordParams → Tx (Unit {0})
change_password_keeping_current_session p = do
  write λ db. record db {
    users =
        update_rows (λ u. u.id == p.user_id) (set_password_hash p.new_password_hash p.now) db.users;
  }
  write λ db. record db {
    sessions =
        update_rows (is_unrevoked_other_session p) (set_session_revoked p.revoke_reason p.now)
          db.sessions;
  }
  write λ db. record db {
    refresh_tokens =
        update_rows (is_unrevoked_other_token p db.sessions)
          (set_token_revoked p.revoke_reason p.now) db.refresh_tokens;
  }
