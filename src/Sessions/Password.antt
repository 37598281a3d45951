-- ===== src/Sessions/Password.antt =====
-- A change of a password keeps only the caller's session (auth.repo.ts).
use orgistry.Prelude.{ℕ, ◌≡◌, refl, sym, subst, ◌≢◌, some, arith, ◌==◌}
use orgistry.Sessions.{
  set_token_revoked, set_session_revoked, ChangePasswordParams, set_password_hash, is_other_session,
  is_unrevoked_other_session, is_unrevoked_other_token, change_password_keeping_current_session,
}
use orgistry.Db.Transaction.{ok}
use orgistry.Db.{UserRow, Database}
use orgistry.Tables.{
  select_rows, count_rows, update_rows, find-update, count-update_none, select-update_miss,
}
use orgistry.Sessions.Service.{find_user_by_id}

-- A committed change of the password sets the hash of that user, leaves no unrevoked session of the
-- user but the current one and no unrevoked refresh token of any other session of the user, and
-- leaves the sessions of every other user, and the current session, as they were.
pub change_password-effect :
    (p : ChangePasswordParams) (other : ℕ) (db db' : Database) (u : UserRow)
    → find_user_by_id p.user_id db ≡ some u
    → change_password_keeping_current_session p db ≡ ok (tt, db')
    → other ≢ p.user_id
    → (find_user_by_id p.user_id db' ≡ some (set_password_hash p.new_password_hash p.now u))
      × (count_rows (is_unrevoked_other_session p) db'.sessions ≡ 0)
      × (count_rows (is_unrevoked_other_token p db'.sessions) db'.refresh_tokens ≡ 0)
      × (select_rows (λ s. s.user_id == other) db'.sessions
          ≡ select_rows (λ s. s.user_id == other) db.sessions)
      × (select_rows (λ s. s.id == p.current_session_id) db'.sessions
          ≡ select_rows (λ s. s.id == p.current_session_id) db.sessions)
unfolding change_password_keeping_current_session find_user_by_id
change_password-effect p other db db' u known done n =
    let users : db'.users
        ≡ update_rows (λ r. r.id == p.user_id) (set_password_hash p.new_password_hash p.now)
            db.users =
      ground arith in
    let sessions : db'.sessions
        ≡ update_rows (is_unrevoked_other_session p) (set_session_revoked p.revoke_reason p.now)
            db.sessions =
      ground arith in
    let tokens : db'.refresh_tokens
        ≡ update_rows (is_unrevoked_other_token p db'.sessions)
            (set_token_revoked p.revoke_reason p.now) db.refresh_tokens =
      ground arith in
    (
      rw users (
          find-update (λ r. r.id) (set_password_hash p.new_password_hash p.now) p.user_id db.users u
            (λ r. refl) known),
      rw sessions (
          count-update_none (is_unrevoked_other_session p) (is_unrevoked_other_session p) _
            db.sessions (λ r h. h) (λ r h. unfold is_unrevoked_other_session in ground arith)),
      subst (λ rows. count_rows (is_unrevoked_other_token p db'.sessions) rows ≡ 0) (sym tokens)
          (count-update_none (is_unrevoked_other_token p db'.sessions)
            (is_unrevoked_other_token p db'.sessions) _ db.refresh_tokens (λ r h. h)
            (λ r h. unfold is_unrevoked_other_token in ground arith)),
      rw sessions (
          select-update_miss (λ s. s.user_id == other) (is_unrevoked_other_session p) _ db.sessions
            (λ r h. unfold is_unrevoked_other_session is_other_session in ground arith)
            (λ r h. unfold is_unrevoked_other_session is_other_session in ground arith)),
      rw sessions (
          select-update_miss (λ s. s.id == p.current_session_id) (is_unrevoked_other_session p) _
            db.sessions (λ r h. unfold is_unrevoked_other_session is_other_session in ground arith)
            (λ r h. unfold is_unrevoked_other_session is_other_session in ground arith)),
    )
