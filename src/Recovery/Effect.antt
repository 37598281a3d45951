-- ===== src/Recovery/Effect.antt =====
-- What a completed password reset leaves (password-recovery.repo.ts), together with the boundaries of
-- the access token and of the refresh token.
use orgistry.Prelude.{
  ℕ, ◌<◌, String, ◌≡◌, refl, sym, subst, ◌≢◌, inl, inr, true, false, some, arith, ◌==◌, ==_iff,
  Option-cases,
}
use orgistry.Sessions.{
  set_token_revoked, set_session_revoked, set_password_hash, find_session_by_id,
  find_refresh_token_by_hash, RotateRefreshTokenParams, rotation_reuse, rotate_refresh_token,
  is_live_session,
}
use orgistry.Recovery.{
  find_reset_token, CompleteResetParams, reset, is_unrevoked_session_of, is_unrevoked_token_of,
  revoke_reason_password_reset, apply_reset, reset_user, reset_with, complete_reset, is_session_of,
  reset_already_used,
}
use orgistry.AccountTokens.{
  is_spent, consume_token, is_open_of, consume_token-open, set_token_used, has_account_token_hash,
  find-consume_token,
}
use orgistry.Db.Transaction.{ok, throw}
use orgistry.Db.{UserRow, AccountTokenRow, Database, SessionRow, RefreshTokenRow, RequestContext}
use orgistry.Tables.{
  update_rows, select_rows, count_rows, count-update_none, select-update_miss, find_sound,
  find-update, find_row, find-miss,
}
use orgistry.Sessions.Service.{
  is_usable_user, find_user_by_id, Claims, AuthCrypto, require_authenticated_session,
  write_security_event, is_trusted_session,
}
use orgistry.Errors.{unauthorized}
use orgistry.Service.{World}

-- The rows that a completed reset has read, and what it writes.
pub record IsReset (p : CompleteResetParams) (db db' : Database) (user : UserRow)
    (t : AccountTokenRow) : Type 0 where
  pub presented : find_reset_token p.token_hash db ≡ some t
  pub unspent : is_spent t ≡ false
  pub early : p.now < t.expires_at
  pub owner : find_user_by_id t.user_id db ≡ some user
  pub usable : is_usable_user user ≡ true
  pub users :
      db'.users
      ≡ update_rows (λ u. u.id == user.id) (set_password_hash p.new_password_hash p.now) db.users
  pub tokens : db'.password_reset_tokens ≡ consume_token t p.now db.password_reset_tokens
  pub sessions :
      db'.sessions
      ≡ update_rows
          (is_unrevoked_session_of user.id)
          (set_session_revoked revoke_reason_password_reset p.now)
          db.sessions
  pub refresh_tokens :
      db'.refresh_tokens
      ≡ update_rows
          (is_unrevoked_token_of user.id db'.sessions)
          (set_token_revoked revoke_reason_password_reset p.now)
          db.refresh_tokens

complete_reset-IsReset :
    (p : CompleteResetParams) (db db' : Database) (user : UserRow)
    → complete_reset p db ≡ ok (reset user, db')
    → (t : AccountTokenRow) × IsReset p db db' user t
unfolding complete_reset reset_with reset_user apply_reset
complete_reset-IsReset p db db' user done = elim (Option-cases (find_reset_token p.token_hash db)) [
  | inl missing ↦ absurd (ground arith)
  | inr (t, hit) ↦ elim (Option-cases (find_user_by_id t.user_id db)) [
    | inl gone ↦ absurd (ground arith)
    | inr (u, known) ↦
        let same : u ≡ user = ground arith in
        (
          t,
          record {
            presented = hit;
            unspent = ground arith;
            early = ground arith;
            owner = rw same at known;
            usable = ground arith;
            users = ground arith;
            tokens = ground arith;
            sessions = ground arith;
            refresh_tokens = ground arith;
          },
        )
  ]
]

module _ {p : CompleteResetParams} {db db' : Database} {user : UserRow} {t : AccountTokenRow}
    (r : IsReset p db db' user t) where
  reset-sessions : count_rows (is_unrevoked_session_of user.id) db'.sessions ≡ 0
  unfolding is_unrevoked_session_of
  reset-sessions = rw r.sessions (
      count-update_none (is_unrevoked_session_of user.id) (is_unrevoked_session_of user.id) _
        db.sessions (λ s h. h) (λ s h. ground arith))

  reset-refresh_tokens :
      count_rows (is_unrevoked_token_of user.id db'.sessions) db'.refresh_tokens ≡ 0
  unfolding is_unrevoked_token_of
  reset-refresh_tokens =
      subst (λ rows. count_rows (is_unrevoked_token_of user.id db'.sessions) rows ≡ 0)
        (sym r.refresh_tokens)
        (count-update_none (is_unrevoked_token_of user.id db'.sessions)
          (is_unrevoked_token_of user.id db'.sessions) _ db.refresh_tokens (λ s h. h)
          (λ s h. ground arith))

-- A reset token works once: after a committed reset, presenting it again, with any new password and
-- at any time, answers that it was used, and writes nothing.
complete_reset-single_use :
    (p : CompleteResetParams) (db db' : Database) (user : UserRow) (new_password_hash : String)
    (later : ℕ)
    → complete_reset p db ≡ ok (reset user, db')
    → complete_reset
        (record { token_hash = p.token_hash; new_password_hash = new_password_hash; now = later })
        db'
      ≡ ok (reset_already_used, db')
unfolding complete_reset reset_with find_reset_token
complete_reset-single_use p db db' user new_password_hash later done =
    let (t, r) = complete_reset-IsReset p db db' user done in
    let again : find_row (has_account_token_hash p.token_hash) db'.password_reset_tokens
        ≡ some (set_token_used p.now t) =
      rw r.tokens (
        find-consume_token p.token_hash t p.now db.password_reset_tokens
          (unfold find_reset_token in r.presented)) in
    unfold is_spent in ground arith

-- A reset that commits has found a stored token that was neither used, replaced nor expired, of a
-- usable user. Then the user has the new password hash, no reset token of the user is open, no session
-- of the user and no refresh token of any of those sessions is unrevoked, the sessions of every other
-- user are as they were, and presenting the token again, with any new password and at any time,
-- answers that it was used, and writes nothing.
pub complete_reset-effect :
    (p : CompleteResetParams) (other : ℕ) (db db' : Database) (user : UserRow) (newer_hash : String)
    (later : ℕ)
    → complete_reset p db ≡ ok (reset user, db')
    → other ≢ user.id
    → (t : AccountTokenRow) × (find_reset_token p.token_hash db ≡ some t)
      × (is_spent t ≡ false)
      × (p.now < t.expires_at)
      × (t.user_id ≡ user.id)
      × (is_usable_user user ≡ true)
      × (find_user_by_id user.id db' ≡ some (set_password_hash p.new_password_hash p.now user))
      × (count_rows (is_open_of user.id) db'.password_reset_tokens ≡ 0)
      × (count_rows (is_unrevoked_session_of user.id) db'.sessions ≡ 0)
      × (count_rows (is_unrevoked_token_of user.id db'.sessions) db'.refresh_tokens ≡ 0)
      × (select_rows (is_session_of other) db'.sessions
          ≡ select_rows (is_session_of other) db.sessions)
      × (complete_reset
            (record { token_hash = p.token_hash; new_password_hash = newer_hash; now = later })
            db'
          ≡ ok (reset_already_used, db'))
complete_reset-effect p other db db' user newer_hash later done n =
    let (t, r) = complete_reset-IsReset p db db' user done in
    let mine : t.user_id ≡ user.id = sym (
      ((==_iff user.id t.user_id).0
        (unfold find_user_by_id in find_sound (λ u. u.id == t.user_id) db.users user r.owner))) in
    (
      t,
      r.presented,
      r.unspent,
      r.early,
      mine,
      r.usable,
      rw r.users (
          unfold find_user_by_id in
          find-update (λ u. u.id) (set_password_hash p.new_password_hash p.now) user.id db.users
            user (λ u. refl)
            (subst (λ k. find_row (λ u. u.id == k) db.users ≡ some user) mine r.owner)),
      rw (r.tokens, ← mine) (consume_token-open t p.now db.password_reset_tokens),
      reset-sessions r,
      reset-refresh_tokens r,
      rw r.sessions (
          select-update_miss (is_session_of other) (is_unrevoked_session_of user.id) _ db.sessions
            (λ s h. unfold is_session_of is_unrevoked_session_of in ground arith)
            (λ s h. unfold is_session_of is_unrevoked_session_of in ground arith)),
      complete_reset-single_use p db db' user newer_hash later done,
    )

dead_session :
    (user_id k now : ℕ) (db : Database) (s : SessionRow)
    → count_rows (is_unrevoked_session_of user_id) db.sessions ≡ 0
    → find_session_by_id k db ≡ some s
    → s.user_id ≡ user_id
    → is_live_session now s ≡ false
unfolding is_live_session find_session_by_id
dead_session user_id k now db s ended found mine =
    let revoked : is_unrevoked_session_of user_id s ≡ false =
      find-miss (λ r. r.id == k) (is_unrevoked_session_of user_id) db.sessions s found ended in
    unfold is_unrevoked_session_of in ground arith

-- A user without an unrevoked session is not let in by any access token.
pub ended_user-unauthorized :
    {S : Type 0} (crypto : AuthCrypto) (access_token : String) (ctx : RequestContext) (now : ℕ)
    (w : World S) (claims : Claims)
    → crypto.verify_access_token access_token ≡ some claims
    → count_rows (is_unrevoked_session_of claims.sub) w.db.sessions ≡ 0
    → (require_authenticated_session crypto access_token ctx now w).0 ≡ throw unauthorized
unfolding require_authenticated_session is_trusted_session write_security_event
ended_user-unauthorized crypto access_token ctx now w claims verified ended =
    elim (Option-cases (find_user_by_id claims.sub w.db)) [
      | inl unknown ↦ ground arith
      | inr (u, known) ↦ elim (Option-cases (find_session_by_id claims.session_id w.db)) [
        | inl missing ↦ ground arith
        | inr (s, bound) ↦
            let same =
              find_sound (λ r. r.id == claims.sub) w.db.users u (unfold find_user_by_id in known) in
            ground (arith, dead_session claims.sub claims.session_id now w.db s)
      ]
    ]

-- A committed reset ends what the account had before: no access token of the user is accepted in any
-- session that was there, at any time; and a stored refresh token of a session of the user is
-- answered `reuse`, and is not rotated.
pub complete_reset-ends_access :
    {S : Type 0} (crypto : AuthCrypto) (p : CompleteResetParams) (db db' : Database)
    (user : UserRow) (access_token : String) (claims : Claims) (ctx : RequestContext) (later : ℕ)
    (store : S) (q : RotateRefreshTokenParams) (id : ℕ) (token : RefreshTokenRow)
    (session : SessionRow)
    → complete_reset p db ≡ ok (reset user, db')
    → crypto.verify_access_token access_token ≡ some claims
    → claims.sub ≡ user.id
    → find_refresh_token_by_hash q.presented_token_hash db' ≡ some token
    → find_session_by_id token.session_id db' ≡ some session
    → session.user_id ≡ user.id
    → ((require_authenticated_session crypto access_token ctx later
          (record { db = db'; store = store })).0
        ≡ throw unauthorized)
      × (rotate_refresh_token q id db'
          ≡ ok (rotation_reuse token.family_id token.session_id (some user.id), db'))
complete_reset-ends_access crypto p db db' user access_token claims ctx later store q id token
      session done verified theirs hit owned mine =
    let (t, r) = complete_reset-IsReset p db db' user done in
    let ended = reset-sessions r in
    (
      ended_user-unauthorized crypto access_token ctx later (record { db = db'; store = store })
          claims verified (rw theirs ended),
      unfold rotate_refresh_token in
          ground (arith, dead_session user.id token.session_id q.now db' session),
    )
