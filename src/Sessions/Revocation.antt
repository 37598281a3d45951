-- ===== src/Sessions/Revocation.antt =====
-- What the ends of sessions leave (auth.repo.ts, auth.service.ts).
use orgistry.Prelude.{
  ℕ, String, ◌≡◌, inl, inr, true, false, Option, some, arith, ◌==◌, ==_refl, Bool-cases,
  Option-cases,
}
use orgistry.Service.{World}
use orgistry.Sessions.{
  find_session_by_id, has_token_hash, find_refresh_token_by_hash, RotateRefreshTokenParams,
  rotation_reuse, is_consumed, is_live_session, rotate_refresh_token, is_unrevoked_of_family,
  is_unrevoked_session, revoke_refresh_token_family, revoke_session, set_token_revoked,
  is_unrevoked_of_session, revoke_refresh_tokens_for_session,
}
use orgistry.Db.Transaction.{ok, throw}
use orgistry.Db.{UserRow, SessionRow, RefreshTokenRow, Database, RequestContext}
use orgistry.Tables.{count_rows, count-update_none, find-miss, find_sound}
use orgistry.Sessions.Service.{
  Claims, AuthCrypto, is_usable_user, find_user_by_id, require_authenticated_session,
  is_trusted_session, is_truthy, write_security_event,
}
use orgistry.Sessions.Rotation.{rotate_consumed}
use orgistry.Errors.{unauthorized}
use orgistry.Sessions.Endings.{logout}

-- A revoked family: no token of it is rotated any more.
pub dead_family :
    (q : RotateRefreshTokenParams) (id : ℕ) (db : Database) (t : RefreshTokenRow)
    → count_rows (is_unrevoked_of_family t.family_id) db.refresh_tokens ≡ 0
    → find_refresh_token_by_hash q.presented_token_hash db ≡ some t
    → (user : Option ℕ) × (rotate_refresh_token q id db
        ≡ ok (rotation_reuse t.family_id t.session_id user, db))
unfolding is_consumed find_refresh_token_by_hash is_unrevoked_of_family
dead_family q id db t dead hit =
    let revoked : is_unrevoked_of_family t.family_id t ≡ false =
      find-miss (has_token_hash q.presented_token_hash) (is_unrevoked_of_family t.family_id)
        db.refresh_tokens t hit dead in
    rotate_consumed q id db t hit (ground (arith, ==_refl t.family_id))

pub revoke_family-dead :
    (family_id : ℕ) (reason : String) (now : ℕ) (db : Database)
    → count_rows
        (is_unrevoked_of_family family_id)
        (revoke_refresh_token_family family_id reason now db).refresh_tokens
      ≡ 0
unfolding revoke_refresh_token_family is_unrevoked_of_family
revoke_family-dead family_id reason now db =
    count-update_none (is_unrevoked_of_family family_id) _ _ db.refresh_tokens (λ r h. h)
      (λ r h. ground arith)

-- No session of this id is unrevoked.
abbrev pub IsEnded : ℕ → Database → Type 0
IsEnded session_id db = count_rows (is_unrevoked_session session_id) db.sessions ≡ 0

pub revoke_session-IsEnded :
    (session_id : ℕ) (reason : String) (now : ℕ) (db : Database)
    → IsEnded session_id (revoke_session session_id reason now db)
unfolding revoke_session is_unrevoked_session
revoke_session-IsEnded session_id reason now db =
    count-update_none (is_unrevoked_session session_id) _ _ db.sessions (λ r h. h)
      (λ r h. ground arith)

-- A user and a session that a bearer of the access token acts as.
pub record IsAuthenticated (crypto : AuthCrypto) (access_token : String) (now : ℕ) (db : Database)
    (user : UserRow) (session : SessionRow) : Type 0 where
  pub claims : Claims
  pub verified : crypto.verify_access_token access_token ≡ some claims
  pub known : find_user_by_id claims.sub db ≡ some user
  pub usable : is_usable_user user ≡ true
  pub bound : find_session_by_id claims.session_id db ≡ some session
  pub theirs : session.user_id ≡ user.id
  pub live : is_live_session now session ≡ true

module _ {S : Type 0} (crypto : AuthCrypto) where
  -- An access token is accepted only if it verifies, its user is active and not deleted, and the
  -- session that it names exists, belongs to that user and is neither revoked nor expired; accepting
  -- it writes nothing.
  pub require_authenticated_session-IsAuthenticated :
      (access_token : String) (ctx : RequestContext) (now : ℕ) (w w' : World S) (user : UserRow)
      (session : SessionRow)
      → require_authenticated_session crypto access_token ctx now w ≡ (ok (user, session), w')
      → (w' ≡ w) × IsAuthenticated crypto access_token now w.db user session
  unfolding require_authenticated_session
  require_authenticated_session-IsAuthenticated access_token ctx now w w' user session done =
      elim (Option-cases (crypto.verify_access_token access_token)) [
        | inl forged ↦ absurd (ground arith)
        | inr (c, verified) ↦ elim (Option-cases (find_user_by_id c.sub w.db)) [
          | inl unknown ↦ absurd (ground arith)
          | inr (u, known) ↦ elim (Option-cases (find_session_by_id c.session_id w.db)) [
            | inl missing ↦ absurd (ground arith)
            | inr (s, bound) ↦ elim (Bool-cases (is_trusted_session now u s)) [
              | inr distrusted ↦ absurd (ground arith)
              | inl trusted ↦
                  let same_user : u ≡ user = ground arith in
                  let same_session : s ≡ session = ground arith in
                  (
                    ground arith,
                    record {
                      claims = c;
                      verified = verified;
                      known = rw same_user at known;
                      usable = ground arith;
                      bound = rw same_session at bound;
                      theirs = unfold is_trusted_session in ground arith;
                      live = unfold is_trusted_session in ground arith;
                    },
                  )
            ]
          ]
        ]
      ]

-- No access token of an ended session is accepted.
pub ended_session-unauthorized :
    {S : Type 0} (crypto : AuthCrypto) (access_token : String) (ctx : RequestContext) (now : ℕ)
    (w : World S) (claims : Claims)
    → crypto.verify_access_token access_token ≡ some claims
    → IsEnded claims.session_id w.db
    → (require_authenticated_session crypto access_token ctx now w).0 ≡ throw unauthorized
unfolding require_authenticated_session is_trusted_session write_security_event
ended_session-unauthorized crypto access_token ctx now w claims verified ended =
    elim (Option-cases (find_session_by_id claims.session_id w.db)) [
      | inl missing ↦ ground arith
      | inr (s, bound) ↦
          let revoked : is_unrevoked_session claims.session_id s ≡ false =
            find-miss (λ r. r.id == claims.session_id) (is_unrevoked_session claims.session_id)
              w.db.sessions s (unfold find_session_by_id in bound) ended in
          let same =
            find_sound (λ r. r.id == claims.session_id) w.db.sessions s
              (unfold find_session_by_id in bound) in
          let dead : is_live_session now s ≡ false =
            unfold is_live_session is_unrevoked_session in ground arith in
          ground arith
    ]

-- Logging out with a refresh token that is stored ends its session: it succeeds, and from then on no
-- access token of that session is accepted, at any time, and no refresh token of it is unrevoked.
pub logout-ends :
    {S : Type 0} (crypto : AuthCrypto) (raw access_token : String) (ctx later_ctx : RequestContext)
    (now later : ℕ) (w : World S) (t : RefreshTokenRow) (claims : Claims)
    → is_truthy (some raw) ≡ true
    → find_refresh_token_by_hash (crypto.hash_opaque_token raw) w.db ≡ some t
    → crypto.verify_access_token access_token ≡ some claims
    → claims.session_id ≡ t.session_id
    → ((logout crypto (some raw) ctx now w).0 ≡ ok tt)
      × ((require_authenticated_session crypto access_token later_ctx later
            (logout crypto (some raw) ctx now w).1).0
          ≡ throw unauthorized)
      × (count_rows
            (is_unrevoked_of_session t.session_id)
            (logout crypto (some raw) ctx now w).1.db.refresh_tokens
          ≡ 0)
logout-ends crypto raw access_token ctx later_ctx now later w t claims present hit verified theirs =
    let (done, ended, revoked) = logout_effect in
    (
      done,
      ended_session-unauthorized crypto access_token later_ctx later _ claims verified
          (rw theirs ended),
      revoked,
    )
  where
    logout_effect :
        ((logout crypto (some raw) ctx now w).0 ≡ ok tt)
        × IsEnded t.session_id (logout crypto (some raw) ctx now w).1.db
        × (count_rows
              (is_unrevoked_of_session t.session_id)
              (logout crypto (some raw) ctx now w).1.db.refresh_tokens
            ≡ 0)
    logout_effect =
        let ended = revoke_session-IsEnded t.session_id "logout" now w.db in
        let revoked =
          count-update_none (is_unrevoked_of_session t.session_id)
            (is_unrevoked_of_session t.session_id) (set_token_revoked "logout" now)
            w.db.refresh_tokens (λ r h. h)
            (λ r h. unfold is_unrevoked_of_session in ground arith) in
        unfold logout write_security_event revoke_session revoke_refresh_tokens_for_session in
        (ground arith, ground arith, ground arith)
