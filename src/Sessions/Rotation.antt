-- ===== src/Sessions/Rotation.antt =====
-- The rotation of refresh tokens (auth.repo.ts).
use orgistry.Prelude.{
  ℕ, ◌<◌, ◌≡◌, refl, inl, inr, true, false, Option, none, some, arith, ◌==◌, Option-cases,
}
use orgistry.Sessions.{
  find_session_by_id, has_token_hash, find_refresh_token_by_hash, RotateRefreshTokenParams,
  rotation_reuse, rotation_rotated, is_consumed, is_live_session, successor_of, set_used,
  set_touched, rotate_refresh_token,
}
use orgistry.Db.Transaction.{ok}
use orgistry.Db.{SessionRow, RefreshTokenRow, Database}
use orgistry.Tables.{update_rows, insert_row, find-update_found, find-insert_found}

-- The two rows that a rotation which mints a successor has read, and what it writes.
pub record IsMinting (p : RotateRefreshTokenParams) (id : ℕ) (db db' : Database)
    (t : RefreshTokenRow) (s : SessionRow) : Type 0 where
  pub presented : find_refresh_token_by_hash p.presented_token_hash db ≡ some t
  pub session : find_session_by_id t.session_id db ≡ some s
  pub unconsumed : is_consumed t ≡ false
  pub live : is_live_session p.now s ≡ true
  pub early : p.now < t.expires_at
  pub tokens :
      db'.refresh_tokens
      ≡ update_rows
          (λ r. r.id == t.id)
          (set_used p.now id)
          (insert_row (successor_of t p id) db.refresh_tokens)
  pub sessions : db'.sessions ≡ update_rows (λ r. r.id == s.id) (set_touched p.now) db.sessions
  pub others : db'.users ≡ db.users

-- A rotation that answers `rotated` has found an unconsumed, unexpired token whose session is neither
-- revoked nor expired; it inserts one successor, of the same session and family and with the token
-- as its parent, marks the token as used and replaced by it, and touches the session.
pub rotate_refresh_token-IsMinting :
    (p : RotateRefreshTokenParams) (id : ℕ) (db db' : Database) (successor : RefreshTokenRow)
    (s : SessionRow)
    → rotate_refresh_token p id db ≡ ok (rotation_rotated successor s, db')
    → (t : RefreshTokenRow) × (successor ≡ successor_of t p id) × IsMinting p id db db' t s
unfolding rotate_refresh_token
rotate_refresh_token-IsMinting p id db db' successor s done =
    elim (Option-cases (find_refresh_token_by_hash p.presented_token_hash db)) [
      | inl missing ↦ absurd (ground arith)
      | inr (t, hit) ↦ elim (Option-cases (find_session_by_id t.session_id db)) [
        | inl orphan ↦ absurd (ground arith)
        | inr (mine, owned) ↦
            let same : mine ≡ s = ground arith in
            (
              t,
              ground arith,
              record {
                presented = hit;
                session = rw same at owned;
                unconsumed = ground arith;
                live = ground arith;
                early = ground arith;
                tokens = ground arith;
                sessions = ground arith;
                others = ground arith;
              },
            )
      ]
    ]

-- A token that was used, revoked or replaced is never rotated: presenting it answers `reuse` with
-- its family and its session, and writes nothing.
pub rotate_consumed :
    (p : RotateRefreshTokenParams) (id : ℕ) (db : Database) (t : RefreshTokenRow)
    → find_refresh_token_by_hash p.presented_token_hash db ≡ some t
    → is_consumed t ≡ true
    → (user : Option ℕ) × (rotate_refresh_token p id db
        ≡ ok (rotation_reuse t.family_id t.session_id user, db))
unfolding rotate_refresh_token
rotate_consumed p id db t hit consumed = elim (Option-cases (find_session_by_id t.session_id db)) [
  | inl orphan ↦ (none, ground arith)
  | inr (s, owned) ↦ (some s.user_id, ground arith)
]

-- A token mints one successor: once its rotation has committed, presenting it again at any time, with
-- any new successor, answers `reuse` of its family and session and writes nothing.
pub rotate-single_use :
    (p q : RotateRefreshTokenParams) (id other_id : ℕ) (db db' : Database)
    (successor : RefreshTokenRow) (s : SessionRow)
    → rotate_refresh_token p id db ≡ ok (rotation_rotated successor s, db')
    → q.presented_token_hash ≡ p.presented_token_hash
    → (user : Option ℕ) × (rotate_refresh_token q other_id db'
        ≡ ok (rotation_reuse successor.family_id successor.session_id user, db'))
rotate-single_use p q id other_id db db' successor s done again =
    let (t, same, m) = rotate_refresh_token-IsMinting p id db db' successor s done in
    let hit : find_refresh_token_by_hash q.presented_token_hash db' ≡ some (set_used p.now id t) =
      unfold find_refresh_token_by_hash in
      rw (again, m.tokens)
        (find-update_found (λ r. r.id) (has_token_hash p.presented_token_hash) (set_used p.now id) _
          t (λ r. unfold has_token_hash in refl)
          (find-insert_found _ _ t db.refresh_tokens m.presented)) in
    let (user, reused) =
      rotate_consumed q other_id db' (set_used p.now id t) hit (unfold is_consumed in refl) in
    (user, rw same reused)
