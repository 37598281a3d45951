-- ===== src/Invitations/Lifecycle.antt =====
-- The lifecycle of an invitation (invitation.lifecycle.ts, invitation.acceptance.ts,
-- invitation.repo.ts).
use orgistry.Prelude.{ℕ, ◌≡◌, ◌⊎◌, inl, inr, arith}
use orgistry.Db.{pending, accepted, revoked, expired, InvitationRow, Database}
use orgistry.Errors.{invitation_expired, invitation_revoked, invitation_already_accepted, AppError}
use orgistry.Invitations.{derive_invitation_status, assert_acceptable}
use orgistry.Db.Transaction.{ok, throw, Outcome-cases}

-- What the presented status says about an acceptance: `accepted`, `revoked` and `expired` each are
-- refused with their own error; else the invitation may be accepted.
pub assert_acceptable-status :
    (i : InvitationRow) (now : ℕ) (db : Database)
    → assert_acceptable i now db ≡ elim (derive_invitation_status i now) [
      | accepted ↦ throw invitation_already_accepted
      | revoked ↦ throw invitation_revoked
      | expired ↦ throw invitation_expired
      | pending ↦ ok (tt, db)
    ]
unfolding assert_acceptable derive_invitation_status
assert_acceptable-status i now db = ground arith

-- An acceptance or a revocation goes on only with an invitation that presents itself as pending.
pub assert_acceptable-cases :
    (i : InvitationRow) (now : ℕ) (db : Database)
    → ((derive_invitation_status i now ≡ pending) × (assert_acceptable i now db ≡ ok (tt, db)))
      ⊎ ((e : AppError) × (assert_acceptable i now db ≡ throw e))
unfolding assert_acceptable derive_invitation_status
assert_acceptable-cases i now db = elim (Outcome-cases (assert_acceptable i now db)) [
  | inl (a, passed) ↦ inl (ground arith, ground arith)
  | inr (e, refused) ↦ inr (e, refused)
]
