-- ===== src/Verification/Effect.antt =====
-- What a completed e-mail verification leaves, and what no history of them changes
-- (email-verification.repo.ts).
use orgistry.Prelude.{
  ℕ, ◌<◌, String, ◌≡◌, refl, sym, subst, ◌⊎◌, inl, inr, Bool, true, false, ◌&&◌, ◌||◌, some, List,
  [], ◌∷◌, arith, leb, ◌==◌, if◌then◌else◌, ==_iff, ==_refl, Bool-cases, Option-cases, is_some,
  is_none,
}
use orgistry.Verification.{
  find_verification_token, verified, verification_already_used, set_verified, is_unverified_user,
  apply_verification, verify_user, verify_with, complete_verification, issue_verification_token,
}
use orgistry.AccountTokens.{
  is_spent, is_open_of, consume_token, consume_token-open, IssueTokenParams, find-consume_token,
}
use orgistry.Db.Transaction.{ok, run}
use orgistry.Db.{UserRow, AccountTokenRow, Database}
use orgistry.Tables.{
  count_rows, update_rows, find_sound, find-update_touched, find-update_untouched,
}
use orgistry.Sessions.Service.{is_usable_user, find_user_by_id}

-- The rows that a completion has read, and what it writes.
record IsVerification (token_hash : String) (now : ℕ) (db db' : Database) (user : UserRow)
    (already : Bool) (t : AccountTokenRow) : Type 0 where
  presented : find_verification_token token_hash db ≡ some t
  unspent : is_spent t ≡ false
  early : now < t.expires_at
  owner : find_user_by_id t.user_id db ≡ some user
  usable : is_usable_user user ≡ true
  already_lem : already ≡ is_some user.email_verified_at
  users : db'.users ≡ (
      if already
      then db.users
      else update_rows (is_unverified_user user.id) (set_verified now) db.users)
  tokens : db'.email_verification_tokens ≡ consume_token t now db.email_verification_tokens

complete_verification-IsVerification :
    (token_hash : String) (now : ℕ) (db db' : Database) (user : UserRow) (already : Bool)
    → complete_verification token_hash now db ≡ ok (verified user already, db')
    → (t : AccountTokenRow) × IsVerification token_hash now db db' user already t
unfolding complete_verification verify_with verify_user apply_verification
complete_verification-IsVerification token_hash now db db' user already done =
    elim (Option-cases (find_verification_token token_hash db)) [
      | inl missing ↦ absurd (ground arith)
      | inr (t, hit) ↦ elim (Option-cases (find_user_by_id t.user_id db)) [
        | inl gone ↦ absurd (ground arith)
        | inr (u, known) ↦
            let same : u ≡ user = ground arith in
            (
              t,
              record {
                presented = hit;
                unspent = ground arith;
                early = ground arith;
                owner = rw same at known;
                usable = ground arith;
                already_lem = ground arith;
                users = ground arith;
                tokens = ground arith;
              },
            )
      ]
    ]

find-verified :
    {token_hash : String} {now : ℕ} {db db' : Database} {user : UserRow} {already : Bool}
    {t : AccountTokenRow}
    → IsVerification token_hash now db db' user already t
    → find_user_by_id user.id db ≡ some user
    → find_user_by_id user.id db'
      ≡ some (if is_some user.email_verified_at then user else set_verified now user)
unfolding find_user_by_id
find-verified {now} {db} {user} v known = elim (Option-cases user.email_verified_at) [
  | inl unverified ↦
      let touched : is_unverified_user user.id user ≡ true =
        unfold is_unverified_user in ground (arith, ==_refl user.id) in
      let found =
        find-update_touched (λ u. u.id == user.id) (is_unverified_user user.id) (set_verified now)
          db.users user (λ u. refl) known touched in
      ground (arith, v.users, v.already_lem, found)
  | inr (since, old) ↦ ground (arith, v.users, v.already_lem, known)
]

-- A completion that verifies has found a stored token that was neither used, replaced nor expired, of
-- a usable user. Then the user's address is verified: from now if it was not, and since then if it
-- was; no verification token of the user is open; and presenting the token again at any time answers
-- that it was used, and writes nothing.
pub complete_verification-effect :
    (token_hash : String) (now later : ℕ) (db db' : Database) (user : UserRow) (already : Bool)
    → complete_verification token_hash now db ≡ ok (verified user already, db')
    → (t : AccountTokenRow) × (find_verification_token token_hash db ≡ some t)
      × (is_spent t ≡ false)
      × (now < t.expires_at)
      × (t.user_id ≡ user.id)
      × (is_usable_user user ≡ true)
      × (find_user_by_id user.id db'
          ≡ some (if is_some user.email_verified_at then user else set_verified now user))
      × (count_rows (is_open_of user.id) db'.email_verification_tokens ≡ 0)
      × (complete_verification token_hash later db' ≡ ok (verification_already_used, db'))
complete_verification-effect token_hash now later db db' user already done =
    let (t, v) = complete_verification-IsVerification token_hash now db db' user already done in
    let mine : t.user_id ≡ user.id = sym (
      (==_iff user.id t.user_id).0
        (unfold find_user_by_id in find_sound (λ u. u.id == t.user_id) db.users user v.owner)) in
    let known : find_user_by_id user.id db ≡ some user =
      subst (λ k. find_user_by_id k db ≡ some user) mine v.owner in
    (
      t,
      v.presented,
      v.unspent,
      v.early,
      mine,
      v.usable,
      find-verified v known,
      rw (v.tokens, ← mine) (consume_token-open t now db.email_verification_tokens),
      unfold complete_verification verify_with find_verification_token is_spent in
          ground (
            arith,
            find-consume_token token_hash t now db.email_verification_tokens
                (unfold find_verification_token in v.presented),
            v.tokens,
          ),
    )

pub data VerificationCall : Type 0 where
  issue : IssueTokenParams → (id : ℕ) → VerificationCall
  complete : (token_hash : String) (now : ℕ) → VerificationCall

unfoldable pub call_verification : VerificationCall → Database → Database
call_verification (issue p id) db = (run (issue_verification_token p id) db).1
call_verification (complete token_hash now) db = (run (complete_verification token_hash now) db).1

unfoldable pub verification_history : List VerificationCall → Database → Database
verification_history [] db = db
verification_history (c ∷ cs) db = verification_history cs (call_verification c db)

complete-users :
    (token_hash : String) (now : ℕ) (db : Database)
    → ((run (complete_verification token_hash now) db).1.users ≡ db.users)
      ⊎ ((k : ℕ) × ((run (complete_verification token_hash now) db).1.users
            ≡ update_rows (is_unverified_user k) (set_verified now) db.users))
unfolding complete_verification verify_with verify_user apply_verification
complete-users token_hash now db = elim (Option-cases (find_verification_token token_hash db)) [
  | inl missing ↦ inl (ground arith)
  | inr (t, hit) ↦ elim (Bool-cases (is_spent t || leb t.expires_at now)) [
    | inl refused ↦ inl (ground arith)
    | inr fresh ↦ elim (Option-cases (find_user_by_id t.user_id db)) [
      | inl gone ↦ inl (ground arith)
      | inr (u, known) ↦ elim (Bool-cases (is_usable_user u && is_none u.email_verified_at)) [
        | inl first ↦ inr (u.id, ground arith)
        | inr unchanged ↦ inl (ground arith)
      ]
    ]
  ]
]

complete-keeps_verified :
    (token_hash : String) (now user_id since : ℕ) (db : Database) (u : UserRow)
    → find_user_by_id user_id db ≡ some u
    → u.email_verified_at ≡ some since
    → find_user_by_id user_id (run (complete_verification token_hash now) db).1 ≡ some u
unfolding find_user_by_id
complete-keeps_verified token_hash now user_id since db u known old =
    elim (complete-users token_hash now db) [
      | inl same ↦ rw same known
      | inr (k, changed) ↦ rw changed (
          find-update_untouched (λ r. r.id == user_id) (is_unverified_user k) (set_verified now)
            db.users u (λ r. refl) known (unfold is_unverified_user in ground arith))
    ]

-- The time at which an address was verified is set once: a user who is verified keeps the same row
-- through any history of issued and completed verifications.
pub verification_history-set_once :
    (cs : List VerificationCall) (user_id since : ℕ) (db : Database) (u : UserRow)
    → find_user_by_id user_id db ≡ some u
    → u.email_verified_at ≡ some since
    → find_user_by_id user_id (verification_history cs db) ≡ some u
unfolding verification_history call_verification
verification_history-set_once [] user_id since db u known old = known
verification_history-set_once (issue p id ∷ cs) user_id since db u known old =
    verification_history-set_once cs user_id since _ u
      (unfold issue_verification_token find_user_by_id in known) old
verification_history-set_once (complete token_hash now ∷ cs) user_id since db u known old =
    verification_history-set_once cs user_id since _ u
      (complete-keeps_verified token_hash now user_id since db u known old) old
