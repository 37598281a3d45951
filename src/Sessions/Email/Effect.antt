-- ===== src/Sessions/Email/Effect.antt =====
-- What a committed change of an address leaves (changeEmail of auth.repo.ts), together with the
-- completions of email-verification.repo.ts.
use orgistry.Prelude.{
  ℕ, String, ◌≡◌, refl, ◌≢◌, ◌⊎◌, inl, inr, true, false, none, some, arith, ◌==◌, ==_refl,
  Bool-cases, Option-cases, any,
}
use orgistry.Verification.{
  find_verification_token, verification_already_used, complete_verification, verify_with,
}
use orgistry.Db.Transaction.{ok}
use orgistry.Db.{UserRow, AccountTokenRow, Database}
use orgistry.Sessions.Service.{find_user_by_id}
use orgistry.Sessions.Email.{
  ChangeEmailParams, set_email, is_holder_of_email, update_email, change_email,
  retire_verification_tokens,
}
use orgistry.AccountTokens.{is_spent, is_open_of, set_token_invalidated, has_account_token_hash}
use orgistry.Tables.{
  update_rows, find-update_untouched, find-update_touched, find-update, count_rows,
  count-update_none,
}

-- The rows that a committed change writes.
record IsEmailChange (p : ChangeEmailParams) (db db' : Database) (user : UserRow) : Type 0 where
  vacant : any (is_holder_of_email p) db.users ≡ false
  answer : find_user_by_id p.user_id db' ≡ some user
  users : db'.users ≡ update_rows (λ u. u.id == p.user_id) (set_email p) db.users
  tokens :
      db'.email_verification_tokens
      ≡ update_rows
          (is_open_of p.user_id)
          (set_token_invalidated p.now)
          db.email_verification_tokens
  reset_tokens : db'.password_reset_tokens ≡ db.password_reset_tokens

change_email-IsEmailChange :
    (p : ChangeEmailParams) (db db' : Database) (u user : UserRow)
    → find_user_by_id p.user_id db ≡ some u
    → change_email p db ≡ ok (user, db')
    → IsEmailChange p db db' user
unfolding change_email update_email find_user_by_id retire_verification_tokens
change_email-IsEmailChange p db db' u user known done =
    elim (Bool-cases (any (is_holder_of_email p) db.users)) [
      | inl taken ↦ ground arith
      | inr untaken ↦ record {
        vacant = untaken;
        answer = ground arith;
        users = ground arith;
        tokens = ground arith;
        reset_tokens = ground arith;
      }
    ]

-- A token of the user is refused as spent after its open tokens were retired.
spent_after_retirement :
    (user_id now : ℕ) (token_hash : String) (t : AccountTokenRow) (db db' : Database)
    → find_verification_token token_hash db ≡ some t
    → t.user_id ≡ user_id
    → db'.email_verification_tokens
      ≡ update_rows (is_open_of user_id) (set_token_invalidated now) db.email_verification_tokens
    → (t' : AccountTokenRow) × (find_verification_token token_hash db' ≡ some t')
      × (is_spent t' ≡ true)
unfolding find_verification_token
spent_after_retirement user_id now token_hash t db db' presented owner tokens =
    elim (Bool-cases (is_open_of user_id t)) [
      | inl open_ ↦ (
        set_token_invalidated now t,
        rw tokens (
            find-update_touched (has_account_token_hash token_hash) (is_open_of user_id)
              (set_token_invalidated now) db.email_verification_tokens t
              (λ r. unfold has_account_token_hash in refl) presented open_),
        unfold is_spent in ground arith,
      )
      | inr closed ↦ (
        t,
        rw tokens (
            find-update_untouched (has_account_token_hash token_hash) (is_open_of user_id)
              (set_token_invalidated now) db.email_verification_tokens t
              (λ r. unfold has_account_token_hash in refl) presented closed),
        unfold is_spent is_open_of in ground (arith, ==_refl user_id),
      )
    ]

-- What the tables that a change leaves answer to a presented hash of a verification token.
abbrev pub IsRetired : (user_id : ℕ) (token_hash : String) (now : ℕ) (db db' : Database) → Type 0
IsRetired user_id token_hash now db db' =
    (find_verification_token token_hash db ≡ none)
    ⊎ ((t : AccountTokenRow) × (find_verification_token token_hash db ≡ some t)
        × ((t.user_id ≢ user_id)
            ⊎ (complete_verification token_hash now db' ≡ ok (verification_already_used, db'))))

retirement-IsRetired :
    (user_id retired_at : ℕ) (token_hash : String) (now : ℕ) (db db' : Database)
    → db'.email_verification_tokens
      ≡ update_rows
          (is_open_of user_id)
          (set_token_invalidated retired_at)
          db.email_verification_tokens
    → IsRetired user_id token_hash now db db'
unfolding complete_verification verify_with
retirement-IsRetired user_id retired_at token_hash now db db' tokens =
    elim (Option-cases (find_verification_token token_hash db)) [
      | inl missing ↦ inl missing
      | inr (t, presented) ↦ elim (Bool-cases (t.user_id == user_id)) [
        | inr other ↦ inr (t, presented, inl (ground arith))
        | inl of_user ↦
            let (t', found, spent) =
              spent_after_retirement user_id retired_at token_hash t db db' presented (ground arith)
                tokens in
            inr (t, presented, inr (ground arith))
      ]
    ]

-- A committed change of a stored user sets the address, clears its verification, and was made while no
-- other user held the address. In the tables that it leaves no verification token of the user is open;
-- any hash of a verification token was unknown before, belongs to another user, or is refused there as
-- one that was used; and the tokens for a reset of the password are those from before.
pub change_email-effect :
    (p : ChangeEmailParams) (db db' : Database) (u user : UserRow) (token_hash : String) (now : ℕ)
    → find_user_by_id p.user_id db ≡ some u
    → change_email p db ≡ ok (user, db')
    → (user ≡ set_email p u)
      × (find_user_by_id p.user_id db' ≡ some user)
      × (any (is_holder_of_email p) db.users ≡ false)
      × (count_rows (is_open_of p.user_id) db'.email_verification_tokens ≡ 0)
      × IsRetired p.user_id token_hash now db db'
      × (db'.password_reset_tokens ≡ db.password_reset_tokens)
change_email-effect p db db' u user token_hash now known done =
    let c = change_email-IsEmailChange p db db' u user known done in
    let renamed : find_user_by_id p.user_id db' ≡ some (set_email p u) =
      unfold find_user_by_id in
      rw c.users (find-update (λ r. r.id) (set_email p) p.user_id db.users u (λ r. refl) known) in
    let none_open : count_rows (is_open_of p.user_id) db'.email_verification_tokens ≡ 0 =
      rw c.tokens (
        count-update_none (is_open_of p.user_id) (is_open_of p.user_id)
          (set_token_invalidated p.now) db.email_verification_tokens (λ r h. h)
          (λ r h. unfold is_open_of in ground arith)) in
    let answer : user ≡ set_email p u = ground arith in
    (
      answer,
      c.answer,
      c.vacant,
      none_open,
      retirement-IsRetired p.user_id p.now token_hash now db db' c.tokens,
      c.reset_tokens,
    )
