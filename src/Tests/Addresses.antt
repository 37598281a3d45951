-- ===== src/Tests/Addresses.antt =====
-- The change of an address at concrete inputs.
use orgistry.Prelude.{◌≡◌, refl, ◌⊎◌, true, false, some, str_eq, any}
use orgistry.Service.{World}
use orgistry.Sessions.{find_session_by_id, is_live_session}
use orgistry.Verification.{issue_verification_token}
use orgistry.RateLimit.{closed_mode, enforce_store_availability, noop_consume}
use orgistry.AccountTokens.{is_open_of}
use orgistry.Db.Transaction.{ok, throw}
use orgistry.Db.{UserRow, SessionRow, Database}
use orgistry.Tables.{find_row, update_rows, count_rows}
use orgistry.Tests.Samples.{quiet_request, after, unverified_ann, unverified, plain_crypto}
use orgistry.Tests.Logins.{wide_limits}
use orgistry.Tests.Accounts.{mailed, calm, drawn, verification_limits, unverified_world}
use orgistry.Verification.Service.{send_email_change_verification_email}
use orgistry.Sessions.Service.{
  write_security_event, is_usable_user, find_user_by_id, enforce_auth_rate_limit,
  is_trusted_session, require_authenticated_session,
}
use orgistry.Sessions.Email.{
  ChangeEmailParams, set_email, is_holder_of_email, update_email, retire_verification_tokens,
  change_email, commit_email, change_proved, change_for, handle_change_email,
}
use orgistry.Sessions.Email.Effect.{change_email-effect, IsRetired}
use orgistry.Sessions.Email.Proof.{handle_change_email-authorized, IsAudited, IsMailed}
use orgistry.Errors.{AppError}

abbrev ann_moves : ChangeEmailParams
ann_moves = record { user_id = 1; email = "ann@b.org"; normalized_email = "ann@b.org"; now = 5 }

abbrev after_move : Database
after_move = after (change_email ann_moves unverified)

moved : change_email ann_moves unverified ≡ ok (set_email ann_moves unverified_ann, after_move)
unfolding change_email update_email is_holder_of_email find_user_by_id retire_verification_tokens
    is_open_of find_row update_rows
moved = refl

ann_found : find_user_by_id 1 unverified ≡ some unverified_ann
unfolding find_user_by_id find_row
ann_found = refl

change_email-effect_example :
    (set_email ann_moves unverified_ann ≡ set_email ann_moves unverified_ann)
    × (find_user_by_id 1 after_move ≡ some (set_email ann_moves unverified_ann))
    × (any (is_holder_of_email ann_moves) unverified.users ≡ false)
    × (count_rows (is_open_of 1) after_move.email_verification_tokens ≡ 0)
    × IsRetired 1 "p1" 6 unverified after_move
    × (after_move.password_reset_tokens ≡ unverified.password_reset_tokens)
change_email-effect_example =
    change_email-effect ann_moves unverified after_move unverified_ann
      (set_email ann_moves unverified_ann) "p1" 6 ann_found moved

abbrev after_call : World (Unit {0})
after_call =
    (handle_change_email plain_crypto noop_consume closed_mode wide_limits verification_limits
      mailed calm "a1" "old" "ann@b.org" "ann@b.org" quiet_request drawn 5 unverified_world).1

called :
    handle_change_email plain_crypto noop_consume closed_mode wide_limits verification_limits mailed
      calm "a1" "old" "ann@b.org" "ann@b.org" quiet_request drawn 5 unverified_world
    ≡ (ok (set_email ann_moves unverified_ann), after_call)
unfolding handle_change_email require_authenticated_session find_user_by_id find_row is_usable_user
    find_session_by_id is_trusted_session is_live_session change_for enforce_auth_rate_limit
    enforce_store_availability change_proved commit_email change_email update_email
    is_holder_of_email update_rows retire_verification_tokens is_open_of
    send_email_change_verification_email issue_verification_token write_security_event
called = refl

handle_change_email-authorized_example :
    ((e : AppError) × (ok (set_email ann_moves unverified_ann) ≡ throw e)
      × IsAudited unverified after_call.db)
    ⊎ ((user : UserRow) × (session : SessionRow) × ((require_authenticated_session plain_crypto "a1"
            quiet_request 5 unverified_world).0
          ≡ ok (user, session))
        × (str_eq user.password_hash "old" ≡ true)
        × (str_eq "ann@b.org" user.normalized_email ≡ false)
        × ((updated : UserRow) × (db' : Database) × (ok (set_email ann_moves unverified_ann)
              ≡ ok updated)
            × (change_email
                  (record {
                    user_id = user.id;
                    email = "ann@b.org";
                    normalized_email = "ann@b.org";
                    now = 5;
                  })
                  unverified
                ≡ ok (updated, db'))
            × IsMailed db' after_call.db))
handle_change_email-authorized_example =
    handle_change_email-authorized plain_crypto noop_consume closed_mode wide_limits
      verification_limits mailed calm "a1" "old" "ann@b.org" "ann@b.org" quiet_request drawn 5
      unverified_world after_call (ok (set_email ann_moves unverified_ann)) called
