-- ===== src/Tests/Accounts.antt =====
-- Password recovery and e-mail verification at concrete inputs.
use orgistry.Prelude.{
  ℕ, ◌+◌, ◌*◌, ◌<◌, String, ◌≡◌, refl, ◌≢◌, ◌⊎◌, Bool, true, false, none, some, [], ◌∷◌, arith,
}
use orgistry.Sessions.{
  RotateRefreshTokenParams, rotation_reuse, rotate_refresh_token, set_token_revoked,
  set_session_revoked, set_password_hash, find_session_by_id, has_token_hash,
  find_refresh_token_by_hash,
}
use orgistry.Errors.{unauthorized}
use orgistry.Recovery.{
  find_reset_token, CompleteResetParams, reset, reset_already_used, is_session_of,
  is_unrevoked_session_of, is_unrevoked_token_of, apply_reset, reset_user, reset_with,
  complete_reset,
}
use orgistry.AccountTokens.{
  is_spent, is_open_of, is_open_sibling, consume_token, has_account_token_hash, IssueTokenParams,
  replace_generation,
}
use orgistry.Db.Transaction.{ok, throw, Result}
use orgistry.Db.{SessionRow, RefreshTokenRow, AccountTokenRow, Database, UserRow}
use orgistry.Tables.{find_row, select_rows, count_rows, update_rows}
use orgistry.Tests.Samples.{
  ann_user, ann_session, first_token, sample, quiet_request, after, world, unverified_ann,
  unverified, plain_crypto,
}
use orgistry.Recovery.Service.{RecoveryLimits, TokenDraws, request_reset}
use orgistry.Recovery.Effect.{complete_reset-effect, complete_reset-ends_access}
use orgistry.Sessions.Service.{
  is_usable_user, find_user_by_id, require_authenticated_session, is_truthy, write_security_event,
  enforce_auth_rate_limit,
}
use orgistry.Service.{World, Outages}
use orgistry.Verification.{
  find_verification_token, issue_verification_token, verified, verification_already_used,
  set_verified, is_unverified_user, apply_verification, verify_user, verify_with,
  complete_verification,
}
use orgistry.RateLimit.{closed_mode, enforce_store_availability, noop_consume}
use orgistry.Recovery.Silence.{request_reset_indistinguishable}
use orgistry.Verification.Service.{
  VerificationLimits, VerificationRequestResponse, issued_verification, issue_and_send,
  request_for_row, verification_request_limits, request_verification_email,
}
use orgistry.Verification.Effect.{
  complete_verification-effect, issue, complete, verification_history,
  verification_history-set_once,
}
use orgistry.Verification.Delivery.{request_verification_email-delivery}

abbrev ann_resets : CompleteResetParams
ann_resets = record { token_hash = "p1"; new_password_hash = "new"; now = 5 }

abbrev after_reset : Database
after_reset = after (complete_reset ann_resets sample)

reset_done : complete_reset ann_resets sample ≡ ok (reset ann_user, after_reset)
unfolding complete_reset reset_with reset_user apply_reset find_reset_token has_account_token_hash
    find_row is_spent find_user_by_id is_usable_user consume_token update_rows
    is_unrevoked_session_of is_unrevoked_token_of select_rows is_session_of is_open_sibling
    is_open_of
reset_done = refl

complete_reset-effect_example :
    (t : AccountTokenRow) × (find_reset_token "p1" sample ≡ some t)
    × (is_spent t ≡ false)
    × (5 < t.expires_at)
    × (t.user_id ≡ 1)
    × (is_usable_user ann_user ≡ true)
    × (find_user_by_id 1 after_reset ≡ some (set_password_hash "new" 5 ann_user))
    × (count_rows (is_open_of 1) after_reset.password_reset_tokens ≡ 0)
    × (count_rows (is_unrevoked_session_of 1) after_reset.sessions ≡ 0)
    × (count_rows (is_unrevoked_token_of 1 after_reset.sessions) after_reset.refresh_tokens ≡ 0)
    × (select_rows (is_session_of 2) after_reset.sessions
        ≡ select_rows (is_session_of 2) sample.sessions)
    × (complete_reset
          (record { token_hash = "p1"; new_password_hash = "newer"; now = 6 })
          after_reset
        ≡ ok (reset_already_used, after_reset))
complete_reset-effect_example =
    complete_reset-effect ann_resets 2 sample after_reset ann_user "newer" 6 reset_done
      (λ e. omega arith)

abbrev ann_rotates : RotateRefreshTokenParams
ann_rotates = record {
  presented_token_hash = "r1";
  successor_token_hash = "r2";
  successor_expires_at = 200;
  now = 6;
}

abbrev reset_token : RefreshTokenRow
reset_token = set_token_revoked "password_reset" 5 first_token

abbrev reset_session : SessionRow
reset_session = set_session_revoked "password_reset" 5 ann_session

reset_token_found : find_refresh_token_by_hash "r1" after_reset ≡ some reset_token
unfolding complete_reset reset_with reset_user apply_reset find_reset_token has_account_token_hash
    find_row is_spent find_user_by_id is_usable_user consume_token update_rows
    is_unrevoked_session_of is_unrevoked_token_of select_rows is_session_of is_open_sibling
    is_open_of find_refresh_token_by_hash has_token_hash
reset_token_found = refl

reset_session_found : find_session_by_id 1 after_reset ≡ some reset_session
unfolding complete_reset reset_with reset_user apply_reset find_reset_token has_account_token_hash
    find_row is_spent find_user_by_id is_usable_user consume_token update_rows
    is_unrevoked_session_of is_unrevoked_token_of select_rows is_session_of is_open_sibling
    is_open_of find_session_by_id
reset_session_found = refl

complete_reset-ends_access_example :
    ((require_authenticated_session plain_crypto "a1" quiet_request 6
        (record { db = after_reset; store = tt })).0
      ≡ throw unauthorized)
    × (rotate_refresh_token ann_rotates 3 after_reset
        ≡ ok (rotation_reuse 1 1 (some 1), after_reset))
complete_reset-ends_access_example =
    complete_reset-ends_access plain_crypto ann_resets sample after_reset ann_user "a1"
      (record { sub = 1; session_id = 1 }) quiet_request 6 tt ann_rotates 3 reset_token
      reset_session reset_done refl refl reset_token_found reset_session_found refl

abbrev recovery_limits : RecoveryLimits
recovery_limits = record {
  window_seconds = 60;
  request_per_ip_max = 9;
  request_per_email_max = 9;
  complete_per_ip_max = 9;
  complete_per_token_max = 9;
  ttl_seconds = 60;
}

abbrev pub mailed : (to raw_token : String) → ℕ → Bool
mailed to raw_token expires_at = true

abbrev lost : (to raw_token : String) → ℕ → Bool
lost to raw_token expires_at = false

abbrev pub calm : Outages
calm = record { lookup = false; invitation = false; persist = false; event = false }

abbrev failing : Outages
failing = record { lookup = false; invitation = false; persist = true; event = true }

abbrev pub drawn : TokenDraws
drawn = record { id = 7; raw_token = "p7" }

request_reset_indistinguishable_example :
    (request_reset plain_crypto noop_consume closed_mode recovery_limits mailed calm "ann@a.org"
      quiet_request drawn 5 world).0
    ≡ (request_reset plain_crypto noop_consume closed_mode recovery_limits lost failing "ann@a.org"
        quiet_request drawn 6
        (record { db = unverified; store = tt })).0
request_reset_indistinguishable_example =
    request_reset_indistinguishable plain_crypto noop_consume closed_mode recovery_limits mailed
      lost calm failing "ann@a.org" quiet_request drawn drawn 5 6 world
      (record { db = unverified; store = tt }) refl

abbrev after_verification : Database
after_verification = after (complete_verification "p1" 5 unverified)

verification_done :
    complete_verification "p1" 5 unverified ≡ ok (verified unverified_ann false, after_verification)
unfolding complete_verification verify_with verify_user apply_verification find_verification_token
    has_account_token_hash find_row is_spent find_user_by_id is_usable_user consume_token
    update_rows is_open_sibling is_open_of is_unverified_user
verification_done = refl

complete_verification-effect_example :
    (t : AccountTokenRow) × (find_verification_token "p1" unverified ≡ some t)
    × (is_spent t ≡ false)
    × (5 < t.expires_at)
    × (t.user_id ≡ 1)
    × (is_usable_user unverified_ann ≡ true)
    × (find_user_by_id 1 after_verification ≡ some (set_verified 5 unverified_ann))
    × (count_rows (is_open_of 1) after_verification.email_verification_tokens ≡ 0)
    × (complete_verification "p1" 9 after_verification
        ≡ ok (verification_already_used, after_verification))
complete_verification-effect_example =
    complete_verification-effect "p1" 5 9 unverified after_verification unverified_ann false
      verification_done

abbrev reissued : IssueTokenParams
reissued = record { user_id = 1; token_hash = "p2"; expires_at = 200; now = 6 }

verification_history-set_once_example :
    find_user_by_id 1
      (verification_history (issue reissued 2 ∷ complete "p2" 7 ∷ []) after_verification)
    ≡ some (set_verified 5 unverified_ann)
verification_history-set_once_example =
    verification_history-set_once (issue reissued 2 ∷ complete "p2" 7 ∷ []) 1 5 after_verification
      (set_verified 5 unverified_ann) (complete_verification-effect_example.6) refl

abbrev pub verification_limits : VerificationLimits
verification_limits = record {
  window_seconds = 60;
  request_per_user_max = 9;
  request_per_ip_max = 9;
  complete_per_ip_max = 9;
  ttl_seconds = 60;
}

abbrev pub unverified_world : World (Unit {0})
unverified_world = record { db = unverified; store = tt }

abbrev after_request : World (Unit {0})
after_request =
    (request_verification_email plain_crypto noop_consume closed_mode verification_limits mailed 1
      quiet_request drawn 5 unverified_world).1

abbrev sent_answer : Result VerificationRequestResponse
sent_answer = ok (record { sent = true; already_verified = false })

mail_requested :
    request_verification_email plain_crypto noop_consume closed_mode verification_limits mailed 1
      quiet_request drawn 5 unverified_world
    ≡ (sent_answer, after_request)
unfolding request_verification_email verification_request_limits is_truthy enforce_auth_rate_limit
    enforce_store_availability find_user_by_id find_row request_for_row is_usable_user
    issue_and_send issue_verification_token write_security_event
mail_requested = refl

request_verification_email-delivery_example :
    ((after_request.db.email_verification_tokens ≡ unverified.email_verification_tokens)
      × (sent_answer ≢ ok (record { sent = true; already_verified = false })))
    ⊎ ((u : UserRow) × (find_user_by_id 1 unverified ≡ some u)
        × (is_usable_user u ≡ true)
        × (u.email_verified_at ≡ none)
        × (mailed u.email "p7" (5 + 60 * 1000) ≡ true)
        × (sent_answer ≡ ok (record { sent = true; already_verified = false }))
        × (after_request.db.email_verification_tokens
            ≡ replace_generation
                (issued_verification plain_crypto noop_consume closed_mode verification_limits
                  mailed u drawn 5)
                7
                unverified.email_verification_tokens)
        × (count_rows (is_open_of u.id) after_request.db.email_verification_tokens ≡ 1))
request_verification_email-delivery_example =
    request_verification_email-delivery plain_crypto noop_consume closed_mode verification_limits
      mailed 1 quiet_request drawn 5 unverified_world after_request sent_answer mail_requested
