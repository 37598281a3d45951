-- ===== src/Tests/Logins.antt =====
-- Sessions and refresh tokens on the sample.
use orgistry.Prelude.{ℕ, ◌≡◌, refl, true, false, ◌&&◌, Option, some, arith, ◌==◌, str_eq}
use orgistry.Tests.Samples.{
  after, world, sample, ann_user, ann_session, first_token, quiet_request, used_token, plain_crypto,
}
use orgistry.Db.Transaction.{throw, ok}
use orgistry.Service.{World}
use orgistry.Sessions.{
  find_session_by_id, has_token_hash, find_refresh_token_by_hash, RotateRefreshTokenParams,
  rotation_reuse, rotation_rotated, is_consumed, is_live_session, successor_of,
  rotate_refresh_token, set_token_revoked, is_unrevoked_of_family, is_unrevoked_of_session,
  is_unrevoked_session, revoke_refresh_token_family, revoke_session, ChangePasswordParams,
  set_password_hash, is_unrevoked_other_session, is_unrevoked_other_token,
  change_password_keeping_current_session, insert_session, insert_refresh_token,
}
use orgistry.RateLimit.{closed_mode, enforce_store_availability, noop_consume}
use orgistry.Errors.{unauthorized, invalid_credentials}
use orgistry.Db.{RefreshTokenRow, UserRow}
use orgistry.Tables.{find_row, select_rows, count_rows, update_rows, insert_row}
use orgistry.Sessions.Service.{
  AuthLimits, is_truthy, write_security_event, is_usable_user, find_user_by_id,
  enforce_auth_rate_limit, is_trusted_session, require_authenticated_session,
  find_user_by_normalized_email,
}
use orgistry.Sessions.Rotation.{rotate-single_use}
use orgistry.Sessions.Password.{change_password-effect}
use orgistry.Sessions.Endings.{logout}
use orgistry.Sessions.Refresh.{
  reuse_detected, limit_presented, limit_by_address, refresh_limits, refresh,
}
use orgistry.Sessions.Reuse.{refresh-reuse}
use orgistry.Sessions.Revocation.{
  IsAuthenticated, require_authenticated_session-IsAuthenticated, logout-ends,
}
use orgistry.Sessions.Login.{
  SessionIssueResult, LoginDraws, issue_session, login_known, login_found, login_limits, login,
  login-refused, issued_session, login-accepted,
}

abbrev pub wide_limits : AuthLimits
wide_limits = record {
  login_per_ip_max = 9;
  login_per_email_max = 9;
  refresh_per_ip_max = 9;
  refresh_per_session_max = 9;
  change_password_per_user_max = 9;
  change_email_per_user_max = 9;
  window_seconds = 60;
  session_ttl_seconds = 60;
  refresh_token_ttl_seconds = 60;
}

abbrev first_rotation : RotateRefreshTokenParams
first_rotation = record {
  presented_token_hash = "r1";
  successor_token_hash = "r2";
  successor_expires_at = 200;
  now = 5;
}

rotation_done :
    rotate_refresh_token first_rotation 3 sample
    ≡ ok (
      rotation_rotated (successor_of first_token first_rotation 3) ann_session,
      after (rotate_refresh_token first_rotation 3 sample),
    )
unfolding rotate_refresh_token find_refresh_token_by_hash has_token_hash find_session_by_id find_row
    is_consumed is_live_session update_rows insert_row
rotation_done = refl

rotate-single_use_example :
    (user : Option ℕ) × (rotate_refresh_token
        (record first_rotation { successor_token_hash = "r3" })
        4
        (after (rotate_refresh_token first_rotation 3 sample))
      ≡ ok (rotation_reuse 1 1 user, after (rotate_refresh_token first_rotation 3 sample)))
rotate-single_use_example =
    rotate-single_use first_rotation (record first_rotation { successor_token_hash = "r3" }) 3 4
      sample (after (rotate_refresh_token first_rotation 3 sample))
      (successor_of first_token first_rotation 3) ann_session rotation_done refl

abbrev after_refresh : World (Unit {0})
after_refresh =
    (refresh plain_crypto noop_consume closed_mode wide_limits "r0" quiet_request "r2" 3 5 world).1

reused :
    refresh plain_crypto noop_consume closed_mode wide_limits "r0" quiet_request "r2" 3 5 world
    ≡ (ok reuse_detected, after_refresh)
unfolding refresh refresh_limits limit_by_address limit_presented is_truthy enforce_auth_rate_limit
    enforce_store_availability rotate_refresh_token find_refresh_token_by_hash has_token_hash
    find_session_by_id find_row is_consumed is_live_session update_rows insert_row
    write_security_event revoke_refresh_token_family revoke_session is_unrevoked_of_family
    is_unrevoked_session
reused = refl

abbrev dead_token : RefreshTokenRow
dead_token = set_token_revoked "refresh_token_reuse_detected" 5 first_token

dead_token_found : find_refresh_token_by_hash "r1" after_refresh.db ≡ some dead_token
unfolding refresh refresh_limits limit_by_address limit_presented is_truthy enforce_auth_rate_limit
    enforce_store_availability rotate_refresh_token find_refresh_token_by_hash has_token_hash
    find_session_by_id find_row is_consumed is_live_session update_rows insert_row
    write_security_event revoke_refresh_token_family revoke_session is_unrevoked_of_family
    is_unrevoked_session
dead_token_found = refl

refresh-reuse_example :
    ((user : Option ℕ) × (rotate_refresh_token first_rotation 3 after_refresh.db
        ≡ ok (rotation_reuse 1 1 user, after_refresh.db)))
    × ((require_authenticated_session plain_crypto "a1" quiet_request 9 after_refresh).0
        ≡ throw unauthorized)
refresh-reuse_example =
    refresh-reuse plain_crypto noop_consume closed_mode wide_limits "r0" "r2" "a1" quiet_request
      quiet_request 3 5 9 3 first_rotation world after_refresh used_token dead_token
      (record { sub = 1; session_id = 1 })
      (unfold find_refresh_token_by_hash has_token_hash find_row in refl) reused dead_token_found
      refl refl refl

accepted_token :
    require_authenticated_session plain_crypto "a1" quiet_request 5 world
    ≡ (ok (ann_user, ann_session), world)
unfolding require_authenticated_session find_user_by_id find_session_by_id find_row is_usable_user
    is_trusted_session is_live_session
accepted_token = refl

require_authenticated_session-IsAuthenticated_example :
    (world ≡ world) × IsAuthenticated plain_crypto "a1" 5 sample ann_user ann_session
require_authenticated_session-IsAuthenticated_example =
    require_authenticated_session-IsAuthenticated plain_crypto "a1" quiet_request 5 world world
      ann_user ann_session accepted_token

logout-ends_example :
    ((logout plain_crypto (some "r1") quiet_request 5 world).0 ≡ ok tt)
    × ((require_authenticated_session plain_crypto "a1" quiet_request 9
          (logout plain_crypto (some "r1") quiet_request 5 world).1).0
        ≡ throw unauthorized)
    × (count_rows
          (is_unrevoked_of_session 1)
          (logout plain_crypto (some "r1") quiet_request 5 world).1.db.refresh_tokens
        ≡ 0)
logout-ends_example =
    logout-ends plain_crypto "r1" "a1" quiet_request quiet_request 5 9 world first_token
      (record { sub = 1; session_id = 1 }) (unfold is_truthy in refl)
      (unfold find_refresh_token_by_hash has_token_hash find_row in refl) refl refl

abbrev new_password : ChangePasswordParams
new_password = record {
  user_id = 1;
  new_password_hash = "new";
  current_session_id = 1;
  revoke_reason = "password_changed";
  now = 5;
}

change_password-effect_example :
    (find_user_by_id 1 (after (change_password_keeping_current_session new_password sample))
      ≡ some (set_password_hash "new" 5 ann_user))
    × (count_rows
          (is_unrevoked_other_session new_password)
          (after (change_password_keeping_current_session new_password sample)).sessions
        ≡ 0)
    × (count_rows
          (is_unrevoked_other_token new_password
            (after (change_password_keeping_current_session new_password sample)).sessions)
          (after (change_password_keeping_current_session new_password sample)).refresh_tokens
        ≡ 0)
    × (select_rows
          (λ s. s.user_id == 2)
          (after (change_password_keeping_current_session new_password sample)).sessions
        ≡ select_rows (λ s. s.user_id == 2) sample.sessions)
    × (select_rows
          (λ s. s.id == 1)
          (after (change_password_keeping_current_session new_password sample)).sessions
        ≡ select_rows (λ s. s.id == 1) sample.sessions)
change_password-effect_example =
    change_password-effect new_password 2 sample
      (after (change_password_keeping_current_session new_password sample)) ann_user
      (unfold find_user_by_id find_row in refl)
      (unfold change_password_keeping_current_session in refl) (λ e. absurd (omega arith))

abbrev draws : LoginDraws
draws = record { session_id = 3; token_id = 9; family_id = 9; raw_refresh_token = "r9" }

abbrev ann_signed_in : SessionIssueResult
ann_signed_in = record { raw_refresh_token = "r9"; user = ann_user; access_token = "a2" }

abbrev after_login : World (Unit {0})
after_login =
    (login plain_crypto noop_consume closed_mode wide_limits "ann@a.org" "old" quiet_request draws 5
      world).1

signed_in :
    login plain_crypto noop_consume closed_mode wide_limits "ann@a.org" "old" quiet_request draws 5
      world
    ≡ (ok ann_signed_in, after_login)
unfolding login login_limits is_truthy enforce_auth_rate_limit enforce_store_availability
    find_user_by_normalized_email find_row login_found login_known is_usable_user issue_session
    insert_session insert_refresh_token insert_row write_security_event
signed_in = refl

login-accepted_example :
    (find_user_by_normalized_email "ann@a.org" sample ≡ some ann_user)
    × (is_usable_user ann_user ≡ true)
    × (str_eq "old" "old" ≡ true)
    × ((require_authenticated_session plain_crypto "a2" quiet_request 9 after_login).0
        ≡ ok (
          ann_user,
          issued_session plain_crypto noop_consume closed_mode wide_limits ann_user quiet_request
              draws 5,
        ))
login-accepted_example =
    login-accepted plain_crypto noop_consume closed_mode wide_limits "ann@a.org" "old" quiet_request
      quiet_request draws 5 9 world after_login ann_signed_in signed_in refl
      (unfold find_user_by_id find_row in refl) (unfold find_session_by_id find_row in refl)
      (omega arith)

limits_passed :
    login_limits plain_crypto noop_consume closed_mode wide_limits "eve@a.org" quiet_request world
    ≡ (ok tt, world)
unfolding login_limits is_truthy enforce_auth_rate_limit enforce_store_availability
limits_passed = refl

nobody_is_eve :
    (u : UserRow)
    → find_user_by_normalized_email "eve@a.org" sample ≡ some u
    → (is_usable_user u && str_eq u.password_hash "old") ≡ false
unfolding find_user_by_normalized_email find_row
nobody_is_eve u h = absurd (cc)

login-refused_example :
    ((login plain_crypto noop_consume closed_mode wide_limits "eve@a.org" "old" quiet_request draws
        5 world).0
      ≡ throw invalid_credentials)
    × ((login plain_crypto noop_consume closed_mode wide_limits "eve@a.org" "old" quiet_request
          draws 5 world).1.db.sessions
        ≡ sample.sessions)
    × ((login plain_crypto noop_consume closed_mode wide_limits "eve@a.org" "old" quiet_request
          draws 5 world).1.db.refresh_tokens
        ≡ sample.refresh_tokens)
login-refused_example =
    login-refused plain_crypto noop_consume closed_mode wide_limits "eve@a.org" "old" quiet_request
      draws 5 world world limits_passed nobody_is_eve
