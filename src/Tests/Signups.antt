-- ===== src/Tests/Signups.antt =====
-- Registration at concrete inputs.
use orgistry.Prelude.{ℕ, ◌<◌, ◌≡◌, refl, ◌⊎◌, true, false, none, some, List, [], ◌∷◌, arith, str_eq}
use orgistry.Service.{World}
use orgistry.Sessions.{
  find_session_by_id, session_row, refresh_token_row, insert_session, insert_refresh_token,
}
use orgistry.Access.{is_active_member, find_organization_by_id, find_role}
use orgistry.Plans.{
  record_action_event, find_organization_plan, lock_organization_entitlements, is_active_member_of,
  count_active_members,
}
use orgistry.RateLimit.{closed_mode, noop_consume}
use orgistry.Provisioning.{
  has_slug, is_slug_taken, InsertOrganizationParams, founded_organization, owner_membership,
  is_personal, is_active_personal_of, insert_organization_with_owner_membership,
}
use orgistry.Catalog.{role_ids, entitlements_for_plan}
use orgistry.Invitations.{
  is_expired, assert_acceptable, is_selected, find_invitation, is_active_membership,
  has_active_membership, accept_invitation,
}
use orgistry.Registration.{
  CompletionDraws, completed, registration_already_used, registered_user, insert_user,
  personal_params, completion_session, completion_token, personal_slug, create_account,
  complete_with, complete_registration, CompleteRegistrationResult, account_rows,
}
use orgistry.Metadata.{codes}
use orgistry.Db.Transaction.{ok}
use orgistry.Db.{UserRow, SessionRow, PendingRegistrationRow, Database}
use orgistry.Tables.{find_row, count_rows, update_rows, insert_row, IsUniqueBy}
use orgistry.Tests.Samples.{sample, quiet_request, after, world, plain_crypto}
use orgistry.Access.Seed.{role_seed}
use orgistry.Registration.Service.{RegistrationLimits, RegisterRequest, request_registration}
use orgistry.Registration.Silence.{request_registration_indistinguishable}
use orgistry.Registration.Account.{complete_registration-account, complete_registration-signed_in}
use orgistry.Registration.Pending.{
  IssuePendingParams, is_open_for, staged_registration, has_pending_hash, find_pending_registration,
  is_pending_spent, is_open_rival, consume_pending,
}
use orgistry.Registration.Settlement.{
  CompleteRegistrationParams, invitation_accepted_outcome, accept_in_savepoint, settle_known,
  settle_invitation, CompletionInvitationOutcome, invitation_unavailable,
}
use orgistry.Sessions.Service.{
  AuthCrypto, is_usable_user, find_user_by_id, find_user_by_normalized_email,
  require_authenticated_session,
}
use orgistry.Slug.{
  is_slug_char, hyphenate, strip_leading, strip_trailing, slug_of, slugify, digits, hyphenated,
  search_slug, resolve_unique_slug,
}
use orgistry.Registration.Invited.{
  IsUninvited, IsDeclined, IsHonoured, IsBroken, complete_registration-settlement,
}

abbrev keep_case : List ℕ → List ℕ
keep_case folded = folded

abbrev cara_stages : IssuePendingParams
cara_stages = record {
  email = "cara@a.org";
  normalized_email = "cara@a.org";
  password_hash = "h";
  display_name = "cara";
  token_hash = "g1";
  invitation_id = some 1;
  expires_at = 100;
  now = 2;
}

abbrev staged : Database
staged = record sample { pending_registrations = staged_registration cara_stages 1 ∷ [] }

abbrev cara_completes : CompleteRegistrationParams
cara_completes = record {
  token_hash = "g1";
  ip_address = none;
  user_agent = none;
  session_expires_at = 50;
  refresh_token_hash = "r7";
  family_id = 7;
  refresh_expires_at = 60;
  invitation = some (record { invitation_id = 1; event_context = quiet_request });
  now = 5;
}

abbrev cara_draws : CompletionDraws
cara_draws = record {
  user_id = 3;
  organization = record { organization_id = 2; membership_id = 3; plan_id = 2 };
  session_id = 3;
  refresh_token_id = 3;
  membership_id = 4;
  slug_token = codes "x1";
  fallback_token = codes "y1";
}

abbrev cara_user : UserRow
cara_user = registered_user (staged_registration cara_stages 1) 3 5

abbrev cara_workspace : InsertOrganizationParams
cara_workspace = personal_params (staged_registration cara_stages 1) 3 (codes "cara-x1")

abbrev cara_session : SessionRow
cara_session = session_row 3 5 (completion_session cara_completes 3)

abbrev after_completion : Database
after_completion = after (complete_registration keep_case cara_completes cara_draws staged)

cara_completed :
    complete_registration keep_case cara_completes cara_draws staged
    ≡ ok (
      completed cara_user
          (founded_organization cara_workspace cara_draws.organization 5)
          (owner_membership cara_workspace cara_draws.organization 5)
          cara_session
          (refresh_token_row 3 (completion_token cara_completes 3))
          invitation_accepted_outcome,
      after_completion,
    )
unfolding complete_registration complete_with find_pending_registration has_pending_hash
    is_pending_spent find_user_by_normalized_email find_row create_account account_rows insert_user
    personal_slug resolve_unique_slug search_slug hyphenated digits slugify slug_of hyphenate
    strip_leading strip_trailing is_slug_char is_slug_taken has_slug
    insert_organization_with_owner_membership is_active_personal_of is_personal
    has_active_membership is_active_membership is_active_member insert_session insert_refresh_token
    settle_invitation settle_known accept_in_savepoint accept_invitation find_invitation is_selected
    lock_organization_entitlements find_organization_plan entitlements_for_plan assert_acceptable
    is_expired count_active_members count_rows is_active_member_of find_organization_by_id find_role
    role_seed role_ids insert_row update_rows record_action_event consume_pending is_open_rival
    is_open_for
cara_completed = refl

sample_addresses : IsUniqueBy (λ a b. str_eq a.normalized_email b.normalized_email) staged.users
sample_addresses = ((refl, tt), (tt, tt))

complete_registration-account_example :
    (pending : PendingRegistrationRow) × (find_pending_registration "g1" staged ≡ some pending)
    × (is_pending_spent pending ≡ false)
    × (5 < pending.expires_at)
    × (find_user_by_normalized_email pending.normalized_email staged ≡ none)
    × (cara_user ≡ registered_user pending 3 5)
    × (find_user_by_normalized_email pending.normalized_email after_completion ≡ some cara_user)
    × (is_usable_user cara_user ≡ true)
    × IsUniqueBy (λ a b. str_eq a.normalized_email b.normalized_email) after_completion.users
    × (count_rows (is_open_for pending.normalized_email) after_completion.pending_registrations ≡ 0)
    × (complete_registration keep_case
          (record cara_completes { now = 9 })
          cara_draws
          after_completion
        ≡ ok (registration_already_used, after_completion))
complete_registration-account_example =
    complete_registration-account keep_case cara_completes cara_draws staged after_completion
      cara_user (founded_organization cara_workspace cara_draws.organization 5)
      (owner_membership cara_workspace cara_draws.organization 5) cara_session
      (refresh_token_row 3 (completion_token cara_completes 3)) invitation_accepted_outcome
      cara_completed (record cara_completes { now = 9 }) cara_draws refl sample_addresses

-- Tokens that name the user and the session of a sign-up.
abbrev cara_crypto : AuthCrypto
cara_crypto = record plain_crypto {
  verify_access_token = λ token. some (record { sub = 3; session_id = 3 });
}

complete_registration-signed_in_example :
    (require_authenticated_session cara_crypto "a2" quiet_request 9
      (record { db = after_completion; store = tt })).0
    ≡ ok (cara_user, cara_session)
complete_registration-signed_in_example =
    complete_registration-signed_in keep_case cara_completes cara_draws staged after_completion
      cara_user (founded_organization cara_workspace cara_draws.organization 5)
      (owner_membership cara_workspace cara_draws.organization 5) cara_session
      (refresh_token_row 3 (completion_token cara_completes 3)) invitation_accepted_outcome
      cara_completed cara_crypto quiet_request 9 tt refl (unfold find_user_by_id find_row in refl)
      (unfold find_session_by_id find_row in refl) (omega arith)

abbrev after_plain_completion : Database
after_plain_completion = after (
    complete_registration keep_case (record cara_completes { invitation = none }) cara_draws staged)

abbrev cara_answer : CompletionInvitationOutcome → CompleteRegistrationResult
cara_answer =
    completed cara_user (founded_organization cara_workspace cara_draws.organization 5)
      (owner_membership cara_workspace cara_draws.organization 5) cara_session
      (refresh_token_row 3 (completion_token cara_completes 3))

cara_completed_plain :
    complete_registration keep_case (record cara_completes { invitation = none }) cara_draws staged
    ≡ ok (cara_answer invitation_unavailable, after_plain_completion)
unfolding complete_registration complete_with find_pending_registration has_pending_hash
    is_pending_spent find_user_by_normalized_email find_row create_account account_rows insert_user
    personal_slug resolve_unique_slug search_slug hyphenated digits slugify slug_of hyphenate
    strip_leading strip_trailing is_slug_char is_slug_taken has_slug
    insert_organization_with_owner_membership is_active_personal_of is_personal
    has_active_membership is_active_membership is_active_member insert_session insert_refresh_token
    settle_invitation settle_known insert_row update_rows consume_pending is_open_rival is_open_for
cara_completed_plain = refl

complete_registration-settlement_example :
    (pending : PendingRegistrationRow) × (slug : List ℕ) × (find_pending_registration "g1" staged
      ≡ some pending)
    × (after_plain_completion.memberships
        ≡ insert_row
            (owner_membership (personal_params pending 3 slug) cara_draws.organization 5)
            staged.memberships)
    × (after_plain_completion.invitations ≡ staged.invitations)
    × (after_plain_completion.security_events ≡ staged.security_events)
    × (IsUninvited keep_case cara_completes cara_draws pending staged after_plain_completion
          cara_answer
        ⊎ (IsDeclined keep_case cara_completes cara_draws pending staged after_plain_completion
              cara_answer
            ⊎ (IsHonoured keep_case cara_completes cara_draws pending staged after_plain_completion
                  cara_answer
                ⊎ IsBroken keep_case cara_completes cara_draws pending staged after_plain_completion
                    cara_answer)))
complete_registration-settlement_example =
    complete_registration-settlement keep_case cara_completes cara_draws staged
      after_plain_completion cara_user
      (founded_organization cara_workspace cara_draws.organization 5)
      (owner_membership cara_workspace cara_draws.organization 5) cara_session
      (refresh_token_row 3 (completion_token cara_completes 3)) invitation_unavailable
      cara_completed_plain

abbrev registration_limits : RegistrationLimits
registration_limits = record {
  window_seconds = 60;
  request_per_ip_max = 9;
  request_per_email_max = 9;
  complete_per_ip_max = 9;
  complete_per_token_max = 9;
  existing_account_notice_per_email_max = 9;
  completion_ttl_seconds = 60;
  session_ttl_seconds = 60;
  refresh_token_ttl_seconds = 60;
}

abbrev ann_registers : RegisterRequest
ann_registers = record {
  email = "ann@a.org";
  normalized_email = "ann@a.org";
  password_hash = "h";
  display_name = "Ann";
  invitation_token = some "t1";
}

abbrev empty_world : World (Unit {0})
empty_world = record { db = record sample { users = []; invitations = [] }; store = tt }

request_registration_indistinguishable_example :
    (request_registration plain_crypto noop_consume closed_mode registration_limits
      (λ mail. true)
      (record { lookup = false; invitation = false; persist = false; event = false })
      ann_registers
      quiet_request
      (record { id = 7; raw_token = "g7" })
      5
      world).0
    ≡ (request_registration plain_crypto noop_consume closed_mode registration_limits
        (λ mail. false)
        (record { lookup = false; invitation = false; persist = true; event = true })
        (record ann_registers { invitation_token = none })
        quiet_request
        (record { id = 8; raw_token = "g8" })
        6
        empty_world).0
request_registration_indistinguishable_example =
    request_registration_indistinguishable plain_crypto noop_consume closed_mode registration_limits
      (λ mail. true) (λ mail. false)
      (record { lookup = false; invitation = false; persist = false; event = false })
      (record { lookup = false; invitation = false; persist = true; event = true }) ann_registers
      (record ann_registers { invitation_token = none }) quiet_request
      (record { id = 7; raw_token = "g7" }) (record { id = 8; raw_token = "g8" }) 5 6 world
      empty_world refl refl
