-- ===== src/Tests/Invites.antt =====
-- Invitations on the sample.
use orgistry.Prelude.{◌+◌, ◌≤◌, ◌≡◌, refl, ◌⊎◌, false, none, some, arith}
use orgistry.Tests.Samples.{
  after, sample, acme, acme_plan, cara_invitation, quiet_request, ann_acts, world, plain_crypto,
}
use orgistry.Db.Transaction.{throw, ok, run}
use orgistry.Db.{expired, OrganizationPlanRow, InvitationRow}
use orgistry.Catalog.{member, role_ids, entitlements_for_plan}
use orgistry.Access.{is_active_member, find_organization_by_id, find_role}
use orgistry.Plans.{
  record_action_event, evaluate_count_quota, require_quota, find_organization_plan,
  lock_organization_entitlements, is_active_member_of, count_active_members,
}
use orgistry.Errors.{invitation_already_accepted, duplicate_pending_invitation, AppError}
use orgistry.Invitations.{
  is_expired, derive_invitation_status, is_pending, assert_acceptable, by_token_hash, is_selected,
  find_invitation, AcceptInvitationParams, AcceptInvitationResult, is_active_membership,
  has_active_membership, invited_membership, set_accepted, accept_invitation,
}
use orgistry.Tables.{find_row, count_rows, update_rows, insert_row}
use orgistry.Invitations.Reservation.{create_invitation-seats, create_invitation-boundary}
use orgistry.Invitations.Acceptance.{
  IsAcceptance, accept_invitation-IsAcceptance, accept_invitation-single_use,
}
use orgistry.Invitations.Creation.{
  CreateInvitationParams, InvitationView, is_pending_for, is_reservation_of,
  count_pending_invitations, is_stale_for, new_invitation, has_invitation_token, insert_invitation,
  create_invitation,
}
use orgistry.Access.Seed.{role_seed}
use orgistry.Service.{enforce_rate_limit}
use orgistry.RateLimit.{closed_mode, rl_key, enforce_store_availability, noop_consume}
use orgistry.Tests.Organizations.{invitation_limits}
use orgistry.Invitations.Tokens.{acceptance_params, handle_accept_invitation}
use orgistry.Invitations.Redundancy.{handle_accept_invitation-redundant_checks}

abbrev cara_accepts : AcceptInvitationParams
cara_accepts = record {
  selector = by_token_hash "t1";
  accepting_user_id = 3;
  accepting_user_normalized_email = "cara@a.org";
  ctx = record { actor_user_id = 3; actor_membership_id = none; request = quiet_request };
}

abbrev cara_joined : AcceptInvitationResult
cara_joined = record {
  invitation = set_accepted 3 5 cara_invitation;
  membership = invited_membership cara_invitation 3 3 5;
  organization = acme;
  role = record { id = role_ids member; key = member; name = "Member" };
}

cara_accepted :
    accept_invitation cara_accepts 3 5 sample
    ≡ ok (cara_joined, after (accept_invitation cara_accepts 3 5 sample))
unfolding accept_invitation find_invitation is_selected find_row lock_organization_entitlements
    find_organization_plan entitlements_for_plan assert_acceptable is_expired has_active_membership
    is_active_membership is_active_member count_active_members is_active_member_of count_rows
    find_organization_by_id find_role role_seed role_ids insert_row update_rows record_action_event
cara_accepted = refl

accept_invitation-IsAcceptance_example :
    (i : InvitationRow) × (plan : OrganizationPlanRow) × IsAcceptance cara_accepts 3 5 sample
      (after (accept_invitation cara_accepts 3 5 sample))
      i
      plan
    × (set_accepted 3 5 cara_invitation ≡ set_accepted 3 5 i)
    × (invited_membership cara_invitation 3 3 5 ≡ invited_membership i 3 3 5)
accept_invitation-IsAcceptance_example =
    accept_invitation-IsAcceptance cara_accepts 3 5 sample
      (after (accept_invitation cara_accepts 3 5 sample)) cara_joined cara_accepted

accept_invitation-single_use_example :
    accept_invitation
      (record cara_accepts { accepting_user_id = 4 })
      4
      6
      (after (accept_invitation cara_accepts 3 5 sample))
    ≡ throw invitation_already_accepted
accept_invitation-single_use_example =
    accept_invitation-single_use cara_accepts (record cara_accepts { accepting_user_id = 4 }) 3 4 5
      6 sample (after (accept_invitation cara_accepts 3 5 sample)) cara_joined cara_accepted refl

acme_has_plan : find_organization_plan 1 sample ≡ some acme_plan
unfolding find_organization_plan find_row
acme_has_plan = refl

abbrev invite_dan : CreateInvitationParams
invite_dan = record {
  organization_id = 1;
  invited_email = "dan@a.org";
  invited_email_normalized = "dan@a.org";
  role_id = role_ids member;
  token_hash = "t2";
  expires_at = 200;
  ctx = ann_acts;
}

abbrev dan_invited : InvitationView
dan_invited = record {
  invitation = new_invitation invite_dan 2 5;
  role = record { id = role_ids member; key = member; name = "Member" };
}

dan_is_invited :
    create_invitation invite_dan 2 5 sample
    ≡ ok (dan_invited, after (create_invitation invite_dan 2 5 sample))
unfolding create_invitation insert_invitation lock_organization_entitlements find_organization_plan
    find_row entitlements_for_plan count_active_members is_active_member_of is_active_member
    count_pending_invitations is_reservation_of is_pending count_rows require_quota
    evaluate_count_quota update_rows is_stale_for is_pending_for has_invitation_token insert_row
    record_action_event find_role role_seed role_ids
dan_is_invited = refl

create_invitation-seats_example :
    (plan : OrganizationPlanRow) × (find_organization_plan 1 sample ≡ some plan)
    × (count_active_members 1 (after (create_invitation invite_dan 2 5 sample))
          + count_pending_invitations 1 5 (after (create_invitation invite_dan 2 5 sample))
        ≤ (entitlements_for_plan plan.plan_key).max_members)
    × (count_rows
          (is_pending_for 1 "dan@a.org")
          (after (create_invitation invite_dan 2 5 sample)).invitations
        ≡ 1)
create_invitation-seats_example =
    create_invitation-seats invite_dan 2 5 sample (after (create_invitation invite_dan 2 5 sample))
      dan_invited dan_is_invited

abbrev invite_cara : CreateInvitationParams
invite_cara = record invite_dan {
  invited_email = "cara@a.org";
  invited_email_normalized = "cara@a.org";
}

create_invitation-boundary_example :
    (derive_invitation_status cara_invitation 100 ≡ expired)
    × (is_reservation_of 1 100 cara_invitation ≡ false)
    × (create_invitation invite_cara 2 100 sample ≡ throw duplicate_pending_invitation)
create_invitation-boundary_example =
    create_invitation-boundary invite_cara 2 sample acme_plan cara_invitation
      (unfold is_pending_for is_pending find_row in refl) acme_has_plan
      (unfold count_active_members is_active_member_of is_active_member count_pending_invitations
          is_reservation_of is_pending count_rows entitlements_for_plan in
        omega arith)
      (unfold has_invitation_token in refl)

hit_allowed :
    (enforce_rate_limit noop_consume closed_mode
      (rl_key "rl:invitation:accept:user:" 3)
      9
      60
      world).0
    ≡ ok tt
unfolding enforce_rate_limit enforce_store_availability
hit_allowed = refl

handle_accept_invitation-redundant_checks_example :
    ((handle_accept_invitation plain_crypto.hash_opaque_token noop_consume closed_mode
        invitation_limits "t1" 3 "cara@a.org" quiet_request 3 5 world).1.db
      ≡ (run
          (accept_invitation (acceptance_params "t1" 3 "cara@a.org" quiet_request) 3 5)
          sample).1)
    × (((handle_accept_invitation plain_crypto.hash_opaque_token noop_consume closed_mode
            invitation_limits "t1" 3 "cara@a.org" quiet_request 3 5 world).0
          ≡ (run
              (accept_invitation (acceptance_params "t1" 3 "cara@a.org" quiet_request) 3 5)
              sample).0)
        ⊎ ((e e' : AppError) × ((handle_accept_invitation plain_crypto.hash_opaque_token
                noop_consume closed_mode invitation_limits "t1" 3 "cara@a.org" quiet_request 3 5
                world).0
              ≡ throw e)
            × ((run
                  (accept_invitation (acceptance_params "t1" 3 "cara@a.org" quiet_request) 3 5)
                  sample).0
                ≡ throw e')))
handle_accept_invitation-redundant_checks_example =
    handle_accept_invitation-redundant_checks plain_crypto.hash_opaque_token noop_consume
      closed_mode invitation_limits "t1" 3 "cara@a.org" quiet_request 3 5 world hit_allowed
