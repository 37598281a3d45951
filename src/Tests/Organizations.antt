-- ===== src/Tests/Organizations.antt =====
-- Members, the gate, plans and projects on the sample.
use orgistry.Prelude.{
  ℕ, ◌≤◌, ◌<◌, String, ◌≡◌, refl, ◌⊎◌, Bool, true, not, ◌&&◌, none, some, List, [], ◌∷◌, arith,
}
use orgistry.Db.Transaction.{throw, ok, run}
use orgistry.Catalog.{
  pro, member, admin, role_ids, owner, entitlements_for_plan, PermissionKey, RoleKey,
}
use orgistry.Tests.Samples.{
  world, sample, quiet_request, ann_membership, bob_membership, acme_plan, ann_acts,
}
use orgistry.Members.{
  ChangeMemberRoleParams, RemoveMemberParams, is_owner_role, is_active_owner_of,
  role_change_touches_owner, change_member_role, is_removed, remove_member,
}
use orgistry.Members.LastOwner.{
  active_owners, HasMembershipKey, removes, history, history_keeps_owner, changes,
}
use orgistry.Access.{is_active_member, OrganizationActor, require_membership, actor_has_permission}
use orgistry.Tables.{find_row, count_rows, select_rows, HasUniqueIds}
use orgistry.Members.Authority.{
  role_change_policy, refusal, change_member_role-policy, remove_member-policy,
}
use orgistry.Members.Outcome.{locked}
use orgistry.Errors.{organization_not_found}
use orgistry.Db.{ProjectRow, OrganizationRow}
use orgistry.Access.Gate.{IsStanding, require_membership-IsStanding}
use orgistry.Projects.{is_active_project_of, count_active_projects}
use orgistry.Plans.{ActionContext, find_organization_plan}
use orgistry.Projects.Capacity.{project_history, project_history-bound}
use orgistry.Projects.Scope.{
  ProjectCall, creates, deletes, call_project, belongs_to, call_project_isolated,
}
use orgistry.RateLimit.{closed_mode, noop_consume}
use orgistry.Members.Handlers.{
  MemberLimits, role_change_params, removal_params, handle_change_member_role, handle_remove_member,
  member_handlers_authorized,
}
use orgistry.Invitations.Handlers.{
  InvitationLimits, CreateInvitationInput, handle_create_invitation, Persisted,
  handle_create_invitation-fail_closed,
}

abbrev demote_ann : ChangeMemberRoleParams
demote_ann = record {
  organization_id = 1;
  membership_id = 1;
  new_role_id = role_ids member;
  actor_user_id = 1;
  actor_membership_id = 1;
  ctx = quiet_request;
}

abbrev remove_bob : RemoveMemberParams
remove_bob = record {
  organization_id = 1;
  membership_id = 2;
  actor_user_id = 1;
  actor_membership_id = 1;
  ctx = quiet_request;
}

sample-HasMembershipKey : HasMembershipKey sample
sample-HasMembershipKey = (((λ e. absurd (omega arith)), tt), (tt, tt))

history_keeps_owner_example :
    0 < active_owners 1 (history sample (changes demote_ann 5 ∷ removes remove_bob 6 ∷ []))
history_keeps_owner_example =
    history_keeps_owner 1 sample (changes demote_ann 5 ∷ removes remove_bob 6 ∷ [])
      sample-HasMembershipKey sample_has_owner
  where
    sample_has_owner : 0 < active_owners 1 sample
    sample_has_owner =
        unfold is_active_owner_of is_owner_role is_active_member role_ids count_rows in omega arith

change_member_role-policy_example :
    refusal (change_member_role demote_ann 5 sample)
    ≡ role_change_policy
        (role_change_touches_owner (role_ids owner) (role_ids member))
        (locked 1 1 sample)
        (is_owner_role (role_ids owner) && not (is_owner_role (role_ids member)))
        (count_rows (is_active_owner_of 1) sample.memberships)
change_member_role-policy_example =
    change_member_role-policy demote_ann 5 sample ann_membership (unfold find_row in refl) refl
      (unfold is_active_member in refl)

remove_member-policy_example :
    refusal (remove_member remove_bob 6 sample)
    ≡ role_change_policy
        (is_owner_role (role_ids member))
        (locked 1 1 sample)
        (is_owner_role (role_ids member))
        (count_rows (is_active_owner_of 1) sample.memberships)
remove_member-policy_example =
    remove_member-policy remove_bob 6 sample bob_membership (unfold find_row in refl) refl
      (unfold is_removed in refl)

require_membership-IsStanding_example :
    (require_membership sample 1 1 none ≡ throw organization_not_found)
    ⊎ ((actor : OrganizationActor) × (require_membership sample 1 1 none ≡ ok actor)
        × IsStanding sample 1 1 actor)
require_membership-IsStanding_example = require_membership-IsStanding sample 1 1 none

sample-HasProjectKey : HasUniqueIds (λ (r : ProjectRow). r.id) sample.projects
sample-HasProjectKey = (((λ e. absurd (omega arith)), tt), (tt, tt))

call_project_isolated_example :
    select_rows (belongs_to 2) (call_project 1 ann_acts (deletes 1 7) sample).projects
    ≡ select_rows (belongs_to 2) sample.projects
call_project_isolated_example =
    call_project_isolated 1 2 ann_acts (deletes 1 7) sample sample-HasProjectKey
      (λ e. absurd (omega arith))

sample_plan : find_organization_plan 1 sample ≡ some acme_plan
unfolding find_organization_plan find_row
sample_plan = refl

abbrev two_calls : List (ActionContext × ProjectCall)
two_calls = (ann_acts, creates "Shop" 1 3 7) ∷ (ann_acts, deletes 1 8) ∷ []

project_history-bound_example :
    count_active_projects 1 (project_history 1 sample two_calls)
    ≤ (entitlements_for_plan pro).max_projects
project_history-bound_example = project_history-bound 1 sample two_calls acme_plan sample_plan (
    unfold count_active_projects is_active_project_of count_rows entitlements_for_plan in
    omega arith)

abbrev member_limits : MemberLimits
member_limits = record { mutation_per_user_max = 9; window_seconds = 60 }

member_handlers_authorized_example :
    (((handle_change_member_role noop_consume closed_mode member_limits 1 1 2 admin quiet_request 5
          world).1.db
        ≡ sample)
      ⊎ ((actor : OrganizationActor) × IsStanding sample 1 1 actor
          × (actor_has_permission actor PermissionKey.members_change_role ≡ true)
          × ((handle_change_member_role noop_consume closed_mode member_limits 1 1 2 admin
                quiet_request 5 world).1.db
              ≡ (run
                  (change_member_role (role_change_params actor 2 admin quiet_request) 5)
                  sample).1)))
    × (((handle_remove_member noop_consume closed_mode member_limits 1 1 2 quiet_request 5
            world).1.db
          ≡ sample)
        ⊎ ((actor : OrganizationActor) × IsStanding sample 1 1 actor
            × (actor_has_permission actor PermissionKey.members_remove ≡ true)
            × ((handle_remove_member noop_consume closed_mode member_limits 1 1 2 quiet_request 5
                  world).1.db
                ≡ (run (remove_member (removal_params actor 2 quiet_request) 5) sample).1)))
member_handlers_authorized_example =
    member_handlers_authorized noop_consume closed_mode member_limits 1 1 2 admin quiet_request 5
      world

abbrev pub invitation_limits : InvitationLimits
invitation_limits = record {
  create_per_user_max = 9;
  create_per_org_max = 9;
  inspect_per_ip_max = 9;
  inspect_per_token_max = 9;
  accept_per_user_max = 9;
  window_seconds = 60;
  ttl_seconds = 600;
}

abbrev invite_dan_input : CreateInvitationInput
invite_dan_input = record {
  user_id = 1;
  organization_id = 1;
  email = "dan@a.org";
  email_normalized = "dan@a.org";
  role = member;
  raw_token = "raw";
  token_hash = "t2";
  request = quiet_request;
}

abbrev delivers : String → OrganizationRow → RoleKey → String → ℕ → Bool
delivers to organization role raw_token expires_at = true

handle_create_invitation-fail_closed_example :
    ((handle_create_invitation delivers noop_consume closed_mode invitation_limits invite_dan_input
        2 5 world).1.db
      ≡ sample)
    ⊎ ((actor : OrganizationActor) × IsStanding sample 1 1 actor
        × (actor_has_permission actor PermissionKey.invitations_create ≡ true)
        × Persisted delivers noop_consume closed_mode invitation_limits actor invite_dan_input 2 5
            sample
            (handle_create_invitation delivers noop_consume closed_mode invitation_limits
              invite_dan_input 2 5 world).1.db)
handle_create_invitation-fail_closed_example =
    handle_create_invitation-fail_closed delivers noop_consume closed_mode invitation_limits
      invite_dan_input 2 5 world
