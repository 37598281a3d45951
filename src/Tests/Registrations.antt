-- ===== src/Tests/Registrations.antt =====
-- Registration and the founding of organizations at concrete inputs.
use orgistry.Prelude.{ℕ, ◌≤◌, ◌≡◌, refl, ◌⊎◌, Bool, true, false, none, some, List, length}
use orgistry.Members.{is_active_owner_of}
use orgistry.Access.{is_active_member, find_organization_by_id, find_role, require_membership}
use orgistry.Plans.{find_organization_plan, count_active_members}
use orgistry.Provisioning.{
  codes_eq, has_slug, is_slug_taken, OrganizationDraws, founded_organization, owner_membership,
  default_plan, is_personal, is_active_personal_of, insert_organization_with_owner_membership,
  CreateTeamOrganizationParams, OrganizationMembershipView, derive_slug, choose_slug, team_params,
  found_team, create_team_organization,
}
use orgistry.Catalog.{owner, role_ids, role_permissions}
use orgistry.Invitations.{is_active_membership, has_active_membership}
use orgistry.Metadata.{codes}
use orgistry.Db.Transaction.{ok}
use orgistry.Db.{RoleRow, Database}
use orgistry.Tables.{find_row, count_rows, IsUniqueBy}
use orgistry.Tests.Samples.{sample, after}
use orgistry.Access.Seed.{role_seed, IsSeeded}
use orgistry.Provisioning.Slugs.{slugify_matches}
use orgistry.Provisioning.Search.{numbered_taken, resolve_unique_slug-result}
use orgistry.Provisioning.Team.{create_team_organization-founder}
use orgistry.Slug.{
  is_slug_char, hyphenate, strip_leading, strip_trailing, slug_of, slugify, matches_slug_pattern,
  digits, hyphenated, search_slug, resolve_unique_slug,
}

abbrev plain_fold : List ℕ → List ℕ
plain_fold folded = folded

slugify_runs : slugify plain_fold (codes "  acme & co! ") (codes "workspace") ≡ codes "acme-co"
unfolding slugify slug_of hyphenate strip_leading strip_trailing is_slug_char
slugify_runs = refl

slugify_matches_example :
    (matches_slug_pattern false (slugify plain_fold (codes "&") (codes "workspace")) ≡ true)
    × ((length (slugify plain_fold (codes "&") (codes "workspace")) ≤ 40)
        ⊎ (slugify plain_fold (codes "&") (codes "workspace") ≡ codes "workspace"))
slugify_matches_example =
    slugify_matches plain_fold (codes "&") (codes "workspace")
      (unfold matches_slug_pattern is_slug_char in refl)

abbrev all_acme : List ℕ → Bool
all_acme slug = codes_eq slug (codes "acme")

resolve_unique_slug-result_example :
    (slug : List ℕ) × (resolve_unique_slug all_acme (codes "acme") (codes "x1") ≡ some slug)
    × ((all_acme slug ≡ false)
        ⊎ ((slug ≡ hyphenated (codes "acme") (codes "x1"))
            × (all_acme (codes "acme") ≡ true)
            × (numbered_taken all_acme (codes "acme") (codes "x1") 49 2 ≡ true)))
resolve_unique_slug-result_example = resolve_unique_slug-result all_acme (codes "acme") (codes "x1")

second_acme : resolve_unique_slug all_acme (codes "acme") (codes "x1") ≡ some (codes "acme-2")
unfolding resolve_unique_slug search_slug hyphenated digits
second_acme = refl

abbrev bob_founds : CreateTeamOrganizationParams
bob_founds = record { user_id = 2; name = "acme"; requested_slug = none }

abbrev new_organization : OrganizationDraws
new_organization = record { organization_id = 2; membership_id = 3; plan_id = 2 }

abbrev owner_role : RoleRow
owner_role = record { id = role_ids owner; key = owner; name = "Owner" }

abbrev bob_view : OrganizationMembershipView
bob_view = record {
  organization =
      founded_organization (team_params plain_fold bob_founds (codes "acme-2")) new_organization 5;
  membership =
      owner_membership (team_params plain_fold bob_founds (codes "acme-2")) new_organization 5;
  role = owner_role;
}

abbrev after_founding : Database
after_founding =
    after (create_team_organization plain_fold bob_founds (codes "x1") new_organization 5 sample)

bob_founded :
    create_team_organization plain_fold bob_founds (codes "x1") new_organization 5 sample
    ≡ ok (bob_view, after_founding)
unfolding create_team_organization found_team choose_slug derive_slug resolve_unique_slug
    search_slug hyphenated digits slugify slug_of hyphenate strip_leading strip_trailing
    is_slug_char is_slug_taken has_slug find_row insert_organization_with_owner_membership
    is_active_personal_of is_personal has_active_membership is_active_membership is_active_member
    find_role role_seed role_ids
bob_founded = refl

sample-IsSeeded : IsSeeded sample
sample-IsSeeded = record { roles = refl; permissions = refl; role_permissions = refl }

create_team_organization-founder_example :
    (require_membership after_founding 2 2 none
      ≡ ok (record {
        user_id = 2;
        organization_id = 2;
        membership_id = 3;
        role = owner_role;
        permissions = role_permissions owner;
        request_id = none;
      }))
    × (count_rows (is_active_owner_of 2) after_founding.memberships ≡ 1)
    × (count_active_members 2 after_founding ≡ 1)
    × (find_organization_plan 2 after_founding
        ≡ some
            (default_plan (team_params plain_fold bob_founds (codes "acme-2")) new_organization 5))
    × IsUniqueBy (λ a b. codes_eq a.slug b.slug) after_founding.organizations
create_team_organization-founder_example =
    create_team_organization-founder plain_fold bob_founds (codes "x1") new_organization 5 sample
      after_founding bob_view none bob_founded sample-IsSeeded
      (unfold find_organization_by_id find_row in refl) (unfold count_rows in refl)
      (unfold find_organization_plan find_row in refl) (tt, tt)
