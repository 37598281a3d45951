-- ===== src/Provisioning/Founding.antt =====
-- What a new organization starts with (organization.provisioning.ts, organization.repo.ts).
use orgistry.Prelude.{
  is_none_of_is_some, ℕ, String, ◌≡◌, refl, ◌∙◌, inl, inr, true, false, ◌&&◌, Option, none, some,
  [], ◌∷◌, arith, ◌==◌, ==_refl, Bool-cases, any,
}
use orgistry.Catalog.{owner, role_ids, role_permissions}
use orgistry.Provisioning.{
  is_slug_taken, InsertOrganizationParams, OrganizationDraws, founded_organization,
  owner_membership, default_plan, is_personal, is_active_personal_of,
  insert_organization_with_owner_membership, codes_eq, has_slug,
}
use orgistry.Invitations.{has_active_membership, is_active_membership}
use orgistry.Db.Transaction.{ok}
use orgistry.Db.{OrganizationRow, MembershipRow, Database}
use orgistry.Tables.{
  insert_row, count_rows, IsUniqueBy, insert-IsUniqueBy, find-insert_first, count-eq_zero_of_imp,
  find_row, select_rows, count-insert, select-insert_first,
}
use orgistry.Members.{is_active_owner_of, is_owner_role}
use orgistry.Access.{
  find_organization_by_id, require_membership, is_active_organization, is_active_member, find_role,
  is_active_membership_of, find_active_membership, resolve_organization_context,
}
use orgistry.Plans.{find_organization_plan, is_active_member_of, count_active_members}
use orgistry.Access.Seed.{role_name, IsSeeded, role_seed, find_permission_keys-seeded}

-- A committed insertion.
pub record IsFounded (p : InsertOrganizationParams) (draws : OrganizationDraws) (now : ℕ)
    (db db' : Database) : Type 0 where
  pub fresh_slug : is_slug_taken p.slug db ≡ false
  pub only_personal :
      (is_personal p.organization_type
        && any (is_active_personal_of p.created_by_user_id) db.organizations)
      ≡ false
  pub stranger : has_active_membership p.owner_user_id draws.organization_id db ≡ false
  pub left : db' ≡ record db {
    organizations = insert_row (founded_organization p draws now) db.organizations;
    memberships = insert_row (owner_membership p draws now) db.memberships;
    organization_plans = insert_row (default_plan p draws now) db.organization_plans;
  }

pub insert_organization-IsFounded :
    (p : InsertOrganizationParams) (draws : OrganizationDraws) (now : ℕ) (db db' : Database)
    (o : OrganizationRow) (m : MembershipRow)
    → insert_organization_with_owner_membership p draws now db ≡ ok ((o, m), db')
    → (o ≡ founded_organization p draws now)
      × (m ≡ owner_membership p draws now)
      × IsFounded p draws now db db'
unfolding insert_organization_with_owner_membership has_active_membership
insert_organization-IsFounded p draws now db db' o m done =
    elim (Bool-cases (is_slug_taken p.slug db)) [
      | inl taken ↦ absurd (ground arith)
      | inr vacant ↦
          elim (Bool-cases (
            is_personal p.organization_type
            && any (is_active_personal_of p.created_by_user_id) db.organizations)) [
              | inl second ↦ absurd (ground arith)
              | inr first ↦
                  elim (Bool-cases
                    (has_active_membership p.owner_user_id draws.organization_id db)) [
                      | inl twice ↦ absurd (ground arith)
                      | inr stranger ↦ (
                        ground arith,
                        ground arith,
                        record {
                          fresh_slug = vacant;
                          only_personal = first;
                          stranger = stranger;
                          left = ground arith;
                        },
                      )
                    ]
            ]
    ]

-- The organization's row, its founder's membership and its plan, read back.
module _ (p : InsertOrganizationParams) (draws : OrganizationDraws) (now : ℕ) (db db' : Database)
    (f : IsFounded p draws now db db') where
  pub founded-slugs :
      IsUniqueBy (λ a b. codes_eq a.slug b.slug) db.organizations
      → IsUniqueBy (λ a b. codes_eq a.slug b.slug) db'.organizations
  founded-slugs u = rw f.left (
      insert-IsUniqueBy (λ a b. codes_eq a.slug b.slug) db.organizations
        (founded_organization p draws now)
        (is_none_of_is_some _ (unfold is_slug_taken has_slug in f.fresh_slug)) u)

  pub founded-plan :
      find_organization_plan draws.organization_id db ≡ none
      → find_organization_plan draws.organization_id db' ≡ some (default_plan p draws now)
  unfolding find_organization_plan
  founded-plan h = rw f.left (
      find-insert_first (λ r. r.organization_id == draws.organization_id) (default_plan p draws now)
        db.organization_plans h (==_refl draws.organization_id))

  pub founded-owners :
      count_rows (λ m. m.organization_id == draws.organization_id) db.memberships ≡ 0
      → (count_rows (is_active_owner_of draws.organization_id) db'.memberships ≡ 1)
        × (count_active_members draws.organization_id db' ≡ 1)
  founded-owners h =
      let owners =
        count-eq_zero_of_imp (λ m. m.organization_id == draws.organization_id)
          (is_active_owner_of draws.organization_id) db.memberships
          (λ r k. unfold is_active_owner_of in ground arith) h in
      let members =
        count-eq_zero_of_imp (λ m. m.organization_id == draws.organization_id)
          (is_active_member_of draws.organization_id) db.memberships
          (λ r k. unfold is_active_member_of in ground arith) h in
      let owner_here : is_active_owner_of draws.organization_id (owner_membership p draws now)
          ≡ true =
        unfold is_active_owner_of is_owner_role is_active_member role_ids in
        ground (arith, ==_refl draws.organization_id) in
      let member_here : is_active_member_of draws.organization_id (owner_membership p draws now)
          ≡ true =
        unfold is_active_member_of is_active_member in
        ground (arith, ==_refl draws.organization_id) in
      (
        rw f.left (
            count-insert (is_active_owner_of draws.organization_id) (owner_membership p draws now)
              db.memberships
            ∙ rw (owners, owner_here) refl),
        unfold count_active_members in
            rw f.left (
              count-insert (is_active_member_of draws.organization_id)
                (owner_membership p draws now) db.memberships
              ∙ rw (members, member_here) refl),
      )

  pub founded-gate :
      (request_id : Option String)
      → IsSeeded db
      → find_organization_by_id db draws.organization_id ≡ none
      → require_membership db' p.owner_user_id draws.organization_id request_id
        ≡ ok (record {
          user_id = p.owner_user_id;
          organization_id = draws.organization_id;
          membership_id = draws.membership_id;
          role = record { id = role_ids owner; key = owner; name = role_name owner };
          permissions = role_permissions owner;
          request_id = request_id;
        })
  unfolding require_membership resolve_organization_context is_active_organization
      find_active_membership
  founded-gate request_id s h =
      let seeded : IsSeeded db' = record {
        roles = rw f.left s.roles;
        permissions = rw f.left s.permissions;
        role_permissions = rw f.left s.role_permissions;
      } in
      let organization : find_organization_by_id db' draws.organization_id
          ≡ some (founded_organization p draws now) =
        rw f.left (
          unfold find_organization_by_id in
          find-insert_first (λ o. o.id == draws.organization_id) (founded_organization p draws now)
            db.organizations h (==_refl draws.organization_id)) in
      let mine : select_rows (is_active_membership_of p.owner_user_id draws.organization_id)
            db'.memberships
          ≡ owner_membership p draws now ∷ [] =
        rw f.left (
          select-insert_first (is_active_membership_of p.owner_user_id draws.organization_id)
            (owner_membership p draws now) db.memberships
            (unfold has_active_membership is_active_membership is_active_membership_of in
              f.stranger)
            (unfold is_active_membership_of is_active_member in
              ground (arith, ==_refl draws.organization_id, ==_refl p.owner_user_id))) in
      let role : find_role db' (role_ids owner)
          ≡ some (record { id = role_ids owner; key = owner; name = role_name owner }) =
        unfold find_role in rw seeded.roles (unfold role_seed role_ids find_row in refl) in
      ground (arith, organization, mine, role, find_permission_keys-seeded db' owner seeded)
