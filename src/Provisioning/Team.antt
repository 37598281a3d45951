-- ===== src/Provisioning/Team.antt =====
-- createTeamOrganization (organization.repo.ts), with the gate and the plan of the new organization.
use orgistry.Prelude.{
  ℕ, ◌<◌, String, ◌≡◌, refl, subst, ◌⊎◌, inl, inr, true, false, Option, none, some, List, arith,
  ltb, ◌==◌, str_eq, Bool-cases, Option-cases, length,
}
use orgistry.Catalog.{owner, role_ids, role_permissions}
use orgistry.Members.{is_active_owner_of}
use orgistry.Access.{find_organization_by_id, find_role, require_membership}
use orgistry.Plans.{find_organization_plan, count_active_members}
use orgistry.Errors.{organization_slug_taken}
use orgistry.Provisioning.{
  codes_eq, is_slug_taken, OrganizationDraws, founded_organization,
  insert_organization_with_owner_membership, CreateTeamOrganizationParams,
  OrganizationMembershipView, derive_slug, choose_slug, team_params, found_team,
  create_team_organization, default_plan, owner_membership, is_personal,
}
use orgistry.Metadata.{codes}
use orgistry.Db.Transaction.{ok, throw, Result-cases}
use orgistry.Db.{Database, RoleRow}
use orgistry.Tables.{count_rows, IsUniqueBy, find_row, any-eq_false_of_count, insert_row}
use orgistry.Access.Seed.{role_name, IsSeeded, role_seed}
use orgistry.Provisioning.Search.{resolve_unique_slug-result}
use orgistry.Provisioning.Founding.{
  IsFounded, insert_organization-IsFounded, founded-slugs, founded-plan, founded-owners,
  founded-gate,
}
use orgistry.Invitations.{is_active_membership, has_active_membership}
use orgistry.Slug.{slugify}

-- A committed creation.
record IsTeam (fold : List ℕ → List ℕ) (p : CreateTeamOrganizationParams) (token : List ℕ)
    (draws : OrganizationDraws) (now : ℕ) (db db' : Database) (view : OrganizationMembershipView)
    : Type 0 where
  slug : List ℕ
  chosen : choose_slug fold p token db ≡ ok (slug, db)
  view_organization : view.organization ≡ founded_organization (team_params fold p slug) draws now
  founding : IsFounded (team_params fold p slug) draws now db db'

module _ (fold : List ℕ → List ℕ) (p : CreateTeamOrganizationParams) (token : List ℕ) where
  choose_slug-cases :
      (db : Database)
      → ((slug : List ℕ) × (choose_slug fold p token db ≡ ok (slug, db)))
        ⊎ (choose_slug fold p token db ≡ throw organization_slug_taken)
  unfolding choose_slug derive_slug
  choose_slug-cases db =
      let (derived, found, why) =
        resolve_unique_slug-result (λ slug. is_slug_taken slug db)
          (slugify fold (codes p.name) (codes "workspace")) token in
      elim (Option-cases p.requested_slug) [
        | inl absent ↦ inl (derived, ground arith)
        | inr (s, asked) ↦ elim (Bool-cases (ltb 0 (length s))) [
          | inr blank ↦ inl (derived, ground arith)
          | inl given ↦ elim (Bool-cases (is_slug_taken s db)) [
            | inl taken ↦ inr (ground arith)
            | inr vacant ↦ inl (s, ground arith)
          ]
        ]
      ]

  module _ (draws : OrganizationDraws) (now : ℕ) where
    create_team_organization-IsTeam :
        (db db' : Database) (view : OrganizationMembershipView)
        → create_team_organization fold p token draws now db ≡ ok (view, db')
        → IsTeam fold p token draws now db db' view
    unfolding create_team_organization found_team
    create_team_organization-IsTeam db db' view done = elim (choose_slug-cases db) [
      | inr refused ↦ absurd (ground arith)
      | inl (slug, chosen) ↦
          elim (Result-cases
            (insert_organization_with_owner_membership (team_params fold p slug) draws now db)) [
              | inr (e, refused) ↦ absurd (ground arith)
              | inl ((o, m), left, inserted) ↦
                  let (mine, theirs, f) =
                    insert_organization-IsFounded (team_params fold p slug) draws now db left o m
                      inserted in
                  elim (Option-cases (find_role left m.role_id)) [
                    | inl missing ↦ absurd (ground arith)
                    | inr (r, found) ↦
                        let same : left ≡ db' = ground arith in
                        record {
                          slug = slug;
                          chosen = chosen;
                          view_organization = ground arith;
                          founding =
                              subst (IsFounded (team_params fold p slug) draws now db) same f;
                        }
                  ]
            ]
    ]

    -- A committed creation of a team gives its founder, at once, the standing of an owner with every
    -- permission of the Owner role; the organization has one active owner, who is its only active
    -- member, and the default plan; and slugs stay unique. The roles and permissions are the seeded
    -- ones, and the new organization's id is fresh.
    pub create_team_organization-founder :
        (db db' : Database) (view : OrganizationMembershipView) (request_id : Option String)
        → create_team_organization fold p token draws now db ≡ ok (view, db')
        → IsSeeded db
        → find_organization_by_id db draws.organization_id ≡ none
        → count_rows (λ m. m.organization_id == draws.organization_id) db.memberships ≡ 0
        → find_organization_plan draws.organization_id db ≡ none
        → IsUniqueBy (λ a b. codes_eq a.slug b.slug) db.organizations
        → (require_membership db' p.user_id draws.organization_id request_id
            ≡ ok (record {
              user_id = p.user_id;
              organization_id = draws.organization_id;
              membership_id = draws.membership_id;
              role = record { id = role_ids owner; key = owner; name = role_name owner };
              permissions = role_permissions owner;
              request_id = request_id;
            }))
          × (count_rows (is_active_owner_of draws.organization_id) db'.memberships ≡ 1)
          × (count_active_members draws.organization_id db' ≡ 1)
          × (find_organization_plan draws.organization_id db'
              ≡ some (default_plan (team_params fold p view.organization.slug) draws now))
          × IsUniqueBy (λ a b. codes_eq a.slug b.slug) db'.organizations
    create_team_organization-founder db db' view request_id done seeded fresh strangers planless
          unique =
        let t = create_team_organization-IsTeam db db' view done in
        let params = team_params fold p t.slug in
        let (owners, members) = founded-owners params draws now db db' t.founding strangers in
        (
          founded-gate params draws now db db' t.founding request_id seeded fresh,
          owners,
          members,
          founded-plan params draws now db db' t.founding planless,
          founded-slugs params draws now db db' t.founding unique,
        )

    -- An explicit slug is honoured or rejected, and never changed: if an organization has it, the
    -- creation answers a conflict; if none has, the creation commits with that very slug.
    pub create_team_organization-requested :
        (db : Database) (slug : List ℕ)
        → p.requested_slug ≡ some slug
        → 0 < length slug
        → IsSeeded db
        → count_rows (λ m. m.organization_id == draws.organization_id) db.memberships ≡ 0
        → ((is_slug_taken slug db ≡ true)
            × (create_team_organization fold p token draws now db ≡ throw organization_slug_taken))
          ⊎ ((is_slug_taken slug db ≡ false)
              × ((view : OrganizationMembershipView) × (db' : Database) × (create_team_organization
                      fold p token draws now db
                    ≡ ok (view, db'))
                  × (view.organization.slug ≡ slug)))
    unfolding create_team_organization found_team choose_slug
        insert_organization_with_owner_membership
    create_team_organization-requested db slug asked given seeded strangers =
        let nobody : has_active_membership p.user_id draws.organization_id db ≡ false =
          unfold has_active_membership in
          any-eq_false_of_count (is_active_membership p.user_id draws.organization_id)
            (λ m. m.organization_id == draws.organization_id) db.memberships
            (λ r k. unfold is_active_membership in ground arith) strangers in
        let role : find_row (λ (r : RoleRow). str_eq r.id (role_ids owner)) db.roles
            ≡ some (record { id = role_ids owner; key = owner; name = role_name owner }) =
          rw seeded.roles (unfold role_seed role_ids find_row in refl) in
        elim (Bool-cases (is_slug_taken slug db)) [
          | inl taken ↦ inl (taken, ground arith)
          | inr vacant ↦
              let params = team_params fold p slug in
              inr (
                vacant,
                (
                  record {
                    organization = founded_organization params draws now;
                    membership = owner_membership params draws now;
                    role = record { id = role_ids owner; key = owner; name = role_name owner };
                  },
                  record db {
                    organizations =
                        insert_row (founded_organization params draws now) db.organizations;
                    memberships = insert_row (owner_membership params draws now) db.memberships;
                    organization_plans =
                        insert_row (default_plan params draws now) db.organization_plans;
                  },
                  unfold has_active_membership is_personal find_role in ground arith,
                  refl,
                ),
              )
        ]
