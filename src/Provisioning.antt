-- ===== src/Provisioning.antt =====
-- apps/api/src/modules/organization/organization.provisioning.ts: the rows of a new
-- organization; createTeamOrganization of organization.repo.ts. The new rows' ids, the slug's random
-- tail and the time are arguments.
pub mod Slugs
pub mod Search
pub mod Founding
pub mod Team
pub mod Service
use orgistry.Prelude.{
  ℕ, String, Bool, true, false, ◌&&◌, Option, none, some, List, [], ◌∷◌, ltb, ◌==◌, if◌then◌else◌,
  is_some, length, any,
}
use orgistry.Db.Transaction.{
  ◌>>=◌, ◌>>◌, ok, throw, Tx, return, read, write, reject_if, require_row,
}
use orgistry.Access.{is_active_organization, find_role}
use orgistry.Errors.{AppError, unique_violation, internal, organization_slug_taken}
use orgistry.Catalog.{owner, role_ids, default_plan_key}
use orgistry.Invitations.{has_active_membership}
use orgistry.Metadata.{codes}
use orgistry.Db.{
  OrganizationType, OrganizationStatus, MembershipStatus, RoleRow, OrganizationRow, MembershipRow,
  OrganizationPlanRow, Database,
}
use orgistry.Tables.{find_row, insert_row}
use orgistry.Slug.{slugify, resolve_unique_slug}

abbrev pub codes_eq : List ℕ → List ℕ → Bool
codes_eq [] [] = true
codes_eq (x ∷ xs) (y ∷ ys) = x == y && codes_eq xs ys
codes_eq _ _ = false

unfoldable pub has_slug : List ℕ → OrganizationRow → Bool
has_slug slug o = codes_eq o.slug slug

unfoldable pub is_slug_taken : List ℕ → Database → Bool
is_slug_taken slug db = is_some (find_row (has_slug slug) db.organizations)

pub record InsertOrganizationParams : Type 0 where
  pub organization_type : OrganizationType
  pub name : String
  pub slug : List ℕ
  pub created_by_user_id : ℕ
  pub owner_user_id : ℕ

-- The ids of the new rows.
pub record OrganizationDraws : Type 0 where
  pub organization_id : ℕ
  pub membership_id : ℕ
  pub plan_id : ℕ

abbrev pub founded_organization : InsertOrganizationParams → OrganizationDraws → ℕ → OrganizationRow
founded_organization p draws now = record {
  id = draws.organization_id;
  name = p.name;
  slug = p.slug;
  organization_type = p.organization_type;
  status = OrganizationStatus.active;
  created_by_user_id = p.created_by_user_id;
  created_at = now;
}

abbrev pub owner_membership : InsertOrganizationParams → OrganizationDraws → ℕ → MembershipRow
owner_membership p draws now = record {
  id = draws.membership_id;
  user_id = p.owner_user_id;
  organization_id = draws.organization_id;
  role_id = role_ids owner;
  status = MembershipStatus.active;
  invited_by_user_id = none;
  joined_at = now;
  removed_at = none;
  removed_by_user_id = none;
  created_at = now;
  updated_at = now;
}

abbrev pub default_plan : InsertOrganizationParams → OrganizationDraws → ℕ → OrganizationPlanRow
default_plan p draws now = record {
  id = draws.plan_id;
  organization_id = draws.organization_id;
  plan_key = default_plan_key;
  assigned_at = now;
  changed_by_user_id = some p.created_by_user_id;
  updated_at = now;
}

unfoldable pub is_personal : OrganizationType → Bool
is_personal OrganizationType.personal = true
is_personal OrganizationType.team = false

-- The index `uq_organizations_active_personal_owner`.
unfoldable pub is_active_personal_of : ℕ → OrganizationRow → Bool
is_active_personal_of user_id o =
    o.created_by_user_id == user_id
    && (is_personal o.organization_type && is_active_organization o.status)

unfoldable pub insert_organization_with_owner_membership :
    InsertOrganizationParams → OrganizationDraws → (now : ℕ) → Tx (OrganizationRow × MembershipRow)
insert_organization_with_owner_membership p draws now = do
  same_slug ← read (is_slug_taken p.slug)
  reject_if same_slug (unique_violation "uq_organizations_slug")
  second ← read (λ db. any (is_active_personal_of p.created_by_user_id) db.organizations)
  reject_if (is_personal p.organization_type && second)
      (unique_violation "uq_organizations_active_personal_owner")
  write λ db. record db {
    organizations = insert_row (founded_organization p draws now) db.organizations;
  }
  twice ← read (has_active_membership p.owner_user_id draws.organization_id)
  reject_if twice (unique_violation "uq_memberships_active_user_org")
  write λ db. record db { memberships = insert_row (owner_membership p draws now) db.memberships }
  write λ db. record db {
    organization_plans = insert_row (default_plan p draws now) db.organization_plans;
  }
  return (founded_organization p draws now, owner_membership p draws now)

pub record CreateTeamOrganizationParams : Type 0 where
  pub user_id : ℕ
  pub name : String
  pub requested_slug : Option (List ℕ)

pub record OrganizationMembershipView : Type 0 where
  pub organization : OrganizationRow
  pub membership : MembershipRow
  pub role : RoleRow

module _ (fold : List ℕ → List ℕ) where
  unfoldable pub derive_slug : String → (token : List ℕ) → Tx (List ℕ)
  derive_slug name token = do
    found ← read (λ db.
        resolve_unique_slug (λ slug. is_slug_taken slug db)
          (slugify fold (codes name) (codes "workspace")) token)
    require_row found internal

  -- An explicit slug is honoured or rejected; an empty one counts as none.
  unfoldable pub choose_slug : CreateTeamOrganizationParams → (token : List ℕ) → Tx (List ℕ)
  choose_slug p token = elim p.requested_slug [
    | none ↦ derive_slug p.name token
    | some slug ↦
        if ltb 0 (length slug)
        then (do
          taken ← read (is_slug_taken slug)
          reject_if taken organization_slug_taken
          return slug)
        else derive_slug p.name token
  ]

  abbrev pub team_params : CreateTeamOrganizationParams → List ℕ → InsertOrganizationParams
  team_params p slug = record {
    organization_type = OrganizationType.team;
    name = p.name;
    slug = slug;
    created_by_user_id = p.user_id;
    owner_user_id = p.user_id;
  }

  unfoldable pub found_team :
      CreateTeamOrganizationParams
      → (token : List ℕ) → OrganizationDraws
      → (now : ℕ) → Tx OrganizationMembershipView
  found_team p token draws now = do
    slug ← choose_slug p token
    inserted ← insert_organization_with_owner_membership (team_params p slug) draws now
    found ← read (λ db. find_role db inserted.1.role_id)
    role ← require_row found internal
    return (record { organization = inserted.0; membership = inserted.1; role = role })

  abbrev pub slug_conflict : AppError → AppError
  slug_conflict (unique_violation constraint) = organization_slug_taken
  slug_conflict e = e

  unfoldable pub create_team_organization :
      CreateTeamOrganizationParams
      → (token : List ℕ) → OrganizationDraws
      → (now : ℕ) → Tx OrganizationMembershipView
  create_team_organization p token draws now db = elim (found_team p token draws now db) [
    | ok r ↦ ok r
    | throw e ↦ throw (slug_conflict e)
  ]
