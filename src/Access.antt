-- ===== src/Access.antt =====
-- apps/api/src/modules/organization/organization.context.ts and access-control.ts, with the
-- lookups of organization.repo.ts that they call: who may act in an organization, and as what.
pub mod Seed
pub mod Authorization
pub mod Gate
use orgistry.Prelude.{
  ℕ, String, Bool, true, false, ◌&&◌, Option, none, some, List, [], ◌∷◌, ◌==◌, if◌then◌else◌,
  str_eq,
}
use orgistry.Tables.{find_row, select_rows}
use orgistry.Errors.{organization_not_found, permission_denied}
use orgistry.Catalog.{PermissionKey, RoleKey, has_permission}
use orgistry.Db.{
  Database, OrganizationRow, OrganizationStatus, MembershipRow, MembershipStatus, RoleRow,
  PermissionRow, RolePermissionRow,
}
use orgistry.Db.Transaction.{Result, ok, throw}

unfoldable pub is_active_organization : OrganizationStatus → Bool
is_active_organization OrganizationStatus.active = true
is_active_organization OrganizationStatus.archived = false
is_active_organization OrganizationStatus.suspended = false

unfoldable pub is_active_member : MembershipStatus → Bool
is_active_member MembershipStatus.active = true
is_active_member MembershipStatus.removed = false

pub record MembershipWithRole : Type 0 where
  pub membership : MembershipRow
  pub role : RoleRow

unfoldable pub find_organization_by_id : Database → ℕ → Option OrganizationRow
find_organization_by_id db organization_id =
    find_row (λ o. o.id == organization_id) db.organizations

unfoldable pub find_role : Database → String → Option RoleRow
find_role db role_id = find_row (λ r. str_eq r.id role_id) db.roles

with_role : MembershipRow → Option RoleRow → Option MembershipWithRole
with_role m none = none
with_role m (some r) = some (record { membership = m; role = r })

-- The first row of the join of the user's active memberships there with the roles.
join_roles : Database → List MembershipRow → Option MembershipWithRole
unfolding with_role
join_roles db [] = none
join_roles db (m ∷ ms) = elim (find_role db m.role_id) [
  | none ↦ join_roles db ms
  | some r ↦ some (record { membership = m; role = r })
]

unfoldable pub is_active_membership_of : ℕ → ℕ → MembershipRow → Bool
is_active_membership_of user_id organization_id m =
    m.user_id == user_id && m.organization_id == organization_id && is_active_member m.status

unfoldable pub find_active_membership : Database → ℕ → ℕ → Option MembershipWithRole
unfolding join_roles
find_active_membership db user_id organization_id =
    join_roles db (select_rows (is_active_membership_of user_id organization_id) db.memberships)

-- The keys of the permissions with this id, before `rest`.
permission_keys_with_id : String → List PermissionRow → List PermissionKey → List PermissionKey
permission_keys_with_id id [] rest = rest
permission_keys_with_id id (p ∷ ps) rest =
    if str_eq id p.id
    then p.key ∷ permission_keys_with_id id ps rest
    else permission_keys_with_id id ps rest

join_permissions : List PermissionRow → List RolePermissionRow → List PermissionKey
join_permissions permissions [] = []
join_permissions permissions (g ∷ gs) =
    permission_keys_with_id g.permission_id permissions (join_permissions permissions gs)

unfoldable pub find_permission_keys_for_role : Database → String → List PermissionKey
unfolding join_permissions permission_keys_with_id
find_permission_keys_for_role db role_id =
    join_permissions db.permissions
      (select_rows (λ g. str_eq g.role_id role_id) db.role_permissions)

pub record OrganizationContext : Type 0 where
  pub organization : OrganizationRow
  pub membership : MembershipRow
  pub role : RoleRow

context_of : OrganizationRow → Option MembershipWithRole → Result OrganizationContext
context_of o none = throw organization_not_found
context_of o (some m) = ok (record { organization = o; membership = m.membership; role = m.role })

unfoldable pub resolve_organization_context : Database → ℕ → ℕ → Result OrganizationContext
unfolding context_of
resolve_organization_context db user_id organization_id =
    elim (find_organization_by_id db organization_id) [
      | none ↦ throw organization_not_found
      | some o ↦
          if is_active_organization o.status
          then context_of o (find_active_membership db user_id organization_id)
          else throw organization_not_found
    ]

pub record OrganizationActor : Type 0 where
  pub user_id : ℕ
  pub organization_id : ℕ
  pub membership_id : ℕ
  pub role : RoleRow
  pub permissions : List PermissionKey
  pub request_id : Option String

unfoldable pub require_membership : Database → ℕ → ℕ → Option String → Result OrganizationActor
require_membership db user_id organization_id request_id =
    elim (resolve_organization_context db user_id organization_id) [
      | throw e ↦ throw e
      | ok c ↦ ok (record {
        user_id = user_id;
        organization_id = c.organization.id;
        membership_id = c.membership.id;
        role = c.role;
        permissions = find_permission_keys_for_role db c.role.id;
        request_id = request_id;
      })
    ]

unfoldable pub actor_has_permission : OrganizationActor → PermissionKey → Bool
actor_has_permission actor permission = has_permission actor.permissions permission

unfoldable pub require_permission : OrganizationActor → PermissionKey → Result (Unit {0})
require_permission actor permission =
    if actor_has_permission actor permission then ok tt else throw permission_denied
