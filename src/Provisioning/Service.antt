-- ===== src/Provisioning/Service.antt =====
-- apps/api/src/modules/organization/organization.service.ts, with the query of the list from
-- organization.repo.ts.
use orgistry.Prelude.{ℕ, Bool, ◌&&◌, Option, none, some, List, [], ◌∷◌, ◌==◌, if◌then◌else◌}
use orgistry.Service.{◌>>◌, Handler, transaction, enforce_rate_limit}
use orgistry.Access.{
  is_active_organization, is_active_member, find_organization_by_id, find_role,
  find_permission_keys_for_role, OrganizationContext, resolve_organization_context,
}
use orgistry.RateLimit.{RateLimitFailureMode, rl_key, Consume}
use orgistry.Errors.{permission_denied}
use orgistry.Provisioning.{
  OrganizationDraws, CreateTeamOrganizationParams, OrganizationMembershipView,
  create_team_organization,
}
use orgistry.Catalog.{PermissionKey, has_permission}
use orgistry.Pagination.{Cursor, Page, list_page}
use orgistry.Db.Transaction.{Result, ok, throw}
use orgistry.Db.{MembershipRow, Database}

pub record OrganizationLimits : Type 0 where
  pub window_seconds : ℕ
  pub create_per_user_max : ℕ

unfoldable pub handle_create_organization :
    {S : Type 0}
    → (fold : List ℕ → List ℕ) → Consume S
    → RateLimitFailureMode
    → OrganizationLimits
    → CreateTeamOrganizationParams
    → (token : List ℕ) → OrganizationDraws
    → (now : ℕ) → Handler S OrganizationMembershipView
handle_create_organization fold consume mode limits p token draws now =
    enforce_rate_limit consume mode (rl_key "rl:org:create:user:" p.user_id)
      limits.create_per_user_max limits.window_seconds
    >> transaction (create_team_organization fold p token draws now)

-- The inner joins of a membership with its organization and its role.
unfoldable pub organization_view : Database → MembershipRow → Option OrganizationMembershipView
organization_view db m = elim (find_organization_by_id db m.organization_id) [
  | none ↦ none
  | some o ↦ elim (find_role db m.role_id) [
    | none ↦ none
    | some r ↦ some (record { organization = o; membership = m; role = r })
  ]
]

unfoldable pub join_organizations : Database → List MembershipRow → List OrganizationMembershipView
join_organizations db [] = []
join_organizations db (m ∷ ms) =
    let rest = join_organizations db ms in
    elim (organization_view db m) [ none ↦ rest | some view ↦ view ∷ rest ]

unfoldable pub is_listed_for : ℕ → OrganizationMembershipView → Bool
is_listed_for user_id v =
    v.membership.user_id == user_id
    && (is_active_member v.membership.status && is_active_organization v.organization.status)

unfoldable pub list_organizations :
    (user_id limit : ℕ) → Option Cursor → Database → Page OrganizationMembershipView
list_organizations user_id limit cursor db =
    list_page (λ v. v.membership.created_at) (λ v. v.membership.id) (is_listed_for user_id) limit
      cursor (join_organizations db db.memberships)

unfoldable pub read_organization :
    (user_id organization_id : ℕ) → Database → Result OrganizationContext
read_organization user_id organization_id db =
    elim (resolve_organization_context db user_id organization_id) [
      | throw e ↦ throw e
      | ok context ↦
          if has_permission (find_permission_keys_for_role db context.role.id)
            PermissionKey.org_read
          then ok context
          else throw permission_denied
    ]
