-- ===== src/Catalog/Gradient.antt =====
-- The privilege gradient of the roles (packages/contracts/src/access.ts).
use orgistry.Prelude.{ℕ, ◌≤◌, ◌≡◌, Bool, true, arith}
use orgistry.Catalog.{
  RoleKey, owner, admin, member, viewer, PermissionKey, permission_rank, role_permissions,
  has_permission, org_read,
}

abbrev pub role_rank : RoleKey → ℕ
role_rank owner = 3
role_rank admin = 2
role_rank member = 1
role_rank viewer = 0

grants : RoleKey → PermissionKey → Bool
unfolding has_permission role_permissions permission_rank
grants role p = has_permission (role_permissions role) p

-- A role that stands higher in the order has every permission of one that stands lower.
pub role_permissions_mono :
    (low high : RoleKey) (p : PermissionKey)
    → role_rank low ≤ role_rank high
    → has_permission (role_permissions low) p ≡ true
    → has_permission (role_permissions high) p ≡ true
unfolding grants
role_permissions_mono owner owner org_read h e = e
role_permissions_mono low high p h e = ground arith
