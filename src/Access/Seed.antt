-- ===== src/Access/Seed.antt =====
-- packages/db/src/schema/permissions.ts and organizations.ts: the seeded rows.
use orgistry.Prelude.{String, ◌≡◌, refl, List, ◌++◌, map}
use orgistry.Tables.{select_rows}
use orgistry.Catalog.{
  RoleKey, owner, admin, member, viewer, permission_key_list, role_permissions, role_ids,
  permission_row_id, role_key_order,
}
use orgistry.Db.{Database, RoleRow, PermissionRow, RolePermissionRow}
use orgistry.Access.{find_permission_keys_for_role}

abbrev pub role_name : RoleKey → String
role_name owner = "Owner"
role_name admin = "Admin"
role_name member = "Member"
role_name viewer = "Viewer"

unfoldable pub role_seed : List RoleRow
role_seed = map (λ k. record { id = role_ids k; key = k; name = role_name k }) role_key_order

unfoldable pub permission_seed : List PermissionRow
permission_seed = map (λ k. record { id = permission_row_id k; key = k }) permission_key_list

grants_of : RoleKey → List RolePermissionRow
grants_of role =
    map (λ k. record { role_id = role_ids role; permission_id = permission_row_id k })
      (role_permissions role)

unfoldable pub role_permission_seed : List RolePermissionRow
unfolding grants_of
role_permission_seed =
    grants_of owner ++ (grants_of admin ++ (grants_of member ++ grants_of viewer))

pub record IsSeeded (db : Database) : Type 0 where
  pub roles : db.roles ≡ role_seed
  pub permissions : db.permissions ≡ permission_seed
  pub role_permissions : db.role_permissions ≡ role_permission_seed

-- With the seeded rows, the permissions that the join finds for a role are those of the catalog, in
-- the catalog's order.
pub find_permission_keys-seeded :
    (db : Database) (role : RoleKey)
    → IsSeeded db
    → find_permission_keys_for_role db (role_ids role) ≡ role_permissions role
unfolding find_permission_keys_for_role select_rows permission_seed role_permission_seed role_ids
    permission_row_id role_permissions
find_permission_keys-seeded db owner s = rw (s.permissions, s.role_permissions) refl
find_permission_keys-seeded db role s = rw (s.permissions, s.role_permissions) refl
