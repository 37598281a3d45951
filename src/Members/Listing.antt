-- ===== src/Members/Listing.antt =====
-- The list of an organization's members: listActiveMembers of organization.repo.ts and listMembers of
-- member.service.ts.
use orgistry.Prelude.{ℕ, String, Bool, ◌&&◌, Option, none, some, List, [], ◌∷◌, ◌==◌}
use orgistry.Service.{◌>>=◌, Handler, pure, query, authorize}
use orgistry.Members.{MemberView}
use orgistry.Access.{is_active_member, find_role}
use orgistry.Catalog.{PermissionKey}
use orgistry.Pagination.{Cursor, Page, list_rows, page_of}
use orgistry.Db.Transaction.{ok}
use orgistry.Db.{UserRow, MembershipRow, Database}
use orgistry.Tables.{find_row}

-- The inner joins of a membership with its role and its user.
unfoldable pub member_view : Database → MembershipRow → Option MemberView
member_view db m = elim (find_role db m.role_id) [
  | none ↦ none
  | some r ↦ elim (find_row (λ (u : UserRow). u.id == m.user_id) db.users) [
    | none ↦ none
    | some u ↦ some (record { membership = m; role = r; user = u })
  ]
]

unfoldable pub join_members : Database → List MembershipRow → List MemberView
join_members db [] = []
join_members db (m ∷ ms) =
    let rest = join_members db ms in
    elim (member_view db m) [ none ↦ rest | some view ↦ view ∷ rest ]

unfoldable pub is_listed_member_of : ℕ → MemberView → Bool
is_listed_member_of organization_id v =
    v.membership.organization_id == organization_id && is_active_member v.membership.status

unfoldable pub list_active_members :
    (organization_id limit : ℕ) → Option Cursor → Database → List MemberView
list_active_members organization_id limit cursor db =
    list_rows (λ v. v.membership.created_at) (λ v. v.membership.id)
      (is_listed_member_of organization_id) limit cursor (join_members db db.memberships)

unfoldable pub handle_list_members :
    {S : Type 0}
    → (user_id organization_id : ℕ) → (request_id : Option String) → (limit : ℕ) → Option Cursor
    → Handler S (Page MemberView)
handle_list_members user_id organization_id request_id limit cursor = do
  actor ← authorize user_id organization_id request_id PermissionKey.members_read
  rows ← query (λ db. ok (list_active_members actor.organization_id limit cursor db))
  pure (page_of (λ v. v.membership.created_at) (λ v. v.membership.id) limit rows)
