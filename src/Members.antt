-- ===== src/Members.antt =====
-- apps/api/src/modules/organization: owner-transition.ts and the member mutations of
-- organization.repo.ts. `now` is what `new Date()` gives. The order in which the owners' rows are
-- locked is left out: nothing that is returned depends on it.
pub mod Outcome
pub mod LastOwner
pub mod Authority
pub mod Handlers
pub mod Listing
use orgistry.Prelude.{
  ℕ, String, Bool, true, false, not, ◌&&◌, ◌||◌, Option, none, some, List, map, leb, ◌==◌,
  if◌then◌else◌, str_eq, length, any,
}
use orgistry.Tables.{find_row, select_rows, update_rows, insert_row}
use orgistry.Metadata.{Entries, end, id_entry, text_entry, sanitize_security_metadata}
use orgistry.Errors.{member_not_found, last_owner_required, permission_denied, internal}
use orgistry.Catalog.{owner, role_ids}
use orgistry.Db.{
  Database, MembershipRow, MembershipStatus, RoleRow, UserRow, SecurityEventRow, SecurityActorType,
  RequestContext,
}
use orgistry.Db.Transaction.{
  Tx, ok, throw, ◌>>=◌, ◌>>◌, return, read, write, reject_if, require_row,
}
use orgistry.Access.{is_active_member, find_role}

pub record MemberView : Type 0 where
  pub membership : MembershipRow
  pub role : RoleRow
  pub user : UserRow

pub record ChangeMemberRoleParams : Type 0 where
  pub organization_id : ℕ
  pub membership_id : ℕ
  pub new_role_id : String
  pub actor_user_id : ℕ
  pub actor_membership_id : ℕ
  pub ctx : RequestContext

pub record RemoveMemberParams : Type 0 where
  pub organization_id : ℕ
  pub membership_id : ℕ
  pub actor_user_id : ℕ
  pub actor_membership_id : ℕ
  pub ctx : RequestContext

unfoldable pub is_owner_role : String → Bool
unfolding role_ids
is_owner_role role_id = str_eq role_id (role_ids owner)

-- The condition of `lockActiveOwners`.
unfoldable pub is_active_owner_of : ℕ → MembershipRow → Bool
is_active_owner_of organization_id m =
    m.organization_id == organization_id && is_active_member m.status && is_owner_role m.role_id

unfoldable pub lock_active_owners : ℕ → Database → List ℕ
lock_active_owners organization_id db =
    map (λ m. m.id) (select_rows (is_active_owner_of organization_id) db.memberships)

unfoldable pub role_change_touches_owner : String → String → Bool
role_change_touches_owner target_role_id new_role_id =
    is_owner_role target_role_id || is_owner_role new_role_id

-- assertOwnerChangeAuthority.
unfoldable pub assert_owner_change_authority : Bool → Tx (Unit {0})
assert_owner_change_authority actor_is_active_owner =
    reject_if (not actor_is_active_owner) permission_denied

find_user : Database → ℕ → Option UserRow
find_user db user_id = find_row (λ u. u.id == user_id) db.users

member_view : MembershipRow → Option RoleRow → Option UserRow → Option MemberView
member_view m (some r) (some u) = some (record { membership = m; role = r; user = u })
member_view m _ _ = none

-- The join of one membership with its role and its user.
unfoldable pub load_member_view : ℕ → Database → Option MemberView
unfolding member_view find_user
load_member_view membership_id db = elim (find_row (λ m. m.id == membership_id) db.memberships) [
  | none ↦ none
  | some m ↦ member_view m (find_role db m.role_id) (find_user db m.user_id)
]

unfoldable pub record_member_audit_event : ℕ → ℕ → String → Entries → RequestContext → Tx (Unit {0})
record_member_audit_event organization_id actor_user_id event_type metadata ctx = write λ db.
    let event : SecurityEventRow = record {
      user_id = some actor_user_id;
      session_id = none;
      organization_id = some organization_id;
      actor_type = SecurityActorType.user;
      event_type = event_type;
      metadata = sanitize_security_metadata metadata;
      ip_address = ctx.ip_address;
      user_agent = ctx.user_agent;
      request_id = ctx.request_id;
    } in
    record db { security_events = insert_row event db.security_events }

abbrev pub update_membership : ℕ → (MembershipRow → MembershipRow) → Tx (Unit {0})
update_membership membership_id f =
    write
      λ db. record db { memberships = update_rows (λ m. m.id == membership_id) f db.memberships }

abbrev pub set_role : String → ℕ → MembershipRow → MembershipRow
set_role new_role_id now m = record m { role_id = new_role_id; updated_at = now }

abbrev pub set_removed : ℕ → ℕ → MembershipRow → MembershipRow
set_removed actor_user_id now m = record m {
  status = MembershipStatus.removed;
  removed_at = some now;
  removed_by_user_id = some actor_user_id;
  updated_at = now;
}

-- The checks of `changeMemberRole`, on the locked rows.
unfoldable pub check_role_change : ChangeMemberRoleParams → List ℕ → MembershipRow → Tx (Unit {0})
check_role_change p active_owner_ids target = do
  reject_if
      (not (target.organization_id == p.organization_id) || not (is_active_member target.status))
      member_not_found
  (if role_change_touches_owner target.role_id p.new_role_id
      then assert_owner_change_authority (any (◌==◌ p.actor_membership_id) active_owner_ids)
      else return tt)
  reject_if
      (is_owner_role target.role_id
        && not (is_owner_role p.new_role_id)
        && leb (length active_owner_ids) 1)
      last_owner_required

unfoldable pub change_member_role : ChangeMemberRoleParams → ℕ → Tx MemberView
change_member_role p now = do
  active_owner_ids ← read (lock_active_owners p.organization_id)
  found ← read (λ db. find_row (λ m. m.id == p.membership_id) db.memberships)
  target ← require_row found member_not_found
  check_role_change p active_owner_ids target
  update_membership p.membership_id (set_role p.new_role_id now)
  record_member_audit_event p.organization_id p.actor_user_id "org.member_role_changed"
      (id_entry "membershipId" p.membership_id (
        id_entry "targetUserId" target.user_id
          (text_entry "fromRoleId" target.role_id (text_entry "toRoleId" p.new_role_id end))))
      p.ctx
  view ← read (load_member_view p.membership_id)
  require_row view internal

-- The checks of `removeMember` on a membership that is not removed yet.
unfoldable pub check_removal : RemoveMemberParams → List ℕ → MembershipRow → Tx (Unit {0})
check_removal p active_owner_ids target = do
  (if is_owner_role target.role_id
      then assert_owner_change_authority (any (◌==◌ p.actor_membership_id) active_owner_ids)
      else return tt)
  reject_if (is_owner_role target.role_id && leb (length active_owner_ids) 1) last_owner_required

unfoldable pub is_removed : MembershipStatus → Bool
is_removed MembershipStatus.removed = true
is_removed MembershipStatus.active = false

-- The writes of `removeMember`.
unfoldable pub apply_removal : RemoveMemberParams → ℕ → MembershipRow → Tx (Unit {0})
apply_removal p now target = do
  update_membership p.membership_id (set_removed p.actor_user_id now)
  record_member_audit_event p.organization_id p.actor_user_id "org.member_removed"
      (id_entry "membershipId" p.membership_id
        (id_entry "targetUserId" target.user_id (text_entry "roleId" target.role_id end)))
      p.ctx

unfoldable pub remove_member : RemoveMemberParams → ℕ → Tx MemberView
remove_member p now = do
  active_owner_ids ← read (lock_active_owners p.organization_id)
  found ← read (λ db. find_row (λ m. m.id == p.membership_id) db.memberships)
  target ← require_row found member_not_found
  reject_if (not (target.organization_id == p.organization_id)) member_not_found
  (if is_removed target.status
      then return tt
      else (check_removal p active_owner_ids target >> apply_removal p now target))
  view ← read (load_member_view p.membership_id)
  require_row view internal
