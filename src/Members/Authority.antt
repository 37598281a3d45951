-- ===== src/Members/Authority.antt =====
-- The Owner transition policy and the errors of a role change and of a removal
-- (owner-transition.ts, organization.repo.ts).
use orgistry.Prelude.{
  ℕ, ◌≡◌, refl, ◌≢◌, inl, inr, Bool, true, false, not, ◌&&◌, Option, some, arith, leb, ◌==◌,
  if◌then◌else◌, ==_refl, Bool-cases, Option-cases,
}
use orgistry.Tables.{find_row, count_rows, find-update_ne, find-update}
use orgistry.Errors.{last_owner_required, permission_denied}
use orgistry.Db.{Database, RequestContext, MembershipRow}
use orgistry.Db.Transaction.{Result, ok, throw}
use orgistry.Access.{is_active_member}
use orgistry.Members.{
  MemberView, ChangeMemberRoleParams, RemoveMemberParams, is_owner_role, is_active_owner_of,
  role_change_touches_owner, assert_owner_change_authority, set_role, set_removed,
  check_role_change, change_member_role, check_removal, apply_removal, is_removed, remove_member,
  record_member_audit_event, load_member_view,
}
use orgistry.Members.Outcome.{change_member_role-IsRoleChange, length-lock_active_owners, locked}

abbrev pub find_membership : ℕ → Database → Option MembershipRow
find_membership membership_id db = find_row (λ m. m.id == membership_id) db.memberships

-- The policy in one table: what becomes of the change of an active member's role, by whether the
-- change touches the Owner role, the actor is among the active owners, and the target is the last.
pub data Verdict : Type 0 where
  forbidden kept_last granted : Verdict

unfoldable pub role_change_policy : (touches actor_owns demotes : Bool) → ℕ → Verdict
role_change_policy touches actor_owns demotes owners =
    if touches && not actor_owns
    then forbidden
    else if demotes && leb owners 1
    then kept_last
    else granted

-- The verdict that a call's answer shows.
unfoldable pub refusal : Result (MemberView × Database) → Verdict
refusal (throw permission_denied) = forbidden
refusal (throw last_owner_required) = kept_last
refusal _ = granted

-- A role change of an active member of the organization is refused with 403 exactly if it touches
-- the Owner role and the actor is not among the active owners, and otherwise with
-- `last_owner_required` exactly if it demotes the only active owner.
pub change_member_role-policy :
    (p : ChangeMemberRoleParams) (now : ℕ) (db : Database) (target : MembershipRow)
    → find_membership p.membership_id db ≡ some target
    → target.organization_id ≡ p.organization_id
    → is_active_member target.status ≡ true
    → refusal (change_member_role p now db)
      ≡ role_change_policy
          (role_change_touches_owner target.role_id p.new_role_id)
          (locked p.organization_id p.actor_membership_id db)
          (is_owner_role target.role_id && not (is_owner_role p.new_role_id))
          (count_rows (is_active_owner_of p.organization_id) db.memberships)
unfolding change_member_role check_role_change assert_owner_change_authority
    record_member_audit_event refusal role_change_policy
change_member_role-policy p now db target found here live =
    ground (arith, length-lock_active_owners p.organization_id db, ==_refl p.organization_id)

-- The rules for the removal of a member whose membership is not removed yet: the same, for a
-- target that is an owner.
pub remove_member-policy :
    (p : RemoveMemberParams) (now : ℕ) (db : Database) (target : MembershipRow)
    → find_membership p.membership_id db ≡ some target
    → target.organization_id ≡ p.organization_id
    → is_removed target.status ≡ false
    → refusal (remove_member p now db)
      ≡ role_change_policy
          (is_owner_role target.role_id)
          (locked p.organization_id p.actor_membership_id db)
          (is_owner_role target.role_id)
          (count_rows (is_active_owner_of p.organization_id) db.memberships)
unfolding remove_member check_removal assert_owner_change_authority apply_removal
    record_member_audit_event refusal role_change_policy
remove_member-policy p now db target found here live =
    ground (arith, length-lock_active_owners p.organization_id db, ==_refl p.organization_id)

-- A role change that commits has changed one active membership of the organization that the request
-- names, to the role asked for, and no other membership.
pub change_member_role-scope :
    (p : ChangeMemberRoleParams) (now : ℕ) (db db' : Database) (view : MemberView) (other : ℕ)
    → change_member_role p now db ≡ ok (view, db')
    → other ≢ p.membership_id
    → ((m : MembershipRow) × (find_membership p.membership_id db ≡ some m)
        × (m.organization_id ≡ p.organization_id)
        × (is_active_member m.status ≡ true)
        × (find_membership p.membership_id db' ≡ some (set_role p.new_role_id now m)))
      × (find_membership other db' ≡ find_membership other db)
change_member_role-scope p now db db' view other done differs =
    let c = change_member_role-IsRoleChange p now db db' view done in
    (
      (
        c.target,
        c.found,
        c.here,
        c.live,
        rw c.written (
            find-update (λ m. m.id) (set_role p.new_role_id now) p.membership_id db.memberships
              c.target (λ r. refl) c.found),
      ),
      rw c.written (
          find-update_ne (λ m. m.id) (set_role p.new_role_id now) other p.membership_id
            db.memberships (λ r. refl) differs),
    )

remove_removed :
    (p : RemoveMemberParams) (now : ℕ) (db : Database) (m : MembershipRow) (view : MemberView)
    → find_membership p.membership_id db ≡ some m
    → m.organization_id ≡ p.organization_id
    → is_removed m.status ≡ true
    → load_member_view p.membership_id db ≡ some view
    → remove_member p now db ≡ ok (view, db)
unfolding remove_member
remove_removed p now db m view found here gone loaded = ground (arith, ==_refl p.organization_id)

-- A removal that returns leaves the membership removed, and returns its view.
remove_member-leaves :
    (p : RemoveMemberParams) (now : ℕ) (db db' : Database) (view : MemberView)
    → remove_member p now db ≡ ok (view, db')
    → ((m : MembershipRow) × (find_membership p.membership_id db' ≡ some m)
        × (m.organization_id ≡ p.organization_id)
        × (is_removed m.status ≡ true))
      × (load_member_view p.membership_id db' ≡ some view)
unfolding remove_member check_removal assert_owner_change_authority apply_removal
    record_member_audit_event is_removed
remove_member-leaves p now db db' view done =
    elim (Option-cases (find_row (λ m. m.id == p.membership_id) db.memberships)) [
      | inl missing ↦ absurd (ground arith)
      | inr (target, found) ↦ elim (Bool-cases (is_removed target.status)) [
        | inl gone ↦ ((target, ground arith, ground arith, gone), ground arith)
        | inr live ↦ (
          (
            set_removed p.actor_user_id now target,
            ground (
              arith,
              find-update (λ m. m.id) (set_removed p.actor_user_id now) p.membership_id
                  db.memberships target (λ r. refl) found,
            ),
            ground arith,
            refl,
          ),
          ground arith,
        )
      ]
    ]

-- Removing a member twice is the same as removing it once: the second call succeeds and writes
-- nothing, whoever makes it.
pub remove_member-again :
    (p : RemoveMemberParams) (actor_user actor_membership : ℕ) (ctx : RequestContext)
    (now later : ℕ) (db db' : Database) (view : MemberView)
    → remove_member p now db ≡ ok (view, db')
    → remove_member
        (record p { actor_user_id = actor_user; actor_membership_id = actor_membership; ctx = ctx })
        later
        db'
      ≡ ok (view, db')
remove_member-again p actor_user actor_membership ctx now later db db' view done =
    let ((m, found, here, gone), loaded) = remove_member-leaves p now db db' view done in
    remove_removed _ later db' m view found here gone loaded
