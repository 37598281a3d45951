-- ===== src/Members/Outcome.antt =====
-- What a member mutation that commits has checked and written.
use orgistry.Prelude.{
  ℕ, suc, ◌<◌, ◌≡◌, refl, ap, ◌∙◌, ◌⊎◌, inl, inr, Bool, true, false, some, List, [], ◌∷◌, map,
  arith, ◌==◌, Bool-cases, Option-cases, length, any,
}
use orgistry.Tables.{find_row, select_rows, count_rows, update_rows, length-select}
use orgistry.Db.{Database, MembershipRow}
use orgistry.Db.Transaction.{ok}
use orgistry.Access.{is_active_member}
use orgistry.Members.{
  MemberView, ChangeMemberRoleParams, RemoveMemberParams, is_owner_role, is_active_owner_of,
  lock_active_owners, role_change_touches_owner, assert_owner_change_authority,
  record_member_audit_event, set_role, set_removed, check_role_change, change_member_role,
  check_removal, is_removed, apply_removal, remove_member,
}

length-map {ℓ κ} :
    {A : Type ℓ} {B : Type κ} (f : A → B) (xs : List A) → length (map f xs) ≡ length xs
length-map f [] = refl
length-map f (x ∷ xs) = ap suc (length-map f xs)

pub length-lock_active_owners :
    (organization_id : ℕ) (db : Database)
    → length (lock_active_owners organization_id db)
      ≡ count_rows (is_active_owner_of organization_id) db.memberships
unfolding lock_active_owners
length-lock_active_owners organization_id db =
    length-map _ (select_rows (is_active_owner_of organization_id) db.memberships)
    ∙ length-select (is_active_owner_of organization_id) db.memberships

abbrev pub locked : ℕ → ℕ → Database → Bool
locked organization_id membership_id db =
    any (◌==◌ membership_id) (lock_active_owners organization_id db)

pub record IsRoleChange (p : ChangeMemberRoleParams) (now : ℕ) (db db' : Database) : Type 0 where
  pub target : MembershipRow
  pub found : find_row (λ m. m.id == p.membership_id) db.memberships ≡ some target
  pub here : target.organization_id ≡ p.organization_id
  pub live : is_active_member target.status ≡ true
  pub authority :
      (role_change_touches_owner target.role_id p.new_role_id ≡ false)
      ⊎ (locked p.organization_id p.actor_membership_id db ≡ true)
  pub remaining :
      (is_owner_role target.role_id ≡ false)
      ⊎ ((is_owner_role p.new_role_id ≡ true)
          ⊎ (1 < length (lock_active_owners p.organization_id db)))
  pub written :
      db'.memberships
      ≡ update_rows (λ m. m.id == p.membership_id) (set_role p.new_role_id now) db.memberships
  pub organizations : db'.organizations ≡ db.organizations

pub change_member_role-IsRoleChange :
    (p : ChangeMemberRoleParams) (now : ℕ) (db db' : Database) (view : MemberView)
    → change_member_role p now db ≡ ok (view, db')
    → IsRoleChange p now db db'
unfolding change_member_role check_role_change assert_owner_change_authority
    record_member_audit_event
change_member_role-IsRoleChange p now db db' view e =
    elim (Option-cases (find_row (λ m. m.id == p.membership_id) db.memberships)) [
      | inl missing ↦ absurd (ground arith)
      | inr (target, found) ↦ record {
        target = target;
        found = found;
        here = ground arith;
        live = ground arith;
        authority = ground arith;
        remaining = ground arith;
        written = ground arith;
        organizations = ground arith;
      }
    ]

pub record IsRemoval (p : RemoveMemberParams) (now : ℕ) (db db' : Database) : Type 0 where
  pub target : MembershipRow
  pub found : find_row (λ m. m.id == p.membership_id) db.memberships ≡ some target
  pub here : target.organization_id ≡ p.organization_id
  pub live : is_removed target.status ≡ false
  pub authority :
      (is_owner_role target.role_id ≡ false)
      ⊎ (locked p.organization_id p.actor_membership_id db ≡ true)
  pub remaining :
      (is_owner_role target.role_id ≡ false)
      ⊎ (1 < length (lock_active_owners p.organization_id db))
  pub written :
      db'.memberships
      ≡ update_rows (λ m. m.id == p.membership_id) (set_removed p.actor_user_id now) db.memberships
  pub organizations : db'.organizations ≡ db.organizations

-- A membership that was removed before is left alone, or it is removed now.
pub remove_member-IsRemoval :
    (p : RemoveMemberParams) (now : ℕ) (db db' : Database) (view : MemberView)
    → remove_member p now db ≡ ok (view, db')
    → (db' ≡ db) ⊎ IsRemoval p now db db'
unfolding remove_member check_removal assert_owner_change_authority apply_removal
    record_member_audit_event
remove_member-IsRemoval p now db db' view e =
    elim (Option-cases (find_row (λ m. m.id == p.membership_id) db.memberships)) [
      | inl missing ↦ absurd (ground arith)
      | inr (target, found) ↦ elim (Bool-cases (is_removed target.status)) [
        | inl gone ↦ inl (ground arith)
        | inr live ↦ inr (record {
          target = target;
          found = found;
          here = ground arith;
          live = live;
          authority = ground arith;
          remaining = ground arith;
          written = ground arith;
          organizations = ground arith;
        })
      ]
    ]
