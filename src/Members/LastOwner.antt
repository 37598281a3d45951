-- ===== src/Members/LastOwner.antt =====
-- The Last Owner invariant, and the Owner transition policy (organization.repo.ts).
use orgistry.Prelude.{ℕ, ◌<◌, refl, sym, subst, inl, inr, List, [], ◌∷◌, arith}
use orgistry.Tables.{count_rows, count-update, update-HasUniqueIds, HasUniqueIds}
use orgistry.Db.{Database}
use orgistry.Db.Transaction.{run, Result-cases}
use orgistry.Access.{is_active_member}
use orgistry.Members.{
  ChangeMemberRoleParams, RemoveMemberParams, is_active_owner_of, set_role, set_removed,
  change_member_role, remove_member,
}
use orgistry.Members.Outcome.{
  IsRoleChange, change_member_role-IsRoleChange, IsRemoval, remove_member-IsRemoval,
  length-lock_active_owners,
}

abbrev pub active_owners : ℕ → Database → ℕ
active_owners organization_id db = count_rows (is_active_owner_of organization_id) db.memberships

-- Membership ids are a primary key.
abbrev pub HasMembershipKey : Database → Type 0
HasMembershipKey db = HasUniqueIds (λ m. m.id) db.memberships

role_change_keeps :
    (o : ℕ) (p : ChangeMemberRoleParams) (now : ℕ) (db db' : Database)
    → HasMembershipKey db
    → IsRoleChange p now db db'
    → 0 < active_owners o db
    → 0 < active_owners o db'
unfolding is_active_owner_of
role_change_keeps o p now db db' u c h = rw c.written (
    ground (
      arith,
      c.here,
      c.live,
      c.remaining,
      length-lock_active_owners p.organization_id db,
      count-update (λ m. m.id) (is_active_owner_of o) (set_role p.new_role_id now) p.membership_id
          db.memberships c.target u c.found,
    ))

removal_keeps :
    (o : ℕ) (p : RemoveMemberParams) (now : ℕ) (db db' : Database)
    → HasMembershipKey db
    → IsRemoval p now db db'
    → 0 < active_owners o db
    → 0 < active_owners o db'
unfolding is_active_owner_of is_active_member
removal_keeps o p now db db' u c h = rw c.written (
    ground (
      arith,
      c.here,
      c.live,
      c.remaining,
      length-lock_active_owners p.organization_id db,
      count-update (λ m. m.id) (is_active_owner_of o) (set_removed p.actor_user_id now)
          p.membership_id db.memberships c.target u c.found,
    ))

-- The member mutations that the API offers, each in its own transaction.
pub data MemberCall : Type 0 where
  changes : ChangeMemberRoleParams → ℕ → MemberCall
  removes : RemoveMemberParams → ℕ → MemberCall

pub step : Database → MemberCall → Database
step db (changes p now) = (run (change_member_role p now) db).1
step db (removes p now) = (run (remove_member p now) db).1

-- The locks put concurrent mutations of one organization into some order: this one.
pub history : Database → List MemberCall → Database
history db [] = db
history db (call ∷ calls) = history (step db call) calls

-- What a step keeps, from what its outcome keeps.
step_cases {ℓ} :
    (P : Database → Type ℓ) (db : Database) (call : MemberCall)
    → P db
    → ((p : ChangeMemberRoleParams) (now : ℕ) (db' : Database) → IsRoleChange p now db db' → P db')
    → ((p : RemoveMemberParams) (now : ℕ) (db' : Database) → IsRemoval p now db db' → P db')
    → P (step db call)
unfolding step
step_cases P db (changes p now) same changed gone =
    elim (Result-cases (change_member_role p now db)) [
      | inr (e, refused) ↦ rw (refused, step) same
      | inl (view, db', done) ↦
          rw (done, step)
            (changed p now db' (change_member_role-IsRoleChange p now db db' view done))
    ]
step_cases P db (removes p now) same changed gone = elim (Result-cases (remove_member p now db)) [
  | inr (e, refused) ↦ rw (refused, step) same
  | inl (view, db', done) ↦
      rw (done, step)
        (elim (remove_member-IsRemoval p now db db' view done) [
          | inl idle ↦ subst P (sym idle) same
          | inr removal ↦ gone p now db' removal
        ])
]

step-HasMembershipKey :
    (db : Database) (call : MemberCall) → HasMembershipKey db → HasMembershipKey (step db call)
step-HasMembershipKey db call u =
    step_cases HasMembershipKey db call u
      (λ p now db' c.
        rw c.written (update-HasUniqueIds _ p.membership_id _ db.memberships (λ m. refl) u))
      (λ p now db' c.
        rw c.written (update-HasUniqueIds _ p.membership_id _ db.memberships (λ m. refl) u))

step_keeps_owner :
    (o : ℕ) (db : Database) (call : MemberCall)
    → HasMembershipKey db
    → 0 < active_owners o db
    → 0 < active_owners o (step db call)
step_keeps_owner o db call u h =
    step_cases (λ d. 0 < active_owners o d) db call h
      (λ p now db' c. role_change_keeps o p now db db' u c h)
      (λ p now db' c. removal_keeps o p now db db' u c h)

-- An organization that has an active owner has one after any history of role changes and removals,
-- by whomever they are asked for, and whether they succeed or fail.
pub history_keeps_owner :
    (o : ℕ) (db : Database) (calls : List MemberCall)
    → HasMembershipKey db
    → 0 < active_owners o db
    → 0 < active_owners o (history db calls)
unfolding history
history_keeps_owner o db [] u h = h
history_keeps_owner o db (call ∷ calls) u h =
    history_keeps_owner o (step db call) calls (step-HasMembershipKey db call u)
      (step_keeps_owner o db call u h)
