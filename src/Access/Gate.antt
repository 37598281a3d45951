-- ===== src/Access/Gate.antt =====
-- Whom the membership gate lets through (organization.context.ts, access-control.ts).
use mathlib.Core.List.{Memᴰ}
use orgistry.Prelude.{
  ℕ, String, ◌≡◌, refl, subst, ◌⊎◌, inl, inr, true, Option, some, List, [], ◌∷◌, arith, Bool-cases,
  Option-cases, All,
}
use orgistry.Tables.{select-All}
use orgistry.Errors.{organization_not_found}
use orgistry.Db.{Database, OrganizationRow, MembershipRow}
use orgistry.Db.Transaction.{ok, throw}
use orgistry.Access.{
  MembershipWithRole, OrganizationActor, is_active_organization, is_active_membership_of,
  find_organization_by_id, find_role, join_roles, find_active_membership, context_of,
  find_permission_keys_for_role, resolve_organization_context, require_membership,
}

join_roles_sound {κ} :
    (P : MembershipRow → Type κ) (db : Database) (ms : List MembershipRow) (r : MembershipWithRole)
    → All P ms
    → join_roles db ms ≡ some r
    → P r.membership × (find_role db r.membership.role_id ≡ some r.role)
unfolding join_roles
join_roles_sound P db [] r h e = absurd (cc)
join_roles_sound P db (m ∷ ms) r (h, hs) e = elim (Option-cases (find_role db m.role_id)) [
  | inl missing ↦ join_roles_sound P db ms r hs (rw (missing, join_roles) at e)
  | inr (role, found) ↦
      let joined : MembershipWithRole = record { membership = m; role = role } in
      let same : joined ≡ r = ground arith in
      subst (λ x. P x.membership × (find_role db x.membership.role_id ≡ some x.role)) same
        (h, found)
]

-- The user's standing that an actor stands for.
pub record IsStanding (db : Database) (user_id organization_id : ℕ) (actor : OrganizationActor)
    : Type 0 where
  pub organization : OrganizationRow
  pub membership : MembershipRow
  pub found : find_organization_by_id db organization_id ≡ some organization
  pub live : is_active_organization organization.status ≡ true
  pub listed : Memᴰ membership db.memberships
  pub theirs : is_active_membership_of user_id organization_id membership ≡ true
  pub their_role : find_role db membership.role_id ≡ some actor.role
  pub same_user : actor.user_id ≡ user_id
  pub same_organization : actor.organization_id ≡ organization.id
  pub same_membership : actor.membership_id ≡ membership.id
  pub same_permissions : actor.permissions ≡ find_permission_keys_for_role db actor.role.id

-- What the gate says, by the two lookups that it makes.
gate_cases :
    (db : Database) (user_id organization_id : ℕ) (request_id : Option String)
    → (require_membership db user_id organization_id request_id ≡ throw organization_not_found)
      ⊎ ((o : OrganizationRow) × (m : MembershipWithRole) × (find_organization_by_id db
              organization_id
            ≡ some o)
          × (is_active_organization o.status ≡ true)
          × (find_active_membership db user_id organization_id ≡ some m)
          × (require_membership db user_id organization_id request_id
              ≡ ok (record {
                user_id = user_id;
                organization_id = o.id;
                membership_id = m.membership.id;
                role = m.role;
                permissions = find_permission_keys_for_role db m.role.id;
                request_id = request_id;
              })))
unfolding require_membership resolve_organization_context context_of
gate_cases db user_id organization_id request_id =
    elim (Option-cases (find_organization_by_id db organization_id)) [
      | inl missing ↦ inl (ground arith)
      | inr (o, found) ↦ elim (Bool-cases (is_active_organization o.status)) [
        | inr dead ↦ inl (ground arith)
        | inl live ↦ elim (Option-cases (find_active_membership db user_id organization_id)) [
          | inl stranger ↦ inl (ground arith)
          | inr (m, theirs) ↦ inr (o, m, found, live, theirs, ground arith)
        ]
      ]
    ]

-- A request acts in an organization only if the organization is found and active and the user has an
-- active membership row there whose role is a role of the tables; the actor carries that
-- membership, that role and the permissions which the tables grant to it. Every other request gets
-- the one answer `organization_not_found`.
pub require_membership-IsStanding :
    (db : Database) (user_id organization_id : ℕ) (request_id : Option String)
    → (require_membership db user_id organization_id request_id ≡ throw organization_not_found)
      ⊎ ((actor : OrganizationActor) × (require_membership db user_id organization_id request_id
            ≡ ok actor)
          × IsStanding db user_id organization_id actor)
unfolding find_active_membership
require_membership-IsStanding db user_id organization_id request_id =
    elim (gate_cases db user_id organization_id request_id) [
      | inl refused ↦ inl refused
      | inr (o, m, found, live, theirs, granted) ↦
          let ((here, listed), role) =
            join_roles_sound _ db _ m
              (select-All (is_active_membership_of user_id organization_id) db.memberships)
              theirs in
          inr (
            _,
            granted,
            record {
              organization = o;
              membership = m.membership;
              found = found;
              live = live;
              listed = listed;
              theirs = here;
              their_role = role;
              same_user = refl;
              same_organization = refl;
              same_membership = refl;
              same_permissions = refl;
            },
          )
    ]
