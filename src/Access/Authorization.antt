-- ===== src/Access/Authorization.antt =====
-- What every organization-scoped method decides before anything else (access-control.ts).
use orgistry.Prelude.{ℕ, String, ◌≡◌, ◌⊎◌, inl, inr, true, Option, arith, Bool-cases}
use orgistry.Service.{World, authorize}
use orgistry.Access.{OrganizationActor, actor_has_permission, require_permission}
use orgistry.Errors.{AppError, permission_denied, organization_not_found}
use orgistry.Catalog.{PermissionKey}
use orgistry.Db.Transaction.{ok, throw}
use orgistry.Access.Gate.{IsStanding, require_membership-IsStanding}

-- The gate and the permission write nothing; either they refuse, or they admit an actor who has
-- standing in the organization that the call names and the permission that the method needs.
pub authorize-cases :
    {S : Type 0} (user_id o : ℕ) (request_id : Option String) (p : PermissionKey) (w : World S)
    → ((e : AppError) × (authorize user_id o request_id p w ≡ (throw e, w)))
      ⊎ ((actor : OrganizationActor) × IsStanding w.db user_id o actor
          × (actor_has_permission actor p ≡ true)
          × (authorize user_id o request_id p w ≡ (ok actor, w)))
unfolding authorize require_permission
authorize-cases user_id o request_id p w =
    elim (require_membership-IsStanding w.db user_id o request_id) [
      | inl stranger ↦ inl (organization_not_found, ground arith)
      | inr (actor, let_in, standing) ↦ elim (Bool-cases (actor_has_permission actor p)) [
        | inr lacking ↦ inl (permission_denied, ground arith)
        | inl held ↦ inr (actor, standing, held, ground arith)
      ]
    ]
