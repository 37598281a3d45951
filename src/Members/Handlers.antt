-- ===== src/Members/Handlers.antt =====
-- The mutations of member.service.ts: the gate, then the permission, then the throttle, then the
-- repository's transaction.
use orgistry.Prelude.{ℕ, String, ◌≡◌, ◌⊎◌, inl, inr, true, Option, arith}
use orgistry.Service.{
  ◌>>=◌, ◌>>◌, World, Handler, transaction, enforce_rate_limit, throttled-cases, authorize,
}
use orgistry.Members.{
  MemberView, ChangeMemberRoleParams, RemoveMemberParams, change_member_role, remove_member,
}
use orgistry.Access.{OrganizationActor, actor_has_permission}
use orgistry.RateLimit.{RateLimitFailureMode, rl_key, Consume}
use orgistry.Catalog.{RoleKey, role_ids, PermissionKey}
use orgistry.Db.Transaction.{Tx, run}
use orgistry.Db.{RequestContext}
use orgistry.Access.Gate.{IsStanding}
use orgistry.Access.Authorization.{authorize-cases}

pub record MemberLimits : Type 0 where
  pub mutation_per_user_max : ℕ
  pub window_seconds : ℕ

abbrev pub role_change_params :
    OrganizationActor → ℕ → RoleKey → RequestContext → ChangeMemberRoleParams
role_change_params actor membership_id new_role ctx = record {
  organization_id = actor.organization_id;
  membership_id = membership_id;
  new_role_id = role_ids new_role;
  actor_user_id = actor.user_id;
  actor_membership_id = actor.membership_id;
  ctx = ctx;
}

abbrev pub removal_params : OrganizationActor → ℕ → RequestContext → RemoveMemberParams
removal_params actor membership_id ctx = record {
  organization_id = actor.organization_id;
  membership_id = membership_id;
  actor_user_id = actor.user_id;
  actor_membership_id = actor.membership_id;
  ctx = ctx;
}

module _ {S : Type 0} (consume : Consume S) (mode : RateLimitFailureMode)
    (limits : MemberLimits) where
  abbrev pub limit_mutation : OrganizationActor → Handler S (Unit {0})
  limit_mutation actor =
      enforce_rate_limit consume mode (rl_key "rl:member:mutate:user:" actor.user_id)
        limits.mutation_per_user_max limits.window_seconds

  unfoldable pub handle_change_member_role :
      (user_id organization_id membership_id : ℕ)
      → RoleKey
      → RequestContext
      → ℕ
      → Handler S MemberView
  handle_change_member_role user_id organization_id membership_id new_role ctx now = do
    actor ← authorize user_id organization_id ctx.request_id PermissionKey.members_change_role
    limit_mutation actor
    transaction (change_member_role (role_change_params actor membership_id new_role ctx) now)

  unfoldable pub handle_remove_member :
      (user_id organization_id membership_id : ℕ) → RequestContext → ℕ → Handler S MemberView
  handle_remove_member user_id organization_id membership_id ctx now = do
    actor ← authorize user_id organization_id ctx.request_id PermissionKey.members_remove
    limit_mutation actor
    transaction (remove_member (removal_params actor membership_id ctx) now)

  -- A throttled transaction behind the authorization writes only as the authorized actor.
  behind_gate :
      (m : OrganizationActor → Tx MemberView) (user_id o : ℕ) (request_id : Option String)
      (p : PermissionKey) (w : World S)
      → (((authorize user_id o request_id p >>= λ actor.
              limit_mutation actor >> transaction (m actor))
            w).1.db
          ≡ w.db)
        ⊎ ((actor : OrganizationActor) × IsStanding w.db user_id o actor
            × (actor_has_permission actor p ≡ true)
            × (((authorize user_id o request_id p >>= λ actor.
                    limit_mutation actor >> transaction (m actor))
                  w).1.db
                ≡ (run (m actor) w.db).1))
  behind_gate m user_id o request_id p w = elim (authorize-cases user_id o request_id p w) [
    | inl (e, refused) ↦ inl (ground arith)
    | inr (actor, standing, held, admitted) ↦
        elim (throttled-cases consume mode (rl_key "rl:member:mutate:user:" actor.user_id)
          limits.mutation_per_user_max limits.window_seconds (m actor) w) [
            | inl ((e, throttled), same) ↦ inl (ground arith)
            | inr (answer, left) ↦ inr (actor, standing, held, ground arith)
          ]
  ]

  -- A request to change a member's role or to remove a member writes nothing, or its user has standing
  -- in the organization that it names, with a role that has the permission, and what is written is what
  -- the repository's transaction writes for that actor's own user, membership and organization.
  pub member_handlers_authorized :
      (user_id o membership_id : ℕ) (new_role : RoleKey) (ctx : RequestContext) (now : ℕ)
      (w : World S)
      → (((handle_change_member_role user_id o membership_id new_role ctx now w).1.db ≡ w.db)
          ⊎ ((actor : OrganizationActor) × IsStanding w.db user_id o actor
              × (actor_has_permission actor PermissionKey.members_change_role ≡ true)
              × ((handle_change_member_role user_id o membership_id new_role ctx now w).1.db
                  ≡ (run
                      (change_member_role (role_change_params actor membership_id new_role ctx) now)
                      w.db).1)))
        × (((handle_remove_member user_id o membership_id ctx now w).1.db ≡ w.db)
            ⊎ ((actor : OrganizationActor) × IsStanding w.db user_id o actor
                × (actor_has_permission actor PermissionKey.members_remove ≡ true)
                × ((handle_remove_member user_id o membership_id ctx now w).1.db
                    ≡ (run (remove_member (removal_params actor membership_id ctx) now) w.db).1)))
  unfolding handle_change_member_role handle_remove_member
  member_handlers_authorized user_id o membership_id new_role ctx now w = (
    behind_gate
        (λ actor. change_member_role (role_change_params actor membership_id new_role ctx) now)
        user_id o ctx.request_id PermissionKey.members_change_role w,
    behind_gate (λ actor. remove_member (removal_params actor membership_id ctx) now) user_id o
        ctx.request_id PermissionKey.members_remove w,
  )
