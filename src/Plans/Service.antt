-- ===== src/Plans/Service.antt =====
-- apps/api/src/modules/entitlements/plan.service.ts, with changePlan of entitlement.service.ts.
use orgistry.Prelude.{ℕ, String, ◌≡◌, ◌⊎◌, inl, inr, true, Option, none, some, arith}
use orgistry.Service.{
  ◌>>=◌, ◌>>◌, Handler, pure, transaction, enforce_rate_limit, authorize, action_context, World,
  enforce_rate_limit-db,
}
use orgistry.Plans.{
  find_organization_plan, EntitlementSnapshot, lock_organization_entitlements,
  change_organization_plan,
}
use orgistry.RateLimit.{RateLimitFailureMode, rl_key, Consume}
use orgistry.Errors.{plan_state_missing}
use orgistry.Catalog.{PermissionKey, PlanKey, EntitlementValues, entitlements_for_plan}
use orgistry.Db.Transaction.{ok, throw, Tx, run, Result-cases, Outcome-cases}
use orgistry.Db.{OrganizationPlanRow, RequestContext}
use orgistry.Access.{OrganizationActor, actor_has_permission}
use orgistry.Access.Authorization.{authorize-cases}
use orgistry.Access.Gate.{IsStanding}

pub record PlanMutationLimits : Type 0 where
  pub window_seconds : ℕ
  pub change_per_org_max : ℕ

unfoldable pub get_plan_state : ℕ → Tx OrganizationPlanRow
get_plan_state organization_id db = elim (find_organization_plan organization_id db) [
  | none ↦ throw plan_state_missing
  | some plan ↦ ok (plan, db)
]

unfoldable pub get_plan :
    {S : Type 0} → (user_id organization_id : ℕ) → Option String → Handler S OrganizationPlanRow
get_plan user_id organization_id request_id = do
  actor ← authorize user_id organization_id request_id PermissionKey.plan_read
  transaction (get_plan_state actor.organization_id)

unfoldable pub get_entitlements :
    {S : Type 0} → (user_id organization_id : ℕ) → Option String → Handler S EntitlementSnapshot
get_entitlements user_id organization_id request_id = do
  actor ← authorize user_id organization_id request_id PermissionKey.plan_read
  transaction (lock_organization_entitlements actor.organization_id)

-- The new plan's state with its entitlements.
unfoldable pub change_demo_plan :
    {S : Type 0}
    → Consume S
    → RateLimitFailureMode
    → PlanMutationLimits
    → (user_id organization_id : ℕ) → PlanKey
    → RequestContext
    → (now : ℕ) → Handler S (OrganizationPlanRow × EntitlementValues)
change_demo_plan consume mode limits user_id organization_id target_plan_key ctx now = do
  actor ← authorize user_id organization_id ctx.request_id PermissionKey.plan_change_demo
  enforce_rate_limit consume mode (rl_key "rl:plan:change:org:" actor.organization_id)
      limits.change_per_org_max limits.window_seconds
  result ← transaction (
      change_organization_plan actor.organization_id target_plan_key (action_context actor ctx) now)
  pure (result.plan_state, entitlements_for_plan result.plan_state.plan_key)

-- A request to change the demo plan writes nothing, or its user has standing in the organization that
-- it names with a role that may change the plan, and what is written is what the repository's
-- transaction writes for that actor and that organization.
pub change_demo_plan-authorized :
    {S : Type 0} (consume : Consume S) (mode : RateLimitFailureMode) (limits : PlanMutationLimits)
    (user_id o : ℕ) (target : PlanKey) (ctx : RequestContext) (now : ℕ) (w : World S)
    → ((change_demo_plan consume mode limits user_id o target ctx now w).1.db ≡ w.db)
      ⊎ ((actor : OrganizationActor) × IsStanding w.db user_id o actor
          × (actor_has_permission actor PermissionKey.plan_change_demo ≡ true)
          × ((change_demo_plan consume mode limits user_id o target ctx now w).1.db
              ≡ (run
                  (change_organization_plan actor.organization_id target
                    (action_context actor ctx)
                    now)
                  w.db).1))
unfolding change_demo_plan
change_demo_plan-authorized consume mode limits user_id o target ctx now w =
    elim (authorize-cases user_id o ctx.request_id PermissionKey.plan_change_demo w) [
      | inl (e, refused) ↦ inl (ground arith)
      | inr (actor, standing, held, admitted) ↦
          let same =
            enforce_rate_limit-db consume mode (rl_key "rl:plan:change:org:" actor.organization_id)
              limits.change_per_org_max limits.window_seconds w in
          elim (Outcome-cases
            (enforce_rate_limit consume mode (rl_key "rl:plan:change:org:" actor.organization_id)
              limits.change_per_org_max limits.window_seconds w).0) [
                | inr (e, throttled) ↦ inl (ground arith)
                | inl (t, passed) ↦
                    elim (Result-cases (
                      change_organization_plan actor.organization_id target
                        (action_context actor ctx) now w.db)) [
                          | inl (r, left, done) ↦ inr (actor, standing, held, ground arith)
                          | inr (e, refused) ↦ inl (ground arith)
                        ]
              ]
    ]
