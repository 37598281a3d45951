-- ===== src/Plans/Quota.antt =====
-- The decisions of the quota seam, and a change of plan.
use orgistry.Prelude.{
  ℕ, ◌≤◌, ◌<◌, ◌≡◌, refl, ap, ◌∙◌, ◌≢◌, ◌⊎◌, inl, inr, Bool, none, some, arith, ◌==◌, ==_iff,
  Option-cases, first?,
}
use orgistry.Tables.{
  find_row, update_rows, HasUniqueIds, find_sound, find-select, find-update_found,
  select-update_other,
}
use orgistry.Catalog.{PlanKey, EntitlementKey, entitlements_for_plan}
use orgistry.Errors.{quota_exceeded, plan_state_missing}
use orgistry.Db.{Database, OrganizationPlanRow}
use orgistry.Db.Transaction.{ok, throw}
use orgistry.Plans.{
  ActionContext, evaluate_count_quota, require_quota, lock_organization_entitlements,
  find_organization_plan, assign_plan, change_organization_plan, ChangeOrganizationPlanResult,
  record_action_event,
}
use orgistry.Pagination.{before}

-- The quota decision, for the proofs of its clients.
pub require_quota-cases :
    (quota : EntitlementKey) (current limit : ℕ) (db : Database)
    → ((current < limit)
        × (require_quota quota (evaluate_count_quota current limit) db ≡ ok (tt, db)))
      ⊎ ((limit ≤ current)
          × (require_quota quota (evaluate_count_quota current limit) db
              ≡ throw (quota_exceeded quota limit current)))
unfolding require_quota evaluate_count_quota
require_quota-cases quota current limit db = ground arith

pub lock-cases :
    (organization_id : ℕ) (db : Database)
    → ((find_organization_plan organization_id db ≡ none)
        × (lock_organization_entitlements organization_id db ≡ throw plan_state_missing))
      ⊎ ((row : OrganizationPlanRow) × (find_organization_plan organization_id db ≡ some row)
          × (lock_organization_entitlements organization_id db
              ≡ ok (
                record { plan_key = row.plan_key; values = entitlements_for_plan row.plan_key },
                db,
              )))
unfolding lock_organization_entitlements
lock-cases organization_id db = elim (Option-cases (find_organization_plan organization_id db)) [
  | inl missing ↦ inl (missing, ground arith)
  | inr (row, found) ↦ inr (row, found, ground arith)
]

abbrev pub has_plan : ℕ → OrganizationPlanRow → Bool
has_plan organization_id row = row.organization_id == organization_id

-- A plan change that commits gives the organization the plan asked for, answers with its row and
-- the plan before, and leaves the plan of every other organization as it was.
pub change_organization_plan-effect :
    (organization_id other : ℕ) (target : PlanKey) (ctx : ActionContext) (now : ℕ)
    (db db' : Database) (result : ChangeOrganizationPlanResult)
    → HasUniqueIds (λ p. p.id) db.organization_plans
    → change_organization_plan organization_id target ctx now db ≡ ok (result, db')
    → other ≢ organization_id
    → (find_organization_plan organization_id db' ≡ some result.plan_state)
      × (result.plan_state.plan_key ≡ target)
      × ((before : OrganizationPlanRow) × (find_organization_plan organization_id db ≡ some before)
          × (before.plan_key ≡ result.previous_plan_key))
      × (find_organization_plan other db' ≡ find_organization_plan other db)
unfolding change_organization_plan record_action_event find_organization_plan
change_organization_plan-effect organization_id other target ctx now db db' result u e differs =
    elim (Option-cases (find_row (has_plan organization_id) db.organization_plans)) [
      | inl missing ↦ absurd (ground arith)
      | inr (before, found) ↦
          let written : db'.organization_plans
              ≡ update_rows (λ p. p.id == before.id) (assign_plan target ctx.actor_user_id now)
                  db.organization_plans =
            ground arith in
          let theirs =
            (==_iff before.organization_id organization_id).0
              (find_sound (has_plan organization_id) db.organization_plans before found) in
          let answer : result.plan_state ≡ assign_plan target ctx.actor_user_id now before =
            ground arith in
          (
            rw (written, answer)
                (find-update_found (λ p. p.id) (has_plan organization_id)
                  (assign_plan target ctx.actor_user_id now) db.organization_plans before
                  (λ r. refl) found),
            rw answer refl,
            (before, found, ground arith),
            rw (written, find-select (has_plan other) db.organization_plans)
                (find-select (has_plan other) _
                  ∙ ap first? (
                      select-update_other (λ p. p.id) (has_plan organization_id)
                        (assign_plan target ctx.actor_user_id now) (has_plan other)
                        db.organization_plans before u found (ground arith) (ground arith))),
          )
    ]
