-- ===== src/Projects/Capacity.antt =====
-- The plan's ceiling on active projects (project.repo.ts under the project-quota lock).
use orgistry.Prelude.{
  ℕ, ◌+◌, ◌≤◌, ◌<◌, String, ◌≡◌, refl, ◌∙◌, ◌⊎◌, inl, inr, Bool, true, some, List, [], ◌∷◌, arith,
  ◌==◌, Option-cases, is_none,
}
use orgistry.Projects.{
  is_active_project_of, count_active_projects, new_project, create_project, find_active_project,
  set_name, set_deleted, update_project, soft_delete_project,
}
use orgistry.Plans.{
  ActionContext, record_action_event, find_organization_plan, lock_organization_entitlements,
  require_quota,
}
use orgistry.Errors.{quota_exceeded}
use orgistry.Catalog.{EntitlementKey, entitlements_for_plan}
use orgistry.Db.Transaction.{ok, throw, Result-cases}
use orgistry.Db.{OrganizationPlanRow, Database, ProjectRow}
use orgistry.Projects.Scope.{ProjectCall, call_project, creates, updates, deletes}
use orgistry.Plans.Quota.{require_quota-cases}
use orgistry.Tables.{insert_row, count-insert, count_rows, update_rows, count-update_le}

call-plans :
    (o : ℕ) (ctx : ActionContext) (call : ProjectCall) (db : Database)
    → (call_project o ctx call db).organization_plans ≡ db.organization_plans
unfolding call_project create_project update_project soft_delete_project find_active_project
    record_action_event lock_organization_entitlements require_quota
call-plans o ctx (creates name created_by id now) db = ground arith
call-plans o ctx (updates project_id name now) db = ground arith
call-plans o ctx (deletes project_id now) db = ground arith

-- The tables after some calls for one organization.
pub project_history : ℕ → Database → List (ActionContext × ProjectCall) → Database
project_history o db [] = db
project_history o db ((ctx, call) ∷ calls) = project_history o (call_project o ctx call db) calls

-- For an organization whose plan row is found, creating a project answers `quota_exceeded`, with the
-- plan's ceiling and the number of active projects, exactly if that number has reached the ceiling;
-- else it returns the new project, and there is one active project more.
pub create_project-quota :
    (o : ℕ) (name : String) (user : ℕ) (ctx : ActionContext) (id now : ℕ) (db : Database)
    (row : OrganizationPlanRow)
    → find_organization_plan o db ≡ some row
    → (((entitlements_for_plan row.plan_key).max_projects ≤ count_active_projects o db)
        × (create_project o name user ctx id now db
            ≡ throw (
                quota_exceeded EntitlementKey.max_projects
                  (entitlements_for_plan row.plan_key).max_projects
                  (count_active_projects o db))))
      ⊎ ((count_active_projects o db < (entitlements_for_plan row.plan_key).max_projects)
          × ((db' : Database) × (create_project o name user ctx id now db
                ≡ ok (new_project id o name user now, db'))
              × (count_active_projects o db' ≡ count_active_projects o db + 1)))
unfolding create_project record_action_event lock_organization_entitlements count_active_projects
    is_active_project_of
create_project-quota o name user ctx id now db row plan =
    let limit = (entitlements_for_plan row.plan_key).max_projects in
    elim (require_quota-cases EntitlementKey.max_projects (count_active_projects o db) limit db) [
      | inl (room, passed) ↦ elim (Result-cases (create_project o name user ctx id now db)) [
        | inr (e, refused) ↦ absurd (ground arith)
        | inl (r, db', created) ↦
            let inserted : db'.projects ≡ insert_row (new_project id o name user now) db.projects =
              ground arith in
            inr (room, (db', ground arith, rw inserted one_more))
      ]
      | inr (full, refused) ↦ inl (full, ground arith)
    ]
  where
    one_more :
        count_rows
          (is_active_project_of o)
          (insert_row (new_project id o name user now) db.projects)
        ≡ count_rows (is_active_project_of o) db.projects + 1
    one_more =
        ground (
          arith,
          count-insert (is_active_project_of o) (new_project id o name user now) db.projects,
        )

shrinks :
    (o : ℕ) (q : ProjectRow → Bool) (f : ProjectRow → ProjectRow) (rows : List ProjectRow)
    → ((r : ProjectRow) → ((f r).organization_id ≡ r.organization_id) × ((f r).id ≡ r.id))
    → ((r : ProjectRow) → is_none (f r).deleted_at ≡ true → is_none r.deleted_at ≡ true)
    → count_rows (is_active_project_of o) (update_rows q f rows)
      ≤ count_rows (is_active_project_of o) rows
unfolding is_active_project_of
shrinks o q f rows same live =
    count-update_le (is_active_project_of o) q f rows (λ r _ h. ground (arith, same r, live r))

-- A call that leaves more active projects than there were has not passed the ceiling.
write-bound :
    (o : ℕ) (ctx : ActionContext) (call : ProjectCall) (db : Database) (row : OrganizationPlanRow)
    → find_organization_plan o db ≡ some row
    → count_active_projects o db ≤ (entitlements_for_plan row.plan_key).max_projects
    → count_active_projects o (call_project o ctx call db)
      ≤ (entitlements_for_plan row.plan_key).max_projects
unfolding call_project update_project soft_delete_project record_action_event count_active_projects
write-bound o ctx (creates name created_by id now) db row plan bound =
    elim (create_project-quota o name created_by ctx id now db row plan) [
      | inl (full, refused) ↦ ground arith
      | inr (room, (db', created, more)) ↦ ground arith
    ]
write-bound o ctx (updates project_id name now) db row plan bound =
    elim (Option-cases (find_active_project o project_id db)) [
      | inl missing ↦ ground arith
      | inr (t, found) ↦
          let less =
            shrinks o (λ r. r.id == t.id) (set_name name now) db.projects (λ r. (refl, refl))
              (λ r h. h) in
          ground arith
    ]
write-bound o ctx (deletes project_id now) db row plan bound =
    elim (Option-cases (find_active_project o project_id db)) [
      | inl missing ↦ ground arith
      | inr (t, found) ↦
          let less =
            shrinks o (λ r. r.id == t.id) (set_deleted ctx.actor_user_id now) db.projects
              (λ r. (refl, refl)) (λ r h. absurd (cc)) in
          ground arith
    ]

-- The active projects of an organization stay within its plan's ceiling through any history of
-- creations, renamings and deletions for it, whether they succeed or fail.
pub project_history-bound :
    (o : ℕ) (db : Database) (calls : List (ActionContext × ProjectCall)) (row : OrganizationPlanRow)
    → find_organization_plan o db ≡ some row
    → count_active_projects o db ≤ (entitlements_for_plan row.plan_key).max_projects
    → count_active_projects o (project_history o db calls)
      ≤ (entitlements_for_plan row.plan_key).max_projects
unfolding project_history
project_history-bound o db [] row plan bound = bound
project_history-bound o db ((ctx, call) ∷ calls) row plan bound =
    project_history-bound o (call_project o ctx call db) calls row (same_plan ∙ plan)
      (write-bound o ctx call db row plan bound)
  where
    same_plan : find_organization_plan o (call_project o ctx call db) ≡ find_organization_plan o db
    same_plan = unfold find_organization_plan in rw (call-plans o ctx call db) refl
