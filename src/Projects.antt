-- ===== src/Projects.antt =====
-- apps/api/src/modules/projects: project.repo.ts and project.service.ts. A new row's id (`createId`)
-- and the time (`new Date()`) are arguments.
pub mod Scope
pub mod Capacity
pub mod Handlers
use orgistry.Prelude.{ℕ, String, Bool, ◌&&◌, Option, none, some, List, ◌==◌, is_none}
use orgistry.Tables.{find_row, count_rows, update_rows, insert_row}
use orgistry.Metadata.{end, id_entry, text_entry}
use orgistry.Errors.{project_not_found}
use orgistry.Catalog.{EntitlementKey}
use orgistry.Db.{Database, ProjectRow}
use orgistry.Db.Transaction.{Tx, ◌>>=◌, ◌>>◌, return, read, write, require_row}
use orgistry.Plans.{
  ActionContext, record_action_event, evaluate_count_quota, require_quota,
  lock_organization_entitlements,
}
use orgistry.Pagination.{Cursor, list_rows}

unfoldable pub is_active_project_of : ℕ → ProjectRow → Bool
is_active_project_of organization_id r =
    r.organization_id == organization_id && is_none r.deleted_at

-- The condition by which one active project is addressed.
unfoldable pub is_addressed : ℕ → ℕ → ProjectRow → Bool
is_addressed organization_id project_id r =
    r.organization_id == organization_id && r.id == project_id && is_none r.deleted_at

unfoldable pub list_active_projects : ℕ → ℕ → Option Cursor → Database → List ProjectRow
list_active_projects organization_id limit cursor db =
    list_rows (λ r. r.created_at) (λ r. r.id) (is_active_project_of organization_id) limit cursor
      db.projects

unfoldable pub count_active_projects : ℕ → Database → ℕ
count_active_projects organization_id db =
    count_rows (is_active_project_of organization_id) db.projects

-- The insertion sets no time: `created_at` is the `now()` of the database, in microseconds.
abbrev pub new_project : ℕ → ℕ → String → ℕ → ℕ → ProjectRow
new_project id organization_id name created_by_user_id created_at = record {
  id = id;
  organization_id = organization_id;
  name = name;
  created_by_user_id = created_by_user_id;
  deleted_at = none;
  deleted_by_user_id = none;
  created_at = created_at;
  updated_at = created_at;
}

unfoldable pub create_project : ℕ → String → ℕ → ActionContext → (id created_at : ℕ) → Tx ProjectRow
create_project organization_id name created_by_user_id ctx id created_at = do
  e ← lock_organization_entitlements organization_id
  current ← read (count_active_projects organization_id)
  require_quota EntitlementKey.max_projects (evaluate_count_quota current e.values.max_projects)
  write λ db. record db {
    projects =
        insert_row (new_project id organization_id name created_by_user_id created_at) db.projects;
  }
  record_action_event organization_id "project.created"
      (text_entry "targetType" "project"
        (id_entry "targetProjectId" id (text_entry "name" name end)))
      ctx
  return (new_project id organization_id name created_by_user_id created_at)

unfoldable pub find_active_project : ℕ → ℕ → Database → Option ProjectRow
find_active_project organization_id project_id db =
    find_row (is_addressed organization_id project_id) db.projects

abbrev pub set_name : String → ℕ → ProjectRow → ProjectRow
set_name name now r = record r { name = name; updated_at = now }

abbrev pub set_deleted : ℕ → ℕ → ProjectRow → ProjectRow
set_deleted user_id now r = record r {
  deleted_at = some now;
  deleted_by_user_id = some user_id;
  updated_at = now;
}

unfoldable pub update_project : ℕ → ℕ → String → ActionContext → ℕ → Tx ProjectRow
update_project organization_id project_id name ctx now = do
  found ← read (find_active_project organization_id project_id)
  target ← require_row found project_not_found
  write λ db. record db {
    projects = update_rows (λ r. r.id == target.id) (set_name name now) db.projects;
  }
  record_action_event organization_id "project.updated"
      (text_entry "targetType" "project"
        (id_entry "targetProjectId" target.id (text_entry "name" name end)))
      ctx
  return (set_name name now target)

unfoldable pub soft_delete_project : ℕ → ℕ → ActionContext → ℕ → Tx (Unit {0})
soft_delete_project organization_id project_id ctx now = do
  found ← read (find_active_project organization_id project_id)
  target ← require_row found project_not_found
  write λ db. record db {
    projects = update_rows (λ r. r.id == target.id) (set_deleted ctx.actor_user_id now) db.projects;
  }
  record_action_event organization_id "project.deleted"
      (text_entry "targetType" "project" (id_entry "targetProjectId" target.id end)) ctx
