-- ===== src/Projects/Scope.antt =====
-- Tenant isolation and soft deletion of projects (project.repo.ts).
use orgistry.Prelude.{
  ℕ, String, ◌≡◌, refl, subst, ◌≢◌, inl, inr, Bool, true, false, none, some, List, arith, ◌==◌,
  Option-cases, is_none,
}
use orgistry.Tables.{
  find_row, select_rows, update_rows, insert_row, HasUniqueIds, find_sound, select-update_other,
  select-insert_miss, find-update_none,
}
use orgistry.Errors.{project_not_found}
use orgistry.Db.{Database, ProjectRow}
use orgistry.Db.Transaction.{ok, throw, run, Result-cases}
use orgistry.Plans.{
  ActionContext, record_action_event, lock_organization_entitlements, require_quota,
}
use orgistry.Projects.{
  is_addressed, create_project, find_active_project, set_name, set_deleted, new_project,
  update_project, soft_delete_project,
}
use orgistry.Pagination.{before}

-- The mutations of the module, each in its own transaction.
pub data ProjectCall : Type 0 where
  creates : (name : String) (created_by id now : ℕ) → ProjectCall
  updates : (project_id : ℕ) (name : String) (now : ℕ) → ProjectCall
  deletes : (project_id now : ℕ) → ProjectCall

-- A call for one organization.
unfoldable pub call_project : ℕ → ActionContext → ProjectCall → Database → Database
call_project o ctx (creates name created_by id now) db =
    (run (create_project o name created_by ctx id now) db).1
call_project o ctx (updates project_id name now) db =
    (run (update_project o project_id name ctx now) db).1
call_project o ctx (deletes project_id now) db =
    (run (soft_delete_project o project_id ctx now) db).1

-- What a call leaves of the table: as it was, one row more, or one row changed that was found.
pub data ProjectWrite (o : ℕ) (before : List ProjectRow) : List ProjectRow → Type 0 where
  kept : {after : List ProjectRow} → after ≡ before → ProjectWrite o before after
  added :
      {after : List ProjectRow} (name : String) (created_by id now : ℕ)
      → after ≡ insert_row (new_project id o name created_by now) before
      → ProjectWrite o before after
  changed :
      {after : List ProjectRow} (project_id : ℕ) (t : ProjectRow) (f : ProjectRow → ProjectRow)
      → find_row (is_addressed o project_id) before ≡ some t
      → ((r : ProjectRow) → ((f r).organization_id ≡ r.organization_id) × ((f r).id ≡ r.id))
      → ((r : ProjectRow) → is_none (f r).deleted_at ≡ true → is_none r.deleted_at ≡ true)
      → after ≡ update_rows (λ r. r.id == t.id) f before
      → ProjectWrite o before after

pub call-ProjectWrite :
    (o : ℕ) (ctx : ActionContext) (call : ProjectCall) (db : Database)
    → ProjectWrite o db.projects (call_project o ctx call db).projects
unfolding call_project create_project update_project soft_delete_project find_active_project
    record_action_event lock_organization_entitlements require_quota
call-ProjectWrite o ctx (creates name created_by id now) db =
    elim (Result-cases (create_project o name created_by ctx id now db)) [
      | inr (e, refused) ↦ kept (ground arith)
      | inl (a, db', done) ↦ added name created_by id now (ground arith)
    ]
call-ProjectWrite o ctx (updates project_id name now) db =
    elim (Option-cases (find_row (is_addressed o project_id) db.projects)) [
      | inl missing ↦ kept (ground arith)
      | inr (t, found) ↦
          changed project_id t (set_name name now) found (λ r. (refl, refl)) (λ r h. h)
            (ground arith)
    ]
call-ProjectWrite o ctx (deletes project_id now) db =
    elim (Option-cases (find_row (is_addressed o project_id) db.projects)) [
      | inl missing ↦ kept (ground arith)
      | inr (t, found) ↦
          changed project_id t (set_deleted ctx.actor_user_id now) found (λ r. (refl, refl))
            (λ r h. absurd (cc)) (ground arith)
    ]

abbrev pub belongs_to : ℕ → ProjectRow → Bool
belongs_to organization_id r = r.organization_id == organization_id

write_isolated :
    (o other : ℕ) (before after : List ProjectRow)
    → HasUniqueIds (λ r. r.id) before
    → other ≢ o
    → ProjectWrite o before after
    → select_rows (belongs_to other) after ≡ select_rows (belongs_to other) before
write_isolated o other before after u n (kept e) = rw e refl
write_isolated o other before after u n (added name created_by id now e) = rw e (
    select-insert_miss (belongs_to other) (new_project id o name created_by now) before
      (ground arith))
write_isolated o other before after u n (changed project_id t f found same live e) =
    let here = find_sound (is_addressed o project_id) before t found in
    let theirs : belongs_to other t ≡ false = addressed_elsewhere here in
    rw e (
      select-update_other (λ r. r.id) (is_addressed o project_id) f (belongs_to other) before t u
        found theirs (rw (same t).0 theirs))
  where
    addressed_elsewhere : is_addressed o project_id t ≡ true → belongs_to other t ≡ false
    addressed_elsewhere h = unfold is_addressed in ground arith

-- Whatever a request for one organization creates, renames or deletes, every project row of every
-- other organization stays as it was.
pub call_project_isolated :
    (o other : ℕ) (ctx : ActionContext) (call : ProjectCall) (db : Database)
    → HasUniqueIds (λ r. r.id) db.projects
    → other ≢ o
    → select_rows (belongs_to other) (call_project o ctx call db).projects
      ≡ select_rows (belongs_to other) db.projects
call_project_isolated o other ctx call db u n =
    write_isolated o other db.projects _ u n (call-ProjectWrite o ctx call db)

-- A deleted project is gone for the API: it is not found, and renaming it or deleting it again
-- fails with `project_not_found`.
pub soft_delete_project-gone :
    (o project_id : ℕ) (ctx : ActionContext) (name : String) (now later : ℕ) (db db' : Database)
    → soft_delete_project o project_id ctx now db ≡ ok (tt, db')
    → (find_active_project o project_id db' ≡ none)
      × (update_project o project_id name ctx later db' ≡ throw project_not_found)
      × (soft_delete_project o project_id ctx later db' ≡ throw project_not_found)
unfolding soft_delete_project update_project find_active_project record_action_event
soft_delete_project-gone o project_id ctx name now later db db' done =
    elim (Option-cases (find_row (is_addressed o project_id) db.projects)) [
      | inl missing ↦ absurd (ground arith)
      | inr (t, found) ↦
          let gone : find_row (is_addressed o project_id) db'.projects ≡ none =
            subst (λ rows. find_row (is_addressed o project_id) rows ≡ none) (written t found)
              (find-update_none (λ r. r.id == t.id) (is_addressed o project_id)
                (set_deleted ctx.actor_user_id now) db.projects
                (same_id t (find_sound (is_addressed o project_id) db.projects t found)) dead) in
          (gone, ground arith, ground arith)
    ]
  where
    written :
        (t : ProjectRow)
        → find_row (is_addressed o project_id) db.projects ≡ some t
        → update_rows (λ r. r.id == t.id) (set_deleted ctx.actor_user_id now) db.projects
          ≡ db'.projects
    written t found = ground arith

    same_id :
        (t : ProjectRow)
        → is_addressed o project_id t ≡ true
        → (r : ProjectRow) → is_addressed o project_id r ≡ true
        → (r.id == t.id) ≡ true
    same_id t h r k = unfold is_addressed in ground arith

    dead :
        (r : ProjectRow) → is_addressed o project_id (set_deleted ctx.actor_user_id now r) ≡ false
    dead r = unfold is_addressed in ground arith
