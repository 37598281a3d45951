-- ===== src/Projects/Handlers.antt =====
-- The methods of project.service.ts: the gate, then the permission, then the throttle, then the
-- repository's transaction.
use orgistry.Prelude.{ℕ, String, ◌≡◌, ap, ◌⊎◌, none, some, arith}
use orgistry.Service.{
  ◌>>=◌, ◌>>◌, Handler, World, authorize, query, transaction, enforce_rate_limit, throttled-cases,
  action_context,
}
use orgistry.Projects.{create_project, find_active_project, update_project, soft_delete_project}
use orgistry.Access.{OrganizationActor}
use orgistry.RateLimit.{RateLimitFailureMode, rl_key, Consume}
use orgistry.Errors.{AppError, project_not_found}
use orgistry.Catalog.{PermissionKey}
use orgistry.Db.Transaction.{ok, throw, run}
use orgistry.Db.{ProjectRow, RequestContext}

pub record ProjectLimits : Type 0 where
  pub create_per_user_max : ℕ
  pub mutation_per_user_max : ℕ
  pub window_seconds : ℕ

-- The user, the organization and the request of a call.
pub record Caller : Type 0 where
  pub user_id : ℕ
  pub organization_id : ℕ
  pub request : RequestContext

abbrev pub authorize_caller : {S : Type 0} → Caller → PermissionKey → Handler S OrganizationActor
authorize_caller c permission =
    authorize c.user_id c.organization_id c.request.request_id permission

unfoldable pub read_project : {S : Type 0} → Caller → ℕ → Handler S ProjectRow
read_project c project_id = do
  actor ← authorize_caller c PermissionKey.projects_read
  query λ db. elim (find_active_project actor.organization_id project_id db) [
    | some r ↦ ok r
    | none ↦ throw project_not_found
  ]

module _ {S : Type 0} (consume : Consume S) (mode : RateLimitFailureMode)
    (limits : ProjectLimits) where
  unfoldable pub handle_create_project : Caller → String → (id now : ℕ) → Handler S ProjectRow
  handle_create_project c name id now = do
    actor ← authorize_caller c PermissionKey.projects_create
    enforce_rate_limit consume mode (rl_key "rl:project:create:user:" actor.user_id)
        limits.create_per_user_max limits.window_seconds
    transaction (
        create_project actor.organization_id name actor.user_id (action_context actor c.request) id
          now)

  unfoldable pub handle_update_project : Caller → ℕ → String → ℕ → Handler S ProjectRow
  handle_update_project c project_id name now = do
    actor ← authorize_caller c PermissionKey.projects_update
    enforce_rate_limit consume mode (rl_key "rl:project:mutate:user:" actor.user_id)
        limits.mutation_per_user_max limits.window_seconds
    transaction
        (update_project actor.organization_id project_id name (action_context actor c.request) now)

  unfoldable pub handle_delete_project : Caller → ℕ → ℕ → Handler S (Unit {0})
  handle_delete_project c project_id now = do
    actor ← authorize_caller c PermissionKey.projects_delete
    enforce_rate_limit consume mode (rl_key "rl:project:mutate:user:" actor.user_id)
        limits.mutation_per_user_max limits.window_seconds
    transaction
        (soft_delete_project actor.organization_id project_id (action_context actor c.request) now)

  -- A call to create, rename or delete a project by a caller whom the gate does not let through, or
  -- whose role lacks that permission, gets that refusal: the limiter's store is not touched and no
  -- table changes, so neither a limit nor an outage of the limiter masks it.
  pub handlers_refused :
      (c : Caller) (name : String) (project_id id now : ℕ) (w w' : World S)
      (e e_update e_delete : AppError)
      → authorize_caller c PermissionKey.projects_create w ≡ (throw e, w')
      → authorize_caller c PermissionKey.projects_update w ≡ (throw e_update, w')
      → authorize_caller c PermissionKey.projects_delete w ≡ (throw e_delete, w')
      → (handle_create_project c name id now w ≡ (throw e, w))
        × (handle_update_project c project_id name now w ≡ (throw e_update, w))
        × (handle_delete_project c project_id now w ≡ (throw e_delete, w))
  unfolding handle_create_project handle_update_project handle_delete_project authorize
  handlers_refused c name project_id id now w w' e e_update e_delete h k l =
      (ground arith, ground arith, ground arith)

  -- What a creation gives to a caller with the permission: if the throttle refuses, its error and the
  -- tables as they were; else the answer of the repository's transaction for the actor's own
  -- organization, user and membership, and what that transaction leaves.
  pub handle_create_project-cases :
      (c : Caller) (name : String) (id now : ℕ) (w : World S) (actor : OrganizationActor)
      → authorize_caller c PermissionKey.projects_create w ≡ (ok actor, w)
      → (((e : AppError) × ((handle_create_project c name id now w).0 ≡ throw e))
          × ((handle_create_project c name id now w).1.db ≡ w.db))
        ⊎ (((handle_create_project c name id now w).0
              ≡ (run
                  (create_project actor.organization_id name actor.user_id
                    (action_context actor c.request)
                    id
                    now)
                  w.db).0)
            × ((handle_create_project c name id now w).1.db
                ≡ (run
                    (create_project actor.organization_id name actor.user_id
                      (action_context actor c.request)
                      id
                      now)
                    w.db).1))
  handle_create_project-cases c name id now w actor h =
      let rest : handle_create_project c name id now w
          ≡ (enforce_rate_limit consume mode (rl_key "rl:project:create:user:" actor.user_id)
                  limits.create_per_user_max limits.window_seconds
                >> transaction (
                    create_project actor.organization_id name actor.user_id
                      (action_context actor c.request) id now))
              w =
        unfold handle_create_project in
        ap
          (λ r. elim r.0 [
            | ok a ↦
                (enforce_rate_limit consume mode (rl_key "rl:project:create:user:" a.user_id)
                      limits.create_per_user_max limits.window_seconds
                    >> transaction (
                        create_project a.organization_id name a.user_id (action_context a c.request)
                          id now))
                  r.1
            | throw e ↦ (throw e, r.1)
          ])
          h in
      rw rest (
        throttled-cases consume mode (rl_key "rl:project:create:user:" actor.user_id)
          limits.create_per_user_max limits.window_seconds
          (create_project actor.organization_id name actor.user_id (action_context actor c.request)
            id now)
          w)
