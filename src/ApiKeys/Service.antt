-- ===== src/ApiKeys/Service.antt =====
-- apps/api/src/modules/api-keys/api-key.service.ts, with the query of the list from api-key.repo.ts.
-- The random parts of a new key, its row's id and the time are arguments.
use orgistry.Prelude.{ℕ, String, ◌≡◌, ◌⊎◌, inl, inr, Bool, true, Option, List, arith, ◌==◌}
use orgistry.Service.{
  ◌>>=◌, ◌>>◌, Handler, pure, query, transaction, enforce_rate_limit, authorize, action_context,
  World,
}
use orgistry.Access.{OrganizationActor, actor_has_permission}
use orgistry.Plans.{require_api_keys_access, require_entitlement, lock_organization_entitlements}
use orgistry.RateLimit.{RateLimitFailureMode, rl_key, Consume}
use orgistry.Catalog.{PermissionKey, ApiKeyScope}
use orgistry.Pagination.{Cursor, Page, list_rows, page_of}
use orgistry.ApiKeys.{
  GeneratedApiKey, generate_api_key_secret, CreateApiKeyParams, create_api_key, revoke_api_key,
}
use orgistry.Db.Transaction.{ok, throw, run, Result-cases, Outcome-cases}
use orgistry.Db.{ApiKeyRow, Database, RequestContext}
use orgistry.Errors.{AppError}
use orgistry.Access.Authorization.{authorize-cases}
use orgistry.Access.Gate.{IsStanding}

pub record ApiKeyMutationLimits : Type 0 where
  pub window_seconds : ℕ
  pub create_per_user_max : ℕ

pub record CreateApiKeyInput : Type 0 where
  pub user_id : ℕ
  pub organization_id : ℕ
  pub name : String
  pub scopes : List ApiKeyScope
  pub expires_at : Option ℕ
  pub request : RequestContext

abbrev pub api_key_params :
    OrganizationActor → CreateApiKeyInput → GeneratedApiKey → ℕ → CreateApiKeyParams
api_key_params actor input generated now = record {
  organization_id = actor.organization_id;
  name = input.name;
  display_prefix = generated.display_prefix;
  secret_hash = generated.secret_hash;
  scopes = input.scopes;
  expires_at = input.expires_at;
  created_by_user_id = actor.user_id;
  now = now;
  ctx = action_context actor input.request;
}

-- The key with its raw secret, which is given this once.
unfoldable pub handle_create_api_key :
    {S : Type 0}
    → (hash_api_key_secret : List ℕ → String) → Consume S
    → RateLimitFailureMode
    → ApiKeyMutationLimits
    → CreateApiKeyInput
    → (display_id secret : List ℕ) → (id now : ℕ) → Handler S (ApiKeyRow × List ℕ)
handle_create_api_key hash_api_key_secret consume mode limits input display_id secret id now = do
  actor ←
      authorize input.user_id input.organization_id input.request.request_id
        PermissionKey.api_keys_create
  enforce_rate_limit consume mode (rl_key "rl:api-key:create:user:" actor.user_id)
      limits.create_per_user_max limits.window_seconds
  transaction (require_api_keys_access actor.organization_id)
  row ← transaction (
      create_api_key
        (api_key_params actor input (generate_api_key_secret hash_api_key_secret display_id secret)
          now)
        id)
  pure (row, (generate_api_key_secret hash_api_key_secret display_id secret).raw)

unfoldable pub list_api_keys : ℕ → ℕ → Option Cursor → Database → List ApiKeyRow
list_api_keys organization_id limit cursor db =
    list_rows (λ k. k.created_at) (λ k. k.id)
      (λ (k : ApiKeyRow). k.organization_id == organization_id) limit cursor db.api_keys

unfoldable pub handle_list_api_keys :
    {S : Type 0}
    → (user_id organization_id : ℕ) → (request_id : Option String) → (limit : ℕ) → Option Cursor
    → Handler S (Page ApiKeyRow)
handle_list_api_keys user_id organization_id request_id limit cursor = do
  actor ← authorize user_id organization_id request_id PermissionKey.api_keys_read
  transaction (require_api_keys_access actor.organization_id)
  rows ← query (λ db. ok (list_api_keys actor.organization_id limit cursor db))
  pure (page_of (λ k. k.created_at) (λ k. k.id) limit rows)

unfoldable pub handle_revoke_api_key :
    {S : Type 0}
    → (user_id organization_id api_key_id : ℕ) → RequestContext
    → (now : ℕ) → Handler S Bool
handle_revoke_api_key user_id organization_id api_key_id ctx now = do
  actor ← authorize user_id organization_id ctx.request_id PermissionKey.api_keys_revoke
  transaction (require_api_keys_access actor.organization_id)
  transaction (revoke_api_key actor.organization_id api_key_id (action_context actor ctx) now)

-- The entitlement check only reads.
require_api_keys_access-cases :
    (o : ℕ) (db : Database)
    → (require_api_keys_access o db ≡ ok (tt, db))
      ⊎ ((e : AppError) × (require_api_keys_access o db ≡ throw e))
unfolding require_api_keys_access lock_organization_entitlements require_entitlement
require_api_keys_access-cases o db = elim (Outcome-cases (require_api_keys_access o db)) [
  | inl (a, granted) ↦ inl (ground arith)
  | inr (e, refused) ↦ inr (e, refused)
]

-- A request to revoke an API key writes nothing, or its user has standing in the organization that it
-- names with a role that may revoke keys, the plan grants API keys, and what is written is what the
-- repository's transaction writes for that actor and that organization.
pub handle_revoke_api_key-authorized :
    {S : Type 0} (user_id o api_key_id : ℕ) (ctx : RequestContext) (now : ℕ) (w : World S)
    → ((handle_revoke_api_key user_id o api_key_id ctx now w).1.db ≡ w.db)
      ⊎ ((actor : OrganizationActor) × IsStanding w.db user_id o actor
          × (actor_has_permission actor PermissionKey.api_keys_revoke ≡ true)
          × (require_api_keys_access actor.organization_id w.db ≡ ok (tt, w.db))
          × ((handle_revoke_api_key user_id o api_key_id ctx now w).1.db
              ≡ (run
                  (revoke_api_key actor.organization_id api_key_id (action_context actor ctx) now)
                  w.db).1))
unfolding handle_revoke_api_key
handle_revoke_api_key-authorized user_id o api_key_id ctx now w =
    elim (authorize-cases user_id o ctx.request_id PermissionKey.api_keys_revoke w) [
      | inl (e, refused) ↦ inl (ground arith)
      | inr (actor, standing, held, admitted) ↦
          elim (require_api_keys_access-cases actor.organization_id w.db) [
            | inr (e, ungranted) ↦ inl (ground arith)
            | inl granted ↦
                elim (Result-cases (
                  revoke_api_key actor.organization_id api_key_id (action_context actor ctx) now
                    w.db)) [
                      | inl (r, left, done) ↦ inr (actor, standing, held, granted, ground arith)
                      | inr (e, refused) ↦ inl (ground arith)
                    ]
          ]
    ]
