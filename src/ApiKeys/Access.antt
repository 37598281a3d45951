-- ===== src/ApiKeys/Access.antt =====
-- Whom the authentication lets through, and the ceiling on keys.
use orgistry.Prelude.{
  ℕ, ◌≤◌, ◌<◌, String, ◌≡◌, refl, ◌⊎◌, inl, inr, Bool, true, false, not, ◌&&◌, Option, none, some,
  List, arith, ◌==◌, str_eq, Bool-cases, Option-cases, is_some, is_none, any,
}
use orgistry.Service.{World}
use orgistry.Db.Transaction.{throw, ok, Result-cases, Outcome-cases}
use orgistry.Plans.{
  record_action_event, is_granted, require_entitlement, find_organization_plan, ActionContext,
}
use orgistry.RateLimit.{RateLimitFailureMode, Consume}
use orgistry.Errors.{quota_exceeded, entitlement_required, api_key_unauthorized}
use orgistry.Catalog.{EntitlementKey, entitlements_for_plan, ApiKeyScope, same_scope}
use orgistry.ApiKeys.{
  is_past, count_active_api_keys, CreateApiKeyParams, new_api_key, create_api_key, ParsedApiKey,
  parse_api_key, find_by_secret_hash, is_key_of, revoke_api_key, set_key_revoked,
}
use orgistry.Db.{OrganizationPlanRow, ApiKeyRow, Database, RequestContext}
use orgistry.Tables.{insert_row, find_row, update_rows, find-update_found}
use orgistry.Plans.Quota.{require_quota-cases, lock-cases}
use orgistry.ApiKeys.Authenticator.{
  ExternalRateLimits, record_auth_event, has_active_organization, hit,
  record_failed_auth_event_bounded, reject_key, check_key, resolve_api_key_access, check_grants,
  ApiKeyActor, parse_presented, admit_key, authenticate,
}
use orgistry.Pagination.{before}

-- For an organization whose plan row is found, and a secret that no key has: without the entitlement the creation of a key fails
-- with `entitlement_required`; with it, it fails with `quota_exceeded` exactly if the active keys have
-- reached the plan's ceiling, and else inserts the key.
pub create_api_key-cases :
    (p : CreateApiKeyParams) (id : ℕ) (db : Database) (plan : OrganizationPlanRow)
    → find_organization_plan p.organization_id db ≡ some plan
    → find_by_secret_hash p.secret_hash db ≡ none
    → (((entitlements_for_plan plan.plan_key).api_keys_access ≡ false)
        × (create_api_key p id db ≡ throw (entitlement_required EntitlementKey.api_keys_access)))
      ⊎ ((((entitlements_for_plan plan.plan_key).api_keys_access ≡ true)
            × ((entitlements_for_plan plan.plan_key).max_api_keys
                ≤ count_active_api_keys p.organization_id p.now db)
            × (create_api_key p id db
                ≡ throw (
                    quota_exceeded EntitlementKey.max_api_keys
                      (entitlements_for_plan plan.plan_key).max_api_keys
                      (count_active_api_keys p.organization_id p.now db))))
          ⊎ (((entitlements_for_plan plan.plan_key).api_keys_access ≡ true)
              × (count_active_api_keys p.organization_id p.now db
                  < (entitlements_for_plan plan.plan_key).max_api_keys)
              × ((db' : Database) × (create_api_key p id db ≡ ok (new_api_key p id, db'))
                  × (db'.api_keys ≡ insert_row (new_api_key p id) db.api_keys))))
unfolding create_api_key require_entitlement is_granted record_action_event
create_api_key-cases p id db plan planned unused = elim (lock-cases p.organization_id db) [
  | inl (missing, refused) ↦ absurd (cc)
  | inr (row, found, snapshot) ↦
      let same : row ≡ plan = ground arith in
      elim (Bool-cases (entitlements_for_plan plan.plan_key).api_keys_access) [
        | inr denied ↦ inl (denied, ground arith)
        | inl allowed_here ↦
            elim (require_quota-cases EntitlementKey.max_api_keys
              (count_active_api_keys p.organization_id p.now db)
              (entitlements_for_plan plan.plan_key).max_api_keys db) [
                | inr (full, refused) ↦ inr (inl (allowed_here, full, ground arith))
                | inl (room, passed) ↦ elim (Result-cases (create_api_key p id db)) [
                  | inr (e, refused) ↦ absurd (ground arith)
                  | inl (k, db', done) ↦
                      inr (inr (allowed_here, room, (db', ground arith, ground arith)))
                ]
              ]
      ]
]

-- The stored key that a request acts with.
pub record IsAdmitted (hash : List ℕ → String) (raw : Option (List ℕ)) (scope : ApiKeyScope)
    (now : ℕ) (db : Database) (actor : ApiKeyActor) : Type 0 where
  pub parsed : ParsedApiKey
  pub row : ApiKeyRow
  pub readable : parse_presented raw ≡ some parsed
  pub stored : find_by_secret_hash (hash parsed.secret_component) db ≡ some row
  pub unrevoked : is_none row.revoked_at ≡ true
  pub unexpired : is_past row.expires_at now ≡ false
  pub live : has_active_organization row.organization_id db ≡ true
  pub entitled : resolve_api_key_access row.organization_id db ≡ ok true
  pub scoped : any (same_scope scope) row.scopes ≡ true
  pub same_key : actor.api_key_id ≡ row.id
  pub same_organization : actor.organization_id ≡ row.organization_id
  pub same_scopes : actor.scopes ≡ row.scopes

module _ {S : Type 0} (hash : List ℕ → String) (consume : Consume S) (mode : RateLimitFailureMode)
    (limits : ExternalRateLimits) where
  -- A key that is revoked or past its expiry, or whose organization is not active, is refused with the
  -- uniform 401, whatever the limiter answers.
  check_key-rejects :
      (row : ApiKeyRow) (ctx : RequestContext) (now : ℕ) (w : World S)
      → (is_none row.revoked_at
          && not (is_past row.expires_at now)
          && has_active_organization row.organization_id w.db)
        ≡ false
      → (check_key hash consume mode limits row ctx now w).0 ≡ throw api_key_unauthorized
  unfolding check_key reject_key record_failed_auth_event_bounded hit record_auth_event
  check_key-rejects row ctx now w h = ground arith

  check_key-cases :
      (row : ApiKeyRow) (ctx : RequestContext) (now : ℕ) (w : World S)
      → (check_key hash consume mode limits row ctx now w).0 ≡ ok tt
      → ((is_none row.revoked_at
            && not (is_past row.expires_at now)
            && has_active_organization row.organization_id w.db)
          ≡ true)
        × (check_key hash consume mode limits row ctx now w ≡ (ok tt, w))
  unfolding check_key reject_key record_failed_auth_event_bounded hit record_auth_event
  check_key-cases row ctx now w h = (ground arith, ground arith)

  check_grants-cases :
      (row : ApiKeyRow) (ctx : RequestContext) (scope : ApiKeyScope) (w : World S)
      → (check_grants hash consume mode limits row ctx scope w).0 ≡ ok tt
      → (resolve_api_key_access row.organization_id w.db ≡ ok true)
        × (any (same_scope scope) row.scopes ≡ true)
  unfolding check_grants record_auth_event
  check_grants-cases row ctx scope w h = (ground arith, ground arith)

  -- A request is authenticated only by a raw key of the format whose secret's hash is stored, for a key
  -- that is neither revoked nor expired, of an active organization whose plan grants API keys now, and
  -- that has the required scope; the actor carries that key, its organization and its scopes.
  pub authenticate-IsAdmitted :
      (raw : Option (List ℕ)) (ctx : RequestContext) (scope : ApiKeyScope) (now : ℕ)
      (w w' : World S) (actor : ApiKeyActor)
      → authenticate hash consume mode limits raw ctx scope now w ≡ (ok actor, w')
      → IsAdmitted hash raw scope now w.db actor
  unfolding authenticate reject_key
  authenticate-IsAdmitted raw ctx scope now w w' actor done =
      elim (Option-cases (parse_presented raw)) [
        | inl unreadable ↦
            absurd (unfold record_failed_auth_event_bounded hit record_auth_event in ground arith)
        | inr (parsed, readable) ↦
            elim (Option-cases (find_by_secret_hash (hash parsed.secret_component) w.db)) [
              | inl unknown ↦
                  absurd
                    (unfold record_failed_auth_event_bounded hit record_auth_event in ground arith)
              | inr (row, stored) ↦
                  let admitted : admit_key hash consume mode limits row ctx scope now w
                      ≡ (ok actor, w') =
                    ground arith in
                  admitted_row parsed row readable stored admitted
            ]
      ]
    where
      admitted_row :
          (parsed : ParsedApiKey) (row : ApiKeyRow)
          → parse_presented raw ≡ some parsed
          → find_by_secret_hash (hash parsed.secret_component) w.db ≡ some row
          → admit_key hash consume mode limits row ctx scope now w ≡ (ok actor, w')
          → IsAdmitted hash raw scope now w.db actor
      admitted_row parsed row readable stored admitted =
          elim (Outcome-cases (check_key hash consume mode limits row ctx now w).0) [
            | inr (e, refused) ↦ absurd (unfold admit_key in ground arith)
            | inl (u, passed) ↦
                let (sound, same) = check_key-cases row ctx now w passed in
                elim (Outcome-cases (check_grants hash consume mode limits row ctx scope w).0) [
                  | inr (e, refused) ↦ absurd (unfold admit_key in ground arith)
                  | inl (v, allowed_here) ↦
                      let (entitled, scoped) = check_grants-cases row ctx scope w allowed_here in
                      let answer : (actor.api_key_id ≡ row.id)
                          × (actor.organization_id ≡ row.organization_id)
                          × (actor.scopes ≡ row.scopes) =
                        unfold admit_key in ground arith in
                      record {
                        parsed = parsed;
                        row = row;
                        readable = readable;
                        stored = stored;
                        unrevoked = ground arith;
                        unexpired = ground arith;
                        live = ground arith;
                        entitled = entitled;
                        scoped = scoped;
                        same_key = answer.0;
                        same_organization = answer.1;
                        same_scopes = answer.2;
                      }
                ]
          ]

  -- A key that was revoked never authenticates again: after its revocation a raw key whose secret's
  -- hash finds it is refused with the uniform 401, whatever the limiter answers.
  pub revoke_api_key-final :
      (o kid : ℕ) (actx : ActionContext) (raw : List ℕ) (parsed : ParsedApiKey) (row : ApiKeyRow)
      (ctx : RequestContext) (scope : ApiKeyScope) (now later : ℕ) (answer : Bool) (db' : Database)
      (w : World S)
      → revoke_api_key o kid actx now w.db ≡ ok (answer, db')
      → find_row (is_key_of o kid) w.db.api_keys ≡ some row
      → parse_api_key raw ≡ some parsed
      → find_by_secret_hash (hash parsed.secret_component) w.db ≡ some row
      → (authenticate hash consume mode limits (some raw) ctx scope later (record w { db = db' })).0
        ≡ throw api_key_unauthorized
  revoke_api_key-final o kid actx raw parsed row ctx scope now later answer db' w done addressed
        readable stored =
      elim (Bool-cases (is_some row.revoked_at)) [
        | inl before ↦
            let same : db' ≡ w.db = unfold revoke_api_key in ground arith in
            refused row (rw same stored) (ground arith)
        | inr fresh ↦
            let rows : db'.api_keys
                ≡ update_rows (λ k. k.id == row.id) (set_key_revoked actx.actor_user_id now)
                    w.db.api_keys =
              unfold revoke_api_key record_action_event in ground arith in
            refused (set_key_revoked actx.actor_user_id now row) (found_revoked rows) refl
      ]
    where
      found_revoked :
          db'.api_keys
            ≡ update_rows
                (λ k. k.id == row.id)
                (set_key_revoked actx.actor_user_id now)
                w.db.api_keys
          → find_by_secret_hash (hash parsed.secret_component) db'
            ≡ some (set_key_revoked actx.actor_user_id now row)
      found_revoked rows =
          unfold find_by_secret_hash in
          rw rows (
            find-update_found (λ k. k.id) (λ k. str_eq k.secret_hash (hash parsed.secret_component))
              (set_key_revoked actx.actor_user_id now) w.db.api_keys row (λ k. refl)
              (unfold find_by_secret_hash in stored))

      refused :
          (now_row : ApiKeyRow)
          → find_by_secret_hash (hash parsed.secret_component) db' ≡ some now_row
          → is_none now_row.revoked_at ≡ false
          → (authenticate hash consume mode limits
              (some raw)
              ctx
              scope
              later
              (record w { db = db' })).0
            ≡ throw api_key_unauthorized
      refused now_row found revoked =
          let rejection =
            check_key-rejects now_row ctx later (record w { db = db' }) (ground arith) in
          unfold authenticate parse_presented admit_key in ground arith
