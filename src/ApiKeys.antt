-- ===== src/ApiKeys.antt =====
-- apps/api/src/modules/api-keys: api-key-secret.ts and the mutations of api-key.repo.ts. A key is a
-- list of UTF-16 code units; its random parts and its hash (SHA-256) are arguments.
pub mod Secret
pub mod Authenticator
pub mod Access
pub mod Service
use orgistry.Prelude.{
  ℕ, String, Bool, true, false, ◌&&◌, Option, none, some, List, [], ◌∷◌, ◌++◌, ltb, leb, ◌==◌,
  if◌then◌else◌, str_eq, is_some, is_none,
}
use orgistry.Metadata.{nil, end, codes, text, array, Values, cons, entry, id_entry, text_entry}
use orgistry.Db.Transaction.{◌>>=◌, ◌>>◌, Tx, return, read, write, require_row, reject_if}
use orgistry.Plans.{
  ActionContext, record_action_event, evaluate_count_quota, require_quota, require_entitlement,
  lock_organization_entitlements,
}
use orgistry.Errors.{api_key_not_found, unique_violation}
use orgistry.Catalog.{EntitlementKey, ApiKeyScope, scope_projects_read}
use orgistry.Db.{ApiKeyRow, Database}
use orgistry.Tables.{find_row, count_rows, update_rows, insert_row}

abbrev pub separator : ℕ
separator = 95

-- `orgistry_`.
unfoldable pub scheme_prefix : List ℕ
scheme_prefix = codes "orgistry" ++ separator ∷ []

pub record GeneratedApiKey : Type 0 where
  pub raw : List ℕ
  pub display_prefix : List ℕ
  pub secret_hash : String

unfoldable pub generate_api_key_secret :
    (hash_api_key_secret : List ℕ → String) (display_id secret : List ℕ) → GeneratedApiKey
generate_api_key_secret hash_api_key_secret display_id secret = record {
  raw = (scheme_prefix ++ display_id) ++ separator ∷ secret;
  display_prefix = scheme_prefix ++ display_id;
  secret_hash = hash_api_key_secret secret;
}

pub record ParsedApiKey : Type 0 where
  pub display_prefix : List ℕ
  pub secret_component : List ℕ

-- `startsWith` and the `slice` behind it.
unfoldable pub strip_prefix : List ℕ → List ℕ → Option (List ℕ)
strip_prefix [] xs = some xs
strip_prefix (c ∷ cs) [] = none
strip_prefix (c ∷ cs) (x ∷ xs) = if c == x then strip_prefix cs xs else none

-- What stands before and behind the first separator.
unfoldable pub split_at_separator : List ℕ → Option (List ℕ × List ℕ)
split_at_separator [] = none
split_at_separator (x ∷ xs) =
    let rest = split_at_separator xs in
    if x == separator
    then some ([], xs)
    else elim rest [ none ↦ none | some (a, b) ↦ some (x ∷ a, b) ]

parsed_parts : List ℕ × List ℕ → Option ParsedApiKey
parsed_parts ([], secret) = none
parsed_parts (c ∷ cs, []) = none
parsed_parts (c ∷ cs, s ∷ ss) =
    some (record { display_prefix = scheme_prefix ++ c ∷ cs; secret_component = s ∷ ss })

unfoldable pub parse_api_key : List ℕ → Option ParsedApiKey
unfolding parsed_parts
parse_api_key raw = elim (strip_prefix scheme_prefix raw) [
  | none ↦ none
  | some remainder ↦ elim (split_at_separator remainder) [
    | none ↦ none
    | some parts ↦ parsed_parts parts
  ]
]

pub data ApiKeyStatus : Type 0 where
  key_active key_revoked key_expired : ApiKeyStatus

unfoldable pub is_past : Option ℕ → ℕ → Bool
is_past none now = false
is_past (some expires_at) now = leb expires_at now

unfoldable pub api_key_status : ApiKeyRow → ℕ → ApiKeyStatus
api_key_status row now =
    if is_some row.revoked_at
    then key_revoked
    else (if is_past row.expires_at now then key_expired else key_active)

-- `isNull(expiresAt) or expiresAt > now`.
unfoldable pub is_unexpired : Option ℕ → ℕ → Bool
is_unexpired none now = true
is_unexpired (some expires_at) now = ltb now expires_at

unfoldable pub is_active_key_of : ℕ → ℕ → ApiKeyRow → Bool
is_active_key_of organization_id now k =
    k.organization_id == organization_id && is_none k.revoked_at && is_unexpired k.expires_at now

unfoldable pub count_active_api_keys : ℕ → ℕ → Database → ℕ
count_active_api_keys organization_id now db =
    count_rows (is_active_key_of organization_id now) db.api_keys

pub record CreateApiKeyParams : Type 0 where
  pub organization_id : ℕ
  pub name : String
  pub display_prefix : List ℕ
  pub secret_hash : String
  pub scopes : List ApiKeyScope
  pub expires_at : Option ℕ
  pub created_by_user_id : ℕ
  pub now : ℕ
  pub ctx : ActionContext

abbrev pub new_api_key : CreateApiKeyParams → ℕ → ApiKeyRow
new_api_key p id = record {
  id = id;
  organization_id = p.organization_id;
  name = p.name;
  display_prefix = p.display_prefix;
  secret_hash = p.secret_hash;
  scopes = p.scopes;
  expires_at = p.expires_at;
  last_used_at = none;
  revoked_at = none;
  revoked_by_user_id = none;
  created_by_user_id = p.created_by_user_id;
  created_at = p.now;
  updated_at = p.now;
}

abbrev pub scope_text : ApiKeyScope → String
scope_text scope_projects_read = "projects:read"

abbrev pub scope_values : List ApiKeyScope → Values
scope_values [] = nil
scope_values (s ∷ ss) = cons (text (codes (scope_text s))) (scope_values ss)

unfoldable pub find_by_secret_hash : String → Database → Option ApiKeyRow
find_by_secret_hash secret_hash db = find_row (λ k. str_eq k.secret_hash secret_hash) db.api_keys

unfoldable pub create_api_key : CreateApiKeyParams → (id : ℕ) → Tx ApiKeyRow
create_api_key p id = do
  e ← lock_organization_entitlements p.organization_id
  require_entitlement e.values EntitlementKey.api_keys_access
  active_count ← read (count_active_api_keys p.organization_id p.now)
  require_quota EntitlementKey.max_api_keys
      (evaluate_count_quota active_count e.values.max_api_keys)
  taken ← read (λ db. is_some (find_by_secret_hash p.secret_hash db))
  reject_if taken (unique_violation "uq_api_keys_secret_hash")
  write λ db. record db { api_keys = insert_row (new_api_key p id) db.api_keys }
  record_action_event p.organization_id "api_key.created"
      (text_entry "targetType" "api_key" (
        id_entry "targetKeyId" id (
          entry (codes "displayPrefix") (text p.display_prefix)
            (entry (codes "scopes") (array (scope_values p.scopes)) end))))
      p.ctx
  return (new_api_key p id)

unfoldable pub is_key_of : ℕ → ℕ → ApiKeyRow → Bool
is_key_of organization_id api_key_id k = k.organization_id == organization_id && k.id == api_key_id

abbrev pub set_key_revoked : ℕ → ℕ → ApiKeyRow → ApiKeyRow
set_key_revoked user_id now k = record k {
  revoked_at = some now;
  revoked_by_user_id = some user_id;
  updated_at = now;
}

-- The writes of a revocation.
apply_revocation : ℕ → ActionContext → ℕ → ApiKeyRow → Tx Bool
apply_revocation organization_id ctx now target = do
  write λ db. record db {
    api_keys =
        update_rows (λ k. k.id == target.id) (set_key_revoked ctx.actor_user_id now) db.api_keys;
  }
  record_action_event organization_id "api_key.revoked"
      (text_entry "targetType" "api_key" (id_entry "targetKeyId" target.id end)) ctx
  return false

-- Answers whether the key was revoked before.
unfoldable pub revoke_api_key : (organization_id api_key_id : ℕ) → ActionContext → ℕ → Tx Bool
unfolding apply_revocation
revoke_api_key organization_id api_key_id ctx now = do
  found ← read (λ db. find_row (is_key_of organization_id api_key_id) db.api_keys)
  target ← require_row found api_key_not_found
  (if is_some target.revoked_at
      then return true
      else apply_revocation organization_id ctx now target)

abbrev pub set_last_used : ℕ → ApiKeyRow → ApiKeyRow
set_last_used used_at k = record k { last_used_at = some used_at }

unfoldable pub touch_last_used : ℕ → ℕ → Database → Database
touch_last_used api_key_id used_at db = record db {
  api_keys = update_rows (λ k. k.id == api_key_id) (set_last_used used_at) db.api_keys;
}
