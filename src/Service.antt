-- ===== src/Service.antt =====
-- What the service methods share: the state that they run on, their sequencing, and the throttle
-- (`enforceMutationRateLimit` of the services).
use orgistry.Prelude.{ℕ, String, ◌≡◌, ◌⊎◌, inl, inr, Bool, true, false, Option, some, arith}
use orgistry.Errors.{AppError, rate_limited}
use orgistry.Db.{Database, RequestContext}
use orgistry.Db.Transaction.{Result, ok, throw, Tx, run, Result-cases, Outcome-cases}
use orgistry.Access.{OrganizationActor, require_membership, require_permission}
use orgistry.Catalog.{PermissionKey}
use orgistry.RateLimit.{
  Consume, BucketKey, RateLimitFailureMode, RateLimitDecision, enforce_store_availability,
}
use orgistry.Plans.{ActionContext}

-- The tables and the limiter's store.
pub record World (S : Type 0) : Type 0 where
  pub db : Database
  pub store : S

-- The calls that a method guards with `catch`: which of them fail this time.
pub record Outages : Type 0 where
  pub lookup : Bool
  pub invitation : Bool
  pub persist : Bool
  pub event : Bool

-- A method: each call that came before a throw has had its effect.
abbrev pub Handler : Type 0 → Type 0 → Type 0
Handler S A = World S → Result A × World S

infixl 5 ◌>>=◌ ◌>>◌
abbrev pub ◌>>=◌ : {S A B : Type 0} → Handler S A → (A → Handler S B) → Handler S B
◌>>=◌ m f w = elim (m w).0 [ ok a ↦ f a (m w).1 | throw e ↦ (throw e, (m w).1) ]

abbrev pub ◌>>◌ : {S B : Type 0} → Handler S (Unit {0}) → Handler S B → Handler S B
m >> k = m >>= λ _. k

abbrev pub pure : {S A : Type 0} → A → Handler S A
pure a w = (ok a, w)

-- A call that only reads the tables, or throws.
abbrev pub query : {S A : Type 0} → (Database → Result A) → Handler S A
query f w = (f w.db, w)

-- `db.transaction(...)`: the tables change if the body returns.
abbrev pub transaction : {S A : Type 0} → Tx A → Handler S A
transaction m w = elim (m w.db) [
  | ok (a, db') ↦ (ok a, record w { db = db' })
  | throw e ↦ (throw e, w)
]

module _ {S : Type 0} (consume : Consume S) (mode : RateLimitFailureMode) where
  after_hit : World S → RateLimitDecision × S → Result (Unit {0}) × World S
  after_hit w (d, s) = elim (enforce_store_availability d mode) [
    | ok true ↦ (ok tt, record w { store = s })
    | ok false ↦ (throw rate_limited, record w { store = s })
    | throw e ↦ (throw e, record w { store = s })
  ]

  unfoldable pub enforce_rate_limit : BucketKey → ℕ → ℕ → Handler S (Unit {0})
  unfolding after_hit
  enforce_rate_limit key limit window_seconds w =
      after_hit w (consume key limit window_seconds w.store)

  -- The throttle never touches the tables.
  pub enforce_rate_limit-db :
      (key : BucketKey) (limit window_seconds : ℕ) (w : World S)
      → (enforce_rate_limit key limit window_seconds w).1.db ≡ w.db
  unfolding enforce_rate_limit
  enforce_rate_limit-db key limit window_seconds w = ground arith

  -- A transaction behind the throttle.
  pub throttled-cases :
      {A : Type 0} (key : BucketKey) (limit window_seconds : ℕ) (m : Tx A) (w : World S)
      → (((e : AppError) × (((enforce_rate_limit key limit window_seconds >> transaction m) w).0
              ≡ throw e))
          × (((enforce_rate_limit key limit window_seconds >> transaction m) w).1.db ≡ w.db))
        ⊎ ((((enforce_rate_limit key limit window_seconds >> transaction m) w).0 ≡ (run m w.db).0)
            × (((enforce_rate_limit key limit window_seconds >> transaction m) w).1.db
                ≡ (run m w.db).1))
  throttled-cases key limit window_seconds m w =
      let same = enforce_rate_limit-db key limit window_seconds w in
      elim (Outcome-cases (enforce_rate_limit key limit window_seconds w).0) [
        | inl (u, passed) ↦ elim (Result-cases (m w.db)) [
          | inl (a, db', done) ↦ inr (ground arith)
          | inr (e, refused) ↦ inr (ground arith)
        ]
        | inr (e, refused) ↦ inl ((e, ground arith), ground arith)
      ]

-- `actorFor` and `requirePermission`, with which each organization-scoped method begins.
unfoldable pub authorize :
    {S : Type 0} → ℕ → ℕ → Option String → PermissionKey → Handler S OrganizationActor
authorize user_id organization_id request_id permission = do
  actor ← query (λ db. require_membership db user_id organization_id request_id)
  query (λ db. require_permission actor permission)
  pure actor

-- `actionContext`: what a mutation records of its actor.
unfoldable pub action_context : OrganizationActor → RequestContext → ActionContext
action_context actor request = record {
  actor_user_id = actor.user_id;
  actor_membership_id = some actor.membership_id;
  request = request;
}
