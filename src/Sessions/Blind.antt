-- ===== src/Sessions/Blind.antt =====
-- Methods whose answer, and whose effect on the limiter, do not depend on the tables: the throttles.
use orgistry.Prelude.{ℕ, String, ◌≡◌, refl, inl, inr, Bool, true, false, arith}
use orgistry.Service.{◌>>=◌, ◌>>◌, World, Handler, pure}
use orgistry.RateLimit.{RateLimitFailureMode, BucketKey, Consume}
use orgistry.Db.Transaction.{Outcome-cases, Result, ok, throw}
use orgistry.Db.{RequestContext}
use orgistry.Sessions.Service.{when, write_security_event, enforce_auth_rate_limit}

abbrev pub IsBlind : {S A : Type 0} → Handler S A → Type 0
IsBlind {S} m =
    (v w : World S) → v.store ≡ w.store → ((m v).0 ≡ (m w).0) × ((m v).1.store ≡ (m w).1.store)

pub bind-IsBlind :
    {S A B : Type 0} (m : Handler S A) (k : A → Handler S B)
    → IsBlind m
    → ((a : A) → IsBlind (k a))
    → IsBlind (m >>= k)
bind-IsBlind m k blind rest v w h =
    let (answer, store) = blind v w h in
    elim (Outcome-cases (m v).0) [
      | inl (a, passed) ↦
          let (later, end_store) = rest a (m v).1 (m w).1 store in (ground arith, ground arith)
      | inr (e, refused) ↦ (ground arith, ground arith)
    ]

pub when-IsBlind :
    {S : Type 0} (b : Bool) (m : Handler S (Unit {0})) → IsBlind m → IsBlind (when b m)
when-IsBlind true m blind v w h = blind v w h
when-IsBlind false m blind v w h = (refl, h)

pub auth_rate_limit-IsBlind :
    {S : Type 0} (consume : Consume S) (mode : RateLimitFailureMode) (window_seconds : ℕ)
    (key : BucketKey) (limit : ℕ) (bucket : String) (ctx : RequestContext)
    → IsBlind (enforce_auth_rate_limit consume mode window_seconds key limit bucket ctx)
unfolding enforce_auth_rate_limit write_security_event
auth_rate_limit-IsBlind consume mode window_seconds key limit bucket ctx v w h =
    (ground arith, ground arith)

-- A method whose rest always gives one answer.
pub >>-answer :
    {S A : Type 0} (m : Handler S (Unit {0})) (k : Handler S A) (a : A) (w : World S)
    → ((v : World S) → (k v).0 ≡ ok a)
    → ((m >> k) w).0 ≡ ((m >> pure a) w).0
>>-answer {S} {A} m k a w same = go (m w).0
  where
    go :
        (r : Result (Unit {0}))
        → (elim r as (λ _. Result A × World S) [
          | ok _ ↦ k (m w).1
          | throw e ↦ (throw e, (m w).1)
        ]).0
          ≡ (elim r as (λ _. Result A × World S) [
            | ok _ ↦ pure a (m w).1
            | throw e ↦ (throw e, (m w).1)
          ]).0
    go (ok u) = same (m w).1
    go (throw e) = refl
