-- ===== src/Sessions/Quiet.antt =====
-- Methods that leave the tables as they were whenever they return: the throttles of auth.service.ts.
use orgistry.Prelude.{ℕ, String, ◌≡◌, refl, inl, inr, Bool, true, false, arith}
use orgistry.Service.{◌>>=◌, World, Handler}
use orgistry.RateLimit.{RateLimitFailureMode, BucketKey, Consume}
use orgistry.Db.Transaction.{ok, Outcome-cases}
use orgistry.Db.{RequestContext}
use orgistry.Sessions.Service.{when, write_security_event, enforce_auth_rate_limit}

-- A method that leaves the tables as they were whenever it returns.
abbrev pub IsQuiet : {S A : Type 0} → Handler S A → Type 0
IsQuiet {S} {A} m = (w : World S) (a : A) → (m w).0 ≡ ok a → (m w).1.db ≡ w.db

pub bind-IsQuiet :
    {S A B : Type 0} (m : Handler S A) (k : A → Handler S B)
    → IsQuiet m
    → ((a : A) → IsQuiet (k a))
    → IsQuiet (m >>= k)
bind-IsQuiet m k quiet rest w b h = elim (Outcome-cases (m w).0) [
  | inr (e, refused) ↦ absurd (ground arith)
  | inl (a, passed) ↦
      let first = quiet w a passed in let second = rest a (m w).1 b (ground arith) in ground arith
]

module _ {S : Type 0} (consume : Consume S) (mode : RateLimitFailureMode) (window_seconds : ℕ) where
  pub auth_rate_limit-IsQuiet :
      (key : BucketKey) (limit : ℕ) (bucket : String) (ctx : RequestContext)
      → IsQuiet (enforce_auth_rate_limit consume mode window_seconds key limit bucket ctx)
  unfolding enforce_auth_rate_limit write_security_event
  auth_rate_limit-IsQuiet key limit bucket ctx w a h = ground arith

pub when-IsQuiet :
    {S : Type 0} (b : Bool) (m : Handler S (Unit {0})) → IsQuiet m → IsQuiet (when b m)
when-IsQuiet true m quiet w a h = quiet w a h
when-IsQuiet false m quiet w a h = refl
