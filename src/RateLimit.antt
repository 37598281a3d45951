-- ===== src/RateLimit.antt =====
-- apps/api/src/lib/rate-limit.ts. A bucket's key is its prefix and the value that the template
-- string puts behind it. The Redis store is not modelled: a service takes any `consume`.
pub mod Allowance
use orgistry.Prelude.{
  ℕ, ◌+◌, ◌*◌, String, Bool, true, false, ◌&&◌, Option, none, some, List, [], ◌∷◌, leb, ◌==◌,
  if◌then◌else◌, str_eq,
}
use orgistry.Errors.{rate_limited, service_unavailable}
use orgistry.Db.{Database}
use orgistry.Db.Transaction.{Result, ok, throw}

pub data RateLimitDecision : Type 0 where
  allowed limited unavailable : RateLimitDecision

pub data RateLimitFailureMode : Type 0 where
  open_mode closed_mode : RateLimitFailureMode

pub data Subject : Type 0 where
  of_id : ℕ → Subject
  of_text : String → Subject

pub record BucketKey : Type 0 where
  pub prefix : String
  pub subject : Subject

abbrev pub rl_key : String → ℕ → BucketKey
rl_key prefix id = record { prefix = prefix; subject = of_id id }

-- A limiter over a store `S`: it records one hit and reports its decision.
abbrev pub Consume : Type 0 → Type 0
Consume S = BucketKey → ℕ → ℕ → S → RateLimitDecision × S

-- `throw` is the 503 of the closed mode.
unfoldable pub enforce_store_availability : RateLimitDecision → RateLimitFailureMode → Result Bool
enforce_store_availability unavailable closed_mode = throw service_unavailable
enforce_store_availability unavailable open_mode = ok true
enforce_store_availability allowed mode = ok true
enforce_store_availability limited mode = ok false

unfoldable pub same_subject : Subject → Subject → Bool
same_subject (of_id a) (of_id b) = a == b
same_subject (of_text s) (of_text t) = str_eq s t
same_subject _ _ = false

abbrev pub same_key : BucketKey → BucketKey → Bool
same_key a b = str_eq a.prefix b.prefix && same_subject a.subject b.subject

pub record Window : Type 0 where
  pub count : ℕ
  pub reset_at_ms : ℕ

-- `windows.get(key)`.
unfoldable pub get_window : BucketKey → List (BucketKey × Window) → Option Window
get_window key [] = none
get_window key ((k, w) ∷ ws) = if same_key k key then some w else get_window key ws

-- `windows.set(key, window)`.
unfoldable pub set_window :
    BucketKey → Window → List (BucketKey × Window) → List (BucketKey × Window)
set_window key w [] = (key, w) ∷ []
set_window key w ((k, v) ∷ ws) =
    if same_key k key then (k, w) ∷ ws else (k, v) ∷ set_window key w ws

abbrev pub under_limit : ℕ → ℕ → RateLimitDecision
under_limit count limit = if leb count limit then allowed else limited

-- The window that a hit at `now` leaves.
unfoldable pub next_window : ℕ → ℕ → Option Window → Window
next_window now window_seconds none = record {
  count = 1;
  reset_at_ms = now + window_seconds * 1000;
}
next_window now window_seconds (some w) =
    if leb w.reset_at_ms now
    then record { count = 1; reset_at_ms = now + window_seconds * 1000 }
    else record w { count = w.count + 1 }

-- createInMemoryRateLimiter, at the time `now`.
unfoldable pub in_memory_consume : ℕ → Consume (List (BucketKey × Window))
unfolding get_window set_window next_window same_subject
in_memory_consume now key limit window_seconds windows =
    let w = next_window now window_seconds (get_window key windows) in
    (under_limit w.count limit, set_window key w windows)

-- createNoopRateLimiter and createUnavailableRateLimiter.
abbrev pub noop_consume : Consume (Unit {0})
noop_consume key limit window_seconds s = (allowed, s)

abbrev pub unavailable_consume : Consume (Unit {0})
unavailable_consume key limit window_seconds s = (unavailable, s)
