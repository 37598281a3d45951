-- ===== src/RateLimit/Allowance.antt =====
-- How many hits one window of the in-memory limiter lets through (lib/rate-limit.ts).
use Prim.Native.Nat.{min}
use orgistry.Prelude.{
  ℕ, suc, ◌+◌, ◌-◌, ◌*◌, ◌≤◌, ◌<◌, ◌≡◌, refl, sym, ◌∙◌, ◌≢◌, ◌⊎◌, inl, inr, true, none, some, List,
  [], ◌∷◌, arith, str_eq→eq, str_eq_refl, ==_refl, Bool-cases,
}
use orgistry.RateLimit.{
  RateLimitDecision, allowed, BucketKey, Window, Subject, of_id, of_text, same_subject, get_window,
  set_window, next_window, under_limit, in_memory_consume, same_key,
}

-- A hit on the key at a time, or a hit on another key with a limit and a window of its own.
pub data Hit (key : BucketKey) : Type 0 where
  own : (now : ℕ) → Hit key
  foreign : (other : BucketKey) → other ≢ key → (now limit window_seconds : ℕ) → Hit key

-- The decisions that a run of hits gives on the key.
pub hits :
    (limit window_seconds : ℕ) (key : BucketKey)
    → List (Hit key)
    → List (BucketKey × Window)
    → List RateLimitDecision
hits limit window_seconds key [] ws = []
hits limit window_seconds key (own now ∷ later) ws =
    let (d, ws') = in_memory_consume now key limit window_seconds ws in
    d ∷ hits limit window_seconds key later ws'
hits limit window_seconds key (foreign other n now its_limit its_window ∷ later) ws =
    hits limit window_seconds key later (in_memory_consume now other its_limit its_window ws).1

-- How many of the hits are on the key, and whether they are all before a time.
pub count_own : {key : BucketKey} → List (Hit key) → ℕ
count_own [] = 0
count_own (own now ∷ later) = suc (count_own later)
count_own (foreign other n now limit window_seconds ∷ later) = count_own later

abbrev pub AreBefore : {key : BucketKey} → ℕ → List (Hit key) → Type 0
AreBefore limit_time [] = Unit {0}
AreBefore limit_time (own now ∷ later) = (now < limit_time) × AreBefore limit_time later
AreBefore limit_time (foreign other n now limit window_seconds ∷ later) = AreBefore limit_time later

pub count_allowed : List RateLimitDecision → ℕ
count_allowed [] = 0
count_allowed (allowed ∷ ds) = suc (count_allowed ds)
count_allowed (d ∷ ds) = count_allowed ds

same_subject_refl : (s : Subject) → same_subject s s ≡ true
unfolding same_subject
same_subject_refl (of_id n) = ==_refl n
same_subject_refl (of_text t) = str_eq_refl t

get-set :
    (key : BucketKey) (w : Window) (ws : List (BucketKey × Window))
    → get_window key (set_window key w ws) ≡ some w
unfolding get_window set_window
get-set key w [] = ground (arith, str_eq_refl key.prefix, same_subject_refl key.subject)
get-set key w ((k, v) ∷ ws) = ground (arith, get-set key w ws)

same_subject_sound : (s t : Subject) → same_subject s t ≡ true → s ≡ t
unfolding same_subject
same_subject_sound (of_id a) (of_id b) h = ground arith
same_subject_sound (of_text a) (of_text b) h = rw (str_eq→eq a b h) refl
same_subject_sound (of_id a) (of_text b) h = absurd (ground arith)
same_subject_sound (of_text a) (of_id b) h = absurd (ground arith)

same_key_sound : (a b : BucketKey) → same_key a b ≡ true → a ≡ b
same_key_sound a b h =
    let p : a.prefix ≡ b.prefix = str_eq→eq a.prefix b.prefix (ground arith) in
    let s : a.subject ≡ b.subject = same_subject_sound a.subject b.subject (ground arith) in
    λ i. record { prefix = p i; subject = s i }

-- A window is set for its key alone.
get-set_other :
    (key other : BucketKey) (w : Window) (ws : List (BucketKey × Window))
    → other ≢ key
    → get_window key (set_window other w ws) ≡ get_window key ws
unfolding get_window set_window
get-set_other key other w [] n = elim (Bool-cases (same_key other key)) [
  | inl same ↦ absurd (n (same_key_sound other key same))
  | inr apart ↦ ground arith
]
get-set_other key other w ((k, v) ∷ ws) n = elim (Bool-cases (same_key k other)) [
  | inr apart ↦ ground (arith, get-set_other key other w ws n)
  | inl this ↦ elim (Bool-cases (same_key k key)) [
    | inl same ↦ absurd (n (sym (same_key_sound k other this) ∙ same_key_sound k key same))
    | inr apart ↦ ground arith
  ]
]

consume_foreign :
    (key other : BucketKey) (now limit window_seconds : ℕ) (ws : List (BucketKey × Window))
    → other ≢ key
    → get_window key (in_memory_consume now other limit window_seconds ws).1 ≡ get_window key ws
unfolding in_memory_consume
consume_foreign key other now limit window_seconds ws n =
    get-set_other key other (next_window now window_seconds (get_window other ws)) ws n

consume_open :
    (now limit window_seconds : ℕ) (key : BucketKey) (ws : List (BucketKey × Window)) (w : Window)
    → get_window key ws ≡ some w
    → now < w.reset_at_ms
    → in_memory_consume now key limit window_seconds ws
      ≡ (under_limit (w.count + 1) limit, set_window key (record w { count = w.count + 1 }) ws)
unfolding next_window
consume_open now limit window_seconds key ws w e h = unfold in_memory_consume in rw e (ground arith)

-- Hits on a key whose window is open, all before it ends.
hits_open :
    (limit window_seconds : ℕ) (key : BucketKey) (later : List (Hit key))
    (ws : List (BucketKey × Window)) (w : Window)
    → get_window key ws ≡ some w
    → AreBefore w.reset_at_ms later
    → count_allowed (hits limit window_seconds key later ws)
      ≡ min (limit - w.count) (count_own later)
unfolding hits count_allowed count_own
hits_open limit window_seconds key [] ws w e h = omega arith
hits_open limit window_seconds key (own now ∷ later) ws w e (h, hs) =
    let w' : Window = record w { count = w.count + 1 } in
    ground (
      arith,
      consume_open now limit window_seconds key ws w e h,
      hits_open limit window_seconds key later (set_window key w' ws) w' (get-set key w' ws) hs,
    )
hits_open limit window_seconds key (foreign other n now its_limit its_window ∷ later) ws w e hs =
    hits_open limit window_seconds key later (in_memory_consume now other its_limit its_window ws).1
      w (consume_foreign key other now its_limit its_window ws n ∙ e) hs

-- No window of the key is open at this time.
abbrev pub IsIdle : BucketKey → ℕ → List (BucketKey × Window) → Type 0
IsIdle key now ws =
    (get_window key ws ≡ none)
    ⊎ ((w : Window) × (get_window key ws ≡ some w) × (w.reset_at_ms ≤ now))

consume_idle :
    (now limit window_seconds : ℕ) (key : BucketKey) (ws : List (BucketKey × Window))
    → IsIdle key now ws
    → in_memory_consume now key limit window_seconds ws ≡ (
      under_limit 1 limit,
      set_window key (record { count = 1; reset_at_ms = now + window_seconds * 1000 }) ws,
    )
unfolding next_window
consume_idle now limit window_seconds key ws (inl e) = unfold in_memory_consume in rw e refl
consume_idle now limit window_seconds key ws (inr (w, e, h)) =
    unfold in_memory_consume in rw e (ground arith)

-- Of the hits on a key that fall into one window, the first `limit` are allowed and no other, whatever
-- hits on other keys come between them: those counted from a hit that finds no open window, to the end
-- of the window that it opens.
pub in_memory_consume-allowance :
    (limit window_seconds : ℕ) (key : BucketKey) (now : ℕ) (later : List (Hit key))
    (ws : List (BucketKey × Window))
    → IsIdle key now ws
    → AreBefore (now + window_seconds * 1000) later
    → count_allowed (hits limit window_seconds key (own now ∷ later) ws)
      ≡ min limit (count_own (own now ∷ later))
unfolding hits count_allowed count_own
in_memory_consume-allowance limit window_seconds key now later ws idle h =
    let w : Window = record { count = 1; reset_at_ms = now + window_seconds * 1000 } in
    ground (
      arith,
      consume_idle now limit window_seconds key ws idle,
      hits_open limit window_seconds key later (set_window key w ws) w (get-set key w ws) h,
    )
