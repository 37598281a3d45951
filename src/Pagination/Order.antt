-- ===== src/Pagination/Order.antt =====
-- The order of the rows: ordering commutes with selecting, and the ordered rows fall strictly.
use orgistry.Prelude.{
  ℕ, ◌≡◌, refl, sym, subst, ◌≢◌, ◌⊎◌, inl, inr, Bool, true, false, List, [], ◌∷◌, arith, Bool-cases,
  All,
}
use orgistry.Tables.{select_rows, HasUniqueIds}
use orgistry.Pagination.{before, insert_desc, order_by_desc, get_time, timestamp_of}

module _ {A : Type 0} (created id : A → ℕ) where
  -- Each row stands before all that follow it.
  abbrev pub IsFalling : List A → Type 0
  IsFalling [] = Unit {0}
  IsFalling (a ∷ as') = All (λ b. before created id a b ≡ true) as' × IsFalling as'

  before_trans :
      (a b c : A)
      → before created id a b ≡ true
      → before created id b c ≡ true
      → before created id a c ≡ true
  before_trans a b c h k = ground arith

  before_total :
      (a b : A) → id b ≢ id a → before created id a b ≡ false → before created id b a ≡ true
  before_total a b n h = ground arith

  All-before :
      (a b : A) (xs : List A)
      → before created id a b ≡ true
      → All (λ c. before created id b c ≡ true) xs
      → All (λ c. before created id a c ≡ true) xs
  All-before a b [] h k = tt
  All-before a b (x ∷ xs) h (k, ks) = (before_trans a b x h k, All-before a b xs h ks)

  All-insert {κ} :
      (P : A → Type κ) (a : A) (xs : List A) → P a → All P xs → All P (insert_desc created id a xs)
  unfolding insert_desc
  All-insert P a [] h k = (h, tt)
  All-insert P a (x ∷ xs) h (k, ks) = ground (arith, All-insert P a xs h ks)

  pub All-order_by {κ} :
      (P : A → Type κ) (xs : List A) → All P xs → All P (order_by_desc created id xs)
  unfolding order_by_desc
  All-order_by P [] h = tt
  All-order_by P (x ∷ xs) (h, hs) =
      All-insert P x (order_by_desc created id xs) h (All-order_by P xs hs)

  insert-IsFalling :
      (a : A) (xs : List A)
      → All (λ b. id b ≢ id a) xs
      → IsFalling xs
      → IsFalling (insert_desc created id a xs)
  unfolding insert_desc
  insert-IsFalling a [] u h = (tt, tt)
  insert-IsFalling a (x ∷ xs) (u, us) (h, hs) = elim (Bool-cases (before created id a x)) [
    | inl first ↦ rw first ((first, All-before a x xs first h), (h, hs))
    | inr later ↦ rw later (
      All-insert (λ c. before created id x c ≡ true) a xs (before_total a x u later) h,
      insert-IsFalling a xs us hs,
    )
  ]

  pub order_by-IsFalling :
      (xs : List A) → HasUniqueIds id xs → IsFalling (order_by_desc created id xs)
  unfolding order_by_desc
  order_by-IsFalling [] u = tt
  order_by-IsFalling (x ∷ xs) (u, us) =
      insert-IsFalling x (order_by_desc created id xs) (All-order_by (λ b. id b ≢ id x) xs u)
        (order_by-IsFalling xs us)

  insert_before-All :
      (a : A) (xs : List A)
      → All (λ b. before created id a b ≡ true) xs
      → insert_desc created id a xs ≡ a ∷ xs
  unfolding insert_desc
  insert_before-All a [] h = refl
  insert_before-All a (x ∷ xs) (h, hs) = ground arith

  select-All-before :
      (p : A → Bool) (a : A) (xs : List A)
      → All (λ b. before created id a b ≡ true) xs
      → All (λ b. before created id a b ≡ true) (select_rows p xs)
  unfolding select_rows
  select-All-before p a [] h = tt
  select-All-before p a (x ∷ xs) (h, hs) = ground (arith, select-All-before p a xs hs)

  select-insert_miss :
      (p : A → Bool) (a : A) (xs : List A)
      → p a ≡ false
      → select_rows p (insert_desc created id a xs) ≡ select_rows p xs
  unfolding select_rows insert_desc
  select-insert_miss p a [] h = ground arith
  select-insert_miss p a (x ∷ xs) h = ground (arith, select-insert_miss p a xs h)

  select-insert_hit :
      (p : A → Bool) (a : A) (xs : List A)
      → p a ≡ true
      → IsFalling xs
      → select_rows p (insert_desc created id a xs) ≡ insert_desc created id a (select_rows p xs)
  unfolding select_rows insert_desc
  select-insert_hit p a [] h f = ground arith
  select-insert_hit p a (x ∷ xs) h (f, fs) = elim (Bool-cases (before created id a x)) [
    | inl first ↦
        let rest = select-All-before p a xs (All-before a x xs first f) in
        ground (arith, insert_before-All a (select_rows p xs) rest)
    | inr later ↦ ground (arith, select-insert_hit p a xs h fs)
  ]

  -- Ordering the selected rows is selecting among the ordered ones.
  pub order_by-select :
      (p : A → Bool) (xs : List A)
      → HasUniqueIds id xs
      → order_by_desc created id (select_rows p xs) ≡ select_rows p (order_by_desc created id xs)
  unfolding select_rows order_by_desc
  order_by-select p [] u = refl
  order_by-select p (x ∷ xs) (u, us) = elim (Bool-cases (p x)) [
    | inl hit ↦ ground (
      arith,
      order_by-select p xs us,
      select-insert_hit p x (order_by_desc created id xs) hit (order_by-IsFalling xs us),
    )
    | inr miss ↦
        ground (
          arith,
          order_by-select p xs us,
          select-insert_miss p x (order_by_desc created id xs) miss,
        )
  ]

  select-IsFalling : (p : A → Bool) (xs : List A) → IsFalling xs → IsFalling (select_rows p xs)
  unfolding select_rows
  select-IsFalling p [] h = tt
  select-IsFalling p (x ∷ xs) (h, hs) = elim (Bool-cases (p x)) [
    | inl hit ↦ rw hit (select-All-before p x xs h, select-IsFalling p xs hs)
    | inr miss ↦ rw miss (select-IsFalling p xs hs)
  ]

  pub order_by_select-IsFalling :
      (p : A → Bool) (xs : List A)
      → HasUniqueIds id xs
      → IsFalling (order_by_desc created id (select_rows p xs))
  order_by_select-IsFalling p xs u =
      subst IsFalling (sym (order_by-select p xs u))
        (select-IsFalling p (order_by_desc created id xs) (order_by-IsFalling xs u))

  -- A cursor tells two rows apart: they differ in the millisecond of their creation, or both were
  -- created at a whole millisecond.
  abbrev pub IsApart : A → A → Type 0
  IsApart a b =
      (get_time (created a) ≢ get_time (created b))
      ⊎ ((created a ≡ timestamp_of (get_time (created a)))
          × (created b ≡ timestamp_of (get_time (created b))))

  abbrev pub AreApart : List A → Type 0
  AreApart [] = Unit {0}
  AreApart (a ∷ as') = All (λ b. IsApart a b) as' × AreApart as'

  IsApart-sym : (a b : A) → IsApart a b → IsApart b a
  IsApart-sym a b (inl n) = inl (λ e. n (sym e))
  IsApart-sym a b (inr (p, q)) = inr (q, p)

  -- Ordering keeps rows apart.
  insert_desc-AreApart :
      (a : A) (xs : List A)
      → All (λ b. IsApart a b) xs
      → AreApart xs
      → AreApart (insert_desc created id a xs)
  unfolding insert_desc
  insert_desc-AreApart a [] h u = (tt, tt)
  insert_desc-AreApart a (x ∷ xs) (h, hs) (u, us) = elim (Bool-cases (before created id a x)) [
    | inl first ↦ rw first ((h, hs), (u, us))
    | inr later ↦
        rw later (
          All-insert (λ c. IsApart x c) a xs (IsApart-sym a x h) u,
          insert_desc-AreApart a xs hs us,
        )
  ]

  pub order_by_desc-AreApart : (xs : List A) → AreApart xs → AreApart (order_by_desc created id xs)
  unfolding order_by_desc
  order_by_desc-AreApart [] u = tt
  order_by_desc-AreApart (x ∷ xs) (u, us) =
      insert_desc-AreApart x (order_by_desc created id xs) (All-order_by (λ b. IsApart x b) xs u)
        (order_by_desc-AreApart xs us)
