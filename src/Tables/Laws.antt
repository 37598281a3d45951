-- ===== src/Tables/Laws.antt =====
-- Laws of the queries that the components' proofs use.
use mathlib.Core.List.{Memᴰ}
use orgistry.Prelude.{
  ℕ, ◌+◌, ◌≤◌, ◌<◌, ◌≡◌, refl, ap, subst, ◌≢◌, inl, inr, Bool, true, none, some, List, [], ◌∷◌,
  arith, ◌==◌, if◌then◌else◌, ==_iff, Bool-cases, length, first?, All,
}
use orgistry.Tables.Defs.{find_row, select_rows, count_rows, update_rows, insert_row}

module _ {ℓ} {A : Type ℓ} where
  pub count-insert :
      (p : A → Bool) (r : A) (rs : List A)
      → count_rows p (insert_row r rs) ≡ count_rows p rs + (if p r then 1 else 0)
  unfolding count_rows insert_row
  count-insert p r [] = ground arith
  count-insert p r (x ∷ rs) = ground (arith, count-insert p r rs)

  -- A row that is found meets the condition.
  pub find_sound : (p : A → Bool) (rs : List A) (r : A) → find_row p rs ≡ some r → p r ≡ true
  unfolding find_row
  find_sound p [] r e = ground arith
  find_sound p (x ∷ rs) r e = ground (arith, find_sound p rs r)

  pub find-count :
      (p : A → Bool) (rs : List A) (r : A) → find_row p rs ≡ some r → 0 < count_rows p rs
  unfolding find_row count_rows
  find-count p [] r e = ground arith
  find-count p (x ∷ rs) r e = ground (arith, find-count p rs r)

  -- An update that makes no row meet `p` anew, and drops no row that does, keeps the count.
  pub count-update_same :
      (p q : A → Bool) (f : A → A) (rs : List A)
      → ((r : A) → q r ≡ true → p (f r) ≡ p r)
      → count_rows p (update_rows q f rs) ≡ count_rows p rs
  unfolding count_rows update_rows
  count-update_same p q f [] h = refl
  count-update_same p q f (x ∷ rs) h = ground (arith, count-update_same p q f rs h, h x)

  pub count-update_le :
      (p q : A → Bool) (f : A → A) (rs : List A)
      → ((r : A) → q r ≡ true → p (f r) ≡ true → p r ≡ true)
      → count_rows p (update_rows q f rs) ≤ count_rows p rs
  unfolding count_rows update_rows
  count-update_le p q f [] h = omega arith
  count-update_le p q f (x ∷ rs) h = ground (arith, count-update_le p q f rs h, h x)

  pub count-update_ge :
      (p q : A → Bool) (f : A → A) (rs : List A)
      → ((r : A) → q r ≡ true → p r ≡ true → p (f r) ≡ true)
      → count_rows p rs ≤ count_rows p (update_rows q f rs)
  unfolding count_rows update_rows
  count-update_ge p q f [] h = omega arith
  count-update_ge p q f (x ∷ rs) h = ground (arith, count-update_ge p q f rs h, h x)

  pub length-select : (p : A → Bool) (rs : List A) → length (select_rows p rs) ≡ count_rows p rs
  unfolding select_rows count_rows
  length-select p [] = refl
  length-select p (x ∷ rs) = ground (arith, length-select p rs)

  pub find-insert :
      (p : A → Bool) (r : A) (rs : List A)
      → find_row p rs ≡ none
      → find_row p (insert_row r rs) ≡ (if p r then some r else none)
  unfolding find_row insert_row
  find-insert p r [] e = refl
  find-insert p r (x ∷ rs) e = ground (arith, find-insert p r rs)

module _ {ℓ} {A : Type ℓ} (id : A → ℕ) where
  -- The primary key: no two rows have one id.
  abbrev pub HasUniqueIds : List A → Type 0
  HasUniqueIds [] = Unit {0}
  HasUniqueIds (r ∷ rs) = All (λ s. id s ≢ id r) rs × HasUniqueIds rs

  -- No row has this id yet.
  abbrev pub IsFresh : ℕ → List A → Type 0
  IsFresh k rs = All (λ s. id s ≢ k) rs

  pub update-IsFresh :
      (k : ℕ) (f : A → A) (rs : List A) → IsFresh k rs → update_rows (λ r. id r == k) f rs ≡ rs
  unfolding update_rows
  update-IsFresh k f [] h = refl
  update-IsFresh k f (r ∷ rs) h = ground (arith, update-IsFresh k f rs h.1)

  count-update_tail :
      (p : A → Bool) (f : A → A) (k : ℕ) (r : A) (rs : List A)
      → id r ≡ k
      → All (λ s. id s ≢ id r) rs
      → count_rows p (update_rows (λ s. id s == k) f rs) ≡ count_rows p rs
  count-update_tail p f k r rs e h =
      ap (count_rows p) (update-IsFresh k f rs (subst (λ j. All (λ s. id s ≢ j) rs) e h))

  -- An update of one row changes a count by that row alone.
  pub count-update :
      (p : A → Bool) (f : A → A) (k : ℕ) (rs : List A) (t : A)
      → HasUniqueIds rs
      → find_row (λ r. id r == k) rs ≡ some t
      → count_rows p (update_rows (λ r. id r == k) f rs) + (if p t then 1 else 0)
        ≡ count_rows p rs + (if p (f t) then 1 else 0)
  unfolding count_rows update_rows find_row
  count-update p f k [] t u e = ground arith
  count-update p f k (r ∷ rs) t u e = elim (Bool-cases (id r == k)) [
    | inl hit ↦ ground (arith, count-update_tail p f k r rs ((==_iff (id r) k).0 hit) u.0)
    | inr miss ↦ ground (arith, count-update p f k rs t u.1)
  ]

  All-update :
      (j k : ℕ) (f : A → A) (rs : List A)
      → ((r : A) → id (f r) ≡ id r)
      → All (λ s. id s ≢ j) rs
      → All (λ s. id s ≢ j) (update_rows (λ r. id r == k) f rs)
  unfolding update_rows
  All-update j k f [] h a = tt
  All-update j k f (r ∷ rs) h a = ground (arith, All-update j k f rs h a.1, h r)

  pub update-HasUniqueIds :
      (k : ℕ) (f : A → A) (rs : List A)
      → ((r : A) → id (f r) ≡ id r)
      → HasUniqueIds rs
      → HasUniqueIds (update_rows (λ r. id r == k) f rs)
  unfolding update_rows
  update-HasUniqueIds k f [] h u = tt
  update-HasUniqueIds k f (r ∷ rs) h u = elim (Bool-cases (id r == k)) [
    | inl hit ↦ rw hit (rw (h r) (All-update (id r) k f rs h u.0), update-HasUniqueIds k f rs h u.1)
    | inr miss ↦ rw miss (All-update (id r) k f rs h u.0, update-HasUniqueIds k f rs h u.1)
  ]

  -- The updated row is the one found afterwards.
  pub find-update :
      (f : A → A) (k : ℕ) (rs : List A) (t : A)
      → ((r : A) → id (f r) ≡ id r)
      → find_row (λ r. id r == k) rs ≡ some t
      → find_row (λ r. id r == k) (update_rows (λ r. id r == k) f rs) ≡ some (f t)
  unfolding update_rows find_row
  find-update f k [] t h e = ground arith
  find-update f k (r ∷ rs) t h e = ground (arith, find-update f k rs t h, h r)

  -- The other rows are found as before.
  pub find-update_ne :
      (f : A → A) (j k : ℕ) (rs : List A)
      → ((r : A) → id (f r) ≡ id r)
      → j ≢ k
      → find_row (λ r. id r == j) (update_rows (λ r. id r == k) f rs) ≡ find_row (λ r. id r == j) rs
  unfolding update_rows find_row
  find-update_ne f j k [] h n = refl
  find-update_ne f j k (r ∷ rs) h n = ground (arith, find-update_ne f j k rs h n, h r)

module _ {ℓ} {A : Type ℓ} where
  All-map {κ μ} :
      {P : A → Type κ} {Q : A → Type μ} (rs : List A) → ((r : A) → P r → Q r) → All P rs → All Q rs
  All-map [] f h = tt
  All-map (r ∷ rs) f (h, hs) = (f r h, All-map rs f hs)

  -- The selected rows are rows of the table that meet the condition.
  pub select-All :
      (p : A → Bool) (rs : List A) → All (λ r. (p r ≡ true) × Memᴰ r rs) (select_rows p rs)
  unfolding select_rows
  select-All p [] = tt
  select-All p (r ∷ rs) =
      let rest = All-map (select_rows p rs) (λ s (h, m). (h, Memᴰ.tail m)) (select-All p rs) in
      elim (Bool-cases (p r)) [
        | inl hit ↦ rw hit ((hit, Memᴰ.head refl), rest)
        | inr miss ↦ rw miss rest
      ]

  pub find-All {κ} :
      (P : A → Type κ) (q : A → Bool) (rs : List A) (t : A)
      → All P rs
      → find_row q rs ≡ some t
      → P t
  unfolding find_row
  find-All P q [] t h e = absurd (cc)
  find-All P q (r ∷ rs) t (h, hs) e = elim (Bool-cases (q r)) [
    | inl hit ↦ let same : r ≡ t = ground arith in subst P same h
    | inr miss ↦ find-All P q rs t hs (ground arith)
  ]

  pub find-select : (p : A → Bool) (rs : List A) → find_row p rs ≡ first? (select_rows p rs)
  unfolding find_row select_rows
  find-select p [] = refl
  find-select p (r ∷ rs) = ground (arith, find-select p rs)
