-- ===== src/Tables/Updates.antt =====
-- What an update of the rows that one condition finds does to the queries by another.
use orgistry.Prelude.{
  ℕ, ◌≡◌, refl, sym, ap, subst, ◌≢◌, inl, inr, Bool, true, false, none, some, List, [], ◌∷◌, arith,
  ◌==◌, ==_iff, ==_refl, Bool-cases, any, All,
}
use orgistry.Tables.Laws.{HasUniqueIds, update-IsFresh, find-All}
use orgistry.Tables.Defs.{find_row, select_rows, count_rows, update_rows, insert_row}

-- An update by the id of a row that another condition found.
module _ {ℓ} {A : Type ℓ} (id : A → ℕ) (q : A → Bool) (f : A → A) where
  pub find-update_found :
      (rs : List A) (t : A)
      → ((r : A) → q (f r) ≡ q r)
      → find_row q rs ≡ some t
      → find_row q (update_rows (λ r. id r == id t) f rs) ≡ some (f t)
  unfolding find_row update_rows
  find-update_found [] t h e = ground arith
  find-update_found (r ∷ rs) t h e =
      ground (arith, h r, find-update_found rs t h, ==_refl (id t), ap id {x = r} {y = t})

  update-found_tail :
      (p : A → Bool) (rs : List A) (t r : A)
      → HasUniqueIds id (r ∷ rs)
      → find_row q (r ∷ rs) ≡ some t
      → id r ≡ id t
      → r ≡ t
  unfolding find_row
  update-found_tail p rs t r u e same = elim (Bool-cases (q r)) [
    | inl hit ↦ ground arith
    | inr miss ↦ absurd (find-All _ q rs t u.0 (ground arith) (sym same))
  ]

  -- Rows that meet a condition which the updated row does not meet, before or after.
  pub select-update_other :
      (p : A → Bool) (rs : List A) (t : A)
      → HasUniqueIds id rs
      → find_row q rs ≡ some t
      → p t ≡ false
      → p (f t) ≡ false
      → select_rows p (update_rows (λ r. id r == id t) f rs) ≡ select_rows p rs
  unfolding find_row select_rows update_rows
  select-update_other p [] t u e h k = refl
  select-update_other p (r ∷ rs) t u e h k = elim (Bool-cases (id r == id t)) [
    | inl hit ↦
        let same : r ≡ t = update-found_tail p rs t r u e ((==_iff (id r) (id t)).0 hit) in
        let rest = ap (select_rows p) (
          update-IsFresh id (id t) f rs
            (subst (λ j. All (λ s. id s ≢ j) rs) ((==_iff (id r) (id t)).0 hit) u.0)) in
        rw (hit, same, h, k) rest
    | inr miss ↦
        ground (arith, select-update_other p rs t u.1, ==_refl (id t), ap id {x = r} {y = t})
  ]

module _ {ℓ} {A : Type ℓ} where
  pub select-insert_miss :
      (p : A → Bool) (r : A) (rs : List A)
      → p r ≡ false
      → select_rows p (insert_row r rs) ≡ select_rows p rs
  unfolding select_rows insert_row
  select-insert_miss p r [] h = ground arith
  select-insert_miss p r (x ∷ rs) h = ground (arith, select-insert_miss p r rs h)

  -- An update of all that a query finds, to rows that it does not find.
  pub find-update_none :
      (p q : A → Bool) (f : A → A) (rs : List A)
      → ((r : A) → q r ≡ true → p r ≡ true)
      → ((r : A) → q (f r) ≡ false)
      → find_row q (update_rows p f rs) ≡ none
  unfolding find_row update_rows
  find-update_none p q f [] h k = refl
  find-update_none p q f (x ∷ rs) h k = ground (arith, find-update_none p q f rs h k, h x, k x)

  pub count-eq-zero_of_find :
      (p : A → Bool) (rs : List A) → find_row p rs ≡ none → count_rows p rs ≡ 0
  unfolding find_row count_rows
  count-eq-zero_of_find p [] h = refl
  count-eq-zero_of_find p (x ∷ rs) h = ground (arith, count-eq-zero_of_find p rs)

  -- After an update of all rows that meet `p`, to rows that do not meet `q`, no row meets a `q` that
  -- lies within `p`.
  pub count-update_none :
      (p q : A → Bool) (f : A → A) (rs : List A)
      → ((r : A) → q r ≡ true → p r ≡ true)
      → ((r : A) → p r ≡ true → q (f r) ≡ false)
      → count_rows q (update_rows p f rs) ≡ 0
  unfolding count_rows update_rows
  count-update_none p q f [] h k = refl
  count-update_none p q f (x ∷ rs) h k = ground (arith, count-update_none p q f rs h k, h x, k x)

  -- A row that is found does not meet a condition that no row meets.
  pub find-miss :
      (p q : A → Bool) (rs : List A) (t : A)
      → find_row p rs ≡ some t
      → count_rows q rs ≡ 0
      → q t ≡ false
  unfolding find_row count_rows
  find-miss p q [] t e h = ground arith
  find-miss p q (x ∷ rs) t e h = ground (arith, find-miss p q rs t)

  pub find-insert_found :
      (p : A → Bool) (r t : A) (rs : List A)
      → find_row p rs ≡ some t
      → find_row p (insert_row r rs) ≡ some t
  unfolding find_row insert_row
  find-insert_found p r t [] e = ground arith
  find-insert_found p r t (x ∷ rs) e = ground (arith, find-insert_found p r t rs)

  -- An update of rows that the query does not select, to rows that it does not select.
  pub select-update_miss :
      (p q : A → Bool) (f : A → A) (rs : List A)
      → ((r : A) → q r ≡ true → p r ≡ false)
      → ((r : A) → q r ≡ true → p (f r) ≡ false)
      → select_rows p (update_rows q f rs) ≡ select_rows p rs
  unfolding select_rows update_rows
  select-update_miss p q f [] h k = refl
  select-update_miss p q f (x ∷ rs) h k = ground (arith, select-update_miss p q f rs h k, h x, k x)

  pub any-false_count : (p : A → Bool) (rs : List A) → any p rs ≡ false → count_rows p rs ≡ 0
  unfolding count_rows
  any-false_count p [] h = refl
  any-false_count p (x ∷ rs) h = ground (arith, any-false_count p rs)

  -- A row that a condition finds is kept by an update that does not touch it.
  pub any-update_found :
      (p q : A → Bool) (f : A → A) (rs : List A) (t : A)
      → find_row p rs ≡ some t
      → q t ≡ false
      → any p (update_rows q f rs) ≡ true
  unfolding find_row update_rows
  any-update_found p q f [] t e h = ground arith
  any-update_found p q f (x ∷ rs) t e h = ground (arith, any-update_found p q f rs t)

  pub any-update_same :
      (p q : A → Bool) (f : A → A) (rs : List A)
      → ((r : A) → p (f r) ≡ p r)
      → any p (update_rows q f rs) ≡ any p rs
  unfolding update_rows
  any-update_same p q f [] h = refl
  any-update_same p q f (x ∷ rs) h = ground (arith, any-update_same p q f rs h, h x)

  -- A found row that an update does not touch is still found.
  pub find-update_untouched :
      (p q : A → Bool) (f : A → A) (rs : List A) (t : A)
      → ((r : A) → p (f r) ≡ p r)
      → find_row p rs ≡ some t
      → q t ≡ false
      → find_row p (update_rows q f rs) ≡ some t
  unfolding find_row update_rows
  find-update_untouched p q f [] t h e k = ground arith
  find-update_untouched p q f (x ∷ rs) t h e k =
      ground (arith, find-update_untouched p q f rs t h, h x)

  -- A further update that makes no row meet `q` keeps its absence.
  pub count-update_kept_zero :
      (p q : A → Bool) (f : A → A) (rs : List A)
      → ((r : A) → p r ≡ true → q (f r) ≡ true → q r ≡ true)
      → count_rows q rs ≡ 0
      → count_rows q (update_rows p f rs) ≡ 0
  unfolding count_rows update_rows
  count-update_kept_zero p q f [] h z = refl
  count-update_kept_zero p q f (x ∷ rs) h z = ground (arith, count-update_kept_zero p q f rs h, h x)

  -- A found row that an update touches is found with its new values.
  pub find-update_touched :
      (p q : A → Bool) (f : A → A) (rs : List A) (t : A)
      → ((r : A) → p (f r) ≡ p r)
      → find_row p rs ≡ some t
      → q t ≡ true
      → find_row p (update_rows q f rs) ≡ some (f t)
  unfolding find_row update_rows
  find-update_touched p q f [] t h e k = ground arith
  find-update_touched p q f (x ∷ rs) t h e k = ground (arith, find-update_touched p q f rs t h, h x)
