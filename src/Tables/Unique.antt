-- ===== src/Tables/Unique.antt =====
-- Rows that a unique index keeps apart, and the first row of a fresh key.
use orgistry.Prelude.{
  ◌≡◌, refl, inl, inr, Bool, true, false, none, some, List, [], ◌∷◌, ◌++◌, arith, Bool-cases, any,
  All, All-append,
}
use orgistry.Tables.Defs.{find_row, select_rows, count_rows, insert_row}

module _ {ℓ} {A : Type ℓ} where
  -- No later row has the same key as an earlier one.
  abbrev pub IsUniqueBy : (same : A → A → Bool) → List A → Type 0
  IsUniqueBy same [] = Unit {0}
  IsUniqueBy same (r ∷ rs) = All (λ s. same r s ≡ false) rs × IsUniqueBy same rs

  All-insert {κ} :
      (P : A → Type κ) (rs : List A) (new : A) → All P rs → P new → All P (rs ++ new ∷ [])
  All-insert P rs new h k = All-append P rs (new ∷ []) h (k, tt)

  pub insert-IsUniqueBy :
      (same : A → A → Bool) (rs : List A) (new : A)
      → find_row (λ r. same r new) rs ≡ none
      → IsUniqueBy same rs
      → IsUniqueBy same (insert_row new rs)
  unfolding find_row insert_row
  insert-IsUniqueBy same [] new e u = (tt, tt)
  insert-IsUniqueBy same (r ∷ rs) new e u = elim (Bool-cases (same r new)) [
    | inl hit ↦ absurd (ground arith)
    | inr miss ↦ (
      All-insert (λ s. same r s ≡ false) rs new u.0 miss,
      insert-IsUniqueBy same rs new (ground arith) u.1,
    )
  ]

  pub select-insert_first :
      (p : A → Bool) (r : A) (rs : List A)
      → any p rs ≡ false
      → p r ≡ true
      → select_rows p (insert_row r rs) ≡ r ∷ []
  unfolding select_rows insert_row
  select-insert_first p r [] h k = ground arith
  select-insert_first p r (x ∷ rs) h k = ground (arith, select-insert_first p r rs)

  pub find-insert_first :
      (p : A → Bool) (r : A) (rs : List A)
      → find_row p rs ≡ none
      → p r ≡ true
      → find_row p (insert_row r rs) ≡ some r
  unfolding find_row insert_row
  find-insert_first p r [] h k = ground arith
  find-insert_first p r (x ∷ rs) h k = ground (arith, find-insert_first p r rs)

  pub count-eq_zero_of_imp :
      (p q : A → Bool) (rs : List A)
      → ((r : A) → q r ≡ true → p r ≡ true)
      → count_rows p rs ≡ 0
      → count_rows q rs ≡ 0
  unfolding count_rows
  count-eq_zero_of_imp p q [] h z = refl
  count-eq_zero_of_imp p q (x ∷ rs) h z = ground (arith, count-eq_zero_of_imp p q rs h, h x)

  pub any-eq_false_of_count :
      (p q : A → Bool) (rs : List A)
      → ((r : A) → p r ≡ true → q r ≡ true)
      → count_rows q rs ≡ 0
      → any p rs ≡ false
  unfolding count_rows
  any-eq_false_of_count p q [] h z = refl
  any-eq_false_of_count p q (x ∷ rs) h z = ground (arith, any-eq_false_of_count p q rs h, h x)
