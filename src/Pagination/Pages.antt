-- ===== src/Pagination/Pages.antt =====
-- Following the cursors from page to page.
use mathlib.Core.List.{append_assoc, append-nil}
use orgistry.Prelude.{
  ℕ, zero, suc, ◌+◌, ◌-◌, ◌≤◌, ◌<◌, ◌≡◌, refl, sym, ap, subst, ◌∙◌, inl, inr, Bool, true, false,
  ◌&&◌, Option, none, some, List, [], ◌∷◌, ◌++◌, arith, leb, leb→le, Bool-cases, length, take, drop,
  last?, length-take, All,
}
use orgistry.Tables.{select_rows, HasUniqueIds}
use orgistry.Pagination.{
  Cursor, Page, before, order_by_desc, after_cursor, list_rows, cursor_of, page_of, list_page,
}
use orgistry.Pagination.Order.{
  IsFalling, order_by_select-IsFalling, order_by-select, IsApart, AreApart, order_by_desc-AreApart,
}
use mathlib.Core.Option

module _ {A : Type 0} where
  take-take : (n : ℕ) (xs : List A) → take n (take (n + 1) xs) ≡ take n xs
  take-take zero xs = refl
  take-take (suc n) [] = ground arith
  take-take (suc n) (x ∷ xs) = ground (arith, take-take n xs)

  take-all : (n : ℕ) (xs : List A) → length xs ≤ n → take n xs ≡ xs
  take-all zero [] h = refl
  take-all zero (x ∷ xs) h = absurd (omega arith)
  take-all (suc n) [] h = refl
  take-all (suc n) (x ∷ xs) h = ap (◌∷◌ x) (take-all n xs (omega arith))

  -- The last of the first `n` rows, with what stands before and behind it.
  cut :
      (n : ℕ) (xs : List A)
      → n < length xs
      → (front : List A) × (l : A) × (xs ≡ front ++ l ∷ drop (suc n) xs)
        × (last? (take (suc n) xs) ≡ some l)
  cut n [] h = absurd (omega arith)
  cut zero (x ∷ xs) h = ([], x, refl, refl)
  cut (suc n) (x ∷ []) h = absurd (omega arith)
  cut (suc n) (x ∷ (y ∷ ys)) h =
      let (front, l, e, e') = cut n (y ∷ ys) (omega arith) in (x ∷ front, l, ap (◌∷◌ x) e, e')

  take-append-drop : (n : ℕ) (xs : List A) → take n xs ++ drop n xs ≡ xs
  take-append-drop zero xs = refl
  take-append-drop (suc n) [] = refl
  take-append-drop (suc n) (x ∷ xs) = ap (◌∷◌ x) (take-append-drop n xs)

  length-drop-lt : (n : ℕ) (xs : List A) → n < length xs → length (drop (suc n) xs) < length xs
  length-drop-lt n [] h = absurd (omega arith)
  length-drop-lt zero (x ∷ xs) h = omega arith
  length-drop-lt (suc n) (x ∷ xs) h = omega (arith, length-drop-lt n xs)

  select-select :
      (p q : A → Bool) (xs : List A)
      → select_rows (λ r. p r && q r) xs ≡ select_rows q (select_rows p xs)
  unfolding select_rows
  select-select p q [] = refl
  select-select p q (x ∷ xs) = ground (arith, select-select p q xs)

  select_every : (p : A → Bool) (xs : List A) → All (λ r. p r ≡ true) xs → select_rows p xs ≡ xs
  unfolding select_rows
  select_every p [] h = refl
  select_every p (x ∷ xs) (h, hs) = ground (arith, select_every p xs hs)

  select_true : (xs : List A) → select_rows (λ r. true) xs ≡ xs
  unfolding select_rows
  select_true [] = refl
  select_true (x ∷ xs) = ap (◌∷◌ x) (select_true xs)

All-middle {ℓ κ} :
    {A : Type ℓ} (P : A → Type κ) (ys : List A) (l : A) (back : List A)
    → All P (ys ++ l ∷ back)
    → P l
All-middle P [] l back (k, ks) = k
All-middle P (y ∷ ys) l back (k, ks) = All-middle P ys l back ks

module _ {A : Type 0} (created id : A → ℕ) where
  -- Of rows that a cursor tells apart: one before the cursor's row, and one behind it.
  not_after :
      (x l : A)
      → before created id x l ≡ true
      → after_cursor created id (some (cursor_of created id l)) x ≡ false
  not_after x l h = ground arith

  after :
      (l b : A)
      → before created id l b ≡ true
      → IsApart created id l b
      → after_cursor created id (some (cursor_of created id l)) b ≡ true
  after l b h (inl n) = ground arith
  after l b h (inr (whole, whole')) = ground arith

  not_after_itself : (l : A) → after_cursor created id (some (cursor_of created id l)) l ≡ false
  not_after_itself l = ground arith

  All-after :
      (l : A) (back : List A)
      → All (λ b. before created id l b ≡ true) back
      → All (λ b. IsApart created id l b) back
      → All (λ b. after_cursor created id (some (cursor_of created id l)) b ≡ true) back
  All-after l [] h u = tt
  All-after l (b ∷ back) (h, hs) (u, us) = (after l b h u, All-after l back hs us)

  select_behind :
      (front : List A) (l : A) (back : List A)
      → IsFalling created id (front ++ l ∷ back)
      → AreApart created id (front ++ l ∷ back)
      → select_rows (after_cursor created id (some (cursor_of created id l))) (front ++ l ∷ back)
        ≡ back
  unfolding select_rows
  select_behind [] l back (h, hs) (u, us) =
      rw (not_after_itself l) (select_every _ back (All-after l back h u))
  select_behind (x ∷ front) l back (h, hs) (u, us) =
      rw (not_after x l (All-middle _ front l back h)) (select_behind front l back hs us)

  -- The rows of a page, and then those that its cursor leads to.
  unfoldable pub turn : (Cursor → List A) → Page A → List A
  turn next page = page.items ++ elim page.next_cursor [ none ↦ [] | some c ↦ next c ]

  -- What the client has when it follows the cursors for at most `fuel` pages.
  unfoldable pub follow : ℕ → (A → Bool) → ℕ → List A → Option Cursor → List A
  follow zero where_clause limit rows cursor = []
  follow (suc fuel) where_clause limit rows cursor =
      turn (λ c. follow fuel where_clause limit rows (some c))
        (list_page created id where_clause limit cursor rows)

  list_rows-select :
      (where_clause : A → Bool) (limit : ℕ) (cursor : Option Cursor) (rows : List A)
      → HasUniqueIds id rows
      → list_rows created id where_clause limit cursor rows
        ≡ take (limit + 1) (
            select_rows
              (after_cursor created id cursor)
              (order_by_desc created id (select_rows where_clause rows)))
  unfolding list_rows
  list_rows-select where_clause limit cursor rows u = ap (take (limit + 1)) (
      order_by-select created id (λ r. where_clause r && after_cursor created id cursor r) rows u
      ∙ select-select where_clause (after_cursor created id cursor) (order_by_desc created id rows)
      ∙ ap (select_rows (after_cursor created id cursor))
          (sym (order_by-select created id where_clause rows u)))

  page_of-last :
      (limit : ℕ) (t : List A)
      → length t ≤ limit
      → page_of created id limit (take (limit + 1) t)
        ≡ record { items = t; next_cursor = none; has_more = false }
  unfolding page_of
  page_of-last limit t h = rw (take-all (limit + 1) t (omega arith)) (ground arith)

  page_of-more :
      (limit : ℕ) (t : List A) (l : A)
      → limit < length t
      → last? (take limit t) ≡ some l
      → page_of created id limit (take (limit + 1) t) ≡ record {
        items = take limit t;
        next_cursor = some (cursor_of created id l);
        has_more = true;
      }
  unfolding page_of
  page_of-more limit t l h e = ground (
    arith,
    take-take limit t,
    length-take (limit + 1) t,
    ap (Option.map (cursor_of created id)) e,
  )

  module _ (where_clause : A → Bool) (limit : ℕ) (rows : List A) (u : HasUniqueIds id rows)
      (v : AreApart created id (select_rows where_clause rows)) where
    -- All that the route lists, in its order.
    abbrev listing : List A
    listing = order_by_desc created id (select_rows where_clause rows)

    page_here :
        (cursor : Option Cursor) (rest : List A)
        → select_rows (after_cursor created id cursor) listing ≡ rest
        → list_page created id where_clause limit cursor rows
          ≡ page_of created id limit (take (limit + 1) rest)
    unfolding list_page
    page_here cursor rest e =
        ap (page_of created id limit)
          (list_rows-select where_clause limit cursor rows u ∙ ap (take (limit + 1)) e)

    -- The rows behind the last of a page, when `front` came before the page.
    behind :
        (front rest f : List A) (l : A) (back : List A)
        → listing ≡ front ++ rest
        → rest ≡ f ++ l ∷ back
        → (select_rows (after_cursor created id (some (cursor_of created id l))) listing ≡ back)
          × (listing ≡ (front ++ (f ++ l ∷ [])) ++ back)
    behind front rest f l back split e =
        let whole : listing ≡ (front ++ f) ++ l ∷ back =
          split ∙ ap (◌++◌ front) e ∙ sym (append_assoc front f (l ∷ back)) in
        (
          ap (select_rows (after_cursor created id (some (cursor_of created id l)))) whole
              ∙ select_behind (front ++ f) l back
                  (subst (IsFalling created id) whole
                    (order_by_select-IsFalling created id where_clause rows u))
                  (subst (AreApart created id) whole
                    (order_by_desc-AreApart created id (select_rows where_clause rows) v)),
          split ∙ ap (◌++◌ front) e ∙ simp append_assoc,
        )

    follow_rest :
        (fuel : ℕ) (cursor : Option Cursor) (front rest : List A)
        → listing ≡ front ++ rest
        → select_rows (after_cursor created id cursor) listing ≡ rest
        → length rest < fuel
        → 0 < limit
        → follow fuel where_clause limit rows cursor ≡ rest
    unfolding follow turn
    follow_rest zero cursor front rest split e h positive = absurd (omega arith)
    follow_rest (suc fuel) cursor front rest split e h positive =
        elim (Bool-cases (leb (length rest) limit)) [
          | inl short ↦
              ap (turn _) (page_here cursor rest e ∙ page_of-last limit rest (leb→le _ _ short))
              ∙ append-nil rest
          | inr long ↦
              let (f, l, cut_here, last) = cut (limit - 1) rest (ground arith) in
              let more = limit_suc positive in
              let (e', split') =
                behind front rest f l (drop limit rest) split (rw more at cut_here) in
              ap (turn _) (
                page_here cursor rest e
                ∙ page_of-more limit rest l (ground arith) (rw more at last))
              ∙ ap (◌++◌ (take limit rest)) (
                  follow_rest fuel (some (cursor_of created id l)) (front ++ (f ++ l ∷ []))
                    (drop limit rest) split' e'
                    (omega (arith, drop_lt positive rest (ground arith))) positive)
              ∙ take-append-drop limit rest
        ]
      where
        limit_suc : 0 < limit → suc (limit - 1) ≡ limit
        limit_suc h = omega arith

        drop_lt : 0 < limit → (xs : List A) → limit < length xs → length (drop limit xs) < length xs
        drop_lt h xs k =
            subst (λ n. length (drop n xs) < length xs) (limit_suc h)
              (length-drop-lt (limit - 1) xs (omega arith))

-- Following the cursors from the first page gives every row that the route lists, once and in the
-- order of the listing, when rows have distinct ids, a page holds at least one row, more pages are
-- fetched than there are rows, and any two of the listed rows were created in different milliseconds or
-- both at a whole millisecond.
pub follow-listing :
    {A : Type 0} (created id : A → ℕ) (where_clause : A → Bool) (limit : ℕ) (rows : List A)
    (fuel : ℕ)
    → HasUniqueIds id rows
    → AreApart created id (select_rows where_clause rows)
    → 0 < limit
    → length (order_by_desc created id (select_rows where_clause rows)) < fuel
    → follow created id fuel where_clause limit rows none
      ≡ order_by_desc created id (select_rows where_clause rows)
follow-listing created id where_clause limit rows fuel u v positive h =
    follow_rest created id where_clause limit rows u v fuel none [] _ refl (select_true _) h
      positive
