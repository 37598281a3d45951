-- ===== src/Provisioning/Search.antt =====
-- The search for a free slug ends, and says what it found (resolveUniqueSlug).
use orgistry.Prelude.{
  ℕ, zero, suc, ◌+◌, ◌<◌, ◌≡◌, refl, ◌⊎◌, inl, inr, Bool, true, false, ◌&&◌, some, List, arith,
  Bool-cases,
}
use orgistry.Slug.{max_slug_suffix_attempts, digits, hyphenated, search_slug, resolve_unique_slug}

module _ (is_taken : List ℕ → Bool) (base token : List ℕ) where
  -- The slugs `base-k` for `n` numbers from `k` on are all taken.
  unfoldable pub numbered_taken : (n k : ℕ) → Bool
  numbered_taken zero k = true
  numbered_taken (suc n) k = is_taken (hyphenated base (digits k)) && numbered_taken n (k + 1)

  search_slug-result :
      (fuel suffix n : ℕ) (candidate : List ℕ)
      → suffix + n ≡ max_slug_suffix_attempts + 1
      → n < fuel
      → (slug : List ℕ) × (search_slug is_taken base token fuel suffix candidate ≡ some slug)
        × ((is_taken slug ≡ false)
            ⊎ ((slug ≡ hyphenated base token)
                × (is_taken candidate ≡ true)
                × (numbered_taken n suffix ≡ true)))
  unfolding search_slug numbered_taken
  search_slug-result zero suffix n candidate e h = absurd (omega arith)
  search_slug-result (suc fuel) suffix zero candidate e h = elim (Bool-cases (is_taken candidate)) [
    | inr vacant ↦ (candidate, ground arith, inl vacant)
    | inl taken ↦ (hyphenated base token, ground arith, inr (refl, taken, refl))
  ]
  search_slug-result (suc fuel) suffix (suc n) candidate e h =
      elim (Bool-cases (is_taken candidate)) [
        | inr vacant ↦ (candidate, ground arith, inl vacant)
        | inl taken ↦
            let (slug, found, why) =
              search_slug-result fuel (suffix + 1) n (hyphenated base (digits suffix)) (omega arith)
                (omega arith) in
            (
              slug,
              ground arith,
              elim why [
                | inl vacant ↦ inl vacant
                | inr (same, numbered, rest) ↦ inr (same, taken, ground arith)
              ],
            )
      ]

  -- The search for a slug ends within its 50 rounds. What it gives is free, or it is the base with the
  -- random tail, and then the base and all of `base-2` to `base-50` are taken.
  pub resolve_unique_slug-result :
      (slug : List ℕ) × (resolve_unique_slug is_taken base token ≡ some slug)
      × ((is_taken slug ≡ false)
          ⊎ ((slug ≡ hyphenated base token)
              × (is_taken base ≡ true)
              × (numbered_taken 49 2 ≡ true)))
  unfolding resolve_unique_slug
  resolve_unique_slug-result =
      search_slug-result max_slug_suffix_attempts 2 49 base refl (omega arith)
