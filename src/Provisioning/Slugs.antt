-- ===== src/Provisioning/Slugs.antt =====
-- Derived slugs have the form that packages/contracts asks of a requested one.
use orgistry.Prelude.{
  ℕ, zero, suc, ◌≤◌, ◌≡◌, refl, ◌⊎◌, inl, inr, Bool, true, false, not, ◌&&◌, ◌||◌, List, [], ◌∷◌,
  arith, ltb, ◌==◌, Bool-cases, length, take, length-take,
}
use orgistry.Slug.{
  max_slug_base_length, hyphen, is_slug_char, hyphenate, strip_leading, strip_trailing, slug_of,
  slugify, matches_slug_pattern,
}

-- Slug characters and single hyphens; the flag forbids a hyphen first.
tidy : Bool → List ℕ → Bool
tidy after [] = true
tidy after (c ∷ cs) =
    (is_slug_char c || (not after && c == hyphen)) && tidy (not (is_slug_char c)) cs

hyphen_not_slug_char : (c : ℕ) → (c == hyphen) ≡ true → is_slug_char c ≡ false
unfolding is_slug_char
hyphen_not_slug_char c h = ground arith

tidy-hyphenate : (after : Bool) (cs : List ℕ) → tidy after (hyphenate after cs) ≡ true
unfolding tidy hyphenate
tidy-hyphenate after [] = refl
tidy-hyphenate after (c ∷ cs) =
    ground (arith, tidy-hyphenate (not (is_slug_char c)) cs, tidy_hyphen)
  where
    tidy_hyphen : is_slug_char hyphen ≡ false
    tidy_hyphen = unfold is_slug_char in refl

tidy-strip_leading :
    (after : Bool) (cs : List ℕ) → tidy after cs ≡ true → tidy true (strip_leading cs) ≡ true
unfolding tidy strip_leading
tidy-strip_leading after [] h = refl
tidy-strip_leading after (c ∷ cs) h =
    ground (arith, tidy-strip_leading (not (is_slug_char c)) cs, hyphen_not_slug_char c)

tidy-strip_trailing :
    (after : Bool) (cs : List ℕ) → tidy after cs ≡ true → tidy after (strip_trailing cs) ≡ true
unfolding tidy strip_trailing
tidy-strip_trailing after [] h = refl
tidy-strip_trailing after (c ∷ cs) h = ground (arith, tidy-strip_trailing (not (is_slug_char c)) cs)

tidy-take :
    (after : Bool) (n : ℕ) (cs : List ℕ) → tidy after cs ≡ true → tidy after (take n cs) ≡ true
unfolding tidy
tidy-take after zero cs h = refl
tidy-take after (suc n) [] h = refl
tidy-take after (suc n) (c ∷ cs) h = ground (arith, tidy-take (not (is_slug_char c)) n cs)

strip_trailing-matches :
    (begun : Bool) (cs : List ℕ)
    → tidy (not begun) cs ≡ true
    → (begun || ltb 0 (length (strip_trailing cs))) ≡ true
    → matches_slug_pattern begun (strip_trailing cs) ≡ true
unfolding tidy strip_trailing matches_slug_pattern
strip_trailing-matches begun [] h k = ground arith
strip_trailing-matches begun (c ∷ cs) h k =
    ground (arith, strip_trailing-matches (is_slug_char c) cs, hyphen_not_slug_char c)

length-strip_trailing : (cs : List ℕ) → length (strip_trailing cs) ≤ length cs
unfolding strip_trailing
length-strip_trailing [] = omega arith
length-strip_trailing (c ∷ cs) = ground (arith, length-strip_trailing cs)

slug_of-tidy :
    (folded : List ℕ)
    → tidy true
        (take max_slug_base_length (strip_trailing (strip_leading (hyphenate false folded))))
      ≡ true
slug_of-tidy folded = tidy-take true max_slug_base_length _ (
    tidy-strip_trailing true _
      (tidy-strip_leading false (hyphenate false folded) (tidy-hyphenate false folded)))

slug_of-length : (folded : List ℕ) → length (slug_of folded) ≤ max_slug_base_length
unfolding slug_of
slug_of-length folded = omega (
  arith,
  length-strip_trailing
      (take max_slug_base_length (strip_trailing (strip_leading (hyphenate false folded)))),
  length-take {0} max_slug_base_length (strip_trailing (strip_leading (hyphenate false folded))),
)

slug_of-matches :
    (folded : List ℕ)
    → ltb 0 (length (slug_of folded)) ≡ true
    → matches_slug_pattern false (slug_of folded) ≡ true
unfolding slug_of
slug_of-matches folded h = strip_trailing-matches false _ (slug_of-tidy folded) h

-- Whatever the name, a derived slug is a run of segments of lower-case letters and digits joined by
-- single hyphens, as the contract's pattern asks, if the fallback is; and it has no more than 40
-- characters, or is the fallback.
pub slugify_matches :
    (fold : List ℕ → List ℕ) (input fallback : List ℕ)
    → matches_slug_pattern false fallback ≡ true
    → (matches_slug_pattern false (slugify fold input fallback) ≡ true)
      × ((length (slugify fold input fallback) ≤ max_slug_base_length)
          ⊎ (slugify fold input fallback ≡ fallback))
unfolding slugify
slugify_matches fold input fallback h = elim (Bool-cases (ltb 0 (length (slug_of (fold input))))) [
  | inl derived ↦
      rw derived (slug_of-matches (fold input) derived, inl (slug_of-length (fold input)))
  | inr blank ↦ rw blank (h, inr refl)
]
