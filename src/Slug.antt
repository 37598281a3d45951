-- ===== src/Slug.antt =====
-- apps/api/src/modules/organization/organization.provisioning.ts: the derivation of a slug and the
-- search for a free one. A slug is its list of code units. `fold` stands for
-- `toLowerCase().normalize('NFKD')`, and the random tail of `shortSlugToken` is an argument.
use orgistry.Prelude.{
  ℕ, zero, suc, ◌+◌, ◌/◌, ◌%◌, Bool, false, not, ◌&&◌, ◌||◌, Option, none, some, List, [], ◌∷◌,
  ◌++◌, ltb, leb, ◌==◌, if◌then◌else◌, length, take,
}

abbrev pub max_slug_base_length : ℕ
max_slug_base_length = 40

abbrev pub max_slug_suffix_attempts : ℕ
max_slug_suffix_attempts = 50

abbrev pub hyphen : ℕ
hyphen = b'-'

-- `[a-z0-9]`.
unfoldable pub is_slug_char : ℕ → Bool
is_slug_char c = (leb b'a' c && leb c b'z') || (leb b'0' c && leb c b'9')

-- `replace(/[^a-z0-9]+/g, '-')`; the flag says that the last character was replaced.
unfoldable pub hyphenate : Bool → List ℕ → List ℕ
hyphenate replaced [] = []
hyphenate replaced (c ∷ cs) =
    let rest = hyphenate (not (is_slug_char c)) cs in
    if is_slug_char c then c ∷ rest else (if replaced then rest else hyphen ∷ rest)

unfoldable pub strip_leading : List ℕ → List ℕ
strip_leading [] = []
strip_leading (c ∷ cs) = if c == hyphen then strip_leading cs else c ∷ cs

unfoldable pub strip_trailing : List ℕ → List ℕ
strip_trailing [] = []
strip_trailing (c ∷ cs) =
    let rest = strip_trailing cs in if c == hyphen && length rest == 0 then [] else c ∷ rest

unfoldable pub slug_of : List ℕ → List ℕ
slug_of folded =
    strip_trailing
      (take max_slug_base_length (strip_trailing (strip_leading (hyphenate false folded))))

unfoldable pub slugify : (fold : List ℕ → List ℕ) → (input fallback : List ℕ) → List ℕ
slugify fold input fallback =
    if ltb 0 (length (slug_of (fold input))) then slug_of (fold input) else fallback

-- ORGANIZATION_SLUG_PATTERN of packages/contracts, `^[a-z0-9]+(?:-[a-z0-9]+)*$`; the flag says that a
-- segment has begun.
unfoldable pub matches_slug_pattern : Bool → List ℕ → Bool
matches_slug_pattern begun [] = begun
matches_slug_pattern begun (c ∷ cs) =
    (is_slug_char c || (begun && c == hyphen)) && matches_slug_pattern (is_slug_char c) cs

-- The decimal digits of a number below 100.
unfoldable pub digits : ℕ → List ℕ
digits n = if ltb n 10 then (48 + n) ∷ [] else (48 + n / 10) ∷ ((48 + n % 10) ∷ [])

-- `${base}-${tail}`.
unfoldable pub hyphenated : List ℕ → List ℕ → List ℕ
hyphenated base tail = base ++ hyphen ∷ tail

-- The loop of resolveUniqueSlug; `none` means that the fuel ran out.
unfoldable pub search_slug :
    (is_taken : List ℕ → Bool)
    → (base token : List ℕ) → (fuel suffix : ℕ) → (candidate : List ℕ) → Option (List ℕ)
search_slug is_taken base token zero suffix candidate = none
search_slug is_taken base token (suc fuel) suffix candidate =
    let rest =
      search_slug is_taken base token fuel (suffix + 1) (hyphenated base (digits suffix)) in
    if not (is_taken candidate)
    then some candidate
    else (if ltb max_slug_suffix_attempts suffix then some (hyphenated base token) else rest)

unfoldable pub resolve_unique_slug :
    (is_taken : List ℕ → Bool) → (base token : List ℕ) → Option (List ℕ)
resolve_unique_slug is_taken base token =
    search_slug is_taken base token max_slug_suffix_attempts 2 base
