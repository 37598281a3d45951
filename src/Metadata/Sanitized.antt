-- ===== src/Metadata/Sanitized.antt =====
-- What the sanitizer guarantees of the metadata it lets through (lib/security-metadata.ts).
use orgistry.Prelude.{
  ℕ, zero, suc, ◌+◌, ◌≤◌, ◌≡◌, refl, ap, false, List, [], ◌∷◌, ◌++◌, arith, length, take,
  length-append, length-take,
}
use orgistry.Metadata.{
  Value, text, number, null, array, object, Values, nil, cons, Entries, end, entry,
  max_string_length, ellipsis, is_forbidden_key, shorten, shorten_to, sanitize_value,
  sanitize_items, sanitize_object, sanitize_security_metadata,
}

-- No forbidden key at any depth, no text above the cap and its mark, at most `n` more levels.
unfoldable mutual
  pub IsClean : ℕ → Value → Type 0
  IsClean n (text s) = length s ≤ 1025
  IsClean n (number k) = Unit {0}
  IsClean n null = Unit {0}
  IsClean zero (array vs) = ⊥
  IsClean (suc n) (array vs) = AreClean n vs
  IsClean zero (object es) = ⊥
  IsClean (suc n) (object es) = HasCleanEntries n es

  pub AreClean : ℕ → Values → Type 0
  AreClean n nil = Unit {0}
  AreClean n (cons v vs) = IsClean n v × AreClean n vs

  pub HasCleanEntries : ℕ → Entries → Type 0
  HasCleanEntries n end = Unit {0}
  HasCleanEntries n (entry k v es) =
      (is_forbidden_key k ≡ false) × IsClean n v × HasCleanEntries n es

length-shorten_to-le : (n : ℕ) (s : List ℕ) → length (shorten_to n s) ≤ n + 1
unfolding shorten_to
length-shorten_to-le n s = ground (arith, length-append (take n s) (ellipsis ∷ []), length-take n s)

length-shorten-le : (s : List ℕ) → length (shorten s) ≤ 1025
unfolding shorten
length-shorten-le s = length-shorten_to-le max_string_length s

mutual
  unfolding IsClean sanitize_value

  value-IsClean : (n depth : ℕ) (v : Value) → n + depth ≡ 5 → IsClean n (sanitize_value v depth)
  value-IsClean n depth (text s) h = ground (arith, length-shorten-le s)
  value-IsClean n depth (number k) h = ground arith
  value-IsClean n depth null h = ground arith
  value-IsClean zero depth (array vs) h = ground arith
  value-IsClean (suc n) depth (array vs) h = ground (arith, items-AreClean n (suc depth) vs)
  value-IsClean zero depth (object es) h = ground arith
  value-IsClean (suc n) depth (object es) h =
      ground (arith, object-HasCleanEntries n (suc depth) es)

  items-AreClean :
      (n depth : ℕ) (vs : Values) → n + depth ≡ 5 → AreClean n (sanitize_items vs depth)
  items-AreClean n depth nil h = tt
  items-AreClean n depth (cons v vs) h = (value-IsClean n depth v h, items-AreClean n depth vs h)

  object-HasCleanEntries :
      (n depth : ℕ) (es : Entries) → n + depth ≡ 5 → HasCleanEntries n (sanitize_object es depth)
  object-HasCleanEntries n depth end h = tt
  object-HasCleanEntries n depth (entry k v es) h =
      ground (arith, value-IsClean n depth v h, object-HasCleanEntries n depth es h)

-- Whatever metadata a caller passes, what is stored has no forbidden key at any depth, no text of
-- more than 1025 units, and at most four levels of arrays and objects below the top.
pub sanitize_security_metadata-HasCleanEntries :
    (metadata : Entries) → HasCleanEntries 4 (sanitize_security_metadata metadata)
unfolding sanitize_security_metadata
sanitize_security_metadata-HasCleanEntries metadata = object-HasCleanEntries 4 1 metadata refl

take-append_left : (n : ℕ) (xs ys : List ℕ) → length xs ≡ n → take n (xs ++ ys) ≡ xs
take-append_left zero [] ys h = refl
take-append_left zero (x ∷ xs) ys h = absurd (omega arith)
take-append_left (suc n) [] ys h = absurd (omega arith)
take-append_left (suc n) (x ∷ xs) ys h = ap (◌∷◌ x) (take-append_left n xs ys (omega arith))

shorten_to-shorten_to : (n : ℕ) (s : List ℕ) → shorten_to n (shorten_to n s) ≡ shorten_to n s
unfolding shorten_to
shorten_to-shorten_to n s = ground (
  arith,
  length-append (take n s) (ellipsis ∷ []),
  length-take n s,
  take-append_left n (take n s) (ellipsis ∷ []),
)

shorten-shorten : (s : List ℕ) → shorten (shorten s) ≡ shorten s
unfolding shorten
shorten-shorten s = shorten_to-shorten_to max_string_length s

mutual
  unfolding sanitize_value

  value_idempotent :
      (v : Value) (depth : ℕ)
      → sanitize_value (sanitize_value v depth) depth ≡ sanitize_value v depth
  value_idempotent (text s) depth = ground (arith, shorten-shorten s)
  value_idempotent (number k) depth = ground arith
  value_idempotent null depth = ground arith
  value_idempotent (array vs) depth = ground (arith, items_idempotent vs (suc depth))
  value_idempotent (object es) depth = ground (arith, object_idempotent es (suc depth))

  items_idempotent :
      (vs : Values) (depth : ℕ)
      → sanitize_items (sanitize_items vs depth) depth ≡ sanitize_items vs depth
  items_idempotent nil depth = refl
  items_idempotent (cons v vs) depth = cc (value_idempotent v depth, items_idempotent vs depth)

  object_idempotent :
      (es : Entries) (depth : ℕ)
      → sanitize_object (sanitize_object es depth) depth ≡ sanitize_object es depth
  object_idempotent end depth = refl
  object_idempotent (entry k v es) depth =
      ground (arith, value_idempotent v depth, object_idempotent es depth)

-- Sanitizing again when the audit log is read changes nothing of what was sanitized when written.
pub sanitize_security_metadata_idempotent :
    (metadata : Entries)
    → sanitize_security_metadata (sanitize_security_metadata metadata)
      ≡ sanitize_security_metadata metadata
unfolding sanitize_security_metadata
sanitize_security_metadata_idempotent metadata = object_idempotent metadata 1
