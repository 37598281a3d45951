-- ===== src/ApiKeys/Secret.antt =====
-- The format of the raw key (api-key-secret.ts).
use orgistry.Prelude.{
  ℕ, ◌<◌, String, ◌≡◌, refl, sym, ap, subst, ◌∙◌, inl, inr, Bool, false, some, List, [], ◌∷◌, ◌++◌,
  arith, ◌==◌, ==_refl, Bool-cases, Option-cases, length, any,
}
use orgistry.ApiKeys.{
  separator, scheme_prefix, generate_api_key_secret, ParsedApiKey, strip_prefix, split_at_separator,
  parse_api_key,
}
use orgistry.ApiKeys.Authenticator.{hit}

abbrev pub has_separator : List ℕ → Bool
has_separator xs = any (λ c. c == separator) xs

strip-append : (p xs : List ℕ) → strip_prefix p (p ++ xs) ≡ some xs
unfolding strip_prefix
strip-append [] xs = refl
strip-append (c ∷ cs) xs = ground (arith, strip-append cs xs, ==_refl c)

split-append :
    (xs ys : List ℕ)
    → has_separator xs ≡ false
    → split_at_separator (xs ++ separator ∷ ys) ≡ some (xs, ys)
unfolding split_at_separator
split-append [] ys h = refl
split-append (x ∷ xs) ys h = ground (arith, split-append xs ys)

append_assoc : (xs ys zs : List ℕ) → (xs ++ ys) ++ zs ≡ xs ++ ys ++ zs
append_assoc [] ys zs = refl
append_assoc (x ∷ xs) ys zs = ap (λ r. x ∷ r) (append_assoc xs ys zs)

-- A generated key, whose display id is not empty and has no separator and whose secret is not empty,
-- is read back as its display prefix and its secret, and the secret's hash is the one stored.
pub parse-generate :
    (hash : List ℕ → String) (display_id secret : List ℕ)
    → has_separator display_id ≡ false
    → 0 < length display_id
    → 0 < length secret
    → (p : ParsedApiKey) × (parse_api_key (generate_api_key_secret hash display_id secret).raw
        ≡ some p)
      × (p.display_prefix ≡ (generate_api_key_secret hash display_id secret).display_prefix)
      × (p.secret_component ≡ secret)
      × (hash p.secret_component ≡ (generate_api_key_secret hash display_id secret).secret_hash)
unfolding parse_api_key generate_api_key_secret scheme_prefix
parse-generate hash [] secret h l m = absurd (omega arith)
parse-generate hash (c ∷ cs) [] h l m = absurd (omega arith)
parse-generate hash (c ∷ cs) (s ∷ ss) h l m = (
  record { display_prefix = scheme_prefix ++ c ∷ cs; secret_component = s ∷ ss },
  subst
      (λ raw.
        parse_api_key raw
        ≡ some (record { display_prefix = scheme_prefix ++ c ∷ cs; secret_component = s ∷ ss }))
      (sym (append_assoc scheme_prefix (c ∷ cs) (separator ∷ s ∷ ss))) parsed,
  refl,
  refl,
  refl,
)
  where
    parsed :
        parse_api_key (scheme_prefix ++ (c ∷ cs ++ separator ∷ s ∷ ss))
        ≡ some (record { display_prefix = scheme_prefix ++ c ∷ cs; secret_component = s ∷ ss })
    parsed =
        let stripped = strip-append scheme_prefix (c ∷ cs ++ separator ∷ s ∷ ss) in
        let parts = split-append (c ∷ cs) (s ∷ ss) h in ground arith

strip_sound : (p xs ys : List ℕ) → strip_prefix p xs ≡ some ys → xs ≡ p ++ ys
unfolding strip_prefix
strip_sound [] xs ys h = ground arith
strip_sound (c ∷ cs) [] ys h = absurd (ground arith)
strip_sound (c ∷ cs) (x ∷ xs) ys h = ground (arith, strip_sound cs xs ys)

split_sound :
    (xs a b : List ℕ)
    → split_at_separator xs ≡ some (a, b)
    → (xs ≡ a ++ separator ∷ b) × (has_separator a ≡ false)
unfolding split_at_separator
split_sound [] a b h = absurd (ground arith)
split_sound (x ∷ xs) a b h = elim (Bool-cases (x == separator)) [
  | inl hit ↦ ground arith
  | inr miss ↦ elim (Option-cases (split_at_separator xs)) [
    | inl missing ↦ absurd (ground arith)
    | inr ((a', b'), parts) ↦ let rest = split_sound xs a' b' parts in ground arith
  ]
]

-- Only a raw key of the format is read: it is the display prefix, a separator and the secret, none of
-- the parts is empty, and the display id has no separator.
pub parse_api_key_sound :
    (raw : List ℕ) (p : ParsedApiKey)
    → parse_api_key raw ≡ some p
    → (raw ≡ p.display_prefix ++ separator ∷ p.secret_component)
      × (0 < length p.secret_component)
      × ((display_id : List ℕ) × (p.display_prefix ≡ scheme_prefix ++ display_id)
          × (0 < length display_id)
          × (has_separator display_id ≡ false))
unfolding parse_api_key scheme_prefix
parse_api_key_sound raw p h = elim (Option-cases (strip_prefix scheme_prefix raw)) [
  | inl missing ↦ absurd (ground arith)
  | inr (remainder, stripped) ↦ elim (Option-cases (split_at_separator remainder)) [
    | inl unsplit ↦ absurd (ground arith)
    | inr (([], b), parts) ↦ absurd (ground arith)
    | inr ((c ∷ cs, []), parts) ↦ absurd (ground arith)
    | inr ((c ∷ cs, s ∷ ss), parts) ↦
        let (joined, clean) = split_sound remainder (c ∷ cs) (s ∷ ss) parts in
        let whole = strip_sound scheme_prefix raw remainder stripped in
        let same : record { display_prefix = scheme_prefix ++ c ∷ cs; secret_component = s ∷ ss }
            ≡ p =
          ground arith in
        subst
          (λ q.
            (raw ≡ q.display_prefix ++ separator ∷ q.secret_component)
            × (0 < length q.secret_component)
            × ((display_id : List ℕ) × (q.display_prefix ≡ scheme_prefix ++ display_id)
                × (0 < length display_id)
                × (has_separator display_id ≡ false)))
          same
          (
            (whole ∙ ap (λ r. scheme_prefix ++ r) joined)
                ∙ sym (append_assoc scheme_prefix (c ∷ cs) (separator ∷ s ∷ ss)),
            omega arith,
            (c ∷ cs, refl, omega arith, clean),
          )
  ]
]
