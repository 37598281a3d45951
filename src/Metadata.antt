-- ===== src/Metadata.antt =====
-- apps/api/src/lib/security-metadata.ts: the sanitizer of audit metadata.
-- A JSON value: `text` holds UTF-16 code units, `number` stands for the other primitives.
-- `to_lower_case` is toLowerCase as far as it gives ASCII: on the letters A to Z, on the Kelvin sign
-- (U+212A, to k) and on the dotted I (U+0130, to i and U+0307). No other character is lowered to an
-- ASCII one, so none of them takes part in a match with a key of the lists, and it is left as it is.
pub mod Sanitized
use Prim.Native.Char.{code}
use orgistry.Prelude.{
  ℕ, suc, ◌+◌, String, Bool, true, false, ◌&&◌, List, [], ◌∷◌, ◌++◌, map, ltb, leb, ◌==◌,
  if◌then◌else◌, length, take, any,
}

abbrev pub codes : String → List ℕ
codes String.[] = []
codes (String.◌∷◌ c s) = code c ∷ codes s

mutual
  pub data Value : Type 0 where
    text : List ℕ → Value
    number : ℕ → Value
    null : Value
    array : Values → Value
    object : Entries → Value

  pub data Values : Type 0 where
    nil : Values
    cons : Value → Values → Values

  pub data Entries : Type 0 where
    end : Entries
    entry : List ℕ → Value → Entries → Entries

abbrev pub id_entry : String → ℕ → Entries → Entries
id_entry key id rest = entry (codes key) (number id) rest

abbrev pub text_entry : String → String → Entries → Entries
text_entry key s rest = entry (codes key) (text (codes s)) rest

abbrev pub append_entries : Entries → Entries → Entries
append_entries end ys = ys
append_entries (entry k v xs) ys = entry k v (append_entries xs ys)

abbrev pub forbidden_key_substrings : List (List ℕ)
forbidden_key_substrings = map codes (
    "password" ∷ "token" ∷ "secret" ∷ "authorization" ∷ "cookie" ∷ "hash" ∷ "credential" ∷ "otp"
    ∷ "apikey" ∷ "api_key" ∷ "ipaddress" ∷ "useragent" ∷ "sessionid" ∷ [])

abbrev pub safe_identifier_keys : List (List ℕ)
safe_identifier_keys = map codes (
    "apikeyid" ∷ "targetapikeyid" ∷ "actorapikeyid" ∷ "targetkeyid" ∷ "membershipid"
    ∷ "actormembershipid" ∷ "targetmembershipid" ∷ "userid" ∷ "actoruserid" ∷ "targetuserid"
    ∷ "projectid" ∷ "targetprojectid" ∷ "invitationid" ∷ "targetinvitationid" ∷ "organizationid"
    ∷ "targetorganizationid" ∷ [])

abbrev pub max_depth : ℕ
max_depth = 4

abbrev pub max_string_length : ℕ
max_string_length = 1024

-- The mark that follows a shortened text, "…".
abbrev pub ellipsis : ℕ
ellipsis = 0x2026

abbrev pub truncated : Value
truncated = text (codes "[TRUNCATED]")

lower_unit : ℕ → List ℕ
lower_unit c =
    if c == 0x212A
    then b'k' ∷ []
    else (if c == 0x130
        then b'i' ∷ 0x307 ∷ []
        else (if leb b'A' c && leb c b'Z' then c + 32 else c) ∷ [])

to_lower_case : List ℕ → List ℕ
unfolding lower_unit
to_lower_case [] = []
to_lower_case (c ∷ s) = lower_unit c ++ to_lower_case s

same_text : List ℕ → List ℕ → Bool
same_text [] [] = true
same_text (c ∷ s) (d ∷ t) = c == d && same_text s t
same_text _ _ = false

has_prefix : List ℕ → List ℕ → Bool
has_prefix [] s = true
has_prefix (c ∷ p) [] = false
has_prefix (c ∷ p) (d ∷ s) = c == d && has_prefix p s

-- `s.includes(needle)`.
includes : List ℕ → List ℕ → Bool
unfolding has_prefix
includes needle [] = has_prefix needle []
includes needle (c ∷ s) = if has_prefix needle (c ∷ s) then true else includes needle s

pub is_forbidden_key : List ℕ → Bool
unfolding to_lower_case same_text includes
is_forbidden_key key =
    if any (same_text (to_lower_case key)) safe_identifier_keys
    then false
    else any (λ needle. includes needle (to_lower_case key)) forbidden_key_substrings

-- The cap on a text's length.
shorten_to : ℕ → List ℕ → List ℕ
shorten_to most s = if ltb most (length s) then take most s ++ ellipsis ∷ [] else s

pub shorten : List ℕ → List ℕ
shorten s = shorten_to max_string_length s

mutual
  pub sanitize_value : Value → ℕ → Value
  sanitize_value (text s) depth = if ltb max_depth depth then truncated else text (shorten s)
  sanitize_value (number n) depth = if ltb max_depth depth then truncated else number n
  sanitize_value null depth = if ltb max_depth depth then truncated else null
  sanitize_value (array vs) depth =
      if ltb max_depth depth then truncated else array (sanitize_items vs (suc depth))
  sanitize_value (object es) depth =
      if ltb max_depth depth then truncated else object (sanitize_object es (suc depth))

  pub sanitize_items : Values → ℕ → Values
  sanitize_items nil depth = nil
  sanitize_items (cons v vs) depth = cons (sanitize_value v depth) (sanitize_items vs depth)

  pub sanitize_object : Entries → ℕ → Entries
  sanitize_object end depth = end
  sanitize_object (entry k v es) depth =
      if is_forbidden_key k
      then sanitize_object es depth
      else entry k (sanitize_value v depth) (sanitize_object es depth)

pub sanitize_security_metadata : Entries → Entries
sanitize_security_metadata metadata = sanitize_object metadata 1
