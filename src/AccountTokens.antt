-- ===== src/AccountTokens.antt =====
-- The e-mailed single-use tokens of email_verification_tokens and password_reset_tokens: how the two
-- repositories (email-verification.repo.ts, password-recovery.repo.ts) replace a generation and
-- consume a token. The row's id is an argument.
use orgistry.Prelude.{
  ℕ, String, ◌≡◌, refl, ◌∙◌, ◌≢◌, Bool, true, not, ◌&&◌, ◌||◌, none, some, List, [], ◌∷◌, arith,
  ◌==◌, str_eq, ==_refl, is_some, is_none,
}
use orgistry.Db.{AccountTokenRow}
use orgistry.Tables.{
  find_row, select_rows, count_rows, update_rows, insert_row, select-insert_miss, count-update_none,
  select-update_miss, count-insert, find-update_found, find-update_untouched,
}

-- `usedAt !== null || invalidatedAt !== null`.
unfoldable pub is_spent : AccountTokenRow → Bool
is_spent t = is_some t.used_at || is_some t.invalidated_at

-- The user's tokens that are neither used nor invalidated.
unfoldable pub is_open_of : ℕ → AccountTokenRow → Bool
is_open_of user_id t = t.user_id == user_id && (is_none t.used_at && is_none t.invalidated_at)

abbrev pub set_token_used : ℕ → AccountTokenRow → AccountTokenRow
set_token_used now t = record t { used_at = some now }

abbrev pub set_token_invalidated : ℕ → AccountTokenRow → AccountTokenRow
set_token_invalidated now t = record t { invalidated_at = some now }

pub record IssueTokenParams : Type 0 where
  pub user_id : ℕ
  pub token_hash : String
  pub expires_at : ℕ
  pub now : ℕ

abbrev pub issued_token : IssueTokenParams → ℕ → AccountTokenRow
issued_token p id = record {
  id = id;
  user_id = p.user_id;
  token_hash = p.token_hash;
  expires_at = p.expires_at;
  used_at = none;
  invalidated_at = none;
}

-- The predecessors are invalidated and the replacement is inserted. The token is drawn at random: the
-- violation of the unique index on `token_hash` by two equal hashes is left out.
unfoldable pub replace_generation :
    IssueTokenParams → ℕ → List AccountTokenRow → List AccountTokenRow
replace_generation p id rows =
    insert_row (issued_token p id)
      (update_rows (is_open_of p.user_id) (set_token_invalidated p.now) rows)

unfoldable pub is_open_sibling : AccountTokenRow → AccountTokenRow → Bool
is_open_sibling token t = is_open_of token.user_id t && not (t.id == token.id)

-- The presented token is used, and every other open token of its user is invalidated.
unfoldable pub consume_token : AccountTokenRow → ℕ → List AccountTokenRow → List AccountTokenRow
consume_token token now rows =
    update_rows (is_open_sibling token) (set_token_invalidated now)
      (update_rows (λ t. t.id == token.id) (set_token_used now) rows)

unfoldable pub has_account_token_hash : String → AccountTokenRow → Bool
has_account_token_hash token_hash t = str_eq t.token_hash token_hash

-- A new generation is the only open one.
pub replace_generation-open :
    (p : IssueTokenParams) (id : ℕ) (rows : List AccountTokenRow)
    → count_rows (is_open_of p.user_id) (replace_generation p id rows) ≡ 1
unfolding replace_generation
replace_generation-open p id rows =
    let none_left =
      count-update_none (is_open_of p.user_id) (is_open_of p.user_id) (set_token_invalidated p.now)
        rows (λ r h. h) (λ r h. unfold is_open_of in ground arith) in
    let fresh : is_open_of p.user_id (issued_token p id) ≡ true =
      unfold is_open_of in ground (arith, ==_refl p.user_id) in
    count-insert (is_open_of p.user_id) (issued_token p id) _ ∙ rw (none_left, fresh) refl

-- The open tokens of another user are untouched by a replacement and by a consumption.
pub replace_generation-other :
    (p : IssueTokenParams) (id other : ℕ) (rows : List AccountTokenRow)
    → other ≢ p.user_id
    → select_rows (λ t. t.user_id == other) (replace_generation p id rows)
      ≡ select_rows (λ t. t.user_id == other) rows
unfolding replace_generation
replace_generation-other p id other rows n =
    select-insert_miss (λ t. t.user_id == other) (issued_token p id) _ (ground arith)
    ∙ select-update_miss (λ t. t.user_id == other) (is_open_of p.user_id)
        (set_token_invalidated p.now) rows (λ r h. unfold is_open_of in ground arith)
        (λ r h. unfold is_open_of in ground arith)

-- After a consumption no token of the user is open.
pub consume_token-open :
    (token : AccountTokenRow) (now : ℕ) (rows : List AccountTokenRow)
    → count_rows (is_open_of token.user_id) (consume_token token now rows) ≡ 0
unfolding consume_token count_rows update_rows is_open_sibling is_open_of
consume_token-open token now [] = refl
consume_token-open token now (r ∷ rows) = ground (arith, consume_token-open token now rows)

-- A token that was presented is found afterwards as a spent one.
pub find-consume_token :
    (token_hash : String) (token : AccountTokenRow) (now : ℕ) (rows : List AccountTokenRow)
    → find_row (has_account_token_hash token_hash) rows ≡ some token
    → find_row (has_account_token_hash token_hash) (consume_token token now rows)
      ≡ some (set_token_used now token)
unfolding consume_token
find-consume_token token_hash token now rows e =
    find-update_untouched (has_account_token_hash token_hash) (is_open_sibling token)
      (set_token_invalidated now) _ (set_token_used now token)
      (λ r. unfold has_account_token_hash in refl)
      (find-update_found (λ t. t.id) (has_account_token_hash token_hash) (set_token_used now) rows
        token (λ r. unfold has_account_token_hash in refl) e)
      (unfold is_open_sibling is_open_of in ground arith)
