-- ===== src/Pagination.antt =====
-- The keyset pagination of every list route (organization.repo.ts, project.repo.ts,
-- invitation.repo.ts, api-key.repo.ts, auth.repo.ts and the `list` methods of their services):
-- rows ordered by (created_at desc, id desc), one more than the page's limit, and a cursor made of
-- the last row of the page. `created` and `id` are the two columns of a row: `created` is the
-- timestamp of the database, in microseconds, and the cursor holds its milliseconds. The cursor's text
-- form is left out: the client hands back the cursor that it was given.
pub mod Order
pub mod Pages
use orgistry.Prelude.{
  ℕ, ◌+◌, ◌*◌, ◌/◌, Bool, true, ◌&&◌, ◌||◌, Option, none, some, List, [], ◌∷◌, ltb, ◌==◌,
  if◌then◌else◌, length, take, last?,
}
use orgistry.Tables.{select_rows}
use mathlib.Core.Option

pub record Cursor : Type 0 where
  pub created_at_ms : ℕ
  pub id : ℕ

-- The driver's Date of a timestamp in microseconds, and back.
abbrev pub get_time : ℕ → ℕ
get_time created_at = created_at / 1000

abbrev pub timestamp_of : ℕ → ℕ
timestamp_of created_at_ms = created_at_ms * 1000

pub record Page (A : Type 0) : Type 0 where
  pub items : List A
  pub next_cursor : Option Cursor
  pub has_more : Bool

module _ {A : Type 0} (created id : A → ℕ) where
  -- `a` stands before `b` in the order (created_at desc, id desc).
  abbrev pub before : A → A → Bool
  before a b = ltb (created b) (created a) || (created b == created a && ltb (id b) (id a))

  insert_desc : A → List A → List A
  insert_desc a [] = a ∷ []
  insert_desc a (b ∷ bs) = if before a b then a ∷ (b ∷ bs) else b ∷ insert_desc a bs

  unfoldable pub order_by_desc : List A → List A
  unfolding insert_desc
  order_by_desc [] = []
  order_by_desc (a ∷ as') = insert_desc a (order_by_desc as')

  -- cursorClause.
  abbrev pub after_cursor : Option Cursor → A → Bool
  after_cursor none r = true
  after_cursor (some c) r =
      ltb (created r) (timestamp_of c.created_at_ms)
      || (created r == timestamp_of c.created_at_ms && ltb (id r) c.id)

  -- The query: WHERE, ORDER BY, LIMIT limit + 1.
  unfoldable pub list_rows : (A → Bool) → ℕ → Option Cursor → List A → List A
  list_rows where_clause limit cursor rows =
      take (limit + 1)
        (order_by_desc (select_rows (λ r. where_clause r && after_cursor cursor r) rows))

  abbrev pub cursor_of : A → Cursor
  cursor_of r = record { created_at_ms = get_time (created r); id = id r }

  -- The page that a service makes of the rows that the query returned.
  unfoldable pub page_of : ℕ → List A → Page A
  page_of limit rows =
      let has_more = ltb limit (length rows) in
      let items = if has_more then take limit rows else rows in
      record {
        items = items;
        next_cursor = if has_more then Option.map cursor_of (last? items) else none;
        has_more = has_more;
      }

  unfoldable pub list_page : (A → Bool) → ℕ → Option Cursor → List A → Page A
  list_page where_clause limit cursor rows =
      page_of limit (list_rows where_clause limit cursor rows)
