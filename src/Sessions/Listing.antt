-- ===== src/Sessions/Listing.antt =====
-- The list of a user's sessions: listActiveSessionsForUser of auth.repo.ts and listSessions of
-- auth.service.ts.
use orgistry.Prelude.{ℕ, String, Bool, ◌&&◌, Option, List, ltb, ◌==◌, is_none}
use orgistry.Service.{◌>>=◌, Handler, pure, query}
use orgistry.Pagination.{Cursor, Page, list_rows, page_of}
use orgistry.Db.Transaction.{ok}
use orgistry.Db.{SessionRow, Database, RequestContext}
use orgistry.Sessions.Service.{AuthCrypto, require_authenticated_session}

unfoldable pub is_active_session_of : (user_id now : ℕ) → SessionRow → Bool
is_active_session_of user_id now s =
    s.user_id == user_id && (is_none s.revoked_at && ltb now s.expires_at)

unfoldable pub list_active_sessions :
    (user_id now limit : ℕ) → Option Cursor → Database → List SessionRow
list_active_sessions user_id now limit cursor db =
    list_rows (λ s. s.created_at) (λ s. s.id) (is_active_session_of user_id now) limit cursor
      db.sessions

-- Each session with the mark of the caller's own.
unfoldable pub list_sessions :
    {S : Type 0}
    → AuthCrypto
    → (access_token : String) → (limit : ℕ) → Option Cursor
    → RequestContext
    → (now : ℕ) → Handler S (Page SessionRow × ℕ)
list_sessions crypto access_token limit cursor ctx now = do
  (user, session) ← require_authenticated_session crypto access_token ctx now
  rows ← query (λ db. ok (list_active_sessions user.id now limit cursor db))
  pure (page_of (λ s. s.created_at) (λ s. s.id) limit rows, session.id)
