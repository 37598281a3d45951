-- ===== src/Registration/Account.antt =====
-- The account that a completed registration creates (registration.repo.ts).
use orgistry.Prelude.{
  ℕ, ◌<◌, ◌≡◌, refl, true, false, none, some, List, arith, ◌==◌, str_eq, str_eq_refl, ==_refl,
}
use orgistry.Registration.Completion.{complete_registration-IsAccount}
use orgistry.Sessions.{find_session_by_id, session_row, is_live_session}
use orgistry.Registration.{
  CompletionDraws, completed, registration_already_used, registered_user, completion_session,
  complete_with, complete_registration,
}
use orgistry.Db.Transaction.{ok}
use orgistry.Db.{
  UserRow, OrganizationRow, MembershipRow, SessionRow, RefreshTokenRow, PendingRegistrationRow,
  Database, RequestContext,
}
use orgistry.Tables.{find_row, count_rows, IsUniqueBy, insert-IsUniqueBy, find-insert_first}
use orgistry.Registration.Pending.{
  is_open_for, set_pending_used, has_pending_hash, find_pending_registration, is_pending_spent,
  consume_pending-open, find-consume_pending,
}
use orgistry.Registration.Settlement.{CompleteRegistrationParams, CompletionInvitationOutcome}
use orgistry.Sessions.Service.{
  AuthCrypto, is_usable_user, find_user_by_id, find_user_by_normalized_email, is_trusted_session,
  require_authenticated_session,
}

module _ (fold : List ℕ → List ℕ) (p : CompleteRegistrationParams) (draws : CompletionDraws)
    (db db' : Database) (user : UserRow) (o : OrganizationRow) (m : MembershipRow) (s : SessionRow)
    (t : RefreshTokenRow) (outcome : CompletionInvitationOutcome)
    (done : complete_registration fold p draws db ≡ ok (completed user o m s t outcome, db')) where
  -- A completion token creates one account: after a completion that created one, presenting it again,
  -- at any time and with any new session, answers that it was used, and writes nothing.
  complete_registration-single_use :
      (q : CompleteRegistrationParams) (other_draws : CompletionDraws)
      → q.token_hash ≡ p.token_hash
      → complete_registration fold q other_draws db' ≡ ok (registration_already_used, db')
  unfolding complete_registration complete_with find_pending_registration is_pending_spent
  complete_registration-single_use q other_draws again =
      let (pending, hit, unspent, early, mine, a) =
        complete_registration-IsAccount fold p draws db db' user o m s t outcome done in
      let found : find_row (has_pending_hash q.token_hash) db'.pending_registrations
          ≡ some (set_pending_used p.now pending) =
        rw (again, a.pending_registrations)
          (find-consume_pending p.token_hash pending p.now db.pending_registrations hit) in
      ground arith

  -- A registration that completes has found a staged registration that was neither used, replaced nor
  -- expired, for an address that no user had. The address then finds the new user, who is active,
  -- verified, and has the staged password hash; addresses stay unique; no staged registration of
  -- the address is open; and presenting the token again, at any time and with any new session, answers
  -- that it was used, and writes nothing.
  pub complete_registration-account :
      (q : CompleteRegistrationParams) (other_draws : CompletionDraws)
      → q.token_hash ≡ p.token_hash
      → IsUniqueBy (λ a b. str_eq a.normalized_email b.normalized_email) db.users
      → (pending : PendingRegistrationRow) × (find_pending_registration p.token_hash db
          ≡ some pending)
        × (is_pending_spent pending ≡ false)
        × (p.now < pending.expires_at)
        × (find_user_by_normalized_email pending.normalized_email db ≡ none)
        × (user ≡ registered_user pending draws.user_id p.now)
        × (find_user_by_normalized_email pending.normalized_email db' ≡ some user)
        × (is_usable_user user ≡ true)
        × IsUniqueBy (λ a b. str_eq a.normalized_email b.normalized_email) db'.users
        × (count_rows (is_open_for pending.normalized_email) db'.pending_registrations ≡ 0)
        × (complete_registration fold q other_draws db' ≡ ok (registration_already_used, db'))
  complete_registration-account q other_draws again unique =
      let (pending, hit, unspent, early, mine, a) =
        complete_registration-IsAccount fold p draws db db' user o m s t outcome done in
      let row = registered_user pending draws.user_id p.now in
      (
        pending,
        hit,
        unspent,
        early,
        a.vacant,
        mine,
        unfold find_user_by_normalized_email in
            rw (a.users, mine)
              (find-insert_first (λ u. str_eq u.normalized_email pending.normalized_email) row
                db.users a.vacant (str_eq_refl pending.normalized_email)),
        rw mine (unfold is_usable_user in refl),
        rw a.users (
            insert-IsUniqueBy (λ a b. str_eq a.normalized_email b.normalized_email) db.users row
              (unfold find_user_by_normalized_email in a.vacant) unique),
        rw a.pending_registrations (consume_pending-open pending p.now db.pending_registrations),
        complete_registration-single_use q other_draws again,
      )

  -- The session of a completed registration is a sign-in: its access token is accepted as the new
  -- user's until the session expires, if it verifies as it was signed and the new ids are fresh.
  pub complete_registration-signed_in :
      {S : Type 0} (crypto : AuthCrypto) (ctx : RequestContext) (later : ℕ) (store : S)
      → crypto.verify_access_token (crypto.sign_access_token draws.user_id draws.session_id)
        ≡ some (record { sub = draws.user_id; session_id = draws.session_id })
      → find_user_by_id draws.user_id db ≡ none
      → find_session_by_id draws.session_id db ≡ none
      → later < p.session_expires_at
      → (require_authenticated_session crypto
          (crypto.sign_access_token draws.user_id draws.session_id)
          ctx
          later
          (record { db = db'; store = store })).0
        ≡ ok (user, session_row draws.session_id p.now (completion_session p draws.user_id))
  unfolding require_authenticated_session is_trusted_session is_live_session
  complete_registration-signed_in crypto ctx later store signs new_user new_session early_enough =
      let (pending, hit, unspent, early, mine, a) =
        complete_registration-IsAccount fold p draws db db' user o m s t outcome done in
      let known : find_user_by_id draws.user_id db' ≡ some user =
        unfold find_user_by_id in
        rw (a.users, mine)
          (find-insert_first (λ u. u.id == draws.user_id)
            (registered_user pending draws.user_id p.now) db.users new_user
            (==_refl draws.user_id)) in
      let bound : find_session_by_id draws.session_id db'
          ≡ some (session_row draws.session_id p.now (completion_session p draws.user_id)) =
        unfold find_session_by_id in
        rw a.sessions (
          find-insert_first (λ r. r.id == draws.session_id)
            (session_row draws.session_id p.now (completion_session p draws.user_id)) db.sessions
            new_session (==_refl draws.session_id)) in
      let usable : is_usable_user user ≡ true = rw mine (unfold is_usable_user in refl) in
      ground (arith, ==_refl draws.user_id)
