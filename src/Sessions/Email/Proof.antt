-- ===== src/Sessions/Email/Proof.antt =====
-- Who may change an address, and what a call leaves (changeEmail of auth.service.ts).
use orgistry.Prelude.{
  ℕ, ◌+◌, ◌*◌, String, ◌≡◌, refl, sym, ap, subst, ◌∙◌, ◌⊎◌, inl, inr, Bool, true, false, not, ◌&&◌,
  Option, some, arith, str_eq, Bool-cases, Option-cases,
}
use orgistry.Service.{◌>>=◌, ◌>>◌, World, Outages, Handler, pure}
use orgistry.Verification.{issue_verification_token}
use orgistry.RateLimit.{RateLimitFailureMode, BucketKey, Consume, rl_key}
use orgistry.Errors.{
  AppError, email_already_registered, current_password_incorrect, email_unchanged,
}
use orgistry.Metadata.{Entries, end}
use orgistry.Db.Transaction.{ok, throw, Result-cases, Result, Outcome-cases}
use orgistry.Db.{SecurityActorType, UserRow, SessionRow, Database, RequestContext}
use orgistry.Recovery.Service.{TokenDraws, flag_entry}
use orgistry.Verification.Service.{VerificationLimits, send_email_change_verification_email}
use orgistry.Sessions.Service.{
  AuthCrypto, AuthLimits, write_security_event, find_user_by_id, enforce_auth_rate_limit,
  require_authenticated_session, is_usable_user, is_trusted_session,
}
use orgistry.Sessions.Email.{
  ChangeEmailParams, change_email, commit_email, change_proved, change_for, email_params,
  handle_change_email,
}
use orgistry.Sessions.{find_session_by_id}
use orgistry.Sessions.Quiet.{auth_rate_limit-IsQuiet}
use orgistry.Sessions.Revocation.{require_authenticated_session-IsAuthenticated}

-- Only the audit log may have grown.
abbrev pub IsAudited : Database → Database → Type 0
IsAudited db db' = db' ≡ record db { security_events = db'.security_events }

-- Only the audit log and the verification tokens may differ.
abbrev pub IsMailed : Database → Database → Type 0
IsMailed db db' = db' ≡ record db {
  security_events = db'.security_events;
  email_verification_tokens = db'.email_verification_tokens;
}

-- Methods that write the audit log at most.
abbrev Audits : {S A : Type 0} → Handler S A → Type 0
Audits {S} m = (w : World S) → IsAudited w.db (m w).1.db

event-Audits :
    {S : Type 0} (user_id session_id : Option ℕ) (actor : SecurityActorType) (event_type : String)
    (entries : Entries) (ctx : RequestContext)
    → Audits {S = S} (write_security_event user_id session_id actor event_type entries ctx)
unfolding write_security_event
event-Audits user_id session_id actor event_type entries ctx w = refl

require_authenticated_session-Audits :
    {S : Type 0} (crypto : AuthCrypto) (access_token : String) (ctx : RequestContext) (now : ℕ)
    → Audits {S = S} (require_authenticated_session crypto access_token ctx now)
unfolding require_authenticated_session write_security_event
require_authenticated_session-Audits crypto access_token ctx now w =
    elim (Option-cases (crypto.verify_access_token access_token)) [
      | inl forged ↦ ground arith
      | inr (c, verified) ↦ elim (Option-cases (find_user_by_id c.sub w.db)) [
        | inl unknown ↦ ground arith
        | inr (u, known) ↦ elim (Bool-cases (is_usable_user u)) [
          | inr unusable ↦ ground arith
          | inl usable ↦ elim (Option-cases (find_session_by_id c.session_id w.db)) [
            | inl missing ↦ ground arith
            | inr (s, bound) ↦ elim (Bool-cases (is_trusted_session now u s)) [
              | inl trusted ↦ ground arith
              | inr distrusted ↦ ground arith
            ]
          ]
        ]
      ]
    ]

auth_rate_limit-Audits :
    {S : Type 0} (consume : Consume S) (mode : RateLimitFailureMode) (window_seconds : ℕ)
    (key : BucketKey) (limit : ℕ) (bucket : String) (ctx : RequestContext)
    → Audits (enforce_auth_rate_limit consume mode window_seconds key limit bucket ctx)
unfolding enforce_auth_rate_limit write_security_event
auth_rate_limit-Audits consume mode window_seconds key limit bucket ctx w = ground arith

mail-IsMailed :
    {S : Type 0} (crypto : AuthCrypto) (consume : Consume S) (mode : RateLimitFailureMode)
    (limits : VerificationLimits) (deliver : (to raw_token : String) → ℕ → Bool) (outages : Outages)
    (user : UserRow) (ctx : RequestContext) (draws : TokenDraws) (now : ℕ) (w : World S)
    → ((send_email_change_verification_email crypto consume mode limits deliver outages user ctx
          draws now w).0
        ≡ ok tt)
      × IsMailed w.db
          (send_email_change_verification_email crypto consume mode limits deliver outages user ctx
            draws now w).1.db
unfolding send_email_change_verification_email write_security_event issue_verification_token
mail-IsMailed crypto consume mode limits deliver outages user ctx draws now w =
    let delivered = deliver user.email draws.raw_token (now + limits.ttl_seconds * 1000) in
    elim (Bool-cases (delivered && not outages.persist)) [
      | inl stored ↦ elim (Bool-cases outages.event) [
        | inl lost ↦ rw (stored, lost) (refl, refl)
        | inr kept ↦ rw (stored, kept) (refl, refl)
      ]
      | inr unstored ↦ elim (Bool-cases outages.event) [
        | inl lost ↦ rw (unstored, lost) (refl, refl)
        | inr kept ↦ rw (unstored, kept) (refl, refl)
      ]
    ]

bind-ok :
    {S A B : Type 0} (m : Handler S A) (k : A → Handler S B) (w w' : World S) (a : A)
    → m w ≡ (ok a, w')
    → (m >>= k) w ≡ k a w'
bind-ok m k w w' a e = ap (λ x. elim x.0 [ ok b ↦ k b x.1 | throw f ↦ (throw f, x.1) ]) e

module _ {S : Type 0} (crypto : AuthCrypto) (consume : Consume S) (mode : RateLimitFailureMode)
    (limits : AuthLimits) (verification_limits : VerificationLimits)
    (deliver : (to raw_token : String) → ℕ → Bool) (outages : Outages) where
  -- A change that the tables refuse.
  commit_email-Audits :
      (user : UserRow) (session : SessionRow) (p : ChangeEmailParams) (ctx : RequestContext)
      (w : World S) (e : AppError)
      → change_email p w.db ≡ throw e
      → ((f : AppError) × ((commit_email crypto consume mode limits verification_limits deliver
              outages user session p ctx w).0
            ≡ throw f))
        × IsAudited w.db
            (commit_email crypto consume mode limits verification_limits deliver outages user
              session p ctx w).1.db
  unfolding commit_email write_security_event
  commit_email-Audits user session p ctx w email_already_registered failed =
      ((email_already_registered, ground arith), ground arith)
  commit_email-Audits user session p ctx w e failed = ((e, ground arith), ground arith)

  -- What a proved change answers and leaves.
  abbrev IsDone : Handler S UserRow → ChangeEmailParams → World S → Type 0
  IsDone m p w =
      ((e : AppError) × ((m w).0 ≡ throw e) × IsAudited w.db (m w).1.db)
      ⊎ ((updated : UserRow) × (db' : Database) × ((m w).0 ≡ ok updated)
          × (change_email p w.db ≡ ok (updated, db'))
          × IsMailed db' (m w).1.db)

  change_proved-verdict :
      (user : UserRow) (session : SessionRow) (p : ChangeEmailParams) (ctx : RequestContext)
      (draws : TokenDraws) (w : World S)
      → IsDone
          (change_proved crypto consume mode limits verification_limits deliver outages user session
            p ctx draws)
          p
          w
  unfolding change_proved write_security_event
  change_proved-verdict user session p ctx draws w = elim (Result-cases (change_email p w.db)) [
    | inr (e, failed) ↦
        let ((f, thrown), audited) = commit_email-Audits user session p ctx w e failed in
        inl (f, ground arith, ground arith)
    | inl (updated, db', committed) ↦
        let written : commit_email crypto consume mode limits verification_limits deliver outages
              user session p ctx w
            ≡ (ok updated, record w { db = db' }) =
          unfold commit_email in ground arith in
        let noted : World S = (recorded (record w { db = db' })).1 in
        let (sent, mailed) =
          mail-IsMailed crypto consume mode verification_limits deliver outages updated ctx draws
            p.now noted in
        let whole : change_proved crypto consume mode limits verification_limits deliver outages
              user session p ctx draws w
            ≡ (ok updated, (mail updated noted).1) =
          bind-ok
            (commit_email crypto consume mode limits verification_limits deliver outages user
              session p ctx)
            (λ u. recorded >> (mail u >> pure u)) w (record w { db = db' }) updated written
          ∙ bind-ok (mail updated) (λ x. pure updated) noted (mail updated noted).1 tt
              (λ i. (sent i, (mail updated noted).1)) in
        inr (
          updated,
          db',
          ap (λ x. x.0) whole,
          committed,
          subst (λ x. IsMailed db' x.1.db) (sym whole) mailed,
        )
  ]
    where
      recorded : Handler S (Unit {0})
      recorded =
          write_security_event (some user.id) (some session.id) SecurityActorType.user
            "auth.email_changed" (flag_entry "verificationCleared" true end) ctx

      mail : UserRow → Handler S (Unit {0})
      mail updated =
          send_email_change_verification_email crypto consume mode verification_limits deliver
            outages updated ctx draws p.now

  change_for-verdict :
      (current_password : String) (user : UserRow) (session : SessionRow) (p : ChangeEmailParams)
      (ctx : RequestContext) (draws : TokenDraws) (w : World S)
      → ((e : AppError) × ((change_for crypto consume mode limits verification_limits deliver
              outages current_password user session p ctx draws w).0
            ≡ throw e)
          × IsAudited w.db
              (change_for crypto consume mode limits verification_limits deliver outages
                current_password user session p ctx draws w).1.db)
        ⊎ ((crypto.verify_password user.password_hash current_password ≡ true)
            × (str_eq p.normalized_email user.normalized_email ≡ false)
            × ((updated : UserRow) × (db' : Database) × ((change_for crypto consume mode limits
                    verification_limits deliver outages current_password user session p ctx draws
                    w).0
                  ≡ ok updated)
                × (change_email p w.db ≡ ok (updated, db'))
                × IsMailed db'
                    (change_for crypto consume mode limits verification_limits deliver outages
                      current_password user session p ctx draws w).1.db))
  unfolding change_for write_security_event
  change_for-verdict current_password user session p ctx draws w =
      let throttle : Handler S (Unit {0}) =
        enforce_auth_rate_limit consume mode limits.window_seconds
          (rl_key "rl:change-email:user:" user.id) limits.change_email_per_user_max
          "change_email_per_user" ctx in
      let audited =
        auth_rate_limit-Audits consume mode limits.window_seconds
          (rl_key "rl:change-email:user:" user.id) limits.change_email_per_user_max
          "change_email_per_user" ctx w in
      elim (Outcome-cases (throttle w).0) [
        | inr (e, throttled) ↦ inl (e, ground arith, ground arith)
        | inl (t, admitted) ↦
            let quiet =
              auth_rate_limit-IsQuiet consume mode limits.window_seconds
                (rl_key "rl:change-email:user:" user.id) limits.change_email_per_user_max
                "change_email_per_user" ctx w t admitted in
            elim (Bool-cases (str_eq p.normalized_email user.normalized_email)) [
              | inl unchanged ↦ inl (email_unchanged, ground arith, ground arith)
              | inr changed ↦
                  elim (Bool-cases (crypto.verify_password user.password_hash current_password)) [
                    | inr wrong ↦ inl (current_password_incorrect, ground arith, ground arith)
                    | inl proved ↦
                        elim (change_proved-verdict user session p ctx draws (throttle w).1) [
                          | inl (e, refused, left) ↦ inl (e, ground arith, ground arith)
                          | inr (updated, db', answer, committed, mailed) ↦ inr (
                            proved,
                            changed,
                            (updated, db', ground arith, rw quiet at committed, ground arith),
                          )
                        ]
                  ]
            ]
      ]

  -- A call for a change of an address ends in one of two ways. Either it throws, and at most the audit
  -- log has grown; or the access token proves a session, the presented password is that of its user,
  -- the new normalized address is another one, the answer is the user of one committed change of the
  -- tables as they were before the call, and the call leaves the tables of that change, but for audit
  -- events and verification tokens.
  pub handle_change_email-authorized :
      (access_token current_password new_email normalized_email : String) (ctx : RequestContext)
      (draws : TokenDraws) (now : ℕ) (w w' : World S) (answer : Result UserRow)
      → handle_change_email crypto consume mode limits verification_limits deliver outages
          access_token current_password new_email normalized_email ctx draws now w
        ≡ (answer, w')
      → ((e : AppError) × (answer ≡ throw e) × IsAudited w.db w'.db)
        ⊎ ((user : UserRow) × (session : SessionRow) × ((require_authenticated_session crypto
                access_token ctx now w).0
              ≡ ok (user, session))
            × (crypto.verify_password user.password_hash current_password ≡ true)
            × (str_eq normalized_email user.normalized_email ≡ false)
            × ((updated : UserRow) × (db' : Database) × (answer ≡ ok updated)
                × (change_email
                      (record {
                        user_id = user.id;
                        email = new_email;
                        normalized_email = normalized_email;
                        now = now;
                      })
                      w.db
                    ≡ ok (updated, db'))
                × IsMailed db' w'.db))
  unfolding handle_change_email
  handle_change_email-authorized access_token current_password new_email normalized_email ctx draws
        now w w' answer done =
      let audited = require_authenticated_session-Audits crypto access_token ctx now w in
      elim (Outcome-cases (require_authenticated_session crypto access_token ctx now w).0) [
        | inr (e, refused) ↦ inl (e, ground arith, ground arith)
        | inl ((user, session), passed) ↦
            let (same, _) =
              require_authenticated_session-IsAuthenticated crypto access_token ctx now w
                (require_authenticated_session crypto access_token ctx now w).1 user session
                (ground arith) in
            let p =
              email_params crypto consume mode limits verification_limits deliver outages user
                new_email normalized_email now in
            elim (change_for-verdict current_password user session p ctx draws w) [
              | inl (e, refused, left) ↦ inl (e, ground arith, ground arith)
              | inr (proved, changed, (updated, db', answered, committed, mailed)) ↦ inr (
                user,
                session,
                passed,
                proved,
                changed,
                (updated, db', ground arith, committed, ground arith),
              )
            ]
      ]
