-- ===== src/Invitations/Handlers.antt =====
-- createInvitation of invitation.service.ts: the gate, the permission, two throttles, the checks, the
-- mail, and only then the repository's transaction. The mailer is a parameter that says whether it
-- delivers; a delivery that rejects becomes `internal`. The address as typed and as normalized, the raw
-- token, its hash and the new row's id are arguments. The repository's own `new Date()` and the
-- service's clock are one time `now`.
use orgistry.Prelude.{
  ℕ, ◌+◌, ◌*◌, String, ◌≡◌, refl, sym, subst, ◌⊎◌, inl, inr, Bool, true, some, arith, if◌then◌else◌,
  Bool-cases,
}
use orgistry.Service.{
  ◌>>=◌, ◌>>◌, World, Handler, query, transaction, enforce_rate_limit, authorize,
  enforce_rate_limit-db,
}
use orgistry.Access.{OrganizationActor, actor_has_permission}
use orgistry.RateLimit.{RateLimitFailureMode, rl_key, Consume}
use orgistry.Errors.{internal}
use orgistry.Catalog.{RoleKey, role_ids, PermissionKey}
use orgistry.Db.Transaction.{Result, ok, throw, run, Result-cases, Outcome-cases}
use orgistry.Db.{OrganizationRow, Database, RequestContext}
use orgistry.Invitations.Creation.{CreateInvitationParams, InvitationView, create_invitation}
use orgistry.Invitations.Checks.{check_new_invitation}
use orgistry.Access.Gate.{IsStanding}
use orgistry.Access.Authorization.{authorize-cases}

pub record InvitationLimits : Type 0 where
  pub create_per_user_max : ℕ
  pub create_per_org_max : ℕ
  pub inspect_per_ip_max : ℕ
  pub inspect_per_token_max : ℕ
  pub accept_per_user_max : ℕ
  pub window_seconds : ℕ
  pub ttl_seconds : ℕ

pub record CreateInvitationInput : Type 0 where
  pub user_id : ℕ
  pub organization_id : ℕ
  pub email : String
  pub email_normalized : String
  pub role : RoleKey
  pub raw_token : String
  pub token_hash : String
  pub request : RequestContext

abbrev pub invitation_params :
    InvitationLimits → OrganizationActor → CreateInvitationInput → ℕ → CreateInvitationParams
invitation_params limits actor input now = record {
  organization_id = actor.organization_id;
  invited_email = input.email;
  invited_email_normalized = input.email_normalized;
  role_id = role_ids input.role;
  token_hash = input.token_hash;
  expires_at = now + limits.ttl_seconds * 1000;
  ctx = record {
    actor_user_id = actor.user_id;
    actor_membership_id = some actor.membership_id;
    request = input.request;
  };
}

-- A step that leaves the tables alone, before one that keeps a relation to them.
after_quiet {κ} :
    {S A B : Type 0} (R : Database → Database → Type κ) (m : Handler S A) (k : A → Handler S B)
    → ((w : World S) → (m w).1.db ≡ w.db)
    → ((d : Database) → R d d)
    → ((a : A) (w : World S) → R w.db (k a w).1.db)
    → (w : World S) → R w.db ((m >>= k) w).1.db
after_quiet {S} {A} {B} R m k quiet same rest w = go (m w).0 (m w).1 (quiet w)
  where
    go :
        (r : Result A) (w' : World S)
        → w'.db ≡ w.db
        → R w.db
            (elim r as (λ _. Result B × World S) [ ok a ↦ k a w' | throw e ↦ (throw e, w') ]).1.db
    go (ok a) w' h = subst (λ d. R d (k a w').1.db) h (rest a w')
    go (throw e) w' h = subst (λ d. R w.db d) (sym h) (same w.db)

module _ {S : Type 0}
    (deliver : (to : String) → OrganizationRow → RoleKey → (raw_token : String) → ℕ → Bool)
    (consume : Consume S) (mode : RateLimitFailureMode) (limits : InvitationLimits) where
  abbrev pub mail : CreateInvitationInput → ℕ → OrganizationRow → Handler S (Unit {0})
  mail input now organization w =
      if deliver input.email organization input.role input.raw_token
        (now + limits.ttl_seconds * 1000)
      then (ok tt, w)
      else (throw internal, w)

  abbrev pub limit_user : CreateInvitationInput → Handler S (Unit {0})
  limit_user input =
      enforce_rate_limit consume mode (rl_key "rl:invitation:create:user:" input.user_id)
        limits.create_per_user_max limits.window_seconds

  abbrev pub limit_organization : OrganizationActor → Handler S (Unit {0})
  limit_organization actor =
      enforce_rate_limit consume mode (rl_key "rl:invitation:create:org:" actor.organization_id)
        limits.create_per_org_max limits.window_seconds

  abbrev pub check_mail_and_persist :
      OrganizationActor → CreateInvitationInput → (id now : ℕ) → Handler S InvitationView
  check_mail_and_persist actor input id now = do
    organization ← query (check_new_invitation actor input.email_normalized now)
    mail input now organization
    transaction (create_invitation (invitation_params limits actor input now) id now)

  -- What follows the gate.
  abbrev pub invite_as :
      OrganizationActor → CreateInvitationInput → (id now : ℕ) → Handler S InvitationView
  invite_as actor input id now =
      limit_user input >> (limit_organization actor >> check_mail_and_persist actor input id now)

  unfoldable pub handle_create_invitation :
      CreateInvitationInput → (id now : ℕ) → Handler S InvitationView
  handle_create_invitation input id now = do
    actor ←
        authorize input.user_id input.organization_id input.request.request_id
          PermissionKey.invitations_create
    invite_as actor input id now

  -- The tables after the steps of an admitted actor: as they were, or with the checks passed, the mail
  -- delivered and the transaction run.
  abbrev pub Persisted :
      OrganizationActor → CreateInvitationInput → ℕ → ℕ → Database → Database → Type 0
  Persisted actor input id now d d' =
      (d' ≡ d)
      ⊎ ((organization : OrganizationRow) × (check_new_invitation actor input.email_normalized now d
            ≡ ok organization)
          × (deliver input.email organization input.role input.raw_token
                (now + limits.ttl_seconds * 1000)
              ≡ true)
          × (d' ≡ (run (create_invitation (invitation_params limits actor input now) id now) d).1))

  checked-Persisted :
      (actor : OrganizationActor) (input : CreateInvitationInput) (id now : ℕ) (w : World S)
      → Persisted actor input id now w.db (check_mail_and_persist actor input id now w).1.db
  checked-Persisted actor input id now w =
      elim (Outcome-cases (check_new_invitation actor input.email_normalized now w.db)) [
        | inr (e, refused) ↦ inl (ground arith)
        | inl (organization, passed) ↦
            elim (Bool-cases (
              deliver input.email organization input.role input.raw_token
                (now + limits.ttl_seconds * 1000))) [
                  | inr lost ↦ inl (ground arith)
                  | inl sent ↦
                      elim (Result-cases (
                        create_invitation (invitation_params limits actor input now) id now w.db)) [
                          | inl (a, db', done) ↦ inr (organization, passed, sent, ground arith)
                          | inr (e, refused) ↦ inl (ground arith)
                        ]
                ]
      ]

  invite_as-Persisted :
      (actor : OrganizationActor) (input : CreateInvitationInput) (id now : ℕ) (w : World S)
      → Persisted actor input id now w.db (invite_as actor input id now w).1.db
  invite_as-Persisted actor input id now =
      after_quiet (Persisted actor input id now) (limit_user input)
        (λ _. limit_organization actor >> check_mail_and_persist actor input id now)
        (enforce_rate_limit-db consume mode (rl_key "rl:invitation:create:user:" input.user_id)
          limits.create_per_user_max limits.window_seconds)
        (λ d. inl refl)
        (λ _.
          after_quiet (Persisted actor input id now) (limit_organization actor)
            (λ _. check_mail_and_persist actor input id now)
            (enforce_rate_limit-db consume mode
              (rl_key "rl:invitation:create:org:" actor.organization_id) limits.create_per_org_max
              limits.window_seconds)
            (λ d. inl refl) (λ _. checked-Persisted actor input id now))

  -- A request to invite writes nothing, or its user has standing in the organization that it names with
  -- a role that may create invitations, the checks for a member, for a pending invitation and for the
  -- quota have passed, the mail has been delivered, and what is written is what the repository's
  -- transaction writes for that actor.
  pub handle_create_invitation-fail_closed :
      (input : CreateInvitationInput) (id now : ℕ) (w : World S)
      → ((handle_create_invitation input id now w).1.db ≡ w.db)
        ⊎ ((actor : OrganizationActor) × IsStanding w.db input.user_id input.organization_id actor
            × (actor_has_permission actor PermissionKey.invitations_create ≡ true)
            × Persisted actor input id now w.db (handle_create_invitation input id now w).1.db)
  unfolding handle_create_invitation
  handle_create_invitation-fail_closed input id now w =
      elim (authorize-cases input.user_id input.organization_id input.request.request_id
        PermissionKey.invitations_create w) [
          | inl (e, refused) ↦ inl (ground arith)
          | inr (actor, standing, held, admitted) ↦
              let left = invite_as-Persisted actor input id now w in
              inr (actor, standing, held, ground arith)
        ]
