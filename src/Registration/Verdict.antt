-- ===== src/Registration/Verdict.antt =====
-- The ends of settleInvitation (registration.repo.ts).
-- The errors of an acceptance: those of the invitation's state, and two of a broken installation.
use orgistry.Prelude.{
  ℕ, String, ◌≡◌, refl, ◌≢◌, ◌⊎◌, inl, inr, true, Option, none, some, arith, ◌==◌, Bool-cases,
  Option-cases,
}
use orgistry.Plans.{record_action_event, find_organization_plan, lock_organization_entitlements}
use orgistry.Errors.{AppError, internal, plan_state_missing}
use orgistry.Invitations.{
  assert_acceptable, find_invitation, AcceptInvitationParams, accept_invitation,
}
use orgistry.Db.Transaction.{ok, throw, Result-cases}
use orgistry.Db.{InvitationRow, Database}
use orgistry.Invitations.Lifecycle.{assert_acceptable-cases}
use orgistry.Registration.Settlement.{
  CompletionInvitationContext, CompleteRegistrationParams, CompletionInvitationOutcome,
  no_invitation, invitation_accepted_outcome, invitation_unavailable, is_invitation_unavailable,
  settlement_params, accept_in_savepoint, settle_known, settle_invitation,
}

IsRefusal : AppError → Type 0
IsRefusal e = (is_invitation_unavailable e ≡ true) ⊎ ((e ≡ plan_state_missing) ⊎ (e ≡ internal))

refusal_of_state :
    (i : InvitationRow) (now : ℕ) (db : Database) (e : AppError)
    → assert_acceptable i now db ≡ throw e
    → is_invitation_unavailable e ≡ true
unfolding assert_acceptable is_invitation_unavailable
refusal_of_state i now db e refused = ground arith

accept_invitation-IsRefusal :
    (q : AcceptInvitationParams) (mid now : ℕ) (db : Database) (e : AppError)
    → accept_invitation q mid now db ≡ throw e
    → IsRefusal e
unfolding accept_invitation lock_organization_entitlements IsRefusal
accept_invitation-IsRefusal q mid now db e refused =
    elim (Option-cases (find_invitation q.selector db)) [
      | inl missing ↦ inl (unfold is_invitation_unavailable in ground arith)
      | inr (i, selected) ↦ elim (Option-cases (find_organization_plan i.organization_id db)) [
        | inl unplanned ↦ inr (inl (ground arith))
        | inr (plan, planned) ↦ elim (assert_acceptable-cases i now db) [
          | inr (f, closed) ↦
              inl (let same : e ≡ f = ground arith in rw same (refusal_of_state i now db f closed))
          | inl (open_status, passed) ↦
              unfold is_invitation_unavailable record_action_event in ground arith
        ]
      ]
    ]

-- Why the invitation of a completion cannot be honoured: the completion carries no invitation, or
-- another one, or its acceptance is refused.
abbrev pub IsUnavailable :
    (invitation_id : ℕ)
    → CompleteRegistrationParams
    → (user_id : ℕ) → (normalized_email : String) → (membership_id : ℕ) → Database
    → Type 0
IsUnavailable invitation_id p user_id email membership_id db =
    (p.invitation ≡ none)
    ⊎ ((context : CompletionInvitationContext) × (p.invitation ≡ some context)
        × ((context.invitation_id ≢ invitation_id)
            ⊎ ((e : AppError) × (accept_invitation
                    (settlement_params invitation_id context user_id email) membership_id p.now db
                  ≡ throw e))))

-- The four ends of a settlement.
abbrev pub IsSettled :
    Option ℕ
    → CompleteRegistrationParams
    → (user_id : ℕ) → (normalized_email : String) → (membership_id : ℕ) → Database
    → Type 0
IsSettled staged p user_id email membership_id db =
    ((staged ≡ none)
      × (settle_invitation staged p user_id email membership_id db ≡ ok (no_invitation, db)))
    ⊎ (((id : ℕ) × (staged ≡ some id)
          × IsUnavailable id p user_id email membership_id db
          × (settle_invitation staged p user_id email membership_id db
              ≡ ok (invitation_unavailable, db)))
        ⊎ (((db' : Database) × (settle_invitation staged p user_id email membership_id db
                ≡ ok (invitation_accepted_outcome, db')))
            ⊎ ((e : AppError) × ((e ≡ plan_state_missing) ⊎ (e ≡ internal))
                × (settle_invitation staged p user_id email membership_id db ≡ throw e))))

pub settle_invitation-verdict :
    (staged : Option ℕ) (p : CompleteRegistrationParams) (user_id : ℕ) (email : String)
    (membership_id : ℕ) (db : Database)
    → IsSettled staged p user_id email membership_id db
unfolding settle_invitation settle_known accept_in_savepoint IsRefusal
settle_invitation-verdict none p user_id email membership_id db = inl (refl, refl)
settle_invitation-verdict (some id) p user_id email membership_id db =
    elim (Option-cases p.invitation) [
      | inl absent ↦ inr (inl (id, refl, inl absent, ground arith))
      | inr (context, given) ↦ elim (Bool-cases (context.invitation_id == id)) [
        | inr other ↦ inr (inl (id, refl, inr (context, given, inl (ground arith)), ground arith))
        | inl this ↦
            let q = settlement_params id context user_id email in
            elim (Result-cases (accept_invitation q membership_id p.now db)) [
              | inl (r, left, accepted) ↦ inr (inr (inl (left, ground arith)))
              | inr (e, refused) ↦ elim (Bool-cases (is_invitation_unavailable e)) [
                | inl lifecycle ↦
                    inr (inl (id, refl, inr (context, given, inr (e, refused)), ground arith))
                | inr broken ↦
                    elim (accept_invitation-IsRefusal q membership_id p.now db e refused) [
                      | inl lifecycle ↦ absurd (ground arith)
                      | inr which ↦ inr (inr (inr (e, which, ground arith)))
                    ]
              ]
            ]
      ]
    ]

-- A settlement of a completion that carries no invitation writes nothing.
pub settle-without :
    (staged : Option ℕ) (p : CompleteRegistrationParams) (user_id : ℕ) (email : String)
    (membership_id : ℕ) (db db' : Database) (outcome : CompletionInvitationOutcome)
    → p.invitation ≡ none
    → settle_invitation staged p user_id email membership_id db ≡ ok (outcome, db')
    → db' ≡ db
unfolding settle_invitation settle_known
settle-without none p user_id email membership_id db db' outcome without done = ground arith
settle-without (some id) p user_id email membership_id db db' outcome without done = ground arith
