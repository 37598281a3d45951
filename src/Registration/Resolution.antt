-- ===== src/Registration/Resolution.antt =====
-- The invitation of a registration request: resolveCompletionContext of invitation.service.ts, and how
-- registration.service.ts translates the failures of the invitation service.
use orgistry.Prelude.{ℕ, String, Bool, Option, none, some, if◌then◌else◌, is_some}
use orgistry.Db.Transaction.{ok, throw}
use orgistry.Errors.{AppError, internal}
use orgistry.Invitations.{by_invitation_id, find_invitation}
use orgistry.Db.{Database, RequestContext}
use orgistry.Registration.Settlement.{CompletionInvitationContext}
use orgistry.Sessions.Service.{AuthCrypto, is_truthy, text_or_empty}
use orgistry.Invitations.Context.{prepare_for_registration}

pub data RequestInvitationResolution : Type 0 where
  resolved : (invitation : Option (ℕ × String)) → RequestInvitationResolution
  rejected : (outcome : String) → RequestInvitationResolution

-- A plain `Error` is a failure of the lookup.
abbrev pub rejection : AppError → RequestInvitationResolution
rejection internal = rejected "invitation_lookup_failed"
rejection e = rejected "invitation_rejected"

unfoldable pub resolve_request_invitation :
    AuthCrypto
    → (lookup_fails : Bool) → (raw_token : Option String) → String
    → (now : ℕ) → Database
    → RequestInvitationResolution
resolve_request_invitation crypto lookup_fails raw_token normalized_email now db =
    if is_truthy raw_token
    then (if lookup_fails
        then rejected "invitation_lookup_failed"
        else (elim (prepare_for_registration (crypto.hash_opaque_token (text_or_empty raw_token))
            normalized_email now db) [
              | ok (prepared, db') ↦ resolved (some prepared)
              | throw e ↦ rejection e
            ]))
    else resolved none

unfoldable pub resolve_completion_invitation :
    Option ℕ → RequestContext → Database → Option CompletionInvitationContext
resolve_completion_invitation none ctx db = none
resolve_completion_invitation (some id) ctx db =
    if is_some (find_invitation (by_invitation_id id) db)
    then some (record { invitation_id = id; event_context = ctx })
    else none
