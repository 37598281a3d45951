-- ===== src/Invitations/Management.antt =====
-- listInvitations and revokeInvitation of invitation.service.ts, with the query of the list from
-- invitation.repo.ts.
use orgistry.Prelude.{
  ℕ, String, ◌≡◌, ◌⊎◌, inl, inr, true, Option, none, some, List, [], ◌∷◌, arith, ◌==◌,
}
use orgistry.Service.{◌>>=◌, Handler, pure, query, transaction, authorize, action_context, World}
use orgistry.Access.{find_role, OrganizationActor, actor_has_permission}
use orgistry.Catalog.{PermissionKey}
use orgistry.Pagination.{Cursor, Page, list_rows, page_of}
use orgistry.Invitations.{revoke_invitation}
use orgistry.Db.Transaction.{ok, run, Result-cases}
use orgistry.Db.{InvitationRow, Database, RequestContext}
use orgistry.Invitations.Creation.{InvitationView}
use orgistry.Access.Gate.{IsStanding}
use orgistry.Access.Authorization.{authorize-cases}

-- The inner join with the roles.
unfoldable pub join_invitation_roles : Database → List InvitationRow → List InvitationView
join_invitation_roles db [] = []
join_invitation_roles db (i ∷ is') =
    let rest = join_invitation_roles db is' in
    elim (find_role db i.role_id) [
      | none ↦ rest
      | some role ↦ record { invitation = i; role = role } ∷ rest
    ]

unfoldable pub list_invitations : ℕ → ℕ → Option Cursor → Database → List InvitationView
list_invitations organization_id limit cursor db =
    list_rows (λ v. v.invitation.created_at) (λ v. v.invitation.id)
      (λ (v : InvitationView). v.invitation.organization_id == organization_id) limit cursor
      (join_invitation_roles db db.invitations)

unfoldable pub handle_list_invitations :
    {S : Type 0}
    → (user_id organization_id : ℕ) → (request_id : Option String) → (limit : ℕ) → Option Cursor
    → Handler S (Page InvitationView)
handle_list_invitations user_id organization_id request_id limit cursor = do
  actor ← authorize user_id organization_id request_id PermissionKey.invitations_read
  rows ← query (λ db. ok (list_invitations actor.organization_id limit cursor db))
  pure (page_of (λ v. v.invitation.created_at) (λ v. v.invitation.id) limit rows)

unfoldable pub handle_revoke_invitation :
    {S : Type 0}
    → (user_id organization_id invitation_id : ℕ) → RequestContext
    → (now : ℕ) → Handler S (Unit {0})
handle_revoke_invitation user_id organization_id invitation_id ctx now = do
  actor ← authorize user_id organization_id ctx.request_id PermissionKey.invitations_revoke
  transaction (revoke_invitation actor.organization_id invitation_id (action_context actor ctx) now)

-- A request to revoke an invitation writes nothing, or its user has standing in the organization that
-- it names with a role that may revoke invitations, and what is written is what the repository's
-- transaction writes for that actor and that organization.
pub handle_revoke_invitation-authorized :
    {S : Type 0} (user_id o invitation_id : ℕ) (ctx : RequestContext) (now : ℕ) (w : World S)
    → ((handle_revoke_invitation user_id o invitation_id ctx now w).1.db ≡ w.db)
      ⊎ ((actor : OrganizationActor) × IsStanding w.db user_id o actor
          × (actor_has_permission actor PermissionKey.invitations_revoke ≡ true)
          × ((handle_revoke_invitation user_id o invitation_id ctx now w).1.db
              ≡ (run
                  (revoke_invitation actor.organization_id invitation_id
                    (action_context actor ctx)
                    now)
                  w.db).1))
unfolding handle_revoke_invitation
handle_revoke_invitation-authorized user_id o invitation_id ctx now w =
    elim (authorize-cases user_id o ctx.request_id PermissionKey.invitations_revoke w) [
      | inl (e, refused) ↦ inl (ground arith)
      | inr (actor, standing, held, admitted) ↦
          elim (Result-cases (
            revoke_invitation actor.organization_id invitation_id (action_context actor ctx) now
              w.db)) [
                | inl (a, left, done) ↦ inr (actor, standing, held, ground arith)
                | inr (e, refused) ↦ inl (ground arith)
              ]
    ]
