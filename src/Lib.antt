-- ===== src/Lib.antt =====
-- Orgistry: the identity and access foundation of a multi-tenant service (apps/api, with
-- packages/contracts, packages/db and packages/auth-core).
--
-- The server enforces one chain: user, organization, membership, role, permission, entitlement,
-- quota, resource. A request is authenticated (a bearer token bound to a session, or an API key),
-- passes the membership gate and the permission check, then the throttle, and last runs one
-- repository transaction, which checks the plan's quota and writes its audit event.
--
-- Modules, each with the code it is about:
--   Prelude        names of the libraries, Boolean tests, list helpers.
--   Tables         a table as a list of rows, with the queries of drizzle; their laws.
--   Metadata       apps/api/src/lib/security-metadata.ts (sanitizeSecurityMetadata).
--   Catalog        packages/contracts/src/access.ts, plans.ts, api-keys.ts: roles, permissions, plans.
--   Errors         apps/api/src/lib/errors.ts and the error factories, with the HTTP status.
--   Db             packages/db/src/schema: the rows, the tables, and `db.transaction`.
--   RateLimit      apps/api/src/lib/rate-limit.ts: decisions, failure mode, in-memory limiter.
--   Access         organization.context.ts, access-control.ts: the gate and the permission check.
--   Service        what the service methods share: reads, transactions, the throttle.
--   Members        owner-transition.ts and the member mutations of organization.repo.ts;
--                  Members.Handlers and .Listing are member.service.ts.
--   Plans          entitlements: quota.ts, entitlement.snapshot.ts, plan.repo.ts;
--                  Plans.Service is plan.service.ts.
--   Pagination     the keyset pagination of the list routes.
--   Projects       project.repo.ts; Projects.Handlers is project.service.ts.
--   Sessions       auth.repo.ts; Sessions.Service, .Login, .Refresh and .Endings are
--                  auth.service.ts; Sessions.Email and .Listing are changeEmail and listSessions.
--   AccountTokens  the single-use tokens of email_verification_tokens and password_reset_tokens.
--   Recovery       password-recovery.repo.ts; Recovery.Service is password-recovery.service.ts.
--   Verification   email-verification.repo.ts; Verification.Service is email-verification.service.ts.
--   Slug           organization.provisioning.ts: slugify and resolveUniqueSlug.
--   Provisioning   organization.provisioning.ts: the rows of a new organization;
--                  createTeamOrganization of organization.repo.ts; Provisioning.Service is
--                  organization.service.ts.
--   Registration   registration.repo.ts: the completion; Registration.Pending and .Settlement are
--                  the staging and settleInvitation (.Verdict and .Invited are about it); .Resolution, .Service and .Finish are
--                  registration.service.ts, with resolveCompletionContext of invitation.service.ts.
--   Invitations    invitation.lifecycle.ts, invitation.acceptance.ts, invitation.repo.ts,
--                  and invitation.service.ts (Handlers, Context, Tokens, Management).
--   ApiKeys        api-key-secret.ts, api-key.repo.ts; ApiKeys.Authenticator is
--                  api-key.authenticator.ts, ApiKeys.Service is api-key.service.ts.
--   Tests          the theorems at concrete inputs.
--
-- Correspondence. A function of the code keeps its name in snake case, a method of a service that
-- shares the name of a repository method is called handle_..., and a row type is called as in the
-- schema. A transaction is a function from the tables to a result and new tables: a throw leaves
-- the tables as they were, and a nested transaction is a savepoint. The service methods also thread
-- the store of the limiter and keep the writes that came before a throw. Row locks and advisory
-- locks put concurrent transactions into some order; a history of calls is such an order. A unique
-- index on a name, an address, a membership or an open row is a check before the insertion, and so is
-- the one on the secrets of API keys. The unique indexes on the hashes of mailed tokens, invitations
-- and refresh tokens are left out: each holds the hash of a token that was drawn at random for the row,
-- and the error of two equal ones is not modelled.
-- Identifiers are numbers, of which the code uses equality and order. Times are milliseconds, as Date
-- has them, but for created_at: the insertions leave it to the now() of the database, which has
-- microseconds. A list is ordered by created_at, and a cursor holds its milliseconds. The time that an
-- insertion stores there is an argument of its own, or the one that the call reads; nothing but the
-- lists uses it. Random ids, tokens and the clock are arguments. Hashes, access tokens and password hashes, which
-- packages/auth-core takes from node:crypto, jose and argon2, are parameters. A mailer is a parameter
-- that says whether it delivers, and a record of Booleans (Outages) says which of the calls that a
-- method guards with `catch` fail. A slug is a list of UTF-16 units, and toLowerCase with normalize is
-- a parameter of the slugs.
--
-- Fuel: the client that follows cursors (Pagination.Pages.follow) runs on fuel, one unit for a page;
-- more units than rows are enough, as its theorem says. The search for a slug (Slug.search_slug) runs
-- on fifty units, as many as the loop of resolveUniqueSlug has rounds; its theorem says that they are
-- enough.
--
-- Not modelled: HTTP routes and plugins, the texts of mails and SMTP, logging, the Redis limiter,
-- configuration, retention, the audit read, rbac.service.ts, the DTOs and the text form of cursors, the
-- tooling and the web demo. Times are natural numbers without the limits of Date.
pub mod Access
pub mod AccountTokens
pub mod ApiKeys
pub mod Catalog
pub mod Db
pub mod Errors
pub mod Invitations
pub mod Members
pub mod Metadata
pub mod Pagination
pub mod Plans
pub mod Prelude
pub mod Projects
pub mod Provisioning
pub mod RateLimit
pub mod Recovery
pub mod Registration
pub mod Service
pub mod Sessions
pub mod Slug
pub mod Tables
pub mod Tests
pub mod Verification
