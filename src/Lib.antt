-- ===== src/Lib.antt =====
-- A verification library of the core of the content-intelligence backend: usage quotas, refresh
-- sessions, tenant resolution and permissions, and the accounts: organizations, users, memberships.
--
-- The parts and how they interact. A request carries a refresh session or an access token whose claims
-- name a tenant. `Sessions` is the service behind refresh tokens (src/auth/refresh-token.service.ts),
-- `Tenant` resolves the claims to a membership with its permissions
-- (src/organization-memberships/tenant-resolver.service.ts) and lets the guard decide
-- (src/common/guards/permissions.guard.ts), and what the tenant then uses is counted by `Quota`
-- (src/quota). `Accounts` administers what the others read: the life cycle of organizations
-- (src/organizations/organizations.service.ts), memberships (src/organization-memberships), users
-- (src/users/users.service.ts), whose number is a quota, and the password login
-- (src/auth/auth.service.ts).
--
-- The files.
--   Base            tests on numbers and options, tables as lists, tables with a unique key, service
--                   calls with a state and an exception, what a call keeps, texts.
--   Calendar        the UTC calendar of JavaScript's `Date`, from its published algorithms.
--   Quota/Model     the tables of src/quota and of what it reads (prisma/schema.prisma).
--   Quota/Resolver  src/quota/quota-resolver.service.ts: `resolve`, `period`, `compatibility`.
--   Quota/Tables    src/quota/quota.service.ts: the counter's upsert, the inventory, the queries.
--   Quota/Reserve   the same: `reserve`. Laws says what each path of it answers; Safety, Repeat and
--                   Decided what a caller may rely on.
--   Quota/Commit    the same: `commitReservations`, `releaseReservation`, `thresholds`.
--   Quota/Consume   the same: `consumeEvent`.
--   Quota/Inventory the same: `summaryForTenant`, `synchronizeInventory`; and `reconcile` of
--                   src/quota/usage-reconciliation.service.ts.
--   Quota/Snapshots src/quota/quota-scheduler.service.ts.
--   Quota/Platform  src/quota/platform-quota.service.ts.
--   Sessions/Token  the token and the tenant context in it: `generateRefreshToken`,
--                   `parseTenantContext` of src/auth/refresh-token.service.ts.
--   Sessions/Model  the table of the sessions; Sessions/Service the operations on it, with theorems on
--                   ending sessions (Ending), on the transaction of a rotation (Rotation) and on the
--                   whole rotation (Renewal).
--   Tenant/Model    users, memberships, roles; Tenant/Resolver the resolver's operations; and
--                   Tenant/Permissions the guard.
--   Accounts/Model  the tables of organizations, users, memberships, roles and teams.
--   Accounts/Roles  src/organization-memberships/membership-role-assignment.ts.
--   Accounts/Memberships    src/organization-memberships/organization-memberships.service.ts, with
--                   theorems on owners (Owners) and on the default membership (Defaults).
--   Accounts/Organizations  src/organizations/organizations.service.ts; Provisioning is `provision`,
--                   Lifecycle the diagram of the states as a relation, Keeping what each call does to
--                   the table (Setup for `provision`, Moving for a transition), Histories what any
--                   sequence of calls does, Founding what a provisioning leaves, Activation when an
--                   organization can be made active.
--   Accounts/Users  src/users/users.service.ts: `deactivate`, `activate` over the accounts, the quotas
--                   and the sessions together, with theorems in Activation; Editing has `create`,
--                   `updateUserRole` and `resetPassword`.
--   Accounts/Login  src/auth/auth.service.ts: `login` and its lock, with theorems in Lockout.
--   Accounts/Teams  src/teams/teams.service.ts, and `usersShareTenantTeam` of
--                   src/common/tenant/team-scope.util.ts with a theorem in Sharing.
--   A module Tests of each part holds its concrete runs.
--
-- How the code is modelled. A table is the list of its rows in the order of their creation; an
-- identifier is a number, which the code only compares; `next_id` is the one that the database gives
-- next. An instant is a number of milliseconds since the epoch, an amount (`bigint`) a natural number.
-- The name of an operation is the source's in snake case. An operation takes the time and the random
-- part that the code draws as arguments, and the store, and returns its result or its exception and the
-- store after it; a `$transaction` gives back the old store where its body throws. An advisory lock makes
-- a transaction one step, so interleavings are sequences of operations; the read of a session and the
-- transaction that rotates it are two steps. All loops are structural recursions over lists, so no fuel
-- is needed. Where one call of the code reads the clock several times, the model has one instant.
--
-- Exceptions of the database. An update of one row throws where the row is missing. The upsert of a
-- counter throws where the database refuses the row, by the constraints of
-- prisma/migrations/20260926000000_initial_content_intelligence_foundation/migration.sql on the order of
-- the limits, the period and the organization; the write of an override, by the one on unlimited
-- quotas. Other failures of the database are not modelled, and its numbers have no largest one: the 32
-- bits of a snapshot's percentage and the 64 bits of an amount are taken to be enough.
--
-- Parameters. The digest of a token, the encoding of its payload, the duration of a session and the
-- cache of permissions are arguments; what is relied on of the encoding and of the cache is stated as
-- the records IsFaithful and PermissionCache. bcrypt and the tenant that a login is resolved to are
-- the record Authority.
--
-- Not modelled: the log, the presentation of rows as JSON, the listings of the platform's quotas, the
-- request's headers; the HTTP layer, the audit log's queries, the identity protocols, the listings
-- with their paging, avatars, workspaces and the settings of an organization (the JSON column too).
pub mod Accounts
pub mod Base
pub mod Calendar
pub mod Quota
pub mod Sessions
pub mod Tenant
