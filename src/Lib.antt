-- ===== src/Lib.antt =====
-- Chis delivers webhooks. Its two sides are here, besides two widgets of its site: the dashboard
-- (web/src), a React application in TypeScript that manages the API keys, the webhook logs, the members
-- and the settings of an organization over the HTTP interface of the API; and the services in Go
-- (internal and pkg), which share a database and a queue: the API's accounts, organizations, invitations
-- and keys, and the delivery of messages.
--
-- The parts, from below:
--   Net       web/src/shared/api: a request of `apiRequest`, its headers from `localStorage`, and how
--             its promise settles. Net/LocalStorage is the storage of the browser.
--   Api       the types and the endpoints of web/src/features/*/types and web/src/features/*/api.
--   Session   web/src/shared/context/auth-context.tsx: token and user, in the state and in the storage.
--   Orgs      web/src/shared/context/org-context.tsx: the organizations and the selected one, on top of
--             the session. Orgs/Steps has what the application lets happen to both, in any order, and
--             the reachable states.
--   Effect    the loading effect that the hooks share: an effect whose cleanup sets `cancelled`, and
--             promises that settle in any order.
--   Hooks     web/src/features/dashboard/hooks, each as a loader of Effect with its other operations;
--             WebhookLogs has the three effects of use-webhook-logs.ts in their order.
--   Routes    web/src/router.tsx and the guards of web/src/shared/components.
--   Forms     web/src/features/auth: the submissions of login and registration, and their forms.
--   View      pages as lists of widgets in document order.
--   Pages     web/src/features/dashboard/pages and web/src/features/invite.
--   Parts     web/src/features/dashboard/components.
--   Delivery  internal: the tables and the list of Redis (Delivery, Messages, Queue), the service that
--             takes a message (Service), the worker and the scheduler, each with every outcome of its
--             calls (Worker, Scheduler), any number of them side by side as a step relation (Cluster,
--             which Loops relates to the whole loops), the request that brings a message (Intake) and
--             its counting (RateLimit), the text that is signed (Signature), and what the API shows of
--             messages (Logs, Stats).
--   Access    internal/middleware and internal/router: the guards of the API's routes, and the headers
--             of Net at them.
--   Accounts  internal/handler, internal/repository and pkg: the tables of users, organizations,
--             memberships and invitations with their constraints (Queries), the handlers of the
--             invitations for the admins (Invitations) and for the invited user (Answers), of
--             registration and login (Auth), of organizations and their slugs (Organizations), and of
--             keys (Keys), the requests behind the guards and their sequences (Requests), the changes
--             that a request may make, each with what justifies it (Steps), and what becomes of errors
--             (Validation, Errors).
--   Marketing marketing/src/components: the snippets of CodeTabs.tsx and VerifyTabs.tsx, a module for
--             each, and what both components do with them.
--   Base      the array methods, the texts and the tests that the others share.
--   Tests     concrete inputs.
--
-- Names are the source's in snake_case: `switchOrg` is `switch_org`. A setter writes its field of the
-- state; an asynchronous handler is cut at its `await`, `x_begin` before it (with the request, if it
-- may send none) and `x_settled` after it, at the settled promise (`Settled`: `fulfilled`, or
-- `rejected` with what was thrown). The promise settles in whatever state holds by then. `null` and
-- `undefined` are `none`; a text counts as true when it is not empty (`truthy`).
--
-- Parameters, for what is not in the repository: `fetch`, `JSON.parse` and `JSON.stringify` (at
-- users: what is written is read back, and is not empty), `encodeURIComponent`, the parsing of URLs
-- and the matching of paths by react-router (Routes/Paths), and the printing of numbers and dates. In
-- Go: uuid.Parse, strconv.Atoi and ILIKE as tests of texts, jwt.Parse, which looks at the expiry, and
-- SignedString, bcrypt, strings.ToLower, the digest of a key and of a signature, the random part of
-- keys, tokens and secrets, the check of a method and an address by net/http, what the validator
-- reports, and what Postgres, Redis and the receiver answer, which is an argument of each operation
-- (`Calls`, `Outcome`). Rows are in the order of their creation, and a statement that fails has
-- changed nothing.
--
-- Bounds: numbers are natural numbers, since those of the program are status codes, pages and counts;
-- the statistics and JSON values have a type of their own that nothing is assumed of. The product of a
-- backoff and the offset of a page of logs wrap at 64 bits, times do not. No definition runs on fuel
-- but `visit`, which follows redirects: 3 is enough, as `visit_ends` states. A commit of
-- use-webhook-logs.ts sets state at most once more, so two commits follow an event.
--
-- Not modelled: class names, icons and layout; the components of web/src/components/ui, which are copies
-- of a library's; the start of the services, their settings, logging, metrics and the e-mail service,
-- which are input and output alone; what the deletion of an organization deletes of messages and keys;
-- the pages of the marketing site.
mod Base
pub mod Net
pub mod Api
pub mod Session
pub mod Orgs
pub mod Effect
pub mod Hooks
pub mod Routes
pub mod Forms
pub mod View
pub mod Pages
pub mod Parts
pub mod Delivery
pub mod Marketing
pub mod Access
pub mod Accounts
mod Tests
