-- ===== src/Lib.antt =====
-- docs-pe looks up Peruvian identity documents at public sites through rented proxies. The
-- package packages/core has the lookup of one document, packages/cli runs a file of documents
-- on one machine, and packages/portal is a web portal that queues the same lookups for a fleet
-- of workers. This library models their logic and proves what makes it correct.
--
-- Common.antt has what the modules share: tests on numbers, lists, texts as code points,
-- database tables as lists of rows (Common/Table), dictionaries as association lists
-- (Common/Dict), chains of steps that may fail (Common/Maybe), and Python's character classes
-- as a parameter (Common/Unicode).
--
-- packages/core. Core/Doc.antt is `Doc` of packages/core/core/domain/types.py and
-- Core/Types.antt the other values of that file. Core/Breaker.antt is
-- packages/core/core/pipeline/breaker.py: the fields of `CircuitBreaker` and one function for
-- each method. Core/Policy.antt is errors.py, policy.py and transport.py of
-- packages/core/core/domain. Core/Session.antt is packages/core/core/pipeline/session.py and
-- Core/Fetch.antt is packages/core/core/pipeline/fetch.py: the loop of `fetch_one` with a
-- `Reply` for each attempt, whose wait in `acquire` is the time that passes before it, and
-- which tells how the session opens and closes, what the site gives, what the clocks read and
-- what the other lanes tell the shared breaker meanwhile. The loop runs on fuel: four rounds,
-- which is MAX_ATTEMPTS, are enough, as fetch_one-IsComplete shows.
--
-- packages/cli. Cli/Store.antt is packages/cli/cli/store/outcomes.py, the table of outcomes and
-- its upserts; Cli/Plan.antt is packages/cli/cli/store/plan.py on rows of fields;
-- Cli/Worker.antt is packages/cli/cli/pipeline/worker.py, a lane that takes documents off a
-- queue, calls `fetch_one` and writes its result.
--
-- packages/portal. Portal/Breakers.antt is packages/portal/portal/repository/breakers.py, the
-- table that plays the part of the breaker across machines. Portal/Ephemeral.antt is
-- packages/portal/portal/ephemeral.py, a table of values that expire, on which
-- Portal/Throttle.antt (application/throttle.py) and Portal/Sessions.antt
-- (application/sessions.py) stand. Portal/Slots.antt is repository/slots.py. Portal/Queue.antt
-- and its children are repository/jobs.py with the states of domain/models.py: Queue/Finish the
-- gate, promotion, the outbox and the drain of a job, Queue/Lease the sweep and the claim,
-- Queue/Publish the fenced write, Queue/Admit submission and cancellation, and
-- Queue/Constraints what the migration checks of the rows that a submission and a publication
-- write; the tables of teams, users, credentials and objects are told by `References`.
-- Portal/Planning.antt is domain/planning.py, which turns the lines of an input into the items
-- of a submission.
--
-- Portal/Accounts.antt has the tables of accounts and teams of
-- packages/portal/portal/migrations/001_portal.sql, with the deferred triggers as checks that a
-- transaction makes when it commits; Accounts/Auth is repository/auth.py, Accounts/Teams is
-- repository/teams.py, and Accounts/Transactions lists their writes, so that any interleaving
-- of requests is a list. Portal/Provisioning.antt and its children are application/access.py
-- and application/provisioning.py, which call them: Provisioning/Users the operations of
-- administrators that write, Provisioning/Reads what they read, Provisioning/Enrolment TOTP and
-- passkeys, Provisioning/Members members and invitations, Provisioning/Slugs the search for a
-- free address, whose fuel is the number of teams and two more. Portal/Login.antt is
-- application/login.py over the accounts, the sessions and the throttle. A service call is a
-- chain of transactions; an error ends it, and what was committed before stays. Nothing else
-- runs between the transactions of one call of these two files.
--
-- Core/Osiptel.antt is packages/core/core/sites/osiptel: parser.py over JSON values,
-- payload.py, and `_fetch_page` of site.py on what the site answers. Core/Osiptel/Paging is the
-- loop of `_lookup` and `_counts`, Core/Osiptel/Ready the wait of `_ready`. The loop runs on
-- fuel; one unit more than the most lines that a page promises is enough, since each page that
-- is not the last brings a line. Core/Proxy.antt is packages/core/core/proxy/base.py, the
-- reading of settings; Core/Proxy/Geonode and Core/Proxy/DataImpulse are the two providers.
--
-- Portal/Credentials.antt is packages/portal/portal/repository/credentials.py, the connections
-- of a team and their versions, with the constraints of the migration that its statements can
-- meet. Portal/Workers.antt is repository/workers.py: the identities of workers and their login
-- roles.
--
-- A database transaction is a function of the tables; the order of a list of calls is the order
-- in which the row locks let them commit. A transaction that raises is `none` and leaves the
-- tables alone. Generated ids and every reading of a clock are arguments. Times and durations
-- are natural numbers of one unit. SQL and Python integers are the natural numbers; bigint
-- overflow is out of the range of the counters.
--
-- Parameters: Unicode classes, SHA-256, Argon2, TOTP, WebAuthn, the human check, JSON, UUIDs,
-- decimal texts, `str.upper` and `str.isalpha`, the users of sessions, and the provider of a
-- credential version. Not modelled: HTTP, HTML and mail, object storage, cryptography, logging,
-- task cancellation, an exception of the callback of a breaker, the overflow of power(2, level)
-- in the table of breakers, `claim_many`, the other read-only queries of the portal, the
-- configuration of proxies in provisioning, the metadata of audit events, the registry of
-- sites, the proxy transport, import and export, the browser and capture packages, deployment.
pub mod Common
pub mod Core
pub mod Cli
pub mod Portal
