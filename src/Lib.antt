-- ===== src/Lib.antt =====
-- The booking service of app/ (SkyLock): seats that many clients contend for, held for a while and then booked.
--
-- Files and what they model, by paths from the repository's root:
--   Prelude, Prelude/Tests, Prelude/Rows: shared names, SQL's comparisons of nullable columns, and a table as
--     a list of rows with SELECT, UPDATE ... WHERE, DELETE and count.
--   Config: the settings of app/config.py that the services read.
--   Errors: the exceptions of app/errors.py and their status codes.
--   Domain/Enums, Models, States and Pnr: app/domain/enums.py, models.py, states.py and pnr.py.
--   Holds: app/services/holds.py and app/jobs/sweep.py, one function for each statement on seat_inventory.
--     Holds/Outcomes, Race, Schema, Sweep and Release prove what the statements do; Holds/Tests has inputs.
--   Audit: app/services/audit.py; Audit/Gapless proves its sequence numbers.
--   Payments, Payments/Triggers, Payments/Fake: app/services/payments (the protocol as a record of operations, and the
--     in-process gateway that implements it) and app/services/demo_triggers.py; Payments/Idempotence has the proofs.
--   Saga: run of app/services/booking_saga.py, over Saga/Session (the database session and the gateway),
--     Saga/Begin (step 1), Saga/Ticketing (_issue_tickets) and Saga/Unwind (_fail_payment, _compensate, cancel).
--     Saga/Beginning, Charge, Verified, Recheck, Reversal and Cancelling prove what these leave, Saga/Steps how each
--     step ends, Saga/Ending, Standing and Settling how a whole run does and Saga/Clash what no step catches. Saga/Oversell (Tables, Issue,
--     Pinning, Payment, Run, Others) is about tickets against seats, Saga/Journal (Entries, Beginning, Tickets,
--     Compensation, Payment, Run) about the journal against the bookings. Saga/Locking (Order, Progress) has the row
--     locks of the three SELECT ... FOR UPDATE on seats. Saga/Guarded is run with Carding around the charge, Saga/Ordering
--     has the sorts; Saga/Sample and the files named Tests have inputs.
--   Idempotency: app/services/idempotency.py; Idempotency/Replays has the proofs.
--   Tokens: the refresh tokens of app/security/tokens.py; Tokens/Reuse has the proofs.
--   Redis: the commands that app/security sends, and what Redis documents of them; Redis/Decimal prints numbers, and
--     Redis/Touch has the pipeline of the windows.
--   RateLimit: app/security/ratelimit.py; RateLimit/Sliding has the proofs.
--   Carding: app/security/carding.py, its rules and score, and in Carding/Windows its windows and calls. Carding/Scoring, Burst
--     and Flagging have the proofs.
--   Accounts: app/api/auth.py with app/security/hashing.py, and in Accounts/Access the access tokens of
--     app/security/tokens.py and app/deps.py. Accounts/Lockout and Sessions have the proofs.
--   Authz: app/security/authz.py; Authz/Hiding and Finding have the proofs.
--   Bookings: app/api/bookings.py, around Saga and Idempotency; Bookings/Replay, Amend and Pages have the proofs.
--   Paging: the pages of app/schemas/common.py and a client that reads them all.
--   Flights: app/api/flights.py; Flights/SeatMap and Search have the proofs.
--   HoldRoutes: app/api/holds.py, around Holds and Authz; HoldRoutes/Listing and Deleting have the proofs.
--   Admin: app/api/admin.py; Admin/Cursor has the proofs.
--   Dashboard: app/api/dashboard.py, the data of its pages; Dashboard/Agreement has the proofs.
--
-- The saga calls Holds.release_seats_for_booking, the journal and the gateway's protocol, as the code does. A call of
-- the saga is a function on the session: the tables as it sees them, the tables as last committed, and the gateway; it
-- returns or raises, and what it wrote before a raise stays in the session until a commit or a rollback.
-- _unique_pnr makes six attempts, as the code does, and answers no_unique_pnr after them; the loop of Redis.Decimal
-- has one round for each unit of the number, more than its digits.
--
-- A UUID is a number, a text the list of its code points, a time a number of microseconds, and an amount a number of
-- cents. One UPDATE is one step: PostgreSQL's row locks make concurrent statements on a row take effect one after
-- another, so a race is a list of attempts in the order in which they get the lock; in Saga/Locking a transaction
-- takes its locks one by one, in the order of its statement, and holds them until it commits. The clock (now() and
-- datetime.now) and the ids that uuid4 draws are arguments. Unique keys of the tables are hypotheses where they matter.
--
-- Redis, Argon2, PyJWT and secrets.choice are not of the repository: they are parameters (Redis.Redis,
-- Accounts.Hasher, Accounts.Access.Jwt, and an argument of Domain/Pnr), and Redis.IsUp, Accounts.Access.IsJwt,
-- Domain.Pnr.IsChoice and a hypothesis on Hasher state what their documentation promises. Redis counts
-- milliseconds, and its key's expiry is read on the clock of the service.
--
-- The decision of the fraud rules is an argument of run, and guarded_run has Carding compute it; what other sessions commit
-- between the charge and the tickets is an argument too. That is the one place where others may write while a run is under
-- way: the gaps after step 1 and inside _compensate are closed, and so is a login, from its read of the account to its
-- commit. The session keeps its objects over a commit (app/db.py, expire_on_commit=False), so that the SELECT with which
-- _issue_tickets begins hands back the seats as step 1 left them, and its UPDATE writes the columns that have changed on
-- these objects; elsewhere a SELECT reads the rows as they stand. The response's JSON is left out, and so are the
-- security events but those of Carding, Accounts and Authz.
--
-- Not modelled: request parsing, HTML, the network,
-- logging, migrations, seeding and load scripts.
pub mod Prelude
pub mod Config
pub mod Errors
pub mod Domain
pub mod Holds
pub mod Audit
pub mod Payments
pub mod Saga
pub mod Idempotency
pub mod Tokens
pub mod Redis
pub mod RateLimit
pub mod Carding
pub mod Accounts
pub mod Authz
pub mod Paging
pub mod Bookings
pub mod Flights
pub mod HoldRoutes
pub mod Admin
pub mod Dashboard
